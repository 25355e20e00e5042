-- ===== src/Job/History.antt =====
-- Histories of calls of `JobService`, what each call writes, and the unique constraints after it.
use certman.Base.{
  ℕ, String, ◌≡◌, refl, Bool, true, Option, none, some, List, [], ◌∷◌, Memᴰ, ◌==◌, inl, inr, Result,
  ok, err, arith, eq_iff, Exec, ◌>>◌, pure, filter, Option-cases, mem_of_find?,
}
use certman.Job.Update.{updated}
use certman.Job.Table.{Job, DbError, integrity_error, get_row, insert, save}
use certman.Job.Service.{
  create_job, enqueue_unique_job, update_status, claim_next_job, oldest, new_job, enqueued,
  eligible, claimed,
}
use certman.Job.Queue.{oldest-filter}
use certman.Job.Unique.{IsUnique, insert-IsUnique, save-IsUnique}

-- A call that writes the table, with its arguments, the identifier that it draws and its time.
pub data Call : Type 0 where
  create enqueue : String → ℕ → String → String → Option String → String → Option String → Call
  claim : Option String → Bool → Option String → ℕ → Call
  update : String → String → Option String → Option String → ℕ → Call

-- the table after the call, whether it returned or raised
unfoldable pub after : Call → List Job → List Job
after (create i n t s d y c) db = (create_job i n t s d y c db).1
after (enqueue i n t s d y c) db = (enqueue_unique_job i n t s d y c db).1
after (claim d u c n) db = (claim_next_job d u c n db).1
after (update i s r e n) db = (update_status i s r e n db).1

unfoldable pub claim_result : Result DbError (Option Job) → Option Job
claim_result (ok o) = o
claim_result (err _) = none

-- the job that the call hands out
unfoldable pub handed : Call → List Job → Option Job
unfolding claim_result
handed (claim d u c n) db = claim_result (claim_next_job d u c n db).0
handed _ db = none

unfoldable pub run : List Call → List Job → List Job
run [] db = db
run (c ∷ cs) db = run cs (after c db)

-- The row that an UPDATE writes is queued only if the call is an update to that status.
abbrev pub NotRequeued : Call → Job → Job → Type 0
NotRequeued (update i s r e n) k j = (k.job_id ≡ i) × (j.status ≡ s)
NotRequeued c k j = (k.status ≡ "queued") × (j.status ≡ "running")

-- A call leaves the table alone, or it makes one INSERT of a queued row, or one UPDATE of a row.
pub data Written (c : Call) (db : List Job) : Type 0 where
  nothing : after c db ≡ db → Written c db
  inserted : (j : Job) → after c db ≡ (insert j db).1 → Written c db
  saved :
      (j k : Job)
      → Memᴰ k db
      → j.job_id ≡ k.job_id
      → NotRequeued c k j
      → after c db ≡ (save j db).1
      → Written c db

module _ {A : Type 0} where
  pub then-state :
      (m : Exec (List Job) DbError (Unit {0})) (a : A) (db : List Job)
      → ((m >> pure a) db).1 ≡ (m db).1
  then-state m a db = ground arith

pub enqueued-state :
    (job : Job) (p : Result DbError (Unit {0}) × List Job) → (enqueued job p).1 ≡ p.1
unfolding enqueued
enqueued-state job (ok u, db) = refl
enqueued-state job (err integrity_error, db) = ground arith

pub eligible_queued :
    (d : Option String) (v : Bool) (c : Option String) (j : Job)
    → eligible d v c j ≡ true
    → j.status ≡ "queued"
unfolding eligible
eligible_queued d v c j q = ground (arith, eq_iff j.status "queued")

pub Written-by : (c : Call) (db : List Job) → Written c db
unfolding after create_job enqueue_unique_job claim_next_job update_status
Written-by (create i n t s d y c) db =
    inserted (new_job i n t s d y c) (then-state (insert (new_job i n t s d y c)) _ db)
Written-by (enqueue i n t s d y c) db =
    inserted (new_job i n t s d y c) (enqueued-state _ (insert (new_job i n t s d y c) db))
Written-by (claim d v c n) db = elim (Option-cases (oldest (filter (eligible d v c) db))) [
  | inl e ↦ nothing (ground arith)
  | inr (j, e) ↦
      let (m, q, _) = oldest-filter (eligible d v c) db j e in
      saved (claimed d n j) j m refl (eligible_queued d v c j q, refl)
        (ground (arith, then-state (save (claimed d n j)) (some (claimed d n j)) db))
]
Written-by (update i s r e n) db = elim (Option-cases (get_row i db)) [
  | inl x ↦ nothing (ground arith)
  | inr (j, x) ↦
      let (m, q) = mem_of_find? (λ k. k.job_id == i) db j x in
      let j' = updated i s r e n j in
      saved j' j m refl ((eq_iff j.job_id i).0 q, refl)
        (ground (arith, then-state (save j') (some j') db))
]

-- Every call keeps the unique constraints.
pub after-IsUnique : (c : Call) (db : List Job) → IsUnique db → IsUnique (after c db)
after-IsUnique c db u = elim (Written-by c db) [
  | nothing e ↦ rw e u
  | inserted j e ↦ rw e (insert-IsUnique j db u)
  | saved j k m i q e ↦ rw e (save-IsUnique j db u)
]
