-- ===== src/Job/Attempts.antt =====
-- The row of one job through a history of calls of `JobService`, and its attempts.
use mathlib.Core.Option.{some-injective}
use certman.Base.{
  ℕ, suc, ◌+◌, String, ◌≡◌, refl, sym, ap, ◌∙◌, Bool, true, false, Option, none, some, List, [],
  ◌∷◌, ◌++◌, ◌==◌, Memᴰ, All-mem, any, find?_sound, if◌then◌else◌, Option-cases, Bool-cases, inl,
  inr, filter, arith, eq_iff, str_refl,
}
use certman.Job.Table.{Job, get_row, clashes, insert, key_taken, replace, save}
use certman.Job.Service.{
  create_job, enqueue_unique_job, claim_next_job, update_status, new_job, oldest, eligible, claimed,
}
use certman.Job.Queue.{oldest-filter}
use certman.Job.Update.{updated, get_row-replace_self, get_row-replace_ne}
use certman.Job.Unique.{IsUnique}
use certman.Job.History.{
  Call, create, enqueue, claim, update, after, claim_result, handed, run, then-state,
  enqueued-state, after-IsUnique,
}
use certman.Job.Once.{push, handed_out}

-- The second row is the same job: what was asked for, when, and who holds it once somebody does.
abbrev pub IsSameJob : Job → Job → Type 0
IsSameJob j k =
    (k.job_id ≡ j.job_id)
    × (k.job_type ≡ j.job_type)
    × (k.subject_id ≡ j.subject_id)
    × (k.target_type ≡ j.target_type)
    × (k.target_scope ≡ j.target_scope)
    × (k.created_at ≡ j.created_at)
    × ((node : String) → j.node_id ≡ some node → k.node_id ≡ some node)

-- how many of the jobs have the identifier
abbrev pub times : String → List Job → ℕ
times id [] = 0
times id (j ∷ js) = if j.job_id == id then suc (times id js) else times id js

same_job : (j : Job) → IsSameJob j j
same_job j = (refl, refl, refl, refl, refl, refl, λ node e. e)

IsSameJob-trans : (i j k : Job) → IsSameJob i j → IsSameJob j k → IsSameJob i k
IsSameJob-trans i j k (a, b, c, d, e, f, g) (a', b', c', d', e', f', g') =
    (a' ∙ a, b' ∙ b, c' ∙ c, d' ∙ d, e' ∙ e, f' ∙ f, λ node h. g' node (g node h))

unique_row : (db : List Job) (k : Job) → IsUnique db → Memᴰ k db → get_row k.job_id db ≡ some k
unfolding clashes
unique_row [] k u m = elim m [ ]
unique_row (x ∷ xs) k u (Memᴰ.head e) = rw (← e) (rw (str_refl k.job_id) refl)
unique_row (x ∷ xs) k u (Memᴰ.tail m) =
    let apart = All-mem (λ y. clashes x y ≡ false) xs u.0 m in ground (arith, unique_row xs k u.1 m)

insert_keeps :
    (id : String) (x j : Job) (db : List Job)
    → get_row id db ≡ some j
    → get_row id (insert x db).1 ≡ some j
unfolding insert
insert_keeps id x j db h = elim (Bool-cases (any (clashes x) db)) [
  | inl taken ↦ rw taken h
  | inr free ↦ rw free (appended db h)
]
  where
    appended : (db : List Job) → get_row id db ≡ some j → get_row id (db ++ x ∷ []) ≡ some j
    appended [] h = absurd (ground arith)
    appended (k ∷ ks) h = ground (arith, appended ks)

module _ (id : String) where
  -- The job is there after the call, with one more attempt if the call has handed it out.
  abbrev IsKept : Job → Option Job → List Job → Type 0
  IsKept j o db =
      (k : Job) × (get_row id db ≡ some k)
      × IsSameJob j k
      × (k.attempts ≡ j.attempts + times id (push o []))

  unchanged : (j : Job) (db : List Job) → get_row id db ≡ some j → IsKept j none db
  unfolding push
  unchanged j db h = (j, h, same_job j, omega arith)

  claim_free :
      (d : Option String) (n : ℕ) (j k : Job) (db : List Job)
      → IsUnique db
      → get_row id db ≡ some j
      → Memᴰ k db
      → IsKept j (some (claimed d n k)) (replace (claimed d n k) db)
  unfolding claimed push
  claim_free d n j k db u h m = elim (Bool-cases (k.job_id == id)) [
    | inl e ↦
        let own : k.job_id ≡ id = (eq_iff k.job_id id).0 e in
        let there = unique_row db k u m in
        let same : k ≡ j = some-injective k j (sym there ∙ ap (λ i. get_row i db) own ∙ h) in
        (
          claimed d n k,
          ap (λ i. get_row i (replace (claimed d n k) db)) (sym own)
              ∙ get_row-replace_self (claimed d n k) db (λ q. ground (arith, there, q)),
          rw (← same) (refl, refl, refl, refl, refl, refl, λ node q. ground arith),
          rw (← same) (rw e (omega arith)),
        )
    | inr e ↦ (j, get_row-replace_ne (claimed d n k) id db e ∙ h, same_job j, rw e (omega arith))
  ]

  module _ (d : Option String) (v : Bool) (c : Option String) (n : ℕ) (db : List Job) where
    claim_idles :
        oldest (filter (eligible d v c) db) ≡ none
        → (after (claim d v c n) db ≡ db) × (handed (claim d v c n) db ≡ none)
    unfolding after handed claim_next_job claim_result
    claim_idles e = (ground arith, ground arith)

    claim_refused :
        (k : Job)
        → oldest (filter (eligible d v c) db) ≡ some k
        → key_taken (claimed d n k) db ≡ true
        → (after (claim d v c n) db ≡ db) × (handed (claim d v c n) db ≡ none)
    unfolding after handed claim_next_job save claim_result
    claim_refused k e taken = (ground arith, ground arith)

    claim_hands :
        (k : Job)
        → oldest (filter (eligible d v c) db) ≡ some k
        → key_taken (claimed d n k) db ≡ false
        → (after (claim d v c n) db ≡ replace (claimed d n k) db)
          × (handed (claim d v c n) db ≡ some (claimed d n k))
    unfolding after handed claim_next_job save claim_result
    claim_hands k e free = (ground arith, ground arith)

    claim-IsKept :
        (j : Job)
        → IsUnique db
        → get_row id db ≡ some j
        → IsKept j (handed (claim d v c n) db) (after (claim d v c n) db)
    claim-IsKept j u h = elim (Option-cases (oldest (filter (eligible d v c) db))) [
      | inl e ↦ let (x, y) = claim_idles e in rw (x, y) (unchanged j db h)
      | inr (k, e) ↦ elim (Bool-cases (key_taken (claimed d n k) db)) [
        | inl taken ↦ let (x, y) = claim_refused k e taken in rw (x, y) (unchanged j db h)
        | inr free ↦
            let (x, y) = claim_hands k e free in
            rw (x, y) (claim_free d n j k db u h (oldest-filter (eligible d v c) db k e).0)
      ]
    ]

  update_free :
      (i s : String) (r e : Option String) (n : ℕ) (j k : Job) (db : List Job)
      → get_row id db ≡ some j
      → get_row i db ≡ some k
      → IsKept j none (replace (updated i s r e n k) db)
  unfolding push
  update_free i s r e n j k db h f =
      let k_id : k.job_id ≡ i = (eq_iff k.job_id i).0 (find?_sound (λ x. x.job_id == i) db k f) in
      elim (Bool-cases (k.job_id == id)) [
        | inl q ↦
            let own : k.job_id ≡ id = (eq_iff k.job_id id).0 q in
            let there : get_row k.job_id db ≡ some k = ap (λ x. get_row x db) k_id ∙ f in
            let same : k ≡ j = some-injective k j (sym there ∙ ap (λ x. get_row x db) own ∙ h) in
            (
              updated i s r e n k,
              ap (λ x. get_row x (replace (updated i s r e n k) db)) (sym own)
                  ∙ get_row-replace_self (updated i s r e n k) db (λ x. ground (arith, there, x)),
              rw (← same) (refl, refl, refl, refl, refl, refl, λ node x. x),
              rw (← same) (omega arith),
            )
        | inr q ↦ (j, get_row-replace_ne (updated i s r e n k) id db q ∙ h, same_job j, omega arith)
      ]

  module _ (i s : String) (r e : Option String) (n : ℕ) (db : List Job) where
    update_misses : get_row i db ≡ none → after (update i s r e n) db ≡ db
    unfolding after update_status
    update_misses f = ground arith

    update_clashes :
        (k : Job)
        → get_row i db ≡ some k
        → key_taken (updated i s r e n k) db ≡ true
        → after (update i s r e n) db ≡ db
    unfolding after update_status save
    update_clashes k f taken = ground arith

    update_saves :
        (k : Job)
        → get_row i db ≡ some k
        → key_taken (updated i s r e n k) db ≡ false
        → after (update i s r e n) db ≡ replace (updated i s r e n k) db
    unfolding after update_status save
    update_saves k f free = ground arith

    update-IsKept : (j : Job) → get_row id db ≡ some j → IsKept j none (after (update i s r e n) db)
    update-IsKept j h = elim (Option-cases (get_row i db)) [
      | inl f ↦ rw (update_misses f) (unchanged j db h)
      | inr (k, f) ↦ elim (Bool-cases (key_taken (updated i s r e n k) db)) [
        | inl taken ↦ rw (update_clashes k f taken) (unchanged j db h)
        | inr free ↦ rw (update_saves k f free) (update_free i s r e n j k db h f)
      ]
    ]

  create-IsKept :
      (i : String) (n : ℕ) (t s : String) (d : Option String) (y : String) (c : Option String)
      (j : Job) (db : List Job)
      → get_row id db ≡ some j
      → IsKept j none (after (create i n t s d y c) db)
  unfolding after create_job
  create-IsKept i n t s d y c j db h =
      rw (then-state (insert (new_job i n t s d y c)) (new_job i n t s d y c) db)
        (unchanged j _ (insert_keeps id (new_job i n t s d y c) j db h))

  enqueue-IsKept :
      (i : String) (n : ℕ) (t s : String) (d : Option String) (y : String) (c : Option String)
      (j : Job) (db : List Job)
      → get_row id db ≡ some j
      → IsKept j none (after (enqueue i n t s d y c) db)
  unfolding after enqueue_unique_job
  enqueue-IsKept i n t s d y c j db h =
      rw (enqueued-state (new_job i n t s d y c) (insert (new_job i n t s d y c) db))
        (unchanged j _ (insert_keeps id (new_job i n t s d y c) j db h))

  after-IsKept :
      (call : Call) (j : Job) (db : List Job)
      → IsUnique db
      → get_row id db ≡ some j
      → IsKept j (handed call db) (after call db)
  unfolding handed
  after-IsKept (create i n t s d y c) j db u h = create-IsKept i n t s d y c j db h
  after-IsKept (enqueue i n t s d y c) j db u h = enqueue-IsKept i n t s d y c j db h
  after-IsKept (claim d v c n) j db u h = claim-IsKept d v c n db j u h
  after-IsKept (update i s r e n) j db u h = update-IsKept i s r e n db j h

  times-push :
      (o : Option Job) (js : List Job) → times id (push o js) ≡ times id (push o []) + times id js
  unfolding push
  times-push none js = omega arith
  times-push (some j) js = ground arith

  -- After any sequence of calls on a table that meets the unique constraints, a job that was there is
  -- still there with its type, subject, target and creation time, held by the node that held it, if one
  -- did, and its attempts have grown by exactly the number of times that the calls have handed it out.
  -- The constraints hold afterwards.
  pub run_keeps :
      (cs : List Call) (j : Job) (db : List Job)
      → IsUnique db
      → get_row id db ≡ some j
      → IsUnique (run cs db)
        × ((k : Job) × (get_row id (run cs db) ≡ some k)
            × IsSameJob j k
            × (k.attempts ≡ j.attempts + times id (handed_out cs db)))
  unfolding run handed_out
  run_keeps [] j db u h = (u, (j, h, same_job j, omega arith))
  run_keeps (c ∷ cs) j db u h =
      let (k, there, same, count) = after-IsKept c j db u h in
      let (v, (l, there', same', count')) =
        run_keeps cs k (after c db) (after-IsUnique c db u) there in
      (
        v,
        (
          l,
          there',
          IsSameJob-trans j k l same same',
          omega (arith, times-push (handed c db) (handed_out cs (after c db))),
        ),
      )
