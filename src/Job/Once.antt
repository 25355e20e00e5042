-- ===== src/Job/Once.antt =====
-- The jobs that a history of calls of `JobService` hands out.
use certman.Base.{
  ℕ, String, ◌≡◌, ◌≢◌, refl, Bool, true, false, Option, none, some, List, [], ◌∷◌, ◌++◌, Memᴰ, ◌==◌,
  any, All, All-append, All-mem, Bool-cases, inl, inr, Result, ok, err, arith, eq_iff, sym, ap, ◌∙◌,
  str_refl,
}
use certman.Job.Table.{Job, DbError, clashes, insert, key_taken, replace, save}
use certman.Job.Service.{claim_next_job, claimed}
use certman.Job.Claim.{claim_writes}
use certman.Job.History.{
  Call, create, claim, update, after, claim_result, handed, NotRequeued, nothing, inserted, saved,
  eligible_queued, Written-by,
}

-- The row `id` is there and is not queued.
pub record IsSettled (id : String) (db : List Job) : Type 0 where
  pub present : any (λ j. j.job_id == id) db ≡ true
  pub out : All (λ j. j.job_id ≡ id → j.status ≢ "queued") db

fresh_of_clear :
    (j : Job) (id : String) (db : List Job)
    → any (clashes j) db ≡ false
    → any (λ k. k.job_id == id) db ≡ true
    → j.job_id ≢ id
unfolding clashes
fresh_of_clear j id [] c p e = ground arith
fresh_of_clear j id (k ∷ ks) c p e = ground (
  arith,
  fresh_of_clear j id ks,
  eq_iff j.job_id k.job_id,
  eq_iff k.job_id id,
  eq_iff j.job_id id,
)

any-append :
    (p : Job → Bool) (xs : List Job) (j : Job) → any p xs ≡ true → any p (xs ++ j ∷ []) ≡ true
any-append p [] j h = ground arith
any-append p (x ∷ xs) j h = ground (arith, any-append p xs j)

insert-IsSettled :
    (id : String) (j : Job) (db : List Job) → IsSettled id db → IsSettled id (insert j db).1
unfolding insert
insert-IsSettled id j db s = elim (Bool-cases (any (clashes j) db)) [
  | inl taken ↦ rw taken s
  | inr free ↦ rw free (record {
    present = any-append (λ k. k.job_id == id) db j s.present;
    out =
        All-append (λ k. k.job_id ≡ id → k.status ≢ "queued") db (j ∷ []) s.out
          ((λ e. absurd (fresh_of_clear j id db free s.present e)), tt);
  })
]

any-replace :
    (j : Job) (id : String) (db : List Job)
    → any (λ k. k.job_id == id) db ≡ true
    → any (λ k. k.job_id == id) (replace j db) ≡ true
unfolding replace
any-replace j id [] h = h
any-replace j id (k ∷ ks) h =
    ground
      (arith, any-replace j id ks, eq_iff k.job_id id, eq_iff j.job_id id, eq_iff k.job_id j.job_id)

All-replace : (P : Job → Type 0) (j : Job) (db : List Job) → P j → All P db → All P (replace j db)
unfolding replace
All-replace P j [] p h = tt
All-replace P j (k ∷ ks) p h = elim (Bool-cases (k.job_id == j.job_id)) [
  | inl e ↦ rw e (p, All-replace P j ks p h.1)
  | inr e ↦ rw e (h.0, All-replace P j ks p h.1)
]

save-IsSettled :
    (id : String) (j : Job) (db : List Job)
    → (j.job_id ≡ id → j.status ≢ "queued")
    → IsSettled id db
    → IsSettled id (save j db).1
unfolding save
save-IsSettled id j db q s = elim (Bool-cases (key_taken j db)) [
  | inl taken ↦ rw taken s
  | inr free ↦ rw free (record {
    present = any-replace j id db s.present;
    out = All-replace (λ k. k.job_id ≡ id → k.status ≢ "queued") j db q s.out;
  })
]

-- The call does not put the job `id` back into the queue.
abbrev pub Respects : String → Call → Type 0
Respects id (update i s r e n) = i ≡ id → s ≢ "queued"
Respects id c = Unit

running-ne-queued : (s : String) → s ≡ "running" → s ≢ "queued"
running-ne-queued s e q = ground (arith, eq_iff "running" "queued")

kept_out :
    (id : String) (c : Call) (k j : Job) (db : List Job)
    → Respects id c
    → IsSettled id db
    → Memᴰ k db
    → NotRequeued c k j
    → j.job_id ≡ k.job_id
    → j.job_id ≡ id
    → j.status ≢ "queued"
kept_out id (update i s r e n) k j db ok_call st m (a, b) p q = rw b (ok_call (sym a ∙ sym p ∙ q))
kept_out id (create i n t s d y c) k j db ok_call st m (a, b) p q = running-ne-queued _ b
kept_out id _ k j db ok_call st m (a, b) p q = running-ne-queued _ b

after-IsSettled :
    (id : String) (c : Call) (db : List Job)
    → Respects id c
    → IsSettled id db
    → IsSettled id (after c db)
after-IsSettled id c db r s = elim (Written-by c db) [
  | nothing e ↦ rw e s
  | inserted j e ↦ rw e (insert-IsSettled id j db s)
  | saved j k m i q e ↦ rw e (save-IsSettled id j db (kept_out id c k j db r s m q i) s)
]

result_some :
    (p : Result DbError (Option Job) × List Job) (j : Job)
    → claim_result p.0 ≡ some j
    → p ≡ (ok (some j), p.1)
unfolding claim_result
result_some (ok (some k), db) j h = ground arith
result_some (ok none, db) j h = ground arith
result_some (err e, db) j h = ground arith

handed-ne :
    (id : String) (c : Call) (db : List Job) (j : Job)
    → IsSettled id db
    → handed c db ≡ some j
    → j.job_id ≢ id
unfolding handed claimed
handed-ne id (claim d u c n) db j s h e =
    let (k, (m, q, _), f, _) = claim_writes d u c n db _ j (result_some _ j h) in
    All-mem (λ x. x.job_id ≡ id → x.status ≢ "queued") db s.out m
      (sym (ap (λ (x : Job). x.job_id) f) ∙ e) (eligible_queued d u c k q)
handed-ne id _ db j s h e = ground arith

unfoldable pub push : Option Job → List Job → List Job
push none js = js
push (some j) js = j ∷ js

-- the jobs handed out by a history, in order
unfoldable pub handed_out : List Call → List Job → List Job
unfolding push
handed_out [] db = []
handed_out (c ∷ cs) db = push (handed c db) (handed_out cs (after c db))

All-push :
    (P : Job → Type 0) (o : Option Job) (js : List Job)
    → ((j : Job) → o ≡ some j → P j)
    → All P js
    → All P (push o js)
unfolding push
All-push P none js h a = a
All-push P (some j) js h a = (h j refl, a)

settled_out :
    (id : String) (cs : List Call) (db : List Job)
    → All (Respects id) cs
    → IsSettled id db
    → All (λ j. j.job_id ≢ id) (handed_out cs db)
unfolding handed_out
settled_out id [] db r s = tt
settled_out id (c ∷ cs) db r s =
    All-push (λ j. j.job_id ≢ id) (handed c db) _ (λ j. handed-ne id c db j s)
      (settled_out id cs (after c db) r.1 (after-IsSettled id c db r.0 s))

any_of_mem : (p : Job → Bool) (db : List Job) (j : Job) → Memᴰ j db → p j ≡ true → any p db ≡ true
any_of_mem p [] j m h = elim m [ ]
any_of_mem p (x ∷ xs) j (Memᴰ.head e) h = ground arith
any_of_mem p (x ∷ xs) j (Memᴰ.tail m) h = ground (arith, any_of_mem p xs j m h)

replace-out :
    (c : Job) (db : List Job)
    → c.status ≢ "queued"
    → All (λ k. k.job_id ≡ c.job_id → k.status ≢ "queued") (replace c db)
unfolding replace
replace-out c [] q = tt
replace-out c (k ∷ ks) q = elim (Bool-cases (k.job_id == c.job_id)) [
  | inl e ↦ rw e ((λ _. q), replace-out c ks q)
  | inr e ↦ rw e ((λ p. absurd (ground (arith, eq_iff k.job_id c.job_id))), replace-out c ks q)
]

-- Once a claim has returned a job, no history of calls returns it again, by any claim of any node,
-- as long as no update sets that job's status back to queued.
pub claim_once :
    (node_id : Option String) (u : Bool) (scope : Option String) (now : ℕ) (db db' : List Job)
    (c : Job) (cs : List Call)
    → claim_next_job node_id u scope now db ≡ (ok (some c), db')
    → All (Respects c.job_id) cs
    → All (λ j. j.job_id ≢ c.job_id) (handed_out cs db')
unfolding claimed
claim_once node_id u scope now db db' c cs h r =
    let (j, (m, q, _), e, f) = claim_writes node_id u scope now db db' c h in
    settled_out c.job_id cs db' r (
      rw (f, e)
        (record {
          present =
              any-replace (claimed node_id now j) j.job_id db
                (any_of_mem (λ k. k.job_id == j.job_id) db j m (str_refl j.job_id));
          out = replace-out (claimed node_id now j) db (running-ne-queued _ refl);
        }))
