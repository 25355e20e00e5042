-- ===== src/Job/Enqueue.antt =====
-- `enqueue_unique_job` and `update_status`: when a row is made, reused or refused.

use certman.Base.{
  ℕ, ◌≤◌, String, ◌≡◌, refl, true, false, Option, List, [], ◌∷◌, ◌++◌, Memᴰ, ◌==◌, All, All-mem,
  any, Option-cases, inl, inr, filter, if◌then◌else◌, ok, arith, eq_iff,
}
use certman.Job.Table.{Job, clashes, insert}
use certman.Job.Service.{oldest, is_queued, new_job, enqueue_unique_job}
use certman.Job.Queue.{oldest-filter, oldest-filter-none}

-- No row has the identifier.
abbrev pub IsFresh : String → List Job → Type 0
IsFresh id = All (λ k. (id == k.job_id) ≡ false)

module _ (id : String) (now : ℕ) (job_type subject_id : String) (node_id : Option String)
    (target_type : String) (target_scope : Option String) where
  abbrev pub row : Job
  row = new_job id now job_type subject_id node_id target_type target_scope

  clear :
      (db : List Job)
      → IsFresh id db
      → All (λ k. is_queued job_type subject_id k ≡ false) db
      → any (clashes row) db ≡ false
  unfolding clashes is_queued new_job
  clear [] f q = refl
  clear (k ∷ ks) f q = ground (
    arith,
    clear ks f.1 q.1,
    eq_iff job_type k.job_type,
    eq_iff k.job_type job_type,
    eq_iff subject_id k.subject_id,
    eq_iff k.subject_id subject_id,
    eq_iff "queued" k.status,
    eq_iff k.status "queued",
  )

  taken :
      (db : List Job) (k : Job)
      → Memᴰ k db
      → is_queued job_type subject_id k ≡ true
      → any (clashes row) db ≡ true
  unfolding clashes is_queued new_job
  taken [] k m q = elim m [ ]
  taken (x ∷ xs) k (Memᴰ.head e) q = ground (
    arith,
    eq_iff job_type x.job_type,
    eq_iff k.job_type job_type,
    eq_iff subject_id x.subject_id,
    eq_iff k.subject_id subject_id,
    eq_iff "queued" x.status,
    eq_iff k.status "queued",
  )
  taken (x ∷ xs) k (Memᴰ.tail m) q = ground (arith, taken xs k m q)

  -- With a fresh identifier and no queued job of the type and subject, one queued row is added at
  -- the end, returned, and reported as created.
  pub enqueue_creates :
      (db : List Job)
      → IsFresh id db
      → All (λ k. is_queued job_type subject_id k ≡ false) db
      → enqueue_unique_job id now job_type subject_id node_id target_type target_scope db
        ≡ (ok (row, true), db ++ row ∷ [])
  unfolding enqueue_unique_job insert
  enqueue_creates db f q = rw (clear db f q, if◌then◌else◌)

  -- With a queued job of the type and subject, whatever the identifier, nothing is written: the
  -- oldest such job is returned, and reported as not created.
  pub enqueue_reuses :
      (db : List Job) (k : Job)
      → Memᴰ k db
      → is_queued job_type subject_id k ≡ true
      → (j : Job) × (enqueue_unique_job id now job_type subject_id node_id target_type target_scope
            db
          ≡ (ok (j, false), db))
        × Memᴰ j db
        × (is_queued job_type subject_id j ≡ true)
        × All (λ x. is_queued job_type subject_id x ≡ true → j.created_at ≤ x.created_at) db
  unfolding enqueue_unique_job insert new_job
  enqueue_reuses db k m q =
      elim (Option-cases (oldest (filter (is_queued job_type subject_id) db))) [
        | inl e ↦ absurd (
            ground (
              arith,
              All-mem (λ x. is_queued job_type subject_id x ≡ false) db (oldest-filter-none _ db e)
                  m,
            ))
        | inr (j, e) ↦
            let (m', q', o) = oldest-filter _ db j e in
            (j, ground (arith, taken db k m q), m', q', o)
      ]
