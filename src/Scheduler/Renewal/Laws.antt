-- ===== src/Scheduler/Renewal/Laws.antt =====
-- What `schedule_due_renewals` of certman/scheduler/jobs.py queues, and what it queues again.
use certman.Base.{
  ℕ, ◌+◌, ◌*◌, String, ◌≡◌, ◌≢◌, refl, sym, Bool, true, false, Option, none, List, [], ◌∷◌, ◌++◌,
  Memᴰ, filter, any, All, ok, Result-cases, Bool-cases, Option-cases, inl, inr, arith, eq_iff,
  str_refl, mem-filter, All-mono, any_of_mem, any_of_none,
}
use certman.Job.Table.{Job, clashes, insert}
use certman.Job.Service.{enqueue_unique_job, new_job, is_queued, oldest}
use certman.Job.Queue.{oldest-filter, oldest-filter-none}
use certman.Scheduler.Renewal.{
  Certificate, Targets, target_of, in_scope, is_due, day, Draw, when_created, enqueue_renewal,
  schedule_all, schedule_due_renewals,
}

-- A renewal of the entry is queued.
abbrev pub has_renewal : String → List Job → Bool
has_renewal entry = any (is_queued "renew" entry)

has_renewal-append :
    (entry : String) (db : List Job) (j : Job)
    → has_renewal entry db ≡ true
    → has_renewal entry (db ++ j ∷ []) ≡ true
has_renewal-append entry [] j h = absurd (ground arith)
has_renewal-append entry (k ∷ ks) j h = ground (arith, has_renewal-append entry ks j)

has_renewal-last :
    (entry : String) (db : List Job) (j : Job)
    → is_queued "renew" entry j ≡ true
    → has_renewal entry (db ++ j ∷ []) ≡ true
has_renewal-last entry [] j h = ground arith
has_renewal-last entry (k ∷ ks) j h = ground (arith, has_renewal-last entry ks j)

oldest_of_any :
    (entry : String) (db : List Job)
    → any (is_queued "renew" entry) db ≡ true
    → oldest (filter (is_queued "renew" entry) db) ≢ none
oldest_of_any entry db h e =
    let none_queued =
      any_of_none (is_queued "renew" entry) db
        (oldest-filter-none (is_queued "renew" entry) db e) in
    ground arith

module _ (id : String) (now : ℕ) (entry target_type : String) (target_scope : Option String) where
  clash_of_renewal :
      (db : List Job)
      → has_renewal entry db ≡ true
      → any (clashes (new_job id now "renew" entry none target_type target_scope)) db ≡ true
  unfolding clashes new_job is_queued
  clash_of_renewal [] h = absurd (ground arith)
  clash_of_renewal (k ∷ ks) h = ground (
    arith,
    clash_of_renewal ks,
    eq_iff "renew" k.job_type,
    eq_iff k.job_type "renew",
    eq_iff entry k.subject_id,
    eq_iff k.subject_id entry,
    eq_iff "queued" k.status,
    eq_iff k.status "queued",
  )

  renewal : Job
  renewal = new_job id now "renew" entry none target_type target_scope

  renewal_queued :
      is_queued "renew" entry (new_job id now "renew" entry none target_type target_scope) ≡ true
  unfolding new_job is_queued
  renewal_queued = ground (arith, str_refl entry)

  -- An enqueue that succeeds keeps the queued renewals, and leaves one of the entry.
  enqueue_leaves :
      (db db' : List Job) (j : Job) (b : Bool)
      → enqueue_unique_job id now "renew" entry none target_type target_scope db ≡ (ok (j, b), db')
      → (has_renewal entry db' ≡ true)
        × ((other : String) → has_renewal other db ≡ true → has_renewal other db' ≡ true)
        × (b ≡ true → is_queued "renew" entry j ≡ true)
  unfolding enqueue_unique_job insert new_job
  enqueue_leaves db db' j b h =
      let row = new_job id now "renew" entry none target_type target_scope in
      elim (Bool-cases (any (clashes row) db)) [
        | inr e ↦
            let grown : db ++ row ∷ [] ≡ db' = ground arith in
            let same : row ≡ j = ground arith in
            (
              rw (sym grown) (has_renewal-last entry db row renewal_queued),
              λ other q. rw (sym grown) (has_renewal-append other db row q),
              λ _. rw (sym same) renewal_queued,
            )
        | inl e ↦ elim (Option-cases (oldest (filter (is_queued "renew" entry) db))) [
          | inl f ↦ absurd (ground arith)
          | inr (a, f) ↦
              let kept : db ≡ db' = ground arith in
              let (m, q, _) = oldest-filter (is_queued "renew" entry) db a f in
              (
                rw (sym kept) (any_of_mem (is_queued "renew" entry) db a m q),
                λ other r. rw (sym kept) r,
                λ c. absurd (ground arith),
              )
        ]
      ]

  enqueue_again :
      (db : List Job)
      → has_renewal entry db ≡ true
      → (j : Job) × (enqueue_unique_job id now "renew" entry none target_type target_scope db
          ≡ (ok (j, false), db))
  unfolding enqueue_unique_job insert new_job
  enqueue_again db h = elim (Option-cases (oldest (filter (is_queued "renew" entry) db))) [
    | inl f ↦ absurd (oldest_of_any entry db h f)
    | inr (a, f) ↦ (a, ground (arith, clash_of_renewal db h))
  ]

module _ (draw : Certificate → Draw) (target_scope : Option String) (targets : Targets) where
  -- What a scan leaves: the renewals that were queued, and one for each certificate in the scope.
  abbrev pub IsScheduled : List Certificate → List Job → Type 0
  IsScheduled certificates db =
      (c : Certificate)
      → Memᴰ c certificates
      → in_scope target_scope targets c ≡ true
      → has_renewal c.entry_name db ≡ true

  cons-IsScheduled :
      (c : Certificate) (cs : List Certificate) (db : List Job)
      → (in_scope target_scope targets c ≡ true → has_renewal c.entry_name db ≡ true)
      → IsScheduled cs db
      → IsScheduled (c ∷ cs) db
  cons-IsScheduled c cs db f g x (Memᴰ.head e) s = rw e (f (rw (← e) s))
  cons-IsScheduled c cs db f g x (Memᴰ.tail m) s = g x m s

  -- The row is a queued renewal of an entry of one of the certificates.
  abbrev pub IsRenewalOf : List Certificate → Job → Type 0
  IsRenewalOf cs j = (c : Certificate) × Memᴰ c cs × (is_queued "renew" c.entry_name j ≡ true)

  later-IsRenewalOf :
      (c : Certificate) (cs : List Certificate) (j : Job)
      → IsRenewalOf cs j
      → IsRenewalOf (c ∷ cs) j
  later-IsRenewalOf c cs j (x, m, q) = (x, Memᴰ.tail m, q)

  All-when_created :
      (P : Job → Type 0) (j : Job) (b : Bool) (jobs : List Job)
      → (b ≡ true → P j)
      → All P jobs
      → All P (when_created (j, b) jobs)
  All-when_created P j true jobs f h = (f refl, h)
  All-when_created P j false jobs f h = h

  nothing_scheduled :
      (db db' : List Job) (jobs : List Job)
      → schedule_all draw target_scope targets [] db ≡ (ok jobs, db')
      → ([] ≡ jobs) × (db ≡ db')
  unfolding schedule_all
  nothing_scheduled db db' jobs h = (ground arith, ground arith)

  out_of_scope :
      (c : Certificate) (cs : List Certificate) (db : List Job)
      → in_scope target_scope targets c ≡ false
      → schedule_all draw target_scope targets (c ∷ cs) db
        ≡ schedule_all draw target_scope targets cs db
  unfolding schedule_all
  out_of_scope c cs db e = ground arith

  scheduled :
      (c : Certificate) (cs : List Certificate) (db db' : List Job) (jobs : List Job)
      → in_scope target_scope targets c ≡ true
      → schedule_all draw target_scope targets (c ∷ cs) db ≡ (ok jobs, db')
      → (j : Job) × (b : Bool) × (mid : List Job) × (more : List Job) × (enqueue_renewal draw
            target_scope targets c db
          ≡ (ok (j, b), mid))
        × (schedule_all draw target_scope targets cs mid ≡ (ok more, db'))
        × (when_created (j, b) more ≡ jobs)
  unfolding schedule_all
  scheduled c cs db db' jobs s h =
      let out = enqueue_renewal draw target_scope targets c db in
      elim (Result-cases out.0) [
        | inl (x, e) ↦ absurd (ground arith)
        | inr ((j, b), e) ↦
            let rest = schedule_all draw target_scope targets cs out.1 in
            elim (Result-cases rest.0) [
              | inl (x, f) ↦ absurd (ground arith)
              | inr (more, f) ↦ (j, b, out.1, more, ground arith, ground arith, ground arith)
            ]
      ]

  schedule_leaves :
      (cs : List Certificate) (db db' : List Job) (jobs : List Job)
      → schedule_all draw target_scope targets cs db ≡ (ok jobs, db')
      → IsScheduled cs db'
        × ((other : String) → has_renewal other db ≡ true → has_renewal other db' ≡ true)
        × All (IsRenewalOf cs) jobs
  unfolding enqueue_renewal
  schedule_leaves [] db db' jobs h =
      let (none_made, same) = nothing_scheduled db db' jobs h in
      (λ c m. elim m [ ], λ other q. rw (sym same) q, rw (sym none_made) tt)
  schedule_leaves (c ∷ cs) db db' jobs h = elim (Bool-cases (in_scope target_scope targets c)) [
    | inr e ↦
        let (a, k, r) = schedule_leaves cs db db' jobs (rw (out_of_scope c cs db e) at h) in
        (
          cons-IsScheduled c cs db' (λ s. absurd (ground arith)) a,
          k,
          All-mono _ _ jobs (later-IsRenewalOf c cs) r,
        )
    | inl e ↦
        let (j, b, mid, more, f, g, made) = scheduled c cs db db' jobs e h in
        let target = target_of targets c in
        let (here, keeps, is_new) =
          enqueue_leaves (draw c).id (draw c).now c.entry_name target.0 target.1 db mid j b f in
        let (a, k, r) = schedule_leaves cs mid db' more g in
        (
          cons-IsScheduled c cs db' (λ _. k c.entry_name here) a,
          λ other q. k other (keeps other q),
          rw (sym made) (
              All-when_created (IsRenewalOf (c ∷ cs)) j b more (λ t. (c, Memᴰ.head refl, is_new t))
                (All-mono _ _ more (later-IsRenewalOf c cs) r)),
        )
  ]

  tail-IsScheduled :
      (c : Certificate) (cs : List Certificate) (db : List Job)
      → IsScheduled (c ∷ cs) db
      → IsScheduled cs db
  tail-IsScheduled c cs db h x m s = h x (Memᴰ.tail m) s

  schedule_again :
      (cs : List Certificate) (db : List Job)
      → IsScheduled cs db
      → schedule_all draw target_scope targets cs db ≡ (ok [], db)
  unfolding schedule_all enqueue_renewal
  schedule_again [] db h = refl
  schedule_again (c ∷ cs) db h = elim (Bool-cases (in_scope target_scope targets c)) [
    | inr e ↦ ground (arith, schedule_again cs db (tail-IsScheduled c cs db h))
    | inl e ↦
        let target = target_of targets c in
        let (j, again) =
          enqueue_again (draw c).id (draw c).now c.entry_name target.0 target.1 db
            (h c (Memᴰ.head refl) e) in
        ground (arith, schedule_again cs db (tail-IsScheduled c cs db h))
  ]

  -- The deadline of a scan.
  abbrev pub deadline : ℕ → ℕ → ℕ
  deadline now renew_before_days = now + renew_before_days * day

  -- A scan that succeeds leaves a queued renewal for the entry of every certificate in the scope that
  -- is active and expires by the deadline; what it returns are queued renewals of due
  -- certificates, and no entry loses its queued renewal.
  pub schedule_sound :
      (now days : ℕ) (certificates : List Certificate) (db db' : List Job) (jobs : List Job)
      → schedule_due_renewals draw target_scope targets now days certificates db ≡ (ok jobs, db')
      → ((c : Certificate)
          → Memᴰ c certificates
          → is_due (deadline now days) c ≡ true
          → in_scope target_scope targets c ≡ true
          → has_renewal c.entry_name db' ≡ true)
        × ((other : String) → has_renewal other db ≡ true → has_renewal other db' ≡ true)
        × All (IsRenewalOf (filter (is_due (deadline now days)) certificates)) jobs
  unfolding schedule_due_renewals
  schedule_sound now days certificates db db' jobs h =
      let (a, k, r) =
        schedule_leaves (filter (is_due (deadline now days)) certificates) db db' jobs h in
      (λ c m d s. a c (mem-filter (is_due (deadline now days)) certificates c m d) s, k, r)

-- A second scan with the same deadline, scope and targets queues nothing and changes nothing, whatever
-- identifiers and times it draws.
schedule_twice :
    (draw again : Certificate → Draw) (target_scope : Option String) (targets : Targets)
    (now days : ℕ) (certificates : List Certificate) (db db' : List Job) (jobs : List Job)
    → schedule_due_renewals draw target_scope targets now days certificates db ≡ (ok jobs, db')
    → schedule_due_renewals again target_scope targets now days certificates db' ≡ (ok [], db')
unfolding schedule_due_renewals
schedule_twice draw again target_scope targets now days certificates db db' jobs h =
    let (a, _, _) =
      schedule_leaves draw target_scope targets (filter (is_due (now + days * day)) certificates) db
        db' jobs h in
    schedule_again again target_scope targets (filter (is_due (now + days * day)) certificates) db'
      a
