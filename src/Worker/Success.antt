-- ===== src/Worker/Success.antt =====
-- The service calls that have succeeded when a job is judged to be completed.
use mathlib.Core.Path.{}
use certman.Base.{
  String, ◌≡◌, ◌≢◌, refl, ◌⊎◌, inl, inr, true, Option, some, List, [], ◌∷◌, All, ◌==◌,
  if◌then◌else◌, Bool-cases, arith, eq_iff, map, filter, truthy_opt, or_empty, join,
}
use certman.Job.Table.{Job}
use certman.Worker.{
  Called, returned, raised, Outcome, Services, Verdict, completed, failed, delivered, hand_over,
  error_messages, judge_issue, judge_renewals, judge,
}

module _ (s : Services) where
  -- The inventory was brought up to date for the entry, and its certificate was delivered.
  abbrev pub IsHandedOver : String → Type 0
  IsHandedOver entry =
      ((u : Unit {0}) × (s.sync_entry entry ≡ returned u))
      × ((d : Outcome) × (s.deliver entry ≡ returned d) × (d.success ≡ true))

  -- Every service call that the job needs has succeeded.
  pub data HasSucceeded (j : Job) : Type 0 where
    issued :
        j.job_type ≡ "issue"
        → (r : Outcome) → s.issue j.subject_id ≡ returned r
        → r.success ≡ true
        → IsHandedOver j.subject_id
        → HasSucceeded j
    renewed :
        j.job_type ≡ "renew"
        → (rs : List Outcome) → s.renew j.subject_id ≡ returned rs
        → All (λ r. r.success ≡ true) rs
        → IsHandedOver j.subject_id
        → HasSucceeded j

module _ {A : Type 0} where
  Called-cases :
      (c : Called A) → ((text : String) × (c ≡ raised text)) ⊎ ((a : A) × (c ≡ returned a))
  Called-cases (raised text) = inl (text, refl)
  Called-cases (returned a) = inr (a, refl)

failed-ne-completed :
    (e : Option String) → ◌≢◌ {A = Called Verdict} (returned (failed e)) (returned completed)
failed-ne-completed e h = ground (arith, eq_iff "failed" "completed")

raised-ne-completed : (text : String) → ◌≢◌ {A = Called Verdict} (raised text) (returned completed)
raised-ne-completed text h = ground arith

delivered_success :
    (c : Called Outcome)
    → delivered c ≡ returned completed
    → (d : Outcome) × (c ≡ returned d) × (d.success ≡ true)
unfolding delivered
delivered_success (raised text) h = absurd (raised-ne-completed text h)
delivered_success (returned d) h = elim (Bool-cases d.success) [
  | inl e ↦ (d, refl, e)
  | inr e ↦ absurd (failed-ne-completed d.error (rw (e, if◌then◌else◌) at h))
]

All-succeeded : (rs : List Outcome) → error_messages rs ≡ [] → All (λ r. r.success ≡ true) rs
All-succeeded [] h = tt
All-succeeded (r ∷ rs) h = elim (Bool-cases r.success) [
  | inl e ↦ (e, All-succeeded rs (ground arith))
  | inr e ↦ absurd (ground arith)
]

module _ (s : Services) where
  hand_over_success :
      (entry : String) → hand_over s entry ≡ returned completed → IsHandedOver s entry
  unfolding hand_over
  hand_over_success entry h = elim (Called-cases (s.sync_entry entry)) [
    | inl (text, e) ↦ absurd (raised-ne-completed text (rw (e, hand_over) at h))
    | inr (u, e) ↦ ((u, e), delivered_success (s.deliver entry) (rw (e, hand_over) at h))
  ]

  issue_success :
      (j : Job) (c : Called Outcome)
      → j.job_type ≡ "issue"
      → s.issue j.subject_id ≡ c
      → judge_issue s j.subject_id c ≡ returned completed
      → HasSucceeded s j
  unfolding judge_issue
  issue_success j (raised text) t e h = absurd (raised-ne-completed text h)
  issue_success j (returned r) t e h = elim (Bool-cases r.success) [
    | inl q ↦ issued t r e q (hand_over_success j.subject_id (rw (q, if◌then◌else◌) at h))
    | inr q ↦ absurd (failed-ne-completed r.error (rw (q, if◌then◌else◌) at h))
  ]

  renew_success :
      (j : Job) (c : Called (List Outcome))
      → j.job_type ≡ "renew"
      → s.renew j.subject_id ≡ c
      → judge_renewals s j.subject_id c ≡ returned completed
      → HasSucceeded s j
  unfolding judge_renewals
  renew_success j (raised text) t e h = absurd (raised-ne-completed text h)
  renew_success j (returned rs) t e h = go (error_messages rs) refl h
    where
      go :
          (es : List (Option String))
          → error_messages rs ≡ es
          → (elim es as (λ _. Called Verdict) [
            | [] ↦ hand_over s j.subject_id
            | e ∷ es ↦
                returned (failed (some (join "; " (map or_empty (filter truthy_opt (e ∷ es))))))
          ])
            ≡ returned completed
          → HasSucceeded s j
      go [] q k = renewed t rs e (All-succeeded rs q) (hand_over_success j.subject_id k)
      go (x ∷ es) q k = absurd (failed-ne-completed _ k)

  pub judge_success : (j : Job) → judge s j ≡ returned completed → HasSucceeded s j
  unfolding judge
  judge_success j h = elim (Bool-cases (j.job_type == "issue")) [
    | inl e ↦
        issue_success j (s.issue j.subject_id) ((eq_iff j.job_type "issue").0 e) refl
          (rw (e, if◌then◌else◌) at h)
    | inr e ↦ elim (Bool-cases (j.job_type == "renew")) [
      | inl f ↦
          renew_success j (s.renew j.subject_id) ((eq_iff j.job_type "renew").0 f) refl
            (rw (e, f, if◌then◌else◌) at h)
      | inr f ↦ absurd (failed-ne-completed _ (rw (e, f, if◌then◌else◌) at h))
    ]
  ]
