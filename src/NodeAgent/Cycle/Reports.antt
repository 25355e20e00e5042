-- ===== src/NodeAgent/Cycle/Reports.antt =====
-- The reports of a cycle: one for each usable assignment, in order, completed only after an execution
-- that succeeded.
use certman.Base.{
  clash, ℕ, suc, ◌+◌, String, ◌≡◌, refl, sym, ap, ◌∙◌, ◌⊎◌, inl, inr, true, false, Option, none,
  some, List, [], ◌∷◌, ◌++◌, if◌then◌else◌, truthy_opt, or_empty, length, filter, Each, Result, ok,
  err, Exec-cases, Result-cases, Bool-cases, Option-cases, append-nil, append_assoc, arith,
}
use certman.Config.Entry.{is_cons}
use certman.NodeAgent.Executor.{Bundle, Hook, ExecutionResult, Host}
use certman.NodeAgent.Poller.{Offer}
use certman.NodeAgent.Cycle.{
  Payload, Report, Progress, Surroundings, fetch_bundle, failed, completed, report_of,
  execute_bundle, use_payload, process_assignment, is_usable, process_assignments,
}

module _ {V : Type 0} (w : Surroundings V) where
  -- The bundle of the assignment was downloaded with a bundle in it, whose execution succeeded.
  abbrev pub Succeeded : String → String → Option String → Type 0
  Succeeded job_id bundle_url bundle_token =
      (s : Progress) × (payload : Payload V) × (b : Bundle) × (hooks : List Hook)
      × (x : ExecutionResult) × (fetch_bundle w job_id bundle_url bundle_token s
          ≡ ok (some payload))
      × (payload.bundle ≡ some b)
      × ((w.execute b w.target_dir hooks s.host).0 ≡ ok x)
      × (x.success ≡ true)

  -- The report is about the assignment: completed, after a success, or failed with an error.
  abbrev pub Tells : Offer → Report → Type 0
  Tells o r =
      (o.job_id ≡ some r.job_id)
      × (((r.status ≡ "completed")
            × (r.output ≡ some "ok")
            × (r.error ≡ none)
            × ((url : String) × (o.bundle_url ≡ some url) × Succeeded r.job_id url o.bundle_token))
          ⊎ ((r.status ≡ "failed") × (r.output ≡ none) × ((text : String) × (r.error ≡ some text))))

  abbrev Outcome : String → String → Option String → Report → Type 0
  Outcome job_id url token r =
      (r.job_id ≡ job_id)
      × (((r.status ≡ "completed")
            × (r.output ≡ some "ok")
            × (r.error ≡ none)
            × Succeeded job_id url token)
          ⊎ ((r.status ≡ "failed") × (r.output ≡ none) × ((text : String) × (r.error ≡ some text))))

  -- One report was added, about the assignment.
  abbrev Adds : String → String → Option String → Progress → Progress → Type 0
  Adds job_id url token s s' =
      (r : Report) × Outcome job_id url token r × (s'.reports ≡ s.reports ++ r ∷ [])

  report_failed :
      (job_id : String) (x : ExecutionResult)
      → x.success ≡ false
      → (text : String) × (report_of w job_id x ≡ failed w job_id text)
  unfolding report_of
  report_failed job_id x h =
      ((if truthy_opt x.error then or_empty x.error else "execution failed"), ground arith)

  report_completed :
      (job_id : String) (x : ExecutionResult)
      → x.success ≡ true
      → report_of w job_id x ≡ completed w job_id
  unfolding report_of
  report_completed job_id x h = ground arith

  module _ (job_id url : String) (token : Option String) (s s' : Progress) where
    Adds-failed :
        (text : String)
        → s'.reports ≡ s.reports ++ failed w job_id text ∷ []
        → Adds job_id url token s s'
    Adds-failed text e = (failed w job_id text, (refl, inr (refl, refl, (text, refl))), e)

    reports_of :
        (b : Bundle) (hooks : List Hook) (x : ExecutionResult) (host : Host)
        → w.execute b w.target_dir hooks s.host ≡ (ok x, host)
        → execute_bundle w job_id b hooks s ≡ (ok tt, s')
        → s'.reports ≡ s.reports ++ report_of w job_id x ∷ []
    unfolding execute_bundle
    reports_of b hooks x host e h = ground arith

    raised_execution :
        (b : Bundle) (hooks : List Hook) (text : String) (host : Host)
        → w.execute b w.target_dir hooks s.host ≡ (err text, host)
        → execute_bundle w job_id b hooks s ≡ (ok tt, s')
        → ⊥
    unfolding execute_bundle
    raised_execution b hooks text host e h = ground arith

    executed :
        (payload : Payload V) (b : Bundle) (hooks : List Hook)
        → fetch_bundle w job_id url token s ≡ ok (some payload)
        → payload.bundle ≡ some b
        → execute_bundle w job_id b hooks s ≡ (ok tt, s')
        → Adds job_id url token s s'
    executed payload b hooks f e h = elim (Exec-cases (w.execute b w.target_dir hooks s.host)) [
      | inl (text, host, x) ↦ absurd (raised_execution b hooks text host x h)
      | inr (x, host, y) ↦ elim (Bool-cases x.success) [
        | inl z ↦ (
          completed w job_id,
          (refl, inl (refl, refl, refl, (s, payload, b, hooks, x, f, e, ap (λ o. o.0) y, z))),
          rw (report_completed job_id x z) at (reports_of b hooks x host y h),
        )
        | inr z ↦
            let (text, q) = report_failed job_id x z in
            Adds-failed text (rw q at (reports_of b hooks x host y h))
      ]
    ]

    hooks_for : Payload V → List Hook
    hooks_for payload = if is_cons payload.hooks then payload.hooks else w.default_hooks

    used :
        (p : Option (Payload V))
        → fetch_bundle w job_id url token s ≡ ok p
        → use_payload w job_id p s ≡ (ok tt, s')
        → Adds job_id url token s s'
    unfolding use_payload hooks_for
    used none f h = Adds-failed "bundle download failed" (ground arith)
    used (some payload) f h = elim (Option-cases payload.bundle) [
      | inl e ↦ Adds-failed "bundle payload invalid" (ground arith)
      | inr (b, e) ↦ executed payload b (hooks_for payload) f e (ground arith)
    ]

    processed_one :
        process_assignment w job_id url token s ≡ (ok tt, s') → Adds job_id url token s s'
    unfolding process_assignment
    processed_one h = elim (Result-cases (fetch_bundle w job_id url token s)) [
      | inl (text, f) ↦ absurd (ground arith)
      | inr (p, f) ↦ used p f (ground arith)
    ]

  usable_parts :
      (o : Offer)
      → is_usable w o ≡ true
      → (o.job_id ≡ some (or_empty o.job_id)) × (o.bundle_url ≡ some (or_empty o.bundle_url))
  usable_parts o h = (present o.job_id (ground arith), present o.bundle_url (ground arith))
    where
      present : (t : Option String) → truthy_opt t ≡ true → t ≡ some (or_empty t)
      present none e = absurd (ground arith)
      present (some t) e = refl

  told :
      (o : Offer) (r : Report)
      → is_usable w o ≡ true
      → Outcome (or_empty o.job_id) (or_empty o.bundle_url) o.bundle_token r
      → Tells o r
  told o r u (e, inl (a, b, c, d)) =
      let (j, l) = usable_parts o u in (rw e j, inl (a, b, c, (or_empty o.bundle_url, l, rw e d)))
  told o r u (e, inr f) = let (j, l) = usable_parts o u in (rw e j, inr f)

  abbrev step : Offer → Progress → Result String (Unit {0}) × Progress
  step o s = process_assignment w (or_empty o.job_id) (or_empty o.bundle_url) o.bundle_token s

  module _ (n : ℕ) (o : Offer) (os : List Offer) (s : Progress) where
    loop_skips :
        is_usable w o ≡ false → process_assignments w n (o ∷ os) s ≡ process_assignments w n os s
    unfolding process_assignments
    loop_skips u = ground arith

    loop_raises :
        (text : String) (s' : Progress)
        → is_usable w o ≡ true
        → step o s ≡ (err text, s')
        → process_assignments w n (o ∷ os) s ≡ (err text, s')
    unfolding process_assignments
    loop_raises text s' u h = ground arith

    loop_goes_on :
        (s' : Progress)
        → is_usable w o ≡ true
        → step o s ≡ (ok tt, s')
        → process_assignments w n (o ∷ os) s ≡ process_assignments w (suc n) os s'
    unfolding process_assignments
    loop_goes_on s' u h = ground arith

  loop_ends :
      (n k : ℕ) (s s' : Progress)
      → process_assignments w n [] s ≡ (ok k, s')
      → (s.reports ≡ s'.reports) × (k ≡ n)
  unfolding process_assignments
  loop_ends n k s s' h = (ground arith, ground arith)

  -- A cycle that does not raise posts exactly one report for each assignment with an identifier and a
  -- URL, in order, and counts them. A report of completion comes after a download of its bundle whose
  -- execution succeeded; every other report is of a failure and has an error.
  pub process_assignments_sound :
      (n : ℕ) (os : List Offer) (s s' : Progress) (k : ℕ)
      → process_assignments w n os s ≡ (ok k, s')
      → (rs : List Report) × (s'.reports ≡ s.reports ++ rs)
        × Each Tells (filter (is_usable w) os) rs
        × (k ≡ n + length rs)
  process_assignments_sound n [] s s' k h =
      let (e, c) = loop_ends n k s s' h in
      ([], sym e ∙ sym (append-nil s.reports), tt, ground arith)
  process_assignments_sound n (o ∷ os) s s' k h = elim (Bool-cases (is_usable w o)) [
    | inr u ↦ rw u (process_assignments_sound n os s s' k (sym (loop_skips n o os s u) ∙ h))
    | inl u ↦ elim (Exec-cases (step o s)) [
      | inl (text, s₁, e) ↦ absurd (clash (loop_raises n o os s text s₁ u e) h)
      | inr (_, s₁, e) ↦
          let (r, t, q) =
            processed_one (or_empty o.job_id) (or_empty o.bundle_url) o.bundle_token s s₁ e in
          let (rs, f, each, c) =
            process_assignments_sound (suc n) os s₁ s' k (sym (loop_goes_on n o os s s₁ u e) ∙ h) in
          (
            r ∷ rs,
            f ∙ ap (λ l. l ++ rs) q ∙ append_assoc s.reports (r ∷ []) rs,
            rw u (told o r u t, each),
            ground arith,
          )
    ]
  ]
