-- ===== src/Cert/Service/Laws.antt =====
-- The runs and results of `renew`.
use certman.Base.{
  Memᴰ, Each-mem, String, ◌≡◌, refl, sym, ap, ◌∙◌, inl, inr, Bool, true, Option, List, [], ◌∷◌,
  ◌++◌, map, Each, Result, ok, err, Result-cases, Exec-cases, clash, same_ok, append-nil,
  append_assoc, arith,
}
use mathlib.Core.Path.{subst}
use certman.Config.Entry.{Entry}
use certman.Delivery.Ingress.{Finished}
use certman.Cert.Lineage.{LineageError, strict_mode, resolve_entry_cert_name}
use certman.Cert.Service.{
  Run, Site, RenewPlan, RenewResult, Runtime, captured, run_of, run_certbot, renew_args,
  renew_result, renew_entry, renew_plans, renew_targets, build_plans, renew,
}
use certman.Cert.Service.Commands.{renew_command, IsRenewalOf, renew-command, result-IsRenewalOf}
use certman.Cert.Service.Plans.{IsPlan, PlannedAll, plans-PlannedAll}

module _ (rt : Runtime) (force dry_run verbose : Bool) where
  abbrev run_for : RenewPlan → Run
  run_for plan = run_of rt (renew_args rt plan force dry_run) plan.env_overrides

  -- Each result is what a run of certbot for its plan came to, after the runs before it.
  abbrev Renewed : List Run → List RenewPlan → List RenewResult → Type 0
  Renewed history [] [] = Unit
  Renewed history (plan ∷ plans) (r ∷ rs) =
      ((p : Finished) × (rt.certbot history (run_for plan) ≡ ok p)
        × (r ≡ renew_result rt plan dry_run (captured verbose p)))
      × Renewed (history ++ run_for plan ∷ []) plans rs
  Renewed history _ _ = ⊥

  -- Each result tells how the run of certbot for its plan ended, after the runs before it.
  abbrev pub AreRenewed : List Run → List RenewPlan → List RenewResult → Type 0
  AreRenewed history [] [] = Unit
  AreRenewed history (plan ∷ plans) (r ∷ rs) =
      ((p : Finished) × (rt.certbot history (renew_command rt force dry_run plan) ≡ ok p)
        × IsRenewalOf rt dry_run plan p r)
      × AreRenewed (history ++ renew_command rt force dry_run plan ∷ []) plans rs
  AreRenewed history _ _ = ⊥

  Renewed-AreRenewed :
      (history : List Run) (plans : List RenewPlan) (rs : List RenewResult)
      → Renewed history plans rs
      → AreRenewed history plans rs
  Renewed-AreRenewed history [] [] each = tt
  Renewed-AreRenewed history [] (r ∷ rs) each = absurd each
  Renewed-AreRenewed history (plan ∷ plans) [] each = absurd each
  Renewed-AreRenewed history (plan ∷ plans) (r ∷ rs) ((p, h, e), each) =
      let same = renew-command rt force dry_run plan in
      (
        (
          p,
          subst (λ u. rt.certbot history u ≡ ok p) same h,
          subst (λ x. IsRenewalOf rt dry_run plan p x) (sym e)
              (result-IsRenewalOf rt dry_run verbose plan p),
        ),
        subst (λ u. AreRenewed (history ++ u ∷ []) plans rs) same
            (Renewed-AreRenewed (history ++ run_for plan ∷ []) plans rs each),
      )

  commands :
      (plans : List RenewPlan) → map run_for plans ≡ map (renew_command rt force dry_run) plans
  commands [] = refl
  commands (plan ∷ plans) = rw (renew-command rt force dry_run plan, commands plans) refl

  module _ (plan : RenewPlan) (s : Site) where
    abbrev ran : Site
    ran = record s { runs = s.runs ++ run_for plan ∷ [] }

    entry_raises :
        (x : String)
        → rt.certbot s.runs (run_for plan) ≡ err x
        → renew_entry rt force dry_run verbose plan s ≡ (err x, ran)
    unfolding renew_entry run_certbot
    entry_raises x h = ground arith

    entry_ends :
        (p : Finished)
        → rt.certbot s.runs (run_for plan) ≡ ok p
        → renew_entry rt force dry_run verbose plan s
          ≡ (ok (renew_result rt plan dry_run (captured verbose p)), ran)
    unfolding renew_entry run_certbot
    entry_ends p h = ground arith

    module _ (plans : List RenewPlan) where
      loop_raises :
          (x : String) (s₁ : Site)
          → renew_entry rt force dry_run verbose plan s ≡ (err x, s₁)
          → renew_plans rt force dry_run verbose (plan ∷ plans) s ≡ (err x, s₁)
      unfolding renew_plans
      loop_raises x s₁ h = ground arith

      loop_fails :
          (r : RenewResult) (x : String) (s₁ s₂ : Site)
          → renew_entry rt force dry_run verbose plan s ≡ (ok r, s₁)
          → renew_plans rt force dry_run verbose plans s₁ ≡ (err x, s₂)
          → renew_plans rt force dry_run verbose (plan ∷ plans) s ≡ (err x, s₂)
      unfolding renew_plans
      loop_fails r x s₁ s₂ h k = ground arith

      loop_more :
          (r : RenewResult) (rs : List RenewResult) (s₁ s₂ : Site)
          → renew_entry rt force dry_run verbose plan s ≡ (ok r, s₁)
          → renew_plans rt force dry_run verbose plans s₁ ≡ (ok rs, s₂)
          → renew_plans rt force dry_run verbose (plan ∷ plans) s ≡ (ok (r ∷ rs), s₂)
      unfolding renew_plans
      loop_more r rs s₁ s₂ h k = ground arith

  no_more :
      (s s' : Site) (rs : List RenewResult)
      → renew_plans rt force dry_run verbose [] s ≡ (ok rs, s')
      → (rs ≡ []) × (s ≡ s')
  unfolding renew_plans
  no_more s s' rs h = (ground arith, ground arith)

  renew_plans_sound :
      (plans : List RenewPlan) (s s' : Site) (rs : List RenewResult)
      → renew_plans rt force dry_run verbose plans s ≡ (ok rs, s')
      → Renewed s.runs plans rs × (s'.runs ≡ s.runs ++ map run_for plans)
  renew_plans_sound [] s s' rs h =
      let (e, f) = no_more s s' rs h in
      rw e (tt, sym (ap (λ s. s.runs) f) ∙ sym (append-nil s.runs))
  renew_plans_sound (plan ∷ plans) s s' rs h =
      elim (Result-cases (rt.certbot s.runs (run_for plan))) [
        | inl (x, c) ↦
            absurd (clash (loop_raises plan s plans x (ran plan s) (entry_raises plan s x c)) h)
        | inr (p, c) ↦ elim (Exec-cases (renew_plans rt force dry_run verbose plans (ran plan s))) [
          | inl (x, s₂, k) ↦ absurd (
              clash
                (loop_fails plan s plans (renew_result rt plan dry_run (captured verbose p)) x
                  (ran plan s) s₂ (entry_ends plan s p c) k)
                h)
          | inr (rest, s₂, k) ↦
              let r = renew_result rt plan dry_run (captured verbose p) in
              let whole = loop_more plan s plans r rest (ran plan s) s₂ (entry_ends plan s p c) k in
              let same : rs ≡ r ∷ rest = same_ok (sym h ∙ whole) in
              let state : s' ≡ s₂ = ap (λ o. o.1) (sym h ∙ whole) in
              let (each, runs) = renew_plans_sound plans (ran plan s) s₂ rest k in
              rw same (
                ((p, c, refl), each),
                ap (λ s. s.runs) state
                    ∙ runs
                    ∙ append_assoc s.runs (run_for plan ∷ []) (map run_for plans),
              )
        ]
      ]

  module _ (all : Bool) (name : Option String) where
    abbrev renewal : Site → Result String (List RenewResult) × Site
    renewal = renew rt all name force dry_run verbose

    renew_untargeted :
        (x : String) (s : Site) → renew_targets rt all name ≡ err x → renewal s ≡ (err x, s)
    unfolding renew
    renew_untargeted x s h = ground arith

    renew_unplanned :
        (targets : List Entry) (x : String) (s s₁ : Site)
        → renew_targets rt all name ≡ ok targets
        → build_plans rt targets s ≡ (err x, s₁)
        → renewal s ≡ (err x, s₁)
    unfolding renew
    renew_unplanned targets x s s₁ h k = ground arith

    renew_planned :
        (targets : List Entry) (plans : List RenewPlan) (s s₁ : Site)
        → renew_targets rt all name ≡ ok targets
        → build_plans rt targets s ≡ (ok plans, s₁)
        → renewal s ≡ renew_plans rt force dry_run verbose plans s₁
    unfolding renew
    renew_planned targets plans s s₁ h k = ground arith

    renew_runs :
        (s s' : Site) (rs : List RenewResult)
        → renewal s ≡ (ok rs, s')
        → (targets : List Entry) × (plans : List RenewPlan) × (renew_targets rt all name
            ≡ ok targets)
          × Each (IsPlan rt) targets plans
          × Renewed s.runs plans rs
          × (s'.runs ≡ s.runs ++ map run_for plans)
    renew_runs s s' rs h = elim (Result-cases (renew_targets rt all name)) [
      | inl (x, t) ↦ absurd (clash (renew_untargeted x s t) h)
      | inr (targets, t) ↦
          planned targets t (build_plans rt targets s) refl (plans-PlannedAll rt targets s)
    ]
      where
        planned :
            (targets : List Entry)
            → renew_targets rt all name ≡ ok targets
            → (out : Result String (List RenewPlan) × Site) → build_plans rt targets s ≡ out
            → PlannedAll rt targets s out
            → (targets : List Entry) × (plans : List RenewPlan) × (renew_targets rt all name
                ≡ ok targets)
              × Each (IsPlan rt) targets plans
              × Renewed s.runs plans rs
              × (s'.runs ≡ s.runs ++ map run_for plans)
        planned targets t (err x, s₁) k q = absurd (clash (renew_unplanned targets x s s₁ t k) h)
        planned targets t (ok plans, s₁) k (q, inl (x, c)) = absurd (ground arith)
        planned targets t (ok plans, s₁) k (q, inr (plans', each, c)) =
            let same : plans' ≡ plans = ground arith in
            let (results, runs) =
              renew_plans_sound plans s₁ s' rs (sym (renew_planned targets plans s s₁ t k) ∙ h) in
            (
              targets,
              plans,
              t,
              rw same at each,
              subst (λ h. Renewed h plans rs) q results,
              runs ∙ ap (λ l. l ++ map run_for plans) q,
            )

    -- A renewal that returns has made the plan of every target, each under the name that strict
    -- resolution gives; it has run `certbot renew` once for each plan, by `--cert-name`, in order and
    -- for nothing else; and each result is a success exactly if its run, after those before it, ended
    -- with return code 0.
    pub renew_sound :
        (s s' : Site) (rs : List RenewResult)
        → renewal s ≡ (ok rs, s')
        → (targets : List Entry) × (plans : List RenewPlan) × (renew_targets rt all name
            ≡ ok targets)
          × Each (IsPlan rt) targets plans
          × AreRenewed s.runs plans rs
          × (s'.runs ≡ s.runs ++ map (renew_command rt force dry_run) plans)
    renew_sound s s' rs h =
        let (targets, plans, t, planned, results, runs) = renew_runs s s' rs h in
        (
          targets,
          plans,
          t,
          planned,
          Renewed-AreRenewed s.runs plans rs results,
          runs ∙ ap (λ l. s.runs ++ l) (commands plans),
        )

    -- If the lineage of one target does not resolve, the renewal raises, and certbot is not run for
    -- any target, whatever their order.
    pub renew_unresolved :
        (targets : List Entry) (e : Entry) (x : LineageError) (s : Site)
        → renew_targets rt all name ≡ ok targets
        → Memᴰ e targets
        → resolve_entry_cert_name e (rt.renewals e) true strict_mode ≡ err x
        → ((text : String) × ((renewal s).0 ≡ err text)) × ((renewal s).1.runs ≡ s.runs)
    renew_unresolved targets e x s t member unresolved =
        planned (build_plans rt targets s) refl (plans-PlannedAll rt targets s)
      where
        planned :
            (out : Result String (List RenewPlan) × Site)
            → build_plans rt targets s ≡ out
            → PlannedAll rt targets s out
            → ((text : String) × ((renewal s).0 ≡ err text)) × ((renewal s).1.runs ≡ s.runs)
        planned (err y, s₁) k (q, _) = rw (renew_unplanned targets y s s₁ t k) ((y, refl), q)
        planned (ok plans, s₁) k (q, inl (y, c)) = absurd (ground arith)
        planned (ok plans, s₁) k (q, inr (plans', each, c)) =
            let (plan, (same, resolved, rest)) = Each-mem (IsPlan rt) targets plans' member each in
            absurd (ground arith)
