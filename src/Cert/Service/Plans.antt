-- ===== src/Cert/Service/Plans.antt =====
-- Making the plans of a renewal runs nothing, and names each certificate strictly.
use certman.Base.{
  ◌>>=◌, pure, String, ◌≡◌, refl, sym, ap, ◌∙◌, ◌⊎◌, inl, inr, true, List, [], ◌∷◌, ◌==◌,
  if◌then◌else◌, lower, Each, Exec, Result, ok, err, Result-cases, Exec-cases, Bool-cases, arith,
}
use certman.Config.Entry.{Entry}
use certman.Cert.Lineage.{strict_mode, resolve_entry_cert_name}
use certman.Cert.Providers.{
  aliyun_credentials_for_entry, cloudflare_credentials_for_entry, route53_credentials_for_entry,
}
use certman.Cert.Service.{
  Site, Overrides, RenewPlan, Runtime, lineage_result, prepare_aliyun, prepare_cloudflare,
  route53_env, prepare_credentials, build_renew_plan, build_plans,
}

module _ (rt : Runtime) where
  pub aliyun_runs : (e : Entry) (s : Site) → (prepare_aliyun rt e s).1.runs ≡ s.runs
  unfolding prepare_aliyun
  aliyun_runs e s = elim (Result-cases (aliyun_credentials_for_entry rt.env e)) [
    | inl (x, h) ↦ ground arith
    | inr (c, h) ↦ ground arith
  ]

  pub cloudflare_runs : (e : Entry) (s : Site) → (prepare_cloudflare rt e s).1.runs ≡ s.runs
  unfolding prepare_cloudflare
  cloudflare_runs e s = elim (Result-cases (cloudflare_credentials_for_entry rt.env e)) [
    | inl (x, h) ↦ ground arith
    | inr (c, h) ↦ ground arith
  ]

  pub route53_runs : (e : Entry) (s : Site) → (route53_env rt e s).1.runs ≡ s.runs
  unfolding route53_env
  route53_runs e s = elim (Result-cases (route53_credentials_for_entry rt.env e)) [
    | inl (x, h) ↦ ground arith
    | inr (c, h) ↦ ground arith
  ]

  -- What follows a preparation runs nothing either.
  bound_runs :
      {A : Type 0} (m : Exec Site String String) (b : A) (s : Site)
      → (m s).1.runs ≡ s.runs
      → ((m >>= λ file. pure b) s).1.runs ≡ s.runs
  bound_runs m b s h = elim (Result-cases (m s).0) [
    | inl (x, e) ↦ ground arith
    | inr (a, e) ↦ ground arith
  ]

  prepare_runs : (e : Entry) (s : Site) → (prepare_credentials rt e s).1.runs ≡ s.runs
  unfolding prepare_credentials
  prepare_runs e s = elim (Bool-cases (lower e.dns_provider == "aliyun")) [
    | inl a ↦ rw (a, if◌then◌else◌) (bound_runs (prepare_aliyun rt e) [] s (aliyun_runs e s))
    | inr a ↦ elim (Bool-cases (lower e.dns_provider == "cloudflare")) [
      | inl b ↦
          rw (a, b, if◌then◌else◌) (bound_runs (prepare_cloudflare rt e) [] s (cloudflare_runs e s))
      | inr b ↦ elim (Bool-cases (lower e.dns_provider == "route53")) [
        | inl c ↦ rw (a, b, c, if◌then◌else◌) (route53_runs e s)
        | inr c ↦ rw (a, b, c, if◌then◌else◌) refl
      ]
    ]
  ]

  abbrev lineage : Entry → Result String String
  lineage e = lineage_result (resolve_entry_cert_name e (rt.renewals e) true strict_mode)

  -- The plan is for the entry, under the name that strict resolution gives, with the overrides that
  -- its credentials come to.
  abbrev pub IsPlan : Entry → RenewPlan → Type 0
  IsPlan e plan =
      (plan.entry ≡ e)
      × (resolve_entry_cert_name e (rt.renewals e) true strict_mode ≡ ok plan.cert_name)
      × ((s : Site) × ((prepare_credentials rt e s).0 ≡ ok plan.env_overrides))

  plan_unnamed :
      (e : Entry) (s : Site) (x : String) → lineage e ≡ err x → build_renew_plan rt e s ≡ (err x, s)
  unfolding build_renew_plan
  plan_unnamed e s x h = ground arith

  plan_refused :
      (e : Entry) (s s₁ : Site) (name x : String)
      → lineage e ≡ ok name
      → prepare_credentials rt e s ≡ (err x, s₁)
      → build_renew_plan rt e s ≡ (err x, s₁)
  unfolding build_renew_plan
  plan_refused e s s₁ name x h k = ground arith

  abbrev planned : Entry → String → Overrides → RenewPlan
  planned e name overrides = record { entry = e; cert_name = name; env_overrides = overrides }

  plan_made :
      (e : Entry) (s s₁ : Site) (name : String) (o : Overrides)
      → lineage e ≡ ok name
      → prepare_credentials rt e s ≡ (ok o, s₁)
      → build_renew_plan rt e s ≡ (ok (planned e name o), s₁)
  unfolding build_renew_plan
  plan_made e s s₁ name o h k = ground arith

  lineage_ok :
      (e : Entry) (name : String)
      → lineage e ≡ ok name
      → resolve_entry_cert_name e (rt.renewals e) true strict_mode ≡ ok name
  lineage_ok e name h =
      elim (Result-cases (resolve_entry_cert_name e (rt.renewals e) true strict_mode)) [
        | inl (x, q) ↦ absurd (ground arith)
        | inr (n, q) ↦ ground arith
      ]

  -- A plan that is made, or the error of one that is not; neither runs anything.
  abbrev Planned : Entry → Site → Result String RenewPlan × Site → Type 0
  Planned e s out =
      (out.1.runs ≡ s.runs)
      × (((x : String) × (out.0 ≡ err x))
          ⊎ ((plan : RenewPlan) × IsPlan e plan × (out.0 ≡ ok plan)))

  plan-Planned : (e : Entry) (s : Site) → Planned e s (build_renew_plan rt e s)
  plan-Planned e s = elim (Result-cases (lineage e)) [
    | inl (x, h) ↦ rw (plan_unnamed e s x h) (refl, inl (x, refl))
    | inr (name, h) ↦ elim (Exec-cases (prepare_credentials rt e s)) [
      | inl (x, s₁, k) ↦
          rw (plan_refused e s s₁ name x h k)
            (sym (ap (λ o. o.1.runs) k) ∙ prepare_runs e s, inl (x, refl))
      | inr (o, s₁, k) ↦ rw (plan_made e s s₁ name o h k) (
        sym (ap (λ o. o.1.runs) k) ∙ prepare_runs e s,
        inr (planned e name o, (refl, lineage_ok e name h, (s, ap (λ o. o.0) k)), refl),
      )
    ]
  ]

  module _ (e : Entry) (es : List Entry) (s s₁ : Site) where
    plans_stop :
        (x : String)
        → build_renew_plan rt e s ≡ (err x, s₁)
        → build_plans rt (e ∷ es) s ≡ (err x, s₁)
    unfolding build_plans
    plans_stop x h = ground arith

    plans_fail :
        (plan : RenewPlan) (x : String) (s₂ : Site)
        → build_renew_plan rt e s ≡ (ok plan, s₁)
        → build_plans rt es s₁ ≡ (err x, s₂)
        → build_plans rt (e ∷ es) s ≡ (err x, s₂)
    unfolding build_plans
    plans_fail plan x s₂ h k = ground arith

    plans_more :
        (plan : RenewPlan) (plans : List RenewPlan) (s₂ : Site)
        → build_renew_plan rt e s ≡ (ok plan, s₁)
        → build_plans rt es s₁ ≡ (ok plans, s₂)
        → build_plans rt (e ∷ es) s ≡ (ok (plan ∷ plans), s₂)
    unfolding build_plans
    plans_more plan plans s₂ h k = ground arith

  -- The plans of all entries, in order, or the error of the first without one; nothing is run.
  abbrev pub PlannedAll : List Entry → Site → Result String (List RenewPlan) × Site → Type 0
  PlannedAll es s out =
      (out.1.runs ≡ s.runs)
      × (((x : String) × (out.0 ≡ err x))
          ⊎ ((plans : List RenewPlan) × Each IsPlan es plans × (out.0 ≡ ok plans)))

  no_plans : (s : Site) → build_plans rt [] s ≡ (ok [], s)
  unfolding build_plans
  no_plans s = refl

  pub plans-PlannedAll : (es : List Entry) (s : Site) → PlannedAll es s (build_plans rt es s)
  plans-PlannedAll [] s = rw (no_plans s) (refl, inr ([], tt, refl))
  plans-PlannedAll (e ∷ es) s =
      go (λ s₁. plans-PlannedAll es s₁) (build_renew_plan rt e s) refl (plan-Planned e s)
    where
      next :
          (plan : RenewPlan) (s₁ : Site)
          → build_renew_plan rt e s ≡ (ok plan, s₁)
          → s₁.runs ≡ s.runs
          → IsPlan e plan
          → (out : Result String (List RenewPlan) × Site) → build_plans rt es s₁ ≡ out
          → PlannedAll es s₁ out
          → PlannedAll (e ∷ es) s (build_plans rt (e ∷ es) s)
      next plan s₁ h q p (err x, s₂) k (q', _) =
          rw (plans_fail e es s s₁ plan x s₂ h k) (q' ∙ q, inl (x, refl))
      next plan s₁ h q p (ok plans, s₂) k (q', inl (x, c)) = absurd (ground arith)
      next plan s₁ h q p (ok plans, s₂) k (q', inr (plans', each, c)) =
          let same : plans' ≡ plans = ground arith in
          rw (plans_more e es s s₁ plan plans s₂ h k)
            (q' ∙ q, inr (plan ∷ plans, (p, rw same at each), refl))

      go :
          ((s₁ : Site) → PlannedAll es s₁ (build_plans rt es s₁))
          → (out : Result String RenewPlan × Site) → build_renew_plan rt e s ≡ out
          → Planned e s out
          → PlannedAll (e ∷ es) s (build_plans rt (e ∷ es) s)
      go rest (err x, s₁) h (q, _) = rw (plans_stop e es s s₁ x h) (q, inl (x, refl))
      go rest (ok plan, s₁) h (q, inl (x, c)) = absurd (ground arith)
      go rest (ok plan, s₁) h (q, inr (plan', p, c)) =
          let same : plan' ≡ plan = ground arith in
          next plan s₁ h q (rw same at p) (build_plans rt es s₁) refl (rest s₁)
