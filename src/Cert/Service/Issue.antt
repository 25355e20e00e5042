-- ===== src/Cert/Service/Issue.antt =====
-- The run and the result of `issue`.
use certman.Base.{
  ◌<>◌, String, ◌≡◌, refl, sym, ap, ◌∙◌, Bool, none, some, List, [], ◌∷◌, ◌++◌, ◌==◌, if◌then◌else◌,
  lower, find?, Exec, ok, err, Result-cases, Exec-cases, Option-cases, Bool-cases, inl, inr, clash,
  same_ok, pure, ◌>>=◌, arith,
}
use mathlib.Core.Path.{subst}
use certman.Config.Entry.{Entry, entry_domains}
use certman.Delivery.Ingress.{Finished}
use certman.Cert.Service.{
  Run, Site, Overrides, IssueResult, Runtime, captured, run_of, run_certbot, issue_args,
  issue_result, prepare_aliyun, prepare_cloudflare, route53_env, prepare_issue, issue_entry, issue,
}
use certman.Cert.Service.Commands.{Asks, issue_command, IsIssueOf, issue-command, result-IsIssueOf}
use certman.Cert.Service.Prepared.{IsPrepared, Prepared, issue-Prepared}
use certman.Cert.Service.Plans.{aliyun_runs, cloudflare_runs, route53_runs}

module _ (rt : Runtime) where
  then_pure :
      {A B : Type 0} (m : Exec Site String A) (f : A → B) (s : Site)
      → (m s).1.runs ≡ s.runs
      → ((m >>= λ a. pure (f a)) s).1.runs ≡ s.runs
  then_pure m f s h = elim (Result-cases (m s).0) [
    | inl (x, e) ↦ ground arith
    | inr (a, e) ↦ ground arith
  ]

  prepare_issue_runs : (e : Entry) (s : Site) → (prepare_issue rt e s).1.runs ≡ s.runs
  unfolding prepare_issue
  prepare_issue_runs e s = elim (Bool-cases (lower e.dns_provider == "aliyun")) [
    | inl a ↦ rw (a, if◌then◌else◌) (then_pure (prepare_aliyun rt e) _ s (aliyun_runs rt e s))
    | inr a ↦ elim (Bool-cases (lower e.dns_provider == "cloudflare")) [
      | inl b ↦
          rw (a, b, if◌then◌else◌)
            (then_pure (prepare_cloudflare rt e) _ s (cloudflare_runs rt e s))
      | inr b ↦ elim (Bool-cases (lower e.dns_provider == "route53")) [
        | inl c ↦
            rw (a, b, c, if◌then◌else◌) (then_pure (route53_env rt e) _ s (route53_runs rt e s))
        | inr c ↦ rw (a, b, c, if◌then◌else◌) refl
      ]
    ]
  ]

  module _ (force verbose : Bool) (e : Entry) where
    abbrev pub issue_run : List String × Overrides → Run
    issue_run prepared = run_of rt (issue_args rt e force prepared.0) prepared.1

    -- Certbot was run once, for the domains of the entry, with what was prepared from its credentials,
    -- and the result tells how the run ended.
    abbrev pub IsIssued : IssueResult → Site → Site → Type 0
    IsIssued r s s' =
        (prepared : List String × Overrides) × (names : List String) × (p : Finished) × IsPrepared
          rt e prepared s.written s'.written
        × Asks (entry_domains e) names
        × (rt.certbot s.runs (issue_command rt force prepared names) ≡ ok p)
        × (s'.runs ≡ s.runs ++ issue_command rt force prepared names ∷ [])
        × IsIssueOf rt e p r

    -- The same in the words of the code.
    abbrev Issued : IssueResult → Site → Site → Type 0
    Issued r s s' =
        (prepared : List String × Overrides) × (p : Finished) × IsPrepared rt e prepared s.written
          s'.written
        × (rt.certbot s.runs (issue_run prepared) ≡ ok p)
        × (r ≡ issue_result rt e (captured verbose p))
        × (s'.runs ≡ s.runs ++ issue_run prepared ∷ [])

    issue_refused :
        (x : String) (s s₁ : Site)
        → prepare_issue rt e s ≡ (err x, s₁)
        → issue_entry rt e force verbose s ≡ (err x, s₁)
    unfolding issue_entry
    issue_refused x s s₁ h = ground arith

    abbrev ran : Site → List String × Overrides → Site
    ran s prepared = record s { runs = s.runs ++ issue_run prepared ∷ [] }

    issue_raises :
        (x : String) (prepared : List String × Overrides) (s s₁ : Site)
        → prepare_issue rt e s ≡ (ok prepared, s₁)
        → rt.certbot s₁.runs (issue_run prepared) ≡ err x
        → issue_entry rt e force verbose s ≡ (err x, ran s₁ prepared)
    unfolding issue_entry run_certbot
    issue_raises x prepared s s₁ h k = ground arith

    issue_ends :
        (p : Finished) (prepared : List String × Overrides) (s s₁ : Site)
        → prepare_issue rt e s ≡ (ok prepared, s₁)
        → rt.certbot s₁.runs (issue_run prepared) ≡ ok p
        → issue_entry rt e force verbose s
          ≡ (ok (issue_result rt e (captured verbose p)), ran s₁ prepared)
    unfolding issue_entry run_certbot
    issue_ends p prepared s s₁ h k = ground arith

    entry-Issued :
        (s s' : Site) (r : IssueResult)
        → issue_entry rt e force verbose s ≡ (ok r, s')
        → Issued r s s'
    entry-Issued s s' r h = elim (Exec-cases (prepare_issue rt e s)) [
      | inl (x, s₁, k) ↦ absurd (clash (issue_refused x s s₁ k) h)
      | inr (prepared, s₁, k) ↦ elim (Result-cases (rt.certbot s₁.runs (issue_run prepared))) [
        | inl (x, c) ↦ absurd (clash (issue_raises x prepared s s₁ k c) h)
        | inr (p, c) ↦
            let whole = sym h ∙ issue_ends p prepared s s₁ k c in
            let before : s₁.runs ≡ s.runs = sym (ap (λ o. o.1.runs) k) ∙ prepare_issue_runs e s in
            (
              prepared,
              p,
              rw (ap (λ o. o.1.written) whole)
                  (subst (λ o. Prepared rt e s o) k (issue-Prepared rt e s)),
              rw before at c,
              same_ok whole,
              ap (λ o. o.1.runs) whole ∙ ap (λ l. l ++ issue_run prepared ∷ []) before,
            )
      ]
    ]

    Issued-IsIssued : (r : IssueResult) (s s' : Site) → Issued r s s' → IsIssued r s s'
    Issued-IsIssued r s s' (prepared, p, h, c, q, runs) =
        let (names, asks, same) = issue-command rt e force prepared in
        (
          prepared,
          names,
          p,
          h,
          asks,
          subst (λ u. rt.certbot s.runs u ≡ ok p) same c,
          runs ∙ ap (λ u. s.runs ++ u ∷ []) same,
          subst (λ x. IsIssueOf rt e p x) (sym q) (result-IsIssueOf rt e verbose p),
        )

  issue_known :
      (name : String) (force verbose : Bool) (e : Entry) (s : Site)
      → find? (λ e. e.name == name) rt.entries ≡ some e
      → issue rt name force verbose s ≡ issue_entry rt e force verbose s
  unfolding issue
  issue_known name force verbose e s h = ground arith

  issue_unknown :
      (name : String) (force verbose : Bool) (s : Site)
      → find? (λ e. e.name == name) rt.entries ≡ none
      → issue rt name force verbose s ≡ (err ("entry not found: " <> name), s)
  unfolding issue
  issue_unknown name force verbose s h = ground arith

  -- An issue that returns has found the entry and run certbot exactly once, with a `-d` for each domain
  -- of the entry and with the authenticator of its provider, for which it has written the credentials to
  -- a file or put them into the environment; it succeeds exactly if that run ended with return code 0.
  pub issue_sound :
      (name : String) (force verbose : Bool) (s s' : Site) (r : IssueResult)
      → issue rt name force verbose s ≡ (ok r, s')
      → (e : Entry) × (find? (λ e. e.name == name) rt.entries ≡ some e)
        × IsIssued force verbose e r s s'
  issue_sound name force verbose s s' r h =
      elim (Option-cases (find? (λ e. e.name == name) rt.entries)) [
        | inl n ↦ absurd (clash (issue_unknown name force verbose s n) h)
        | inr (e, f) ↦ (
          e,
          f,
          Issued-IsIssued force verbose e r s s' (
              entry-Issued force verbose e s s' r (sym (issue_known name force verbose e s f) ∙ h)),
        )
      ]
