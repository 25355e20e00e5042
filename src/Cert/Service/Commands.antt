-- ===== src/Cert/Service/Commands.antt =====
-- The certbot commands of an issue and of a renewal, and what their results say, in words of their own.
use certman.Base.{
  String, ◌≡◌, refl, ap, ◌∙◌, append_assoc, ◌↔◌, Bool, true, false, Option, none, List, [], ◌∷◌,
  ◌++◌, ◌==◌, nat_beq, nat_beq_iff, arith,
}
use certman.Config.Entry.{Entry, entry_domains}
use certman.Delivery.Ingress.{Finished}
use certman.Cert.Service.{
  Run, Overrides, RenewPlan, RenewResult, IssueResult, Runtime, flag, domain_args, overridden,
  run_of, issue_args, issue_result, renew_args, renew_result, captured, error_of,
}

-- The second list asks for each domain of the first, in order.
pub data Asks : List String → List String → Type 0 where
  no_domain : Asks [] []
  domain : {d : String} {ds args : List String} → Asks ds args → Asks (d ∷ ds) ("-d" ∷ d ∷ args)

-- Whether to test against the staging server, and whether to renew before the time.
abbrev pub issue_options : Bool → Bool → List String
issue_options true true = "--test-cert" ∷ "--force-renewal" ∷ []
issue_options true false = "--test-cert" ∷ []
issue_options false true = "--force-renewal" ∷ []
issue_options false false = []

-- Whether to renew before the time, and whether only to try.
abbrev pub renew_options : Bool → Bool → List String
renew_options true true = "--force-renewal" ∷ "--dry-run" ∷ []
renew_options true false = "--force-renewal" ∷ []
renew_options false true = "--dry-run" ∷ []
renew_options false false = []

-- A result with this success and error tells that certbot ended with return code 0, or did not.
abbrev pub Tells : Finished → Bool → Option String → Type 0
Tells p success error =
    ((success ≡ true) ↔ (p.returncode ≡ 0)) × ((error ≡ none) ↔ (p.returncode ≡ 0))

error_iff : (p : Finished) (text : String) → (error_of p text ≡ none) ↔ (p.returncode ≡ 0)
error_iff p text = (λ h. ground arith, λ h. ground arith)

module _ (rt : Runtime) where
  asked : (ds : List String) → Asks ds (domain_args rt ds)
  asked [] = no_domain
  asked (d ∷ ds) = domain (asked ds)

  issue_flags :
      (staging force : Bool)
      → flag rt staging "--test-cert" ++ flag rt force "--force-renewal"
        ≡ issue_options staging force
  issue_flags true true = refl
  issue_flags true false = refl
  issue_flags false true = refl
  issue_flags false false = refl

  renew_flags :
      (force dry_run : Bool)
      → flag rt force "--force-renewal" ++ flag rt dry_run "--dry-run" ≡ renew_options force dry_run
  renew_flags true true = refl
  renew_flags true false = refl
  renew_flags false true = refl
  renew_flags false false = refl

  -- The run that issues the domains of `names` with the prepared authenticator and variables.
  abbrev pub issue_command : Bool → List String × Overrides → List String → Run
  issue_command force prepared names = record {
    cmd =
        ("certbot" ∷ "certonly" ∷ prepared.0)
        ++ ("--agree-tos" ∷ "--email" ∷ rt.email ∷ [])
        ++ issue_options (rt.acme_server == "staging") force
        ++ names
        ++ rt.path_args
        ++ "--non-interactive" ∷ [];
    env = overridden rt.env prepared.1;
  }

  -- The run that renews the certificate of the plan.
  abbrev pub renew_command : Bool → Bool → RenewPlan → Run
  renew_command force dry_run plan = record {
    cmd =
        "certbot" ∷ ("renew" ∷ "--cert-name" ∷ plan.cert_name ∷ renew_options force dry_run)
        ++ rt.path_args
        ++ "--non-interactive" ∷ [];
    env = overridden rt.env plan.env_overrides;
  }

  pub issue-command :
      (e : Entry) (force : Bool) (prepared : List String × Overrides)
      → (names : List String) × Asks (entry_domains e) names
        × (run_of rt (issue_args rt e force prepared.0) prepared.1
            ≡ issue_command force prepared names)
  unfolding issue_args
  issue-command e force prepared =
      let opening = ("certonly" ∷ prepared.0) ++ ("--agree-tos" ∷ "--email" ∷ rt.email ∷ []) in
      (
        domain_args rt (entry_domains e),
        asked (entry_domains e),
        ap (λ (args : List String). run_of rt (args ++ domain_args rt (entry_domains e)) prepared.1)
            (append_assoc opening (flag rt (rt.acme_server == "staging") "--test-cert")
                (flag rt force "--force-renewal")
              ∙ ap (λ (l : List String). opening ++ l)
                  (issue_flags (rt.acme_server == "staging") force)),
      )

  pub renew-command :
      (force dry_run : Bool) (plan : RenewPlan)
      → run_of rt (renew_args rt plan force dry_run) plan.env_overrides
        ≡ renew_command force dry_run plan
  renew-command force dry_run plan =
      ap
        (λ (args : List String).
          run_of rt ("renew" ∷ "--cert-name" ∷ plan.cert_name ∷ args) plan.env_overrides)
        (renew_flags force dry_run)

  -- The result is for the entry and its domains, and tells how certbot ended.
  abbrev pub IsIssueOf : Entry → Finished → IssueResult → Type 0
  IsIssueOf e p r =
      (r.entry_name ≡ e.name) × (r.domains ≡ entry_domains e) × Tells p r.success r.error

  -- The result is for the entry of the plan, and tells how certbot ended.
  abbrev pub IsRenewalOf : Bool → RenewPlan → Finished → RenewResult → Type 0
  IsRenewalOf dry_run plan p r =
      (r.entry_name ≡ plan.entry.name)
      × (r.dry_run ≡ dry_run)
      × (r.renewed ≡ r.success)
      × Tells p r.success r.error

  captured-Tells :
      (verbose : Bool) (p : Finished) (text : String)
      → Tells p (nat_beq (captured verbose p).returncode 0) (error_of (captured verbose p) text)
  captured-Tells true p text = (nat_beq_iff p.returncode 0, error_iff (captured true p) text)
  captured-Tells false p text = (nat_beq_iff p.returncode 0, error_iff p text)

  pub result-IsIssueOf :
      (e : Entry) (verbose : Bool) (p : Finished)
      → IsIssueOf e p (issue_result rt e (captured verbose p))
  unfolding issue_result
  result-IsIssueOf e verbose p = (refl, refl, captured-Tells verbose p "certbot failed")

  pub result-IsRenewalOf :
      (dry_run verbose : Bool) (plan : RenewPlan) (p : Finished)
      → IsRenewalOf dry_run plan p (renew_result rt plan dry_run (captured verbose p))
  unfolding renew_result
  result-IsRenewalOf dry_run verbose plan p =
      (refl, refl, refl, captured-Tells verbose p "certbot renew failed")
