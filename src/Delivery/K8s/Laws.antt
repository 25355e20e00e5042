-- ===== src/Delivery/K8s/Laws.antt =====
-- When the manifest is applied, what success means, and what is left after a failed apply.
use certman.Base.{
  String, ◌≡◌, refl, ◌∙◌, any, ◌⊎◌, inl, inr, Bool, true, false, Option, none, some, List, [], ◌∷◌,
  ◌++◌, ◌==◌, ◌&&◌, ◌||◌, if◌then◌else◌, all, truthy, truthy_opt, arith, Bool-cases, eq_iff,
}
use certman.Delivery.K8s.{
  plain, TlsData, CmdResult, Command, can_i, dry_run, get_secret, apply_file, apply_stdin, Process,
  Options, DeliveryResult, apply_failed, rollback_failed, manifest_data, run_kubectl, check_verbs,
  required_verbs, roll_back, fetched, apply, validate, diagnose, after_files, deliver_k8s_bundle,
}

module _ (kubectl : List Command → Command → Process) (o : Options) where
  -- The commands end with an apply of the manifest that succeeds.
  abbrev pub EndsApplied : List Command → Type 0
  EndsApplied trace =
      (before : List Command) × (trace ≡ before ++ apply_file ∷ [])
      × ((run_kubectl kubectl o apply_file before).success ≡ true)

  -- Rolling back is on, and the commands end with a failed apply and then an apply of the secret fetched
  -- just before it.
  abbrev pub EndsRolledBack : DeliveryResult → List Command → Type 0
  EndsRolledBack r trace =
      (history : List Command) × (previous : String) × (o.rollback_on_failure ≡ true)
      × (fetched kubectl o (run_kubectl kubectl o (get_secret o.secret_name o.namespace) history)
          ≡ some previous)
      × ((run_kubectl kubectl o apply_file
            (history ++ get_secret o.secret_name o.namespace ∷ [])).success
          ≡ false)
      × (trace
          ≡ ((history ++ get_secret o.secret_name o.namespace ∷ []) ++ apply_file ∷ [])
            ++ apply_stdin previous ∷ [])
      × (r.error_code
          ≡ some (
              if (run_kubectl kubectl o (apply_stdin previous)
                ((history ++ get_secret o.secret_name o.namespace ∷ []) ++ apply_file ∷ [])).success
              then apply_failed
              else rollback_failed))

  -- The apply failed, and rolling back is off or the secret could not be fetched before.
  abbrev pub EndsFailed : DeliveryResult → List Command → Type 0
  EndsFailed r trace =
      (r.error_code ≡ some apply_failed)
      × ((history : List Command) × (trace
            ≡ (history ++ get_secret o.secret_name o.namespace ∷ []) ++ apply_file ∷ [])
          × ((run_kubectl kubectl o apply_file
                (history ++ get_secret o.secret_name o.namespace ∷ [])).success
              ≡ false)
          × ((o.rollback_on_failure ≡ false)
              ⊎ (truthy_opt (
                    fetched kubectl o
                      (run_kubectl kubectl o (get_secret o.secret_name o.namespace) history))
                  ≡ false)))

  -- The ways that an apply ends.
  abbrev pub IsApplied : DeliveryResult → List Command → Type 0
  IsApplied r trace =
      ((r.success ≡ true) × EndsApplied trace)
      ⊎ ((r.success ≡ false) × (EndsRolledBack r trace ⊎ EndsFailed r trace))

  roll_back-IsApplied :
      (written : List String) (history : List Command) (previous : Option String)
      (applied : CmdResult)
      → fetched kubectl o (run_kubectl kubectl o (get_secret o.secret_name o.namespace) history)
        ≡ previous
      → (run_kubectl kubectl o apply_file
          (history ++ get_secret o.secret_name o.namespace ∷ [])).success
        ≡ false
      → let r =
          roll_back kubectl o written previous applied
            ((history ++ get_secret o.secret_name o.namespace ∷ []) ++ apply_file ∷ []) in
        IsApplied r.0 r.1
  unfolding roll_back
  roll_back-IsApplied written history none applied e fails =
      let off : (o.rollback_on_failure && false) ≡ false = ground arith in
      rw (off, if◌then◌else◌) (inr (refl, inr (refl, (history, refl, fails, inr (rw e refl)))))
  roll_back-IsApplied written history (some p) applied e fails =
      elim (Bool-cases (o.rollback_on_failure && truthy p)) [
        | inl f ↦
            rw (f, if◌then◌else◌)
              (inr (ground arith, inl (history, p, ground arith, e, fails, refl, ground arith)))
        | inr f ↦
            rw (f, if◌then◌else◌)
              (inr (refl, inr (refl, (history, refl, fails, unavailable p e f))))
      ]
    where
      unavailable :
          (p : String)
          → fetched kubectl o (run_kubectl kubectl o (get_secret o.secret_name o.namespace) history)
            ≡ some p
          → (o.rollback_on_failure && truthy p) ≡ false
          → (o.rollback_on_failure ≡ false)
            ⊎ (truthy_opt (
                  fetched kubectl o
                    (run_kubectl kubectl o (get_secret o.secret_name o.namespace) history))
                ≡ false)
      unavailable p e f = elim (Bool-cases o.rollback_on_failure) [
        | inl on ↦ inr (rw e (ground arith))
        | inr off ↦ inl off
      ]

  apply-IsApplied :
      (written : List String) (history : List Command)
      → let r = apply kubectl o written history in IsApplied r.0 r.1
  unfolding apply
  apply-IsApplied written history =
      let get = get_secret o.secret_name o.namespace in
      let before = history ++ get ∷ [] in
      elim (Bool-cases (run_kubectl kubectl o apply_file before).success) [
        | inl e ↦ rw (e, if◌then◌else◌) (inl (refl, (before, refl, e)))
        | inr e ↦
            rw (e, if◌then◌else◌)
              (roll_back-IsApplied written history
                (fetched kubectl o (run_kubectl kubectl o get history))
                (run_kubectl kubectl o apply_file before) refl e)
      ]

  abbrev pub is_apply : Command → Bool
  is_apply apply_file = true
  is_apply (apply_stdin text) = true
  is_apply _ = false

  -- The delivery failed without applying anything.
  abbrev pub IsRefused : DeliveryResult → List Command → Type 0
  IsRefused r trace = (r.success ≡ false) × (any is_apply trace ≡ false)

  -- The checks that are enabled have passed.
  abbrev pub IsChecked : Type 0
  IsChecked =
      (o.enable_rbac_check ≡ true
        → all (λ d. d.1) (check_verbs kubectl o (required_verbs kubectl o) []).0 ≡ true)
      × (o.dry_run_validation ≡ true
          → (history : List Command) × ((run_kubectl kubectl o dry_run history).success ≡ true))

  abbrev pub IsPermitted : Type 0
  IsPermitted =
      o.enable_rbac_check ≡ true
      → all (λ d. d.1) (check_verbs kubectl o (required_verbs kubectl o) []).0 ≡ true

  any-append :
      (p : Command → Bool) (xs ys : List Command) → any p (xs ++ ys) ≡ (any p xs || any p ys)
  any-append p [] ys = refl
  any-append p (x ∷ xs) ys = ground (arith, any-append p xs ys)

  check_verbs_apply :
      (verbs : List String) (history : List Command)
      → any is_apply history ≡ false
      → any is_apply (check_verbs kubectl o verbs history).1 ≡ false
  unfolding check_verbs
  check_verbs_apply [] history h = h
  check_verbs_apply (v ∷ vs) history h =
      check_verbs_apply vs (history ++ can_i v o.namespace ∷ [])
        (any-append is_apply history (can_i v o.namespace ∷ []) ∙ (ground arith))

  module _ (written : List String) (history : List Command) where
    validate_off :
        o.dry_run_validation ≡ false
        → validate kubectl o written history ≡ apply kubectl o written history
    unfolding validate
    validate_off e = ground arith

    validate_passed :
        o.dry_run_validation ≡ true
        → (run_kubectl kubectl o dry_run history).success ≡ true
        → validate kubectl o written history ≡ apply kubectl o written (history ++ dry_run ∷ [])
    unfolding validate
    validate_passed e f = ground arith

    validate_refused :
        o.dry_run_validation ≡ true
        → (run_kubectl kubectl o dry_run history).success ≡ false
        → ((validate kubectl o written history).0.success ≡ false)
          × ((validate kubectl o written history).1 ≡ history ++ dry_run ∷ [])
    unfolding validate
    validate_refused e f = (ground arith, ground arith)

    diagnose_off :
        o.enable_rbac_check ≡ false
        → diagnose kubectl o written history ≡ validate kubectl o written history
    unfolding diagnose
    diagnose_off e = ground arith

    diagnose_passed :
        o.enable_rbac_check ≡ true
        → all (λ d. d.1) (check_verbs kubectl o (required_verbs kubectl o) history).0 ≡ true
        → diagnose kubectl o written history
          ≡ validate kubectl o written (check_verbs kubectl o (required_verbs kubectl o) history).1
    unfolding diagnose
    diagnose_passed e f = ground arith

    diagnose_refused :
        o.enable_rbac_check ≡ true
        → all (λ d. d.1) (check_verbs kubectl o (required_verbs kubectl o) history).0 ≡ false
        → ((diagnose kubectl o written history).0.success ≡ false)
          × ((diagnose kubectl o written history).1
              ≡ (check_verbs kubectl o (required_verbs kubectl o) history).1)
    unfolding diagnose
    diagnose_refused e f = (ground arith, ground arith)

  -- Refused, or applied after the checks.
  abbrev pub IsDelivered : DeliveryResult × List Command → Type 0
  IsDelivered (r, trace) = IsRefused r trace ⊎ (IsChecked × IsApplied r trace)

  validated :
      (written : List String) (history : List Command)
      → IsPermitted
      → any is_apply history ≡ false
      → IsDelivered (validate kubectl o written history)
  validated written history pass h = elim (Bool-cases o.dry_run_validation) [
    | inr e ↦
        rw (validate_off written history e)
          (inr ((pass, λ on. absurd (ground arith)), apply-IsApplied written history))
    | inl e ↦ elim (Bool-cases (run_kubectl kubectl o dry_run history).success) [
      | inl f ↦
          rw (validate_passed written history e f)
            (inr ((pass, λ on. (history, f)), apply-IsApplied written (history ++ dry_run ∷ [])))
      | inr f ↦
          let (fails, trace) = validate_refused written history e f in
          inl (fails, rw trace (any-append is_apply history (dry_run ∷ []) ∙ (ground arith)))
    ]
  ]

  diagnosed : (written : List String) → IsDelivered (diagnose kubectl o written [])
  diagnosed written =
      let checked = check_verbs kubectl o (required_verbs kubectl o) [] in
      let clear = check_verbs_apply (required_verbs kubectl o) [] refl in
      elim (Bool-cases o.enable_rbac_check) [
        | inr e ↦
            rw (diagnose_off written [] e) (validated written [] (λ on. absurd (ground arith)) refl)
        | inl e ↦ elim (Bool-cases (all (λ d. d.1) checked.0)) [
          | inl f ↦
              rw (diagnose_passed written [] e f) (validated written checked.1 (λ on. f) clear)
          | inr f ↦
              let (fails, trace) = diagnose_refused written [] e f in inl (fails, rw trace clear)
        ]
      ]

  -- Only rendered, which runs no command.
  abbrev pub IsRendered : DeliveryResult × List Command → Type 0
  IsRendered (r, trace) = (o.mode ≡ "render") × (r.success ≡ true) × (trace ≡ [])

  failed :
      (text : String)
      → IsRefused (after_files kubectl o (inl text)).0 (after_files kubectl o (inl text)).1
  unfolding after_files
  failed text = (refl, refl)

  rendered :
      (written : List String)
      → (o.mode == "render") ≡ true
      → after_files kubectl o (inr written) ≡ (plain true written none none, [])
  unfolding after_files
  rendered written e = ground arith

  applied :
      (written : List String)
      → (o.mode == "render") ≡ false
      → after_files kubectl o (inr written) ≡ diagnose kubectl o written []
  unfolding after_files
  applied written e = ground arith

  after_write :
      (w : String ⊎ List String)
      → IsDelivered (after_files kubectl o w) ⊎ IsRendered (after_files kubectl o w)
  after_write (inl text) = inl (inl (failed text))
  after_write (inr written) = elim (Bool-cases (o.mode == "render")) [
    | inl e ↦
        let m : o.mode ≡ "render" = ground (arith, eq_iff o.mode "render") in
        rw (rendered written e) (inr (m, refl, refl))
    | inr e ↦ rw (applied written e) (inl (diagnosed written))
  ]

  -- A delivery either fails without applying anything, or only renders, which runs no command, or
  -- applies the manifest after the enabled checks have passed. Then it succeeds exactly if the apply
  -- does, which is its last command in that case; and after a failed apply, and only then, it applies the
  -- secret fetched just before, unless rolling back is off or no secret was fetched.
  pub deliver_lem :
      (write : TlsData → String ⊎ List String) (files : List (String × String))
      → let r = deliver_k8s_bundle kubectl o write files in IsDelivered r ⊎ IsRendered r
  unfolding deliver_k8s_bundle
  deliver_lem write files =
      after_write (write (manifest_data (record { crt = none; key = none }) files))
