-- ===== src/Delivery/Ingress/Laws.antt =====
-- Every way in which a delivery to a Kubernetes ingress ends.
use certman.Base.{
  String, ◌<>◌, ◌≡◌, ◌≢◌, refl, ap, ◌∙◌, ◌⊎◌, inl, inr, true, false, Option, none, some, List, [],
  ◌∷◌, ◌++◌, ◌==◌, ◌&&◌, nat_beq, truthy_opt, truthy, strip, lower, Result, ok, err, Result-cases,
  Option-cases, Bool-cases, append_assoc, arith, eq_iff,
}
use certman.Delivery.K8s.{Command, get_secret, apply_file, apply_stdin}
use certman.Delivery.Files.{Site, Machine}
use certman.Delivery.Ingress.{
  Finished, IngressOptions, run_command, content_or_none, rollback_text, try_fetch_existing_secret,
  roll_back_secret, apply_secret, manage_secret,
}

abbrev pub ran : Site → List Command → Site
ran s cs = record s { commands = s.commands ++ cs }

module _ (m : Machine) (kubectl : List Command → Command → Result String Finished)
    (o : IngressOptions) where
  abbrev pub get : Command
  get = get_secret o.secret_name o.namespace

  -- The secret was asked for, and the command to apply the manifest ended.
  abbrev pub Applies : Site → Finished → Finished → Type 0
  Applies s g p =
      (kubectl s.commands get ≡ ok g) × (kubectl (s.commands ++ get ∷ []) apply_file ≡ ok p)

  abbrev pub after : Site → Site
  after s = ran s (get ∷ apply_file ∷ [])

  pub data ApplyEnd (written : List String) (s : Site) (out : Result String (List String) × Site)
      : Type 0 where
    -- kubectl cannot be run
    get_raises :
        {text : String}
        → kubectl s.commands get ≡ err text
        → out ≡ (err text, ran s (get ∷ []))
        → ApplyEnd written s out
    apply_raises :
        {g : Finished} {text : String}
        → kubectl s.commands get ≡ ok g
        → kubectl (s.commands ++ get ∷ []) apply_file ≡ err text
        → out ≡ (err text, after s)
        → ApplyEnd written s out
    is_applied :
        {g p : Finished}
        → Applies s g p
        → p.returncode ≡ 0
        → out ≡ (ok written, after s)
        → ApplyEnd written s out
    -- a failed apply, with nothing to roll back to or no wish to
    is_left :
        {g p : Finished}
        → Applies s g p
        → p.returncode ≢ 0
        → (o.rollback_on_failure ≡ false) ⊎ (content_or_none m kubectl g ≡ none)
        → out ≡ (err ("k8s apply failed: " <> strip p.stderr), after s)
        → ApplyEnd written s out
    -- a failed apply, after which the secret that was there is applied
    is_rolled_back :
        {g p : Finished} {previous text : String}
        → Applies s g p
        → p.returncode ≢ 0
        → o.rollback_on_failure ≡ true
        → content_or_none m kubectl g ≡ some previous
        → out ≡ (err text, ran s (get ∷ apply_file ∷ apply_stdin previous ∷ []))
        → ApplyEnd written s out

  run_raises :
      (c : Command) (s : Site) (text : String)
      → kubectl s.commands c ≡ err text
      → run_command m kubectl c s ≡ (err text, ran s (c ∷ []))
  unfolding run_command
  run_raises c s text h = ground arith

  run_ends :
      (c : Command) (s : Site) (p : Finished)
      → kubectl s.commands c ≡ ok p
      → run_command m kubectl c s ≡ (ok p, ran s (c ∷ []))
  unfolding run_command
  run_ends c s p h = ground arith

  module _ (written : List String) (s : Site) where
    get_stuck :
        (text : String)
        → kubectl s.commands get ≡ err text
        → apply_secret m kubectl o written s ≡ (err text, ran s (get ∷ []))
    unfolding apply_secret try_fetch_existing_secret run_command
    get_stuck text h = ground arith

    two : ran (ran s (get ∷ [])) (apply_file ∷ []) ≡ after s
    two = ap (λ c. record s { commands = c }) (append_assoc s.commands (get ∷ []) (apply_file ∷ []))

    three : (c : Command) → ran (after s) (c ∷ []) ≡ ran s (get ∷ apply_file ∷ c ∷ [])
    three c =
        ap (λ l. record s { commands = l })
          (append_assoc s.commands (get ∷ apply_file ∷ []) (c ∷ []))

    apply_stuck :
        (g : Finished) (text : String)
        → kubectl s.commands get ≡ ok g
        → kubectl (s.commands ++ get ∷ []) apply_file ≡ err text
        → apply_secret m kubectl o written s ≡ (err text, ran (ran s (get ∷ [])) (apply_file ∷ []))
    unfolding apply_secret try_fetch_existing_secret run_command
    apply_stuck g text h k = ground arith

    apply_ends :
        (g p : Finished)
        → Applies s g p
        → p.returncode ≡ 0
        → apply_secret m kubectl o written s
          ≡ (ok written, ran (ran s (get ∷ [])) (apply_file ∷ []))
    unfolding apply_secret try_fetch_existing_secret run_command
    apply_ends g p (h, k) z = ground arith

    apply_fails :
        (g p : Finished)
        → Applies s g p
        → nat_beq p.returncode 0 ≡ false
        → apply_secret m kubectl o written s
          ≡ roll_back_secret m kubectl o
              (content_or_none m kubectl g)
              p
              (ran (ran s (get ∷ [])) (apply_file ∷ []))
    unfolding apply_secret try_fetch_existing_secret run_command
    apply_fails g p (h, k) z = ground arith

    content_truthy :
        (g : Finished) (previous : String)
        → content_or_none m kubectl g ≡ some previous
        → truthy previous ≡ true
    content_truthy g previous h = elim (Bool-cases (truthy (strip g.stdout))) [
      | inl e ↦ let same : strip g.stdout ≡ previous = ground arith in rw (← same) e
      | inr e ↦ absurd (ground arith)
    ]

    no_roll_back :
        (s' : Site) (previous : Option String) (p : Finished)
        → (o.rollback_on_failure && truthy_opt previous) ≡ false
        → roll_back_secret m kubectl o previous p s'
          ≡ (err ("k8s apply failed: " <> strip p.stderr), s')
    unfolding roll_back_secret
    no_roll_back s' previous p h = ground arith

    roll_back_lem :
        (s' : Site) (previous : String) (p : Finished)
        → (o.rollback_on_failure && truthy previous) ≡ true
        → (text : String) × (roll_back_secret m kubectl o (some previous) p s'
            ≡ (err text, ran s' (apply_stdin previous ∷ [])))
    unfolding roll_back_secret run_command
    roll_back_lem s' previous p h =
        elim (Result-cases (kubectl s'.commands (apply_stdin previous))) [
          | inl (text, e) ↦ (text, ground arith)
          | inr (r, e) ↦ (rollback_text m kubectl p r, ground arith)
        ]

    failed_end :
        (g p : Finished)
        → Applies s g p
        → nat_beq p.returncode 0 ≡ false
        → ApplyEnd written s (apply_secret m kubectl o written s)
    failed_end g p a z = elim (Bool-cases o.rollback_on_failure) [
      | inr r ↦
          is_left a (ground arith) (inl r)
            (apply_fails g p a z ∙ rw two (no_roll_back (after s) _ p (ground arith)))
      | inl r ↦ elim (Option-cases (content_or_none m kubectl g)) [
        | inl c ↦
            is_left a (ground arith) (inr c)
              (apply_fails g p a z ∙ rw two (no_roll_back (after s) _ p (rw (r, c) refl)))
        | inr (previous, c) ↦
            let t : truthy previous ≡ true = content_truthy g previous c in
            let (text, e) = roll_back_lem (after s) previous p (ground arith) in
            is_rolled_back {text = text} a (ground arith) r c (
              apply_fails g p a z
              ∙ rw (two, c) e
              ∙ ap (λ t. (err text, t)) (three (apply_stdin previous)))
      ]
    ]

    apply_secret_lem : ApplyEnd written s (apply_secret m kubectl o written s)
    apply_secret_lem = elim (Result-cases (kubectl s.commands get)) [
      | inl (text, h) ↦ get_raises h (get_stuck text h)
      | inr (g, h) ↦ elim (Result-cases (kubectl (s.commands ++ get ∷ []) apply_file)) [
        | inl (text, k) ↦ apply_raises h k (apply_stuck g text h k ∙ ap (λ t. (err text, t)) two)
        | inr (p, k) ↦ elim (Bool-cases (nat_beq p.returncode 0)) [
          | inl z ↦
              is_applied (h, k) (ground arith)
                (apply_ends g p (h, k) (ground arith) ∙ ap (λ t. (ok written, t)) two)
          | inr z ↦ failed_end g p (h, k) z
        ]
      ]
    ]

  abbrev pub mode : String
  mode = lower (strip o.mode)

  -- What is done after the files and the manifest: nothing, or the apply.
  pub data ManageEnd (written : List String) (s : Site) (out : Result String (List String) × Site)
      : Type 0 where
    is_rendered : mode ≡ "render" → out ≡ (ok written, s) → ManageEnd written s out
    is_unsupported :
        mode ≢ "render"
        → mode ≢ "apply"
        → out ≡ (err ("unsupported k8s delivery mode: " <> o.mode), s)
        → ManageEnd written s out
    is_managed : mode ≡ "apply" → ApplyEnd written s out → ManageEnd written s out

  module _ (written : List String) (s : Site) where
    manage_render :
        (mode == "render") ≡ true → manage_secret m kubectl o written s ≡ (ok written, s)
    unfolding manage_secret
    manage_render h = ground arith

    manage_other :
        (mode == "render") ≡ false
        → (mode == "apply") ≡ false
        → manage_secret m kubectl o written s
          ≡ (err ("unsupported k8s delivery mode: " <> o.mode), s)
    unfolding manage_secret
    manage_other h k = ground arith

    manage_apply :
        (mode == "render") ≡ false
        → (mode == "apply") ≡ true
        → manage_secret m kubectl o written s ≡ apply_secret m kubectl o written s
    unfolding manage_secret
    manage_apply h k = rw (h, k) refl

    pub manage_secret_lem : ManageEnd written s (manage_secret m kubectl o written s)
    manage_secret_lem = elim (Bool-cases (mode == "render")) [
      | inl h ↦ is_rendered (ground (arith, eq_iff mode "render")) (manage_render h)
      | inr h ↦ elim (Bool-cases (mode == "apply")) [
        | inl k ↦
            rw (manage_apply h k)
              (is_managed (ground (arith, eq_iff mode "apply")) (apply_secret_lem written s))
        | inr k ↦
            is_unsupported (ground (arith, eq_iff mode "render"))
              (ground (arith, eq_iff mode "apply")) (manage_other h k)
      ]
    ]
