-- ===== src/NodeAgent/Executor/Laws.antt =====
-- When an execution succeeds and which hooks it runs; and that the node delivers a bundle as the
-- control plane delivers the same target.
use certman.Base.{
  String, ◌≡◌, ◌≢◌, refl, sym, ap, ◌∙◌, ◌⊎◌, inl, inr, Bool, true, false, Option, none, some, List,
  [], ◌∷◌, ◌++◌, ◌==◌, ◌||◌, nat_beq, truthy_opt, or_empty, strip, strip_idem, Exec, Result, ok,
  err, Result-cases, Bool-cases, if◌then◌else◌, append-nil, append_assoc, arith, eq_iff,
}
use certman.Config.Entry.{Target, Entry}
use certman.Delivery.K8s.{Command}
use certman.Delivery.Files.{Files, Site, Machine}
use certman.Delivery.Ingress.{Finished}
use certman.Delivery.Service.{
  TargetOptions, AcmRequest, get_or, parse_k8s_scope, normalized_type, normalized_scope,
  ingress_options, deliver_target,
}
use certman.NodeAgent.Executor.{
  Bundle, Hook, ExecutionResult, Host, str_or, run_hooks, hook_result, run_hook, success, failure,
  deliver_bundle, after_delivery, execute,
}

module _ (spawn : List Hook → Hook → Result String Finished) where
  -- The hook ends with status 0 after those before it.
  abbrev pub Ends : List Hook → Hook → Type 0
  Ends done h = (p : Finished) × (spawn done h ≡ ok p) × (p.returncode ≡ 0)

  abbrev pub AllEnd : List Hook → List Hook → Type 0
  AllEnd done [] = Unit
  AllEnd done (h ∷ hs) = Ends done h × AllEnd (done ++ h ∷ []) hs

  -- All hooks were run, in order, and ended with status 0.
  abbrev pub HooksPass :
      List String → List Hook → List Hook → Result String ExecutionResult × List Hook → Type 0
  HooksPass paths hooks done out = AllEnd done hooks × (out ≡ (ok (success paths), done ++ hooks))

  -- What is answered after a hook that could not be started, or that ended with another status.
  abbrev pub IsFailure :
      List String → Result String Finished → Result String ExecutionResult → Type 0
  IsFailure paths ended r =
      ((text : String) × (ended ≡ err text) × (r ≡ err text))
      ⊎ ((p : Finished) × (ended ≡ ok p)
          × (p.returncode ≢ 0)
          × (r ≡ ok (failure paths (some (strip p.stderr)))))

  -- The hooks were run up to one that failed, and those after it were not.
  abbrev pub HooksFail :
      List String → List Hook → List Hook → Result String ExecutionResult × List Hook → Type 0
  HooksFail paths hooks done out =
      (before : List Hook) × (h : Hook) × (after : List Hook) × (hooks ≡ before ++ h ∷ after)
      × AllEnd done before
      × IsFailure paths (spawn (done ++ before) h) out.0
      × (out.1 ≡ done ++ before ++ h ∷ [])

  module _ (paths : List String) where
    no_hooks : (done : List Hook) → run_hooks spawn paths [] done ≡ (ok (success paths), done ++ [])
    unfolding run_hooks
    no_hooks done = rw (append-nil done) refl

    hook_raises :
        (h : Hook) (hs done : List Hook) (text : String)
        → spawn done h ≡ err text
        → run_hooks spawn paths (h ∷ hs) done ≡ (err text, done ++ h ∷ [])
    unfolding run_hooks run_hook
    hook_raises h hs done text e = ground arith

    hook_fails :
        (h : Hook) (hs done : List Hook) (p : Finished)
        → spawn done h ≡ ok p
        → nat_beq p.returncode 0 ≡ false
        → run_hooks spawn paths (h ∷ hs) done
          ≡ (ok (failure paths (some (strip p.stderr))), done ++ h ∷ [])
    unfolding run_hooks run_hook hook_result
    hook_fails h hs done p e f = ground arith

    hook_ends :
        (h : Hook) (hs done : List Hook) (p : Finished)
        → spawn done h ≡ ok p
        → nat_beq p.returncode 0 ≡ true
        → run_hooks spawn paths (h ∷ hs) done ≡ run_hooks spawn paths hs (done ++ h ∷ [])
    unfolding run_hooks run_hook hook_result
    hook_ends h hs done p e f = ground arith

    pass_more :
        (h : Hook) (hs done : List Hook)
        → Ends done h
        → HooksPass paths hs (done ++ h ∷ []) (run_hooks spawn paths hs (done ++ h ∷ []))
        → HooksPass paths (h ∷ hs) done (run_hooks spawn paths (h ∷ hs) done)
    pass_more h hs done (p, e, z) (a, q) = (
      ((p, e, z), a),
      hook_ends h hs done p e (ground arith)
          ∙ q
          ∙ ap (λ l. (ok (success paths), l)) (append_assoc done (h ∷ []) hs),
    )

    fail_more :
        (h : Hook) (hs done : List Hook)
        → Ends done h
        → HooksFail paths hs (done ++ h ∷ []) (run_hooks spawn paths hs (done ++ h ∷ []))
        → HooksFail paths (h ∷ hs) done (run_hooks spawn paths (h ∷ hs) done)
    fail_more h hs done (p, e, z) (before, g, after, q, a, f, t) = (
      h ∷ before,
      g,
      after,
      ap (λ l. h ∷ l) q,
      ((p, e, z), a),
      rw (hook_ends h hs done p e (ground arith)) (rw (append_assoc done (h ∷ []) before) at f),
      rw (hook_ends h hs done p e (ground arith))
          (t ∙ ap (λ l. l ++ g ∷ []) (append_assoc done (h ∷ []) before)),
    )

    -- The loop over the hooks runs all of them, or stops at the first that fails.
    run_hooks_lem :
        (hooks done : List Hook)
        → HooksPass paths hooks done (run_hooks spawn paths hooks done)
          ⊎ HooksFail paths hooks done (run_hooks spawn paths hooks done)
    run_hooks_lem [] done = inl (tt, no_hooks done)
    run_hooks_lem (h ∷ hs) done = elim (Result-cases (spawn done h)) [
      | inl (text, e) ↦ inr (
        [],
        h,
        hs,
        refl,
        tt,
        rw (append-nil done, hook_raises h hs done text e) (inl (text, e, refl)),
        rw (append-nil done, hook_raises h hs done text e) refl,
      )
      | inr (p, e) ↦ elim (Bool-cases (nat_beq p.returncode 0)) [
        | inl z ↦ elim (run_hooks_lem hs (done ++ h ∷ [])) [
          | inl pass ↦ inl (pass_more h hs done (p, e, ground arith) pass)
          | inr fail ↦ inr (fail_more h hs done (p, e, ground arith) fail)
        ]
        | inr z ↦ inr (
          [],
          h,
          hs,
          refl,
          tt,
          rw (append-nil done, hook_fails h hs done p e z) (inr (p, e, ground arith, refl)),
          rw (append-nil done, hook_fails h hs done p e z) refl,
        )
      ]
    ]

module _ (m : Machine) (kubectl : String → List Command → Command → Result String Finished)
    (spawn : List Hook → Hook → Result String Finished) (b : Bundle) (target_dir : String)
    (hooks : List Hook) (host : Host) where
  abbrev pub delivery : Result String (List String) × Site
  delivery = deliver_bundle m kubectl b target_dir host.site

  -- The delivery was refused: no hook is run, and the answer has the text of the exception.
  abbrev pub IsUndelivered : Result String ExecutionResult × Host → Type 0
  IsUndelivered out =
      (text : String) × (delivery.0 ≡ err text)
      × (out ≡ (ok (failure [] (some text)), record host { site = delivery.1 }))

  -- The files were delivered, and then the hooks were run.
  abbrev pub IsHooked : Result String ExecutionResult × Host → Type 0
  IsHooked out =
      (paths : List String) × (delivery.0 ≡ ok paths)
      × (out.1.site ≡ delivery.1)
      × (HooksPass spawn paths hooks host.hooks (out.0, out.1.hooks)
          ⊎ HooksFail spawn paths hooks host.hooks (out.0, out.1.hooks))

  ended :
      (d : Result String (List String) × Site)
      → delivery ≡ d
      → IsUndelivered (after_delivery m kubectl spawn hooks host d)
        ⊎ IsHooked (after_delivery m kubectl spawn hooks host d)
  unfolding after_delivery
  ended (err text, site) e = inl (
    text,
    ap (λ d. d.0) e,
    ap (λ d. (ok (failure [] (some text)), record host { site = d.1 })) (sym e),
  )
  ended (ok paths, site) e =
      inr
        (paths, ap (λ d. d.0) e, sym (ap (λ d. d.1) e), run_hooks_lem spawn paths hooks host.hooks)

  -- An execution never runs a hook when the delivery is refused. Otherwise it runs the hooks in order
  -- after the delivery: it is completed if all of them end with status 0, and else stops at the first
  -- that does not, and fails with its output, or raises if that hook cannot be started.
  pub execute_lem :
      IsUndelivered (execute m kubectl spawn b target_dir hooks host)
      ⊎ IsHooked (execute m kubectl spawn b target_dir hooks host)
  unfolding execute
  execute_lem = ended delivery refl

-- The types that the service and the agent both deliver.
abbrev pub is_shared : String → Bool
is_shared kind =
    kind == "generic" || kind == "nginx" || kind == "openresty" || kind == "k8s-ingress"

-- The options with the agent's default mode written out.
abbrev pub rendering : TargetOptions → TargetOptions
rendering o = record o { mode = some (get_or o.mode "render") }

scope_empty : (scope : Option String) → truthy_opt scope ≡ false → or_empty scope ≡ ""
scope_empty none h = refl
scope_empty (some String.[]) h = refl
scope_empty (some (String.◌∷◌ c s)) h = absurd (ground arith)

parse-strip : (s : String) → parse_k8s_scope (strip s) ≡ parse_k8s_scope s
unfolding parse_k8s_scope
parse-strip s = rw (strip_idem s) refl

scope_as :
    (t : Target) (s : String)
    → or_empty t.scope ≡ s
    → parse_k8s_scope (or_empty (normalized_scope t)) ≡ parse_k8s_scope s
scope_as t s h = elim (Bool-cases (truthy_opt t.scope)) [
  | inl e ↦ rw (e, if◌then◌else◌) (parse-strip (or_empty t.scope) ∙ ap (parse_k8s_scope) h)
  | inr e ↦ rw (e, if◌then◌else◌) (ap (parse_k8s_scope) (sym (scope_empty t.scope e) ∙ h))
]

kinds_of :
    (kind : String)
    → is_shared kind ≡ true
    → (kind ≡ "generic") ⊎ ((kind ≡ "nginx") ⊎ ((kind ≡ "openresty") ⊎ (kind ≡ "k8s-ingress")))
kinds_of kind h = elim (Bool-cases (kind == "generic")) [
  | inl e ↦ inl (ground (arith, eq_iff kind "generic"))
  | inr e ↦ elim (Bool-cases (kind == "nginx")) [
    | inl f ↦ inr (inl (ground (arith, eq_iff kind "nginx")))
    | inr f ↦ elim (Bool-cases (kind == "openresty")) [
      | inl g ↦ inr (inr (inl (ground (arith, eq_iff kind "openresty"))))
      | inr g ↦ inr (inr (inr (ground (arith, eq_iff kind "k8s-ingress"))))
    ]
  ]
]

-- The two orders in which the types are tested come to the same.
same_choice :
    {A : Type 0} (kind : String) (files nginx openresty ingress acm other : A)
    → is_shared kind ≡ true
    → (if kind == "nginx"
        then nginx
        else if kind == "openresty"
        then openresty
        else if kind == "k8s-ingress"
        then ingress
        else files)
      ≡ (if kind == "generic"
          then files
          else if kind == "nginx"
          then nginx
          else if kind == "openresty"
          then openresty
          else if kind == "k8s-ingress"
          then ingress
          else if kind == "aws-acm"
          then acm
          else other)
same_choice kind files nginx openresty ingress acm other h = elim (kinds_of kind h) [
  | inl e ↦ rw e refl
  | inr (inl e) ↦ rw e refl
  | inr (inr (inl e)) ↦ rw e refl
  | inr (inr (inr e)) ↦ rw e refl
]

same_options :
    (t : Target) (o : TargetOptions) (scope : String)
    → or_empty t.scope ≡ scope
    → ingress_options scope o "render"
      ≡ ingress_options (or_empty (normalized_scope t)) (rendering o) "apply"
unfolding ingress_options
same_options t o scope h = rw (scope_as t scope h) refl

module _ (m : Machine) (kubectl : String → List Command → Command → Result String Finished)
    (acm : AcmRequest → Files → String → Exec Site String (List String)) where
  -- For the types that both deliver, the agent does with a bundle what the service does with a target
  -- of the bundle's type and scope and the same options, where the mode is rendering unless given.
  pub deliver_bundle_as_target :
      (b : Bundle) (e : Entry) (t : Target) (target_dir : String) (s : Site)
      → t.kind ≡ str_or b.target_type "generic"
      → or_empty t.scope ≡ str_or b.target_scope ""
      → is_shared (normalized_type t) ≡ true
      → deliver_bundle m kubectl b target_dir s
        ≡ deliver_target m kubectl acm e t (rendering b.delivery_options) b.files target_dir s
  unfolding deliver_bundle deliver_target
  deliver_bundle_as_target b e t target_dir s same_kind same_scope shared =
      rw (same_options t b.delivery_options _ same_scope, ← same_kind)
        (ap (λ (f : Exec Site String (List String)). f s)
          (same_choice (normalized_type t) _ _ _ _ _ _ shared))
