-- ===== src/NodeAgent/Executor.antt =====
-- certman/node_agent/executor.py: `NodeExecutor.execute`, and HookRunner of certman/hooks/runner.py.
pub mod Laws
use certman.Base.{
  ℕ, String, Bool, true, false, Option, none, some, List, [], ◌∷◌, ◌++◌, ◌==◌, not, nat_beq,
  if◌then◌else◌, truthy_opt, or_empty, strip, lower, Exec, Result, ok, err,
}
use certman.Delivery.K8s.{Command}
use certman.Delivery.Files.{Files, Site, Machine, deliver_filesystem_bundle}
use certman.Delivery.Ingress.{
  Finished, deliver_nginx_bundle, deliver_openresty_bundle, deliver_k8s_ingress_bundle,
}
use certman.Delivery.Service.{TargetOptions, get_or, ingress_options}

-- A value of the bundle's JSON that the code takes by `str`.
pub data Value : Type 0 where
  absent null : Value
  text : String → Value

-- `str(bundle.get(key, default))`
abbrev pub str_or : Value → String → String
str_or absent d = d
str_or null d = "None"
str_or (text s) d = s

pub record Bundle : Type 0 where
  pub files : Files
  pub target_type : Value
  pub target_scope : Value
  pub delivery_options : TargetOptions

pub record Hook : Type 0 where
  pub name : String
  pub event : String
  pub command : String
  pub shell : Bool

pub record HookResult : Type 0 where
  pub hook : Hook
  pub success : Bool
  pub returncode : ℕ
  pub stdout : String
  pub stderr : String
  pub error : Option String

unfoldable pub hook_result : Hook → Finished → HookResult
hook_result h p = record {
  hook = h;
  success = nat_beq p.returncode 0;
  returncode = p.returncode;
  stdout = p.stdout;
  stderr = p.stderr;
  error = if nat_beq p.returncode 0 then none else some (strip p.stderr);
}

pub record ExecutionResult : Type 0 where
  pub success : Bool
  pub status : String
  pub delivered_paths : List String
  pub error : Option String

-- What was done on the node: the deliveries, and the hooks that were run.
pub record Host : Type 0 where
  pub site : Site
  pub hooks : List Hook

abbrev pub failure : List String → Option String → ExecutionResult
failure paths error = record {
  success = false;
  status = "failed";
  delivered_paths = paths;
  error = error;
}

abbrev pub success : List String → ExecutionResult
success paths = record {
  success = true;
  status = "completed";
  delivered_paths = paths;
  error = none;
}

-- `spawn` runs a command after the hooks before it: it ends, or raises when it cannot be started.
module _ (spawn : List Hook → Hook → Result String Finished) where
  unfoldable pub run_hook : Hook → Exec (List Hook) String HookResult
  unfolding hook_result
  run_hook h done = elim (spawn done h) [
    | err raised ↦ (err raised, done ++ h ∷ [])
    | ok p ↦ (ok (hook_result h p), done ++ h ∷ [])
  ]

  -- the loop over the hooks, after the files at `paths` were delivered
  unfoldable pub run_hooks : List String → List Hook → Exec (List Hook) String ExecutionResult
  unfolding run_hook
  run_hooks paths [] done = (ok (success paths), done)
  run_hooks paths (h ∷ hs) done =
      let rest = run_hooks paths hs (done ++ h ∷ []) in
      elim (run_hook h done).0 [
        | err raised ↦ (err raised, done ++ h ∷ [])
        | ok r ↦ if r.success then rest else (ok (failure paths r.error), done ++ h ∷ [])
      ]

module _ (m : Machine) (kubectl : String → List Command → Command → Result String Finished) where
  unfoldable pub deliver_bundle : Bundle → String → Exec Site String (List String)
  unfolding ingress_options
  deliver_bundle b target_dir =
      let kind = lower (strip (str_or b.target_type "generic")) in
      let o = b.delivery_options in
      if kind == "nginx"
      then deliver_nginx_bundle m (kubectl "") b.files target_dir
      else if kind == "openresty"
      then deliver_openresty_bundle m (kubectl "") b.files target_dir
      else if kind == "k8s-ingress"
      then deliver_k8s_ingress_bundle m (kubectl (get_or o.kubectl_bin "kubectl"))
          (ingress_options (str_or b.target_scope "") o "render") b.files target_dir
      else deliver_filesystem_bundle m b.files target_dir

  module _ (spawn : List Hook → Hook → Result String Finished) where
    unfoldable pub after_delivery :
        List Hook → Host → Result String (List String) × Site → Result String ExecutionResult × Host
    unfolding run_hooks
    after_delivery hooks host (err raised, site) =
        (ok (failure [] (some raised)), record host { site = site })
    after_delivery hooks host (ok paths, site) =
        let (r, done) = run_hooks spawn paths hooks host.hooks in
        (r, record { site = site; hooks = done })

    unfoldable pub execute : Bundle → String → List Hook → Exec Host String ExecutionResult
    unfolding deliver_bundle after_delivery
    execute b target_dir hooks host =
        after_delivery hooks host (deliver_bundle b target_dir host.site)
