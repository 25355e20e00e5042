-- ===== src/Delivery/K8s.antt =====
-- certman/delivery/k8s.py: `deliver_k8s_bundle` and the kubectl commands that it runs, in order.
pub mod Laws
use certman.Base.{
  ℕ, String, ◌<>◌, ◌⊎◌, inl, inr, ◌≡◌, Bool, true, false, Option, none, some, List, [], ◌∷◌, ◌++◌,
  ◌==◌, ◌&&◌, ◌||◌, not, nat_beq, if◌then◌else◌, map, filter, all, truthy_opt, or_empty, strip,
  lower, contains, join,
}

pub data ErrorCode : Type 0 where
  dry_run_failed rbac_denied apply_failed rollback_failed connect_timeout : ErrorCode
  manifest_invalid cluster_unreachable success_code : ErrorCode

pub record DeliveryResult : Type 0 where
  pub success : Bool
  pub written_paths : List String
  pub error_code : Option ErrorCode
  pub error_message : Option String
  pub rollback_manifest : Option String
  pub dry_run_output : Option String
  pub rbac_diagnostics : Option (List (String × Bool))

-- the return code is `none` for -1
pub record CmdResult : Type 0 where
  pub returncode : Option ℕ
  pub stdout : String
  pub stderr : String
  pub success : Bool

-- The commands, by what differs between them.
pub data Command : Type 0 where
  can_i : String → String → Command
  dry_run : Command
  get_secret : String → String → Command
  apply_file : Command
  apply_stdin : String → Command

-- What subprocess.run comes to: it returns, it times out, or it raises.
pub data Process : Type 0 where
  returned : ℕ → String → String → Process
  timed_out : Process
  raised : String → Process

-- The arguments of deliver_k8s_bundle that the control flow reads.
pub record Options : Type 0 where
  pub namespace : String
  pub secret_name : String
  pub mode : String
  pub rollback_on_failure : Bool
  pub enable_rbac_check : Bool
  pub dry_run_validation : Bool
  pub timeout_text : String

-- The `data` of the manifest: the contents for tls.crt and tls.key, for the files in order.
pub record TlsData : Type 0 where
  pub crt : Option String
  pub key : Option String

unfoldable pub add_file : TlsData → String × String → TlsData
add_file d (filename, content) =
    if contains "fullchain" filename || contains "crt" filename
    then record d { crt = some content }
    else if contains "privkey" filename || contains "key" filename
    then record d { key = some content }
    else d

unfoldable pub manifest_data : TlsData → List (String × String) → TlsData
unfolding add_file
manifest_data d [] = d
manifest_data d (f ∷ fs) = manifest_data (add_file d f) fs

unfoldable pub classify_dry_run_error : String → ErrorCode
classify_dry_run_error stderr =
    let stderr_lower = lower stderr in
    if contains "forbidden" stderr_lower || contains "rbac" stderr_lower
    then rbac_denied
    else if contains "timeout" stderr_lower || contains "connection" stderr_lower
    then connect_timeout
    else if contains "invalid" stderr_lower || contains "could not parse" stderr_lower
    then manifest_invalid
    else if contains "unreachable" stderr_lower
    then cluster_unreachable
    else dry_run_failed

abbrev pub plain : Bool → List String → Option ErrorCode → Option String → DeliveryResult
plain success written code message = record {
  success = success;
  written_paths = written;
  error_code = code;
  error_message = message;
  rollback_manifest = none;
  dry_run_output = none;
  rbac_diagnostics = none;
}

abbrev pub missing_perms : List (String × Bool) → List String
missing_perms ds = map (λ d. d.0 <> " secrets") (filter (λ d. not d.1) ds)

-- `kubectl` answers a command after the commands that were run before it.
module _ (kubectl : List Command → Command → Process) (o : Options) where
  unfoldable pub to_result : Process → CmdResult
  to_result (returned code out err) = record {
    returncode = some code;
    stdout = out;
    stderr = err;
    success = nat_beq code 0;
  }
  to_result timed_out = record {
    returncode = none;
    stdout = "";
    stderr = "Command timeout after " <> o.timeout_text <> "s";
    success = false;
  }
  to_result (raised text) = record {
    returncode = none;
    stdout = "";
    stderr = text;
    success = false;
  }

  unfoldable pub run_kubectl : Command → List Command → CmdResult
  unfolding to_result
  run_kubectl cmd history = to_result (kubectl history cmd)

  -- A return code of 0 is `success`.
  unfoldable pub is_allowed : String → List Command → Bool
  unfolding run_kubectl
  is_allowed verb history =
      let result = run_kubectl (can_i verb o.namespace) history in
      result.success && lower (strip result.stdout) == "yes"

  -- the loop over the verbs: the diagnostics, and the commands run so far
  unfoldable pub check_verbs : List String → List Command → List (String × Bool) × List Command
  unfolding is_allowed
  check_verbs [] history = ([], history)
  check_verbs (verb ∷ verbs) history =
      let rest = check_verbs verbs (history ++ can_i verb o.namespace ∷ []) in
      ((verb, is_allowed verb history) ∷ rest.0, rest.1)

  abbrev pub required_verbs : List String
  required_verbs = "get" ∷ "create" ∷ "update" ∷ []

  -- phase 7
  unfoldable pub roll_back :
      List String → Option String → CmdResult → List Command → DeliveryResult × List Command
  unfolding run_kubectl
  roll_back written previous applied history =
      if o.rollback_on_failure && truthy_opt previous
      then (
        if (run_kubectl (apply_stdin (or_empty previous)) history).success
            then plain false written (some apply_failed)
                (some ("Apply failed (rolled back): " <> applied.stderr))
            else record (plain false written (some rollback_failed)
                (some ("Apply failed + rollback failed: " <> applied.stderr))) {
                  rollback_manifest = previous;
                },
        history ++ apply_stdin (or_empty previous) ∷ [],
      )
      else (plain false written (some apply_failed) (some applied.stderr), history)

  abbrev pub fetched : CmdResult → Option String
  fetched result = if result.success then some result.stdout else none

  -- phases 5 and 6
  unfoldable pub apply : List String → List Command → DeliveryResult × List Command
  unfolding run_kubectl roll_back
  apply written history =
      let get = get_secret o.secret_name o.namespace in
      let previous = fetched (run_kubectl get history) in
      let before = history ++ get ∷ [] in
      let applied = run_kubectl apply_file before in
      let after = before ++ apply_file ∷ [] in
      if applied.success
      then (plain true written (some success_code) none, after)
      else roll_back written previous applied after

  -- phase 4
  unfoldable pub validate : List String → List Command → DeliveryResult × List Command
  unfolding run_kubectl apply classify_dry_run_error
  validate written history =
      let result = run_kubectl dry_run history in
      if o.dry_run_validation
      then if result.success then apply written (history ++ dry_run ∷ []) else (
        record (plain false written (some (classify_dry_run_error result.stderr))
            (some result.stderr)) { dry_run_output = some result.stdout },
        history ++ dry_run ∷ [],
      )
      else apply written history

  -- phase 3
  unfoldable pub diagnose : List String → List Command → DeliveryResult × List Command
  unfolding check_verbs validate
  diagnose written history =
      let checked = check_verbs required_verbs history in
      if o.enable_rbac_check
      then if all (λ d. d.1) checked.0 then validate written checked.1 else (
        record (plain false written (some rbac_denied)
            (some ("Missing RBAC permissions: " <> join ", " (missing_perms checked.0)))) {
              rbac_diagnostics = some (map (λ d. (d.0 <> "_secrets", d.1)) checked.0);
            },
        checked.1,
      )
      else validate written history

  -- after phase 1, which gave the written paths or raised
  unfoldable pub after_files : String ⊎ List String → DeliveryResult × List Command
  unfolding diagnose
  after_files (inl text) = (plain false [] (some manifest_invalid) (some text), [])
  after_files (inr written) =
      if o.mode == "render" then (plain true written none none, []) else diagnose written []

  -- `write` says what writing the files and the manifest comes to: the paths, or the exception's text.
  unfoldable pub deliver_k8s_bundle :
      (TlsData → String ⊎ List String) → List (String × String) → DeliveryResult × List Command
  unfolding manifest_data after_files
  deliver_k8s_bundle write files =
      after_files (write (manifest_data (record { crt = none; key = none }) files))
