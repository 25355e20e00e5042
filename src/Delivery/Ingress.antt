-- ===== src/Delivery/Ingress.antt =====
-- certman/delivery/adapters.py: the adapters for Nginx, OpenResty and Kubernetes ingress.
pub mod Laws
pub mod Total
use Prim.Native.Char.{Char, code}
use certman.Base.{
  ℕ, String, ◌<>◌, Bool, true, false, Option, none, some, List, [], ◌∷◌, ◌++◌, ◌==◌, ◌&&◌, ◌||◌,
  leb, nat_beq, not, if◌then◌else◌, map, find?, truthy, truthy_opt, or_empty, strip, lower, join,
  Exec, Result, ok, err, pure, raise, ◌>>=◌, ◌>>◌,
}
use certman.Delivery.K8s.{Command, get_secret, apply_file, apply_stdin}
use certman.Delivery.Files.{Files, Site, Machine, write_text, deliver_filesystem_bundle}

abbrev pub second_of : Option (String × String) → Option String
second_of none = none
second_of (some p) = some p.1

-- `files.get(name)`
abbrev pub get_file : String → Files → Option String
get_file name files = second_of (find? (λ f. f.0 == name) files)

-- `a or b`
abbrev pub or_else : Option String → Option String → Option String
or_else a b = if truthy_opt a then a else b

-- the characters at which `str.splitlines` breaks a line
unfoldable pub is_break : Char → Bool
is_break c =
    let n = code c in
    (leb 10 n && leb n 13)
    || (leb 28 n && leb n 30)
    || nat_beq n 133
    || nat_beq n 8232
    || nat_beq n 8233

abbrev pub drop_newline : String → String
drop_newline String.[] = ""
drop_newline (String.◌∷◌ c s) = if nat_beq (code c) 10 then s else String.◌∷◌ c s

-- A carriage return and a newline are one break.
unfoldable pub one_break : String → String
one_break String.[] = ""
one_break (String.◌∷◌ c s) =
    let rest = one_break s in String.◌∷◌ c (if nat_beq (code c) 13 then drop_newline rest else rest)

unfoldable pub break_lines : String → List String
unfolding is_break
break_lines String.[] = []
break_lines (String.◌∷◌ c s) =
    let rest = break_lines s in
    if is_break c
    then "" ∷ rest
    else elim rest [ [] ↦ String.◌∷◌ c "" ∷ [] | l ∷ ls ↦ String.◌∷◌ c l ∷ ls ]

unfoldable pub indent_block : String → String
unfolding one_break break_lines
indent_block value = join "\n" (map (λ line. "    " <> line) (break_lines (one_break value)))

unfoldable pub tls_manifest : String → String → String → String → String
unfolding indent_block
tls_manifest secret_name namespace tls_crt tls_key =
    "apiVersion: v1\nkind: Secret\nmetadata:\n"
    <> "  name: "
    <> secret_name
    <> "\n"
    <> "  namespace: "
    <> namespace
    <> "\n"
    <> "type: kubernetes.io/tls\nstringData:\n  tls.crt: |-\n"
    <> indent_block tls_crt
    <> "\n"
    <> "  tls.key: |-\n"
    <> indent_block tls_key
    <> "\n"

-- A process that has ended.
pub record Finished : Type 0 where
  pub returncode : ℕ
  pub stdout : String
  pub stderr : String

pub record IngressOptions : Type 0 where
  pub namespace : String
  pub secret_name : String
  pub mode : String
  pub rollback_on_failure : Bool

-- `kubectl` answers a command after those before it, or raises, as when the program is missing.
module _ (m : Machine) (kubectl : List Command → Command → Result String Finished) where
  unfoldable pub run_command : Command → Exec Site String Finished
  run_command c s = elim (kubectl s.commands c) [
    | err text ↦ (err text, record s { commands = s.commands ++ c ∷ [] })
    | ok p ↦ (ok p, record s { commands = s.commands ++ c ∷ [] })
  ]

  abbrev pub content_or_none : Finished → Option String
  content_or_none p =
      if not (nat_beq p.returncode 0)
      then none
      else if truthy (strip p.stdout)
      then some (strip p.stdout)
      else none

  unfoldable pub try_fetch_existing_secret : String → String → Exec Site String (Option String)
  unfolding run_command
  try_fetch_existing_secret namespace secret_name = do
    proc ← run_command (get_secret secret_name namespace)
    pure (content_or_none proc)

  abbrev pub rollback_text : Finished → Finished → String
  rollback_text applied rolled =
      if nat_beq rolled.returncode 0
      then "k8s apply failed and rolled back: " <> strip applied.stderr
      else "k8s apply failed and rollback failed: apply_stderr="
        <> strip applied.stderr
        <> " rollback_stderr="
        <> strip rolled.stderr

  -- after an apply that failed: every way out raises
  unfoldable pub roll_back_secret :
      IngressOptions → Option String → Finished → Exec Site String (List String)
  unfolding run_command
  roll_back_secret o previous applied =
      if o.rollback_on_failure && truthy_opt previous
      then (run_command (apply_stdin (or_empty previous)) >>= λ rolled.
          raise (rollback_text applied rolled))
      else raise ("k8s apply failed: " <> strip applied.stderr)

  unfoldable pub apply_secret : IngressOptions → List String → Exec Site String (List String)
  unfolding try_fetch_existing_secret roll_back_secret
  apply_secret o written = do
    previous ← try_fetch_existing_secret o.namespace o.secret_name
    applied ← run_command apply_file
    if nat_beq applied.returncode 0 then pure written else roll_back_secret o previous applied

  -- after the manifest was written
  unfoldable pub manage_secret : IngressOptions → List String → Exec Site String (List String)
  unfolding apply_secret
  manage_secret o written =
      let mode = lower (strip o.mode) in
      if mode == "render"
      then pure written
      else if not (mode == "apply")
      then raise ("unsupported k8s delivery mode: " <> o.mode)
      else apply_secret o written

  unfoldable pub with_manifest :
      IngressOptions
      → String
      → List String
      → Option String
      → Option String
      → Exec Site String (List String)
  unfolding tls_manifest write_text manage_secret
  with_manifest o target_dir written (some tls_crt) (some tls_key) = do
    let path = m.join_path target_dir "k8s-tls-secret.yaml"
    write_text m path (tls_manifest o.secret_name o.namespace tls_crt tls_key)
    manage_secret o (written ++ path ∷ [])
  with_manifest o target_dir written none _ = pure written
  with_manifest o target_dir written (some tls_crt) none = pure written

  unfoldable pub deliver_k8s_ingress_bundle :
      IngressOptions → Files → String → Exec Site String (List String)
  unfolding deliver_filesystem_bundle with_manifest
  deliver_k8s_ingress_bundle o files target_dir = do
    written ← deliver_filesystem_bundle m files target_dir
    with_manifest o target_dir written
        (or_else (get_file "fullchain.pem" files) (get_file "cert.pem" files))
        (get_file "privkey.pem" files)

  abbrev pub deliver_nginx_bundle : Files → String → Exec Site String (List String)
  deliver_nginx_bundle files target_dir = deliver_filesystem_bundle m files target_dir

  abbrev pub deliver_openresty_bundle : Files → String → Exec Site String (List String)
  deliver_openresty_bundle files target_dir = deliver_filesystem_bundle m files target_dir
