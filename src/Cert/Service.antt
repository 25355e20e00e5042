-- ===== src/Cert/Service.antt =====
-- certman/services/cert_service.py and certman/certbot_runner.py: issuing and renewing by certbot.
pub mod Prepared
pub mod Commands
pub mod Plans
pub mod Laws
pub mod Issue
mod Tests
use certman.Base.{
  ℕ, String, ◌<>◌, Bool, true, false, Option, none, some, List, [], ◌∷◌, ◌++◌, ◌==◌, ◌&&◌, ◌||◌,
  not, nat_beq, if◌then◌else◌, filter, find?, truthy, truthy_opt, or_empty, lower, contains, Exec,
  Result, ok, err, pure, raise, lift, gets, ◌>>=◌, ◌>>◌,
}
use certman.Config.Entry.{Entry, Env, entry_domains, is_cons}
use certman.Delivery.Ingress.{Finished}
use certman.Cert.Lineage.{RenewalDir, LineageError, strict_mode, resolve_entry_cert_name}
use certman.Cert.Providers.{
  AliyunCredentials, CloudflareCredentials, AwsCredentials, aliyun_credentials_for_entry,
  cloudflare_credentials_for_entry, route53_credentials_for_entry, aliyun_ini, cloudflare_ini,
}

-- A run of certbot: the command, and the environment of the process.
pub record Run : Type 0 where
  pub cmd : List String
  pub env : Env

-- What was done: the credential files written, and the runs, in order.
pub record Site : Type 0 where
  pub written : List (String × String)
  pub runs : List Run

-- Values to set, and with none the variables to remove.
abbrev pub Overrides : Type 0
Overrides = List (String × Option String)

unfoldable pub overridden : Env → Overrides → Env
overridden env [] = env
overridden env ((key, value) ∷ rest) = overridden (λ k. if k == key then value else env k) rest

pub record IssueResult : Type 0 where
  pub success : Bool
  pub entry_name : String
  pub domains : List String
  pub admin_required : Bool
  pub error : Option String

pub record RenewResult : Type 0 where
  pub success : Bool
  pub entry_name : String
  pub renewed : Bool
  pub dry_run : Bool
  pub admin_required : Bool
  pub error : Option String

pub record RenewPlan : Type 0 where
  pub entry : Entry
  pub cert_name : String
  pub env_overrides : Overrides

-- What the service is configured with. `certbot` answers a run after those before it, or raises.
pub record Runtime : Type 0 where
  pub entries : List Entry
  pub email : String
  pub acme_server : String
  pub env : Env
  pub renewals : Entry → RenewalDir
  pub path_args : List String
  pub credentials_path : String → String
  pub certbot : List Run → Run → Result String Finished

-- `(self.stderr or "").lower()` has one of the two texts
unfoldable pub is_admin_required_error : Finished → Bool
is_admin_required_error r =
    contains "administrative rights" (lower r.stderr) || contains "administrator" (lower r.stderr)

abbrev pub first_text : String → String → String → String
first_text a b c = if truthy a then a else if truthy b then b else c

abbrev pub error_of : Finished → String → Option String
error_of r fallback =
    if nat_beq r.returncode 0 then none else some (first_text r.stderr r.stdout fallback)

-- with `passthrough` the output is not captured
abbrev pub captured : Bool → Finished → Finished
captured passthrough r = if passthrough then record r { stdout = ""; stderr = "" } else r

-- The error `none` of a lineage has its own texts, which are left out.
abbrev pub lineage_result : Result LineageError String → Result String String
lineage_result (ok name) = ok name
lineage_result (err _) = err "no single certificate lineage"

module _ (rt : Runtime) where
  abbrev pub run_of : List String → Overrides → Run
  run_of args overrides = record {
    cmd = "certbot" ∷ args ++ rt.path_args ++ "--non-interactive" ∷ [];
    env = overridden rt.env overrides;
  }

  unfoldable pub run_certbot : List String → Bool → Overrides → Exec Site String Finished
  unfolding overridden
  run_certbot args passthrough overrides s = elim (rt.certbot s.runs (run_of args overrides)) [
    | err text ↦ (err text, record s { runs = s.runs ++ run_of args overrides ∷ [] })
    | ok p ↦ (ok (captured passthrough p), record s { runs = s.runs ++ run_of args overrides ∷ [] })
  ]

  -- `entry.account_id or entry.name`
  abbrev pub owner : Entry → String
  owner e = if truthy_opt e.account_id then or_empty e.account_id else e.name

  abbrev pub store : String → String → Exec Site String String
  store name text s = (
    ok (rt.credentials_path name),
    record s { written = s.written ++ (rt.credentials_path name, text) ∷ [] },
  )

  unfoldable pub prepare_aliyun : Entry → Exec Site String String
  prepare_aliyun e s = elim (aliyun_credentials_for_entry rt.env e) [
    | err x ↦ (err x, s)
    | ok c ↦ store ("aliyun_" <> owner e <> ".ini") (aliyun_ini c) s
  ]

  unfoldable pub prepare_cloudflare : Entry → Exec Site String String
  prepare_cloudflare e s = elim (cloudflare_credentials_for_entry rt.env e) [
    | err x ↦ (err x, s)
    | ok c ↦ store ("cloudflare_" <> owner e <> ".ini") (cloudflare_ini c) s
  ]

  abbrev pub aws_overrides : AwsCredentials → Overrides
  aws_overrides c =
      ("AWS_ACCESS_KEY_ID", some c.access_key_id)
      ∷ ("AWS_SECRET_ACCESS_KEY", some c.secret_access_key)
      ∷ ("AWS_DEFAULT_REGION", some c.region)
      ∷ ("AWS_SESSION_TOKEN", c.session_token)
      ∷ ("AWS_PROFILE", none)
      ∷ ("AWS_DEFAULT_PROFILE", none)
      ∷ ("AWS_SHARED_CREDENTIALS_FILE", none)
      ∷ ("AWS_CONFIG_FILE", none)
      ∷ []

  unfoldable pub route53_env : Entry → Exec Site String Overrides
  route53_env e s = elim (route53_credentials_for_entry rt.env e) [
    | err x ↦ (err x, s)
    | ok c ↦ (ok (aws_overrides c), s)
  ]

  abbrev pub authenticator : String → String → List String
  authenticator plugin file =
      "--authenticator" ∷ plugin ∷ ("--" <> plugin <> "-credentials") ∷ file ∷ []

  -- the authenticator's arguments and the overrides of `issue`
  unfoldable pub prepare_issue : Entry → Exec Site String (List String × Overrides)
  unfolding prepare_aliyun prepare_cloudflare route53_env
  prepare_issue e =
      let provider = lower e.dns_provider in
      if provider == "aliyun"
      then (prepare_aliyun e >>= λ file. pure (authenticator "dns-aliyun" file, []))
      else if provider == "cloudflare"
      then (prepare_cloudflare e >>= λ file. pure (authenticator "dns-cloudflare" file, []))
      else if provider == "route53"
      then (route53_env e >>= λ overrides. pure ("--authenticator" ∷ "dns-route53" ∷ [], overrides))
      else raise ("unsupported dns_provider: " <> e.dns_provider)

  -- `_prepare_credentials`
  unfoldable pub prepare_credentials : Entry → Exec Site String Overrides
  unfolding prepare_aliyun prepare_cloudflare route53_env
  prepare_credentials e =
      let provider = lower e.dns_provider in
      if provider == "aliyun"
      then (prepare_aliyun e >>= λ file. pure [])
      else if provider == "cloudflare"
      then (prepare_cloudflare e >>= λ file. pure [])
      else if provider == "route53"
      then route53_env e
      else raise ("unsupported dns_provider: " <> e.dns_provider)

  abbrev pub domain_args : List String → List String
  domain_args [] = []
  domain_args (d ∷ ds) = "-d" ∷ d ∷ domain_args ds

  abbrev pub flag : Bool → String → List String
  flag b name = if b then name ∷ [] else []

  unfoldable pub issue_args : Entry → Bool → List String → List String
  issue_args e force auth_args =
      "certonly" ∷ auth_args
      ++ "--agree-tos" ∷ "--email" ∷ rt.email ∷ []
      ++ flag (rt.acme_server == "staging") "--test-cert"
      ++ flag force "--force-renewal"
      ++ domain_args (entry_domains e)

  abbrev pub get_entry : String → Result String Entry
  get_entry name = elim (find? (λ e. e.name == name) rt.entries) [
    | none ↦ err ("entry not found: " <> name)
    | some e ↦ ok e
  ]

  unfoldable pub issue_result : Entry → Finished → IssueResult
  unfolding is_admin_required_error
  issue_result e r = record {
    success = nat_beq r.returncode 0;
    entry_name = e.name;
    domains = entry_domains e;
    admin_required = is_admin_required_error r;
    error = error_of r "certbot failed";
  }

  unfoldable pub issue_entry : Entry → Bool → Bool → Exec Site String IssueResult
  unfolding prepare_issue run_certbot issue_args issue_result
  issue_entry e force verbose = do
    prepared ← prepare_issue e
    r ← run_certbot (issue_args e force prepared.0) verbose prepared.1
    pure (issue_result e r)

  unfoldable pub issue : String → Bool → Bool → Exec Site String IssueResult
  unfolding issue_entry
  issue name force verbose s = elim (get_entry name) [
    | err x ↦ (err x, s)
    | ok e ↦ issue_entry e force verbose s
  ]

  unfoldable pub build_renew_plan : Entry → Exec Site String RenewPlan
  unfolding prepare_credentials
  build_renew_plan e = do
    cert_name ← lift (lineage_result (resolve_entry_cert_name e (rt.renewals e) true strict_mode))
    overrides ← prepare_credentials e
    pure (record { entry = e; cert_name = cert_name; env_overrides = overrides })

  unfoldable pub build_plans : List Entry → Exec Site String (List RenewPlan)
  unfolding build_renew_plan
  build_plans [] = pure []
  build_plans (e ∷ es) = do plan ← build_renew_plan e; plans ← build_plans es; pure (plan ∷ plans)

  abbrev pub renew_args : RenewPlan → Bool → Bool → List String
  renew_args plan force dry_run =
      "renew" ∷ "--cert-name" ∷ plan.cert_name ∷ flag force "--force-renewal"
      ++ flag dry_run "--dry-run"

  unfoldable pub renew_result : RenewPlan → Bool → Finished → RenewResult
  unfolding is_admin_required_error
  renew_result plan dry_run r = record {
    success = nat_beq r.returncode 0;
    entry_name = plan.entry.name;
    renewed = nat_beq r.returncode 0;
    dry_run = dry_run;
    admin_required = is_admin_required_error r;
    error = error_of r "certbot renew failed";
  }

  unfoldable pub renew_entry : Bool → Bool → Bool → RenewPlan → Exec Site String RenewResult
  unfolding run_certbot renew_result
  renew_entry force dry_run verbose plan = do
    r ← run_certbot (renew_args plan force dry_run) verbose plan.env_overrides
    pure (renew_result plan dry_run r)

  unfoldable pub renew_plans :
      Bool → Bool → Bool → List RenewPlan → Exec Site String (List RenewResult)
  unfolding renew_entry
  renew_plans force dry_run verbose [] = pure []
  renew_plans force dry_run verbose (plan ∷ plans) = do
    r ← renew_entry force dry_run verbose plan
    rs ← renew_plans force dry_run verbose plans
    pure (r ∷ rs)

  -- `all`, or the entry of the name
  unfoldable pub renew_targets : Bool → Option String → Result String (List Entry)
  renew_targets all name =
      if not all && not (truthy_opt name)
      then err "must provide --all or --name"
      else if all
      then if is_cons rt.entries then ok rt.entries else err "no entries configured"
      else elim (get_entry (or_empty name)) [ err x ↦ err x | ok e ↦ ok (e ∷ []) ]

  unfoldable pub renew :
      Bool → Option String → Bool → Bool → Bool → Exec Site String (List RenewResult)
  unfolding renew_targets build_plans renew_plans
  renew all name force dry_run verbose = do
    targets ← lift (renew_targets all name)
    plans ← build_plans targets
    renew_plans force dry_run verbose plans
