-- ===== src/Cert/Service/Tests.antt =====
-- Issuing and renewing for two entries, and the theorems there.
use certman.Base.{
  String, ◌<>◌, ◌≡◌, refl, true, false, none, some, List, [], ◌∷◌, ◌++◌, ◌==◌, if◌then◌else◌, Memᴰ,
  Each, map, find?, strip, lower, contains, Result, ok, err,
}
use certman.Config.Entry.{
  Entry, Env, entry_domains, normalize_account_id, required_env_keys, is_env_ref,
}
use certman.Delivery.Service.Fixtures.{entry}
use certman.Cert.Lineage.{value_error, resolve_entry_cert_name}
use certman.Cert.Providers.{aliyun_credentials_for_entry, route53_credentials_for_entry}
use certman.Cert.Providers.Laws.{HasCredentials, validated-HasCredentials}
use certman.Cert.Service.{
  Site, IssueResult, RenewPlan, RenewResult, Runtime, issue, renew, renew_targets,
}
use certman.Cert.Service.Commands.{renew_command}
use certman.Cert.Service.Plans.{IsPlan}
use certman.Cert.Service.Laws.{AreRenewed, renew_sound, renew_unresolved}
use certman.Cert.Service.Issue.{IsIssued, issue_sound}

abbrev env : Env
env key =
    if key == "CERTMAN_AWS_MAIN_ACCESS_KEY_ID"
    then some "AK"
    else if key == "CERTMAN_AWS_MAIN_SECRET_ACCESS_KEY"
    then some "SK"
    else if key == "CERTMAN_AWS_MAIN_REGION"
    then some "eu-west-1"
    else if key == "AWS_PROFILE"
    then some "other"
    else none

abbrev web : Entry
web = record (entry []) { account_id = some "main" }

-- This entry has two renewal files.
abbrev twin : Entry
twin = record web { name = "twin"; primary_domain = "b.org" }

abbrev runtime : List Entry → Runtime
runtime entries = record {
  entries = entries;
  email = "a@a.org";
  acme_server = "staging";
  env = env;
  renewals = λ e.
      if e.name == "web"
      then record { exact = some 5; matches = [] }
      else record { exact = some 5; matches = record { stem = "b.org-0001"; mtime = 6 } ∷ [] };
  path_args = "--config-dir" ∷ "le" ∷ [];
  credentials_path = λ name. "run/credentials/" <> name;
  certbot = λ history run. ok (record { returncode = 0; stdout = "done"; stderr = "" });
}

abbrev idle : Site
idle = record { written = []; runs = [] }

abbrev outcome : Result String IssueResult × Site
outcome = issue (runtime (web ∷ [])) "web" false false idle

issued :
    map (λ r. r.cmd) outcome.1.runs
    ≡ ("certbot" ∷ "certonly" ∷ "--authenticator" ∷ "dns-route53" ∷ "--agree-tos" ∷ "--email"
        ∷ "a@a.org" ∷ "--test-cert" ∷ "-d" ∷ "a.org" ∷ "--config-dir" ∷ "le" ∷ "--non-interactive"
        ∷ [])
      ∷ []
unfolding issue lower strip normalize_account_id route53_credentials_for_entry entry_domains
issued = refl

abbrev issue_ok : IssueResult
issue_ok = record {
  success = true;
  entry_name = "web";
  domains = entry_domains web;
  admin_required = false;
  error = none;
}

issue_sound_example :
    (e : Entry) × (find? (λ e. e.name == "web") (web ∷ []) ≡ some e)
    × IsIssued (runtime (web ∷ [])) false false e issue_ok idle outcome.1
unfolding issue lower strip normalize_account_id route53_credentials_for_entry contains
issue_sound_example =
    issue_sound (runtime (web ∷ [])) "web" false false idle outcome.1 issue_ok refl

abbrev renewal : Result String (List RenewResult) × Site
renewal = renew (runtime (web ∷ [])) true none false true false idle

abbrev renew_ok : RenewResult
renew_ok = record {
  success = true;
  entry_name = "web";
  renewed = true;
  dry_run = true;
  admin_required = false;
  error = none;
}

renew_sound_example :
    (targets : List Entry) × (plans : List RenewPlan) × (renew_targets
        (runtime (web ∷ []))
        true
        none
      ≡ ok targets)
    × Each (IsPlan (runtime (web ∷ []))) targets plans
    × AreRenewed (runtime (web ∷ [])) false true false [] plans (renew_ok ∷ [])
    × (renewal.1.runs ≡ [] ++ map (renew_command (runtime (web ∷ [])) false true) plans)
unfolding renew lower strip normalize_account_id route53_credentials_for_entry contains
    resolve_entry_cert_name
renew_sound_example =
    renew_sound (runtime (web ∷ [])) false true false true none idle renewal.1 (renew_ok ∷ []) refl

-- The second entry has two lineages, so that the first is not renewed either.
renew_unresolved_example :
    ((text : String) × ((renew (runtime (web ∷ twin ∷ [])) true none false false false idle).0
        ≡ err text))
    × ((renew (runtime (web ∷ twin ∷ [])) true none false false false idle).1.runs ≡ [])
unfolding renew_targets resolve_entry_cert_name
renew_unresolved_example =
    renew_unresolved (runtime (web ∷ twin ∷ [])) false false false true none (web ∷ twin ∷ []) twin
      value_error idle refl (Memᴰ.tail (Memᴰ.head refl)) refl

validated-HasCredentials_example : HasCredentials env web
unfolding required_env_keys lower strip normalize_account_id
validated-HasCredentials_example = validated-HasCredentials env web (refl, refl, refl, refl) refl

-- One plain key without the other passes the validation, but no credentials are found.
abbrev half : Entry
half = record web {
  dns_provider = "aliyun";
  account_id = none;
  credentials = record { access_key_id = some "AK"; access_key_secret = none; api_token = none };
}

half_validated :
    (required_env_keys half env ≡ ok [])
    × (aliyun_credentials_for_entry env half ≡ err "aliyun entry missing account_id or credentials")
unfolding required_env_keys is_env_ref aliyun_credentials_for_entry
half_validated = (refl, refl)
