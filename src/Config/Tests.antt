-- ===== src/Config/Tests.antt =====
-- An entry, and the theorems at it.
use certman.Base.{
  String, ◌≡◌, refl, true, false, none, some, List, [], ◌∷◌, ◌==◌, if◌then◌else◌, ok, strip, lower,
  Memᴰ, ◌↔◌,
}
use certman.Config.Entry.{
  Target, Entry, Env, entry_domains, entry_delivery_targets, required_env_keys, is_env_ref,
  env_ref_key, normalize_account_id,
}
use certman.Config.Domains.{IsDistinct, IsDomain, entry_domains_lem}

abbrev acm : Target
acm = record {
  enabled = true;
  kind = " AWS-ACM";
  scope = some "us-east-1";
  account_id = some "prod-1";
}

abbrev site : Entry
site = record {
  name = "site";
  primary_domain = "a.example";
  cert_name = none;
  secondary_domains = "b.example" ∷ "a.example" ∷ [];
  wildcard = true;
  dns_provider = "Cloudflare";
  account_id = some "main";
  credentials = record { access_key_id = none; access_key_secret = none; api_token = none };
  target_type = "generic";
  target_scope = none;
  delivery_targets = acm ∷ record acm { enabled = false } ∷ [];
}

abbrev env : Env
env key = if key == "CERTMAN_AWS_PROD_1_ACCESS_KEY_ID" then some "AK" else none

domains : entry_domains site ≡ "a.example" ∷ "b.example" ∷ "*.a.example" ∷ []
unfolding entry_domains
domains = refl

targets : entry_delivery_targets site ≡ acm ∷ []
unfolding entry_delivery_targets
targets = refl

references :
    (is_env_ref "${ TOKEN }" ≡ true)
    × (env_ref_key "${ TOKEN }" ≡ "TOKEN")
    × (is_env_ref "${}" ≡ false)
unfolding is_env_ref env_ref_key strip
references = (refl, refl, refl)

keys :
    required_env_keys (record site { delivery_targets = acm ∷ [] }) env
    ≡ ok ("CERTMAN_CLOUDFLARE_MAIN_API_TOKEN" ∷ "CERTMAN_AWS_PROD_1_SECRET_ACCESS_KEY" ∷ [])
unfolding required_env_keys strip lower normalize_account_id
keys = refl

entry_domains_example :
    ((rest : List String) × (entry_domains site ≡ "a.example" ∷ rest))
    × IsDistinct (entry_domains site)
    × ((x : String) → Memᴰ x (entry_domains site) ↔ IsDomain site x)
entry_domains_example = entry_domains_lem site
