-- ===== src/Cert/Tests.antt =====
-- Renewal directories, and the theorems at them.
use certman.Base.{◌≡◌, refl, ◌⊎◌, true, false, none, some, [], ◌∷◌, err}
use certman.Config.Entry.{Entry}
use certman.Cert.Lineage.{Lineage, RenewalDir, value_error, strict_mode, resolve_entry_cert_name}
use certman.Cert.Strict.{IsOnly, strict_sound, IsNewestFile, latest_sound}

abbrev site : Entry
site = record {
  name = "site";
  primary_domain = "a.example";
  cert_name = none;
  secondary_domains = [];
  wildcard = false;
  dns_provider = "route53";
  account_id = none;
  credentials = record { access_key_id = none; access_key_secret = none; api_token = none };
  target_type = "generic";
  target_scope = none;
  delivery_targets = [];
}

abbrev renewed : Lineage
renewed = record { stem = "a.example-0001"; mtime = 9 }

abbrev one : RenewalDir
one = record { exact = none; matches = renewed ∷ [] }

abbrev two : RenewalDir
two = record { exact = some 5; matches = renewed ∷ [] }

ambiguous : resolve_entry_cert_name site two true strict_mode ≡ err value_error
unfolding resolve_entry_cert_name
ambiguous = refl

strict_sound_example : IsOnly site one "a.example-0001"
unfolding resolve_entry_cert_name
strict_sound_example = strict_sound site one "a.example-0001" refl

latest_sound_example :
    (site.cert_name ≡ some "a.example-0001") ⊎ IsNewestFile site two false "a.example-0001"
unfolding resolve_entry_cert_name
latest_sound_example = latest_sound site two false "a.example-0001" refl
