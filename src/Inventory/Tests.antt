-- ===== src/Inventory/Tests.antt =====
-- A disk with one certificate, and the theorem at it.
use certman.Base.{
  ℕ, String, ◌≡◌, refl, false, none, some, [], ◌∷◌, Memᴰ, ◌==◌, find?, if◌then◌else◌, ok,
}
use certman.Config.Entry.{Entry}
use certman.Cert.Lineage.{latest_mode, resolve_entry_cert_name}
use certman.Scheduler.Renewal.{Certificate}
use certman.Inventory.Service.{Disk, sync_entry, reconcile_existing}
use certman.Inventory.Laws.{sync_sound}

abbrev site : Entry
site = record {
  name = "site";
  primary_domain = "a.example";
  cert_name = none;
  secondary_domains = [];
  wildcard = false;
  dns_provider = "route53";
  account_id = none;
  credentials = record { access_key_id = none; access_key_secret = none; api_token = none };
  target_type = "generic";
  target_scope = none;
  delivery_targets = [];
}

abbrev pending : Entry
pending = record site { name = "pending"; primary_domain = "p.example" }

abbrev disk : Disk
disk = record {
  renewal = λ e. record { exact = none; matches = [] };
  not_after = λ name. if name == "a.example" then some 90 else none;
  certificate_id = λ name. "cert-1";
}

abbrev row : Certificate
row = record {
  id = "cert-1";
  entry_name = "site";
  primary_domain = "a.example";
  status = "active";
  not_after = some 90;
  created_at = 5;
  updated_at = 5;
}

synced : sync_entry disk (pending ∷ site ∷ []) "site" 5 [] ≡ (ok row, row ∷ [])
unfolding sync_entry resolve_entry_cert_name
synced = refl

-- The entry without a certificate is passed over.
reconciled : reconcile_existing disk (pending ∷ site ∷ []) 5 [] ≡ (ok (row ∷ []), row ∷ [])
unfolding reconcile_existing resolve_entry_cert_name
reconciled = refl

sync_sound_example :
    (e : Entry) × (cert_name : String) × (t : ℕ) × (find?
        (λ x. x.name == "site")
        (pending ∷ site ∷ [])
      ≡ some e)
    × (resolve_entry_cert_name e (disk.renewal e) false latest_mode ≡ ok cert_name)
    × (disk.not_after cert_name ≡ some t)
    × (Memᴰ row (row ∷ [])
        × (row.entry_name ≡ e.name)
        × (row.status ≡ "active")
        × (row.not_after ≡ some t)
        × (row.primary_domain ≡ e.primary_domain))
sync_sound_example = sync_sound disk (pending ∷ site ∷ []) "site" 5 [] (row ∷ []) row synced
