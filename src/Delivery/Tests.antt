-- ===== src/Delivery/Tests.antt =====
-- Deliveries to a small cluster, and the theorem at one of them.
use certman.Base.{
  String, ◌≡◌, refl, ◌⊎◌, inr, true, false, none, some, List, [], ◌∷◌, strip, lower, contains,
}
use certman.Delivery.K8s.{
  TlsData, Command, can_i, dry_run, get_secret, apply_file, apply_stdin, Process, returned,
  timed_out, Options, plain, apply_failed, classify_dry_run_error, connect_timeout, manifest_data,
  deliver_k8s_bundle,
}
use certman.Delivery.K8s.Laws.{IsDelivered, IsRendered, deliver_lem}

-- Every command is allowed, but applying the file times out.
abbrev cluster : List Command → Command → Process
cluster history (can_i verb namespace) = returned 0 "yes\n" ""
cluster history dry_run = returned 0 "" ""
cluster history (get_secret name namespace) = returned 0 "old: secret" ""
cluster history apply_file = timed_out
cluster history (apply_stdin text) = returned 0 "" ""

abbrev options : Options
options = record {
  namespace = "web";
  secret_name = "tls";
  mode = "apply";
  rollback_on_failure = true;
  enable_rbac_check = true;
  dry_run_validation = true;
  timeout_text = "30";
}

abbrev files : List (String × String)
files = ("fullchain.pem", "CHAIN") ∷ ("privkey.pem", "KEY") ∷ []

abbrev write : TlsData → String ⊎ List String
write d = inr ("out/fullchain.pem" ∷ "out/privkey.pem" ∷ [])

mapped :
    manifest_data (record { crt = none; key = none }) files
    ≡ record { crt = some "CHAIN"; key = some "KEY" }
unfolding manifest_data contains
mapped = refl

classified : classify_dry_run_error "Connection refused: invalid" ≡ connect_timeout
unfolding classify_dry_run_error lower contains
classified = refl

rolled_back : deliver_k8s_bundle cluster options write files ≡ (
  plain false
      ("out/fullchain.pem" ∷ "out/privkey.pem" ∷ [])
      (some apply_failed)
      (some "Apply failed (rolled back): Command timeout after 30s"),
  can_i "get" "web"
      ∷ can_i "create" "web"
      ∷ can_i "update" "web"
      ∷ dry_run
      ∷ get_secret "tls" "web"
      ∷ apply_file
      ∷ apply_stdin "old: secret"
      ∷ [],
)
unfolding deliver_k8s_bundle strip lower
rolled_back = refl

deliver_lem_example :
    IsDelivered cluster options (deliver_k8s_bundle cluster options write files)
    ⊎ IsRendered cluster options (deliver_k8s_bundle cluster options write files)
deliver_lem_example = deliver_lem cluster options write files
