-- ===== src/Delivery/Service/Tests.antt =====
-- An entry delivered to a directory and to a cluster, and the theorems there.
use certman.Base.{
  String, ◌<>◌, ◌≡◌, refl, ◌⊎◌, true, none, some, List, [], ◌∷◌, ◌==◌, if◌then◌else◌, strip, lower,
  split_once, split_all, join, Result, err,
}
use certman.Config.Entry.{Target, Entry, entry_delivery_targets}
use certman.Cert.Lineage.{resolve_entry_cert_name}
use certman.Delivery.K8s.{get_secret, apply_file, apply_stdin}
use certman.Delivery.Files.{Files, Site, deliver_filesystem_bundle}
use certman.Delivery.Files.Laws.{paths, IsWritable, IsPart}
use certman.Delivery.Ingress.{IngressOptions, deliver_k8s_ingress_bundle}
use certman.Delivery.Ingress.Total.{ManifestEnd, with_files, deliver_k8s_ingress_lem}
use certman.Delivery.Service.{
  region_text, no_regions, DeliveryResult, DeliveryError, failure, LiveStore, parse_k8s_scope,
  normalize_regions, index_name, deliver,
}
use certman.Delivery.Service.Fixtures.{machine, kubectl, acm, target, entry, options, clean}

abbrev store : LiveStore
store = record {
  renewals = λ e. record { exact = some 5; matches = [] };
  read = λ cert_name name. if name == "chain.pem" then none else some (cert_name <> ":" <> name);
}

abbrev run : List Target → Result DeliveryError DeliveryResult × Site
run targets =
    deliver machine kubectl acm store (λ e t. options) "out" (entry targets ∷ []) "web" clean

abbrev nginx_target : List Target
nginx_target = target " Nginx " none ∷ []

abbrev nginx_files : String → List (String × String)
nginx_files dir =
    (dir <> "cert.pem", "a.org:cert.pem")
    ∷ (dir <> "fullchain.pem", "a.org:fullchain.pem")
    ∷ (dir <> "privkey.pem", "a.org:privkey.pem")
    ∷ []

abbrev nginx_result : DeliveryResult
nginx_result = record {
  entry_name = "web";
  executions =
      record {
        kind = "nginx";
        scope = none;
        delivered_paths =
            "out/web/00-nginx/cert.pem" ∷ "out/web/00-nginx/fullchain.pem"
            ∷ "out/web/00-nginx/privkey.pem" ∷ [];
      }
      ∷ [];
}

-- The second target fails, and what the first has written stays.
second_denied :
    run (target "nginx" none ∷ target "generic" none ∷ [])
    ≡ (err (failure "denied"), record { written = nginx_files "out/web/00-nginx/"; commands = [] })
unfolding deliver strip lower entry_delivery_targets resolve_entry_cert_name index_name
    deliver_filesystem_bundle
second_denied = refl

scopes :
    (parse_k8s_scope " web/tls " ≡ ("web", "tls"))
    × (parse_k8s_scope "/tls" ≡ ("default", "tls"))
    × (parse_k8s_scope "" ≡ ("default", "certman-tls"))
unfolding parse_k8s_scope strip split_once
scopes = (refl, refl, refl)

regions :
    (normalize_regions (region_text "a, b,,") none ≡ "a" ∷ "b" ∷ [])
    × (normalize_regions no_regions none ≡ "us-east-1" ∷ [])
unfolding normalize_regions strip split_all
regions = (refl, refl)

abbrev pair : Files
pair = ("fullchain.pem", "CHAIN\n") ∷ ("privkey.pem", "KEY\n") ∷ []

abbrev ingress : IngressOptions
ingress = record {
  namespace = "web";
  secret_name = "tls";
  mode = "apply";
  rollback_on_failure = true;
}

abbrev ingress_outcome : Result String (List String) × Site
ingress_outcome = deliver_k8s_ingress_bundle machine (kubectl "kubectl") ingress pair "out" clean

deliver_k8s_ingress_lem_example :
    IsPart machine "out" pair clean ingress_outcome
    ⊎ (IsWritable machine "out" pair
        × ManifestEnd machine
            (kubectl "kubectl")
            ingress
            "out"
            pair
            (paths machine "out" pair)
            (with_files machine (kubectl "kubectl") ingress "out" pair clean)
            ingress_outcome)
deliver_k8s_ingress_lem_example =
    deliver_k8s_ingress_lem machine (kubectl "kubectl") ingress "out" pair clean

rolled_back_ingress : ingress_outcome ≡ (
  err "k8s apply failed and rolled back: quota",
  record {
    written =
        ("out/fullchain.pem", "CHAIN\n")
        ∷ ("out/privkey.pem", "KEY\n")
        ∷ (
          "out/k8s-tls-secret.yaml",
          "apiVersion: v1\nkind: Secret\nmetadata:\n  name: tls\n  namespace: web\ntype: kubernetes.io/tls\nstringData:\n  tls.crt: |-\n    CHAIN\n  tls.key: |-\n    KEY\n",
        )
        ∷ [];
    commands = get_secret "tls" "web" ∷ apply_file ∷ apply_stdin "old" ∷ [];
  },
)
unfolding deliver_k8s_ingress_bundle strip lower join
rolled_back_ingress = refl
