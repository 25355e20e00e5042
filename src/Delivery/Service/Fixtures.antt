-- ===== src/Delivery/Service/Fixtures.antt =====
-- A machine, a cluster and an entry for the examples of deliveries.
use certman.Base.{
  String, ◌<>◌, Option, none, some, List, [], ◌==◌, true, false, if◌then◌else◌, Exec, Result, ok,
}
use certman.Config.Entry.{Target, Entry}
use certman.Delivery.K8s.{Command, can_i, dry_run, get_secret, apply_file, apply_stdin}
use certman.Delivery.Files.{Files, Site, Machine}
use certman.Delivery.Ingress.{Finished}
use certman.Delivery.Service.{no_regions, TargetOptions, AcmRequest}

-- Paths with a slash, of which one cannot be written.
abbrev pub machine : Machine
machine = record {
  join_path = λ dir name. dir <> "/" <> name;
  denied = λ path. if path == "out/web/01-generic/cert.pem" then some "denied" else none;
}

-- A cluster that has a secret and refuses to apply a file.
abbrev pub kubectl : String → List Command → Command → Result String Finished
kubectl bin history (can_i verb namespace) =
    ok (record { returncode = 0; stdout = ""; stderr = "" })
kubectl bin history dry_run = ok (record { returncode = 0; stdout = ""; stderr = "" })
kubectl bin history (get_secret name namespace) =
    ok (record { returncode = 0; stdout = "old\n"; stderr = "" })
kubectl bin history apply_file = ok (record { returncode = 1; stdout = ""; stderr = "quota\n" })
kubectl bin history (apply_stdin text) = ok (record { returncode = 0; stdout = ""; stderr = "" })

abbrev pub acm : AcmRequest → Files → String → Exec Site String (List String)
acm r files target_dir s = (ok [], s)

abbrev pub target : String → Option String → Target
target kind scope = record { enabled = true; kind = kind; scope = scope; account_id = none }

abbrev pub entry : List Target → Entry
entry targets = record {
  name = "web";
  primary_domain = "a.org";
  cert_name = none;
  secondary_domains = [];
  wildcard = false;
  dns_provider = "route53";
  account_id = none;
  credentials = record { access_key_id = none; access_key_secret = none; api_token = none };
  target_type = "generic";
  target_scope = none;
  delivery_targets = targets;
}

abbrev pub options : TargetOptions
options = record {
  mode = none;
  rollback_on_failure = none;
  kubectl_bin = none;
  regions = no_regions;
  tags = [];
  certificate_arn = none;
}

abbrev pub clean : Site
clean = record { written = []; commands = [] }
