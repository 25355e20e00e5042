-- ===== src/Delivery/Service/Laws.antt =====
-- What a delivery that returns has done: for each target, in order, and with which files.
use certman.Base.{
  ℕ, suc, String, or_empty, ◌≡◌, ◌⊎◌, true, some, List, [], ◌∷◌, ◌++◌, Exec, Result, ok,
}
use certman.Config.Entry.{Target, Entry, entry_delivery_targets}
use certman.Cert.Lineage.{strict_mode, resolve_entry_cert_name}
use certman.Delivery.K8s.{Command}
use certman.Delivery.Files.{Files, Site, Machine}
use certman.Delivery.Files.Laws.{paths}
use certman.Delivery.Ingress.{Finished, IngressOptions, get_file}
use certman.Delivery.Service.{
  TargetOptions, AcmRequest, DeliveryExecution, DeliveryResult, get_or, ingress_options, LiveStore,
  index_name, normalized_type, normalized_scope, present, pem_names, deliver_target, deliver_entry,
}

-- The list starts with the other one.
abbrev pub Starts : List String → List String → Type 0
Starts front whole = (more : List String) × (whole ≡ front ++ more)

module _ (m : Machine) (kubectl : String → List Command → Command → Result String Finished)
    (acm : AcmRequest → Files → String → Exec Site String (List String)) where
  -- The type is served, and all but AWS ACM return the paths of all files first.
  abbrev pub IsServed : String → Files → String → List String → Type 0
  IsServed kind files target_dir delivered =
      (kind ≡ "aws-acm")
      ⊎ (((kind ≡ "generic") ⊎ ((kind ≡ "nginx") ⊎ ((kind ≡ "openresty") ⊎ (kind ≡ "k8s-ingress"))))
          × Starts (paths m target_dir files) delivered)

  module _ (e : Entry) (t : Target) (o : TargetOptions) (files : Files) (target_dir : String)
      (s : Site) where
    abbrev kind : String
    kind = normalized_type t

    abbrev outcome : Result String (List String) × Site
    outcome = deliver_target m kubectl acm e t o files target_dir s

    abbrev run_bin : List Command → Command → Result String Finished
    run_bin = kubectl (get_or o.kubectl_bin "kubectl")

    abbrev run_options : IngressOptions
    run_options = ingress_options (or_empty (normalized_scope t)) o "apply"

  -- One execution for a target at its place, with what was delivered to its directory.
  abbrev pub Shows : Files → String → ℕ → Target → DeliveryExecution → Type 0
  Shows files entry_dir index t x =
      (x.kind ≡ normalized_type t)
      × (x.scope ≡ normalized_scope t)
      × IsServed x.kind files (m.join_path entry_dir (index_name index x.kind)) x.delivered_paths

  abbrev pub ShowsAll : Files → String → ℕ → List Target → List DeliveryExecution → Type 0
  ShowsAll files entry_dir index [] [] = Unit
  ShowsAll files entry_dir index (t ∷ ts) (x ∷ xs) =
      Shows files entry_dir index t x × ShowsAll files entry_dir (suc index) ts xs
  ShowsAll files entry_dir index _ _ = ⊥

  module _ (e : Entry) (options : Target → TargetOptions) (files : Files) (entry_dir : String) where
    abbrev shown : Target → List String → DeliveryExecution
    shown t delivered = record {
      kind = normalized_type t;
      scope = normalized_scope t;
      delivered_paths = delivered;
    }

    abbrev attempt : ℕ → Target → Site → Result String (List String) × Site
    attempt index t s =
        deliver_target m kubectl acm e t (options t) files
          (m.join_path entry_dir (index_name index (normalized_type t))) s

-- The files have the private key, and the certificate alone or with its chain.
abbrev pub HasPair : Files → Type 0
HasPair files =
    ((k : String) × (get_file "privkey.pem" files ≡ some k))
    × ((c : String) × ((get_file "cert.pem" files ≡ some c)
          ⊎ (get_file "fullchain.pem" files ≡ some c)))

module _ (store : LiveStore) (e : Entry) where
  -- The files are those of the live directory of the lineage that strict resolution names.
  abbrev pub IsLive : Files → Type 0
  IsLive files =
      (cert_name : String) × (resolve_entry_cert_name e (store.renewals e) true strict_mode
        ≡ ok cert_name)
      × (files ≡ present (store.read cert_name) pem_names)
      × HasPair files

module _ (m : Machine) (kubectl : String → List Command → Command → Result String Finished)
    (acm : AcmRequest → Files → String → Exec Site String (List String)) (store : LiveStore)
    (options : Entry → Target → TargetOptions) (output_dir : String) where
  -- What was done for an entry: nothing without targets, or one execution for each of them.
  abbrev pub IsDelivered : Entry → DeliveryResult → Site → Site → Type 0
  IsDelivered e r s s' =
      (r.entry_name ≡ e.name)
      × (((entry_delivery_targets e ≡ []) × (r.executions ≡ []) × (s' ≡ s))
          ⊎ ((files : Files) × IsLive store e files
              × ShowsAll m kubectl acm files (m.join_path output_dir e.name) 0
                  (entry_delivery_targets e) r.executions))

  module _ (e : Entry) (s s' : Site) (r : DeliveryResult)
      (h : deliver_entry m kubectl acm store options output_dir e s ≡ (ok r, s')) where
    abbrev targets : List Target
    targets = entry_delivery_targets e
