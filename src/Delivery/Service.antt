-- ===== src/Delivery/Service.antt =====
-- certman/services/delivery_service.py: the delivery of an entry to its targets, in order.
pub mod Laws
pub mod Fixtures
mod Tests
use certman.Base.{
  ℕ, zero, suc, String, ◌<>◌, Bool, true, false, Option, none, some, List, [], ◌∷◌, ◌==◌, ◌&&◌,
  ◌||◌, not, ltb, ◌/◌, ◌%◌, if◌then◌else◌, map, filter, find?, is_none, truthy, truthy_opt,
  or_empty, strip, lower, split_once, split_all, Exec, Result, ok, err, pure, raise, ◌>>=◌,
}
use Prim.Native.String.{char_at}
use certman.Config.Entry.{Target, Entry, entry_delivery_targets, is_cons}
use certman.Cert.Lineage.{LineageError, RenewalDir, strict_mode, resolve_entry_cert_name}
use certman.Delivery.K8s.{Command}
use certman.Delivery.Files.{Files, Site, Machine, deliver_filesystem_bundle}
use certman.Delivery.Ingress.{
  Finished, IngressOptions, get_file, deliver_nginx_bundle, deliver_openresty_bundle,
  deliver_k8s_ingress_bundle,
}

pub data RegionsOption : Type 0 where
  -- the items of a list, by `str`
  region_list : List String → RegionsOption
  region_text : String → RegionsOption
  -- absent, or of another type
  no_regions : RegionsOption

-- The options that `_deliver_target` reads, none where the key is absent: by `str`, by `bool`.
pub record TargetOptions : Type 0 where
  pub mode : Option String
  pub rollback_on_failure : Option Bool
  pub kubectl_bin : Option String
  pub regions : RegionsOption
  pub tags : List (String × String)
  pub certificate_arn : Option String

pub record DeliveryExecution : Type 0 where
  pub kind : String
  pub scope : Option String
  pub delivered_paths : List String

-- `a or default`
abbrev pub or_default : String → String → String
or_default s d = if truthy s then s else d

-- `options.get(key, default)`
abbrev pub get_or {ℓ} : {A : Type ℓ} → Option A → A → A
get_or none d = d
get_or (some a) d = a

abbrev pub around_slash : String → Option (String × String) → String × String
around_slash normalized none = (normalized, "certman-tls")
around_slash normalized (some p) = (or_default p.0 "default", or_default p.1 "certman-tls")

unfoldable pub parse_k8s_scope : String → String × String
parse_k8s_scope scope =
    let normalized = strip scope in
    if not (truthy normalized)
    then ("default", "certman-tls")
    else around_slash normalized (split_once "/" normalized)

abbrev pub stripped_items : List String → List String
stripped_items items = filter truthy (map strip items)

unfoldable pub from_fallback : Option String → List String
from_fallback fallback =
    if truthy_opt fallback
    then stripped_items (split_all "," (or_empty fallback))
    else "us-east-1" ∷ []

unfoldable pub normalize_regions : RegionsOption → Option String → List String
unfolding from_fallback
normalize_regions (region_list items) fallback = stripped_items items
normalize_regions (region_text raw) fallback =
    if truthy (strip raw) then stripped_items (split_all "," raw) else from_fallback fallback
normalize_regions no_regions fallback = from_fallback fallback

-- What `deliver_aws_acm_bundle` is called with, beside the files and the directory.
pub record AcmRequest : Type 0 where
  pub entry_name : String
  pub primary_domain : String
  pub account_id : Option String
  pub regions : List String
  pub tags : List (String × String)
  pub certificate_arn : Option String

unfoldable pub acm_request : Entry → Target → TargetOptions → Option String → AcmRequest
acm_request e t o target_scope = record {
  entry_name = e.name;
  primary_domain = e.primary_domain;
  account_id = t.account_id;
  regions = normalize_regions o.regions target_scope;
  tags = o.tags;
  certificate_arn = o.certificate_arn;
}

unfoldable pub ingress_options : String → TargetOptions → String → IngressOptions
ingress_options scope o default_mode = record {
  namespace = (parse_k8s_scope scope).0;
  secret_name = (parse_k8s_scope scope).1;
  mode = get_or o.mode default_mode;
  rollback_on_failure = get_or o.rollback_on_failure true;
}

-- `str(n)`, on fuel that `n` is enough for
unfoldable pub decimal : ℕ → ℕ → String
decimal zero n = ""
decimal (suc fuel) n =
    let front = decimal fuel (n / 10) in
    let last = String.◌∷◌ (char_at "0123456789" (n % 10)) "" in
    if ltb n 10 then last else front <> last

-- `f"{index:02d}-{target_type}"`
unfoldable pub index_name : ℕ → String → String
unfolding decimal
index_name index target_type =
    let digits = decimal (suc index) index in
    (if ltb index 10 then "0" <> digits else digits) <> "-" <> target_type

abbrev pub normalized_type : Target → String
normalized_type t = lower (strip t.kind)

-- `target.scope.strip() if target.scope else None`
abbrev pub normalized_scope : Target → Option String
normalized_scope t = if truthy_opt t.scope then some (strip (or_empty t.scope)) else none

-- `kubectl` is called by its name; `acm` is `deliver_aws_acm_bundle`.
module _ (m : Machine) (kubectl : String → List Command → Command → Result String Finished)
    (acm : AcmRequest → Files → String → Exec Site String (List String)) where
  unfoldable pub deliver_target :
      Entry → Target → TargetOptions → Files → String → Exec Site String (List String)
  unfolding ingress_options acm_request
  deliver_target e t o files target_dir =
      let kind = normalized_type t in
      let scope = normalized_scope t in
      if kind == "generic"
      then deliver_filesystem_bundle m files target_dir
      else if kind == "nginx"
      then deliver_nginx_bundle m (kubectl "") files target_dir
      else if kind == "openresty"
      then deliver_openresty_bundle m (kubectl "") files target_dir
      else if kind == "k8s-ingress"
      then deliver_k8s_ingress_bundle m (kubectl (get_or o.kubectl_bin "kubectl"))
          (ingress_options (or_empty scope) o "apply") files target_dir
      else if kind == "aws-acm"
      then acm (acm_request e t o scope) files target_dir
      else raise ("unsupported delivery target_type: " <> kind)

  -- the loop of `deliver`, for the targets from an index on
  unfoldable pub deliver_targets :
      Entry
      → (Target → TargetOptions)
      → Files
      → String
      → ℕ
      → List Target
      → Exec Site String (List DeliveryExecution)
  unfolding deliver_target index_name
  deliver_targets e options files entry_dir index [] = pure []
  deliver_targets e options files entry_dir index (t ∷ ts) = do
    delivered ←
        deliver_target e t (options t) files
          (m.join_path entry_dir (index_name index (normalized_type t)))
    rest ← deliver_targets e options files entry_dir (suc index) ts
    pure (
        record { kind = normalized_type t; scope = normalized_scope t; delivered_paths = delivered }
        ∷ rest)

-- the files of the live directory that exist, in order: `read` gives the text of an existing file
unfoldable pub present : (String → Option String) → List String → Files
present read [] = []
present read (name ∷ names) =
    let rest = present read names in
    elim (read name) [ none ↦ rest | some text ↦ (name, text) ∷ rest ]

abbrev pub pem_names : List String
pem_names = "cert.pem" ∷ "chain.pem" ∷ "fullchain.pem" ∷ "privkey.pem" ∷ []

unfoldable pub checked_files : String → Files → Result String Files
checked_files entry_name files =
    if is_none (get_file "privkey.pem" files)
      || (is_none (get_file "cert.pem" files) && is_none (get_file "fullchain.pem" files))
    then err ("incomplete live certificate files for entry=" <> entry_name)
    else ok files

pub data DeliveryError : Type 0 where
  entry_not_found : DeliveryError
  no_lineage : LineageError → DeliveryError
  failure : String → DeliveryError

abbrev pub as_failure : {A : Type 0} → Result String A → Result DeliveryError A
as_failure (ok a) = ok a
as_failure (err text) = err (failure text)

-- The state directories: the renewal files of an entry, and the files of a lineage's live directory.
pub record LiveStore : Type 0 where
  pub renewals : Entry → RenewalDir
  pub read : String → String → Option String

unfoldable pub load_live_files : LiveStore → Entry → Result DeliveryError Files
unfolding present checked_files
load_live_files store e = elim (resolve_entry_cert_name e (store.renewals e) true strict_mode) [
  | err x ↦ err (no_lineage x)
  | ok cert_name ↦ as_failure (checked_files e.name (present (store.read cert_name) pem_names))
]

-- A DeliveryResult, whose `success` is always true and whose `error` is always none.
pub record DeliveryResult : Type 0 where
  pub entry_name : String
  pub executions : List DeliveryExecution

abbrev pub report_of :
    String → Result String (List DeliveryExecution) → Result DeliveryError DeliveryResult
report_of entry_name (ok executions) =
    ok (record { entry_name = entry_name; executions = executions })
report_of entry_name (err text) = err (failure text)

module _ (m : Machine) (kubectl : String → List Command → Command → Result String Finished)
    (acm : AcmRequest → Files → String → Exec Site String (List String)) (store : LiveStore)
    (options : Entry → Target → TargetOptions) (output_dir : String) where
  unfoldable pub deliver_files :
      Entry → List Target → Result DeliveryError Files → Exec Site DeliveryError DeliveryResult
  unfolding deliver_targets
  deliver_files e targets (err x) s = (err x, s)
  deliver_files e targets (ok files) s =
      let (r, s') =
        deliver_targets m kubectl acm e (options e) files (m.join_path output_dir e.name) 0 targets
          s in
      (report_of e.name r, s')

  unfoldable pub deliver_entry : Entry → Exec Site DeliveryError DeliveryResult
  unfolding deliver_files load_live_files
  deliver_entry e s =
      let targets = entry_delivery_targets e in
      if is_cons targets
      then deliver_files e targets (load_live_files store e) s
      else (ok (record { entry_name = e.name; executions = [] }), s)

  unfoldable pub deliver : List Entry → String → Exec Site DeliveryError DeliveryResult
  unfolding deliver_entry
  deliver entries entry_name s = elim (find? (λ e. e.name == entry_name) entries) [
    | none ↦ (err entry_not_found, s)
    | some e ↦ deliver_entry e s
  ]
