-- ===== src/Delivery/Acm.antt =====
-- certman/delivery/aws_acm.py: the import of a certificate into AWS ACM, region by region.
pub mod Laws
pub mod Imports
mod Tests
use Prim.Native.Char.{Char, code}
use Prim.Native.String.{count}
use certman.Base.{
  ℕ, zero, suc, String, ◌<>◌, Bool, true, false, Option, none, some, List, [], ◌∷◌, ◌++◌, ◌==◌,
  ◌&&◌, ◌||◌, not, leb, nat_beq, if◌then◌else◌, any, all, filter, map, truthy, truthy_opt, or_empty,
  strip, split_once, is_some_of, Exec, Result, ok, err, pure, raise, lift, ◌>>=◌, ◌>>◌,
}
use certman.Config.Entry.{Env, is_cons}
use certman.Cert.Providers.{AwsCredentials, aws_credentials_for_account}
use certman.Delivery.Files.{Files}
use certman.Delivery.Ingress.{get_file, or_else, second_of}

-- `text.split(sep, n)`
unfoldable pub split_n : ℕ → Char → String → List String
split_n zero sep text = text ∷ []
split_n (suc n) sep text = elim (split_once sep text) [
  | none ↦ text ∷ []
  | some p ↦ p.0 ∷ split_n n sep p.1
]

-- `str.isdigit` of the ASCII digits
unfoldable pub is_digits : String → Bool
is_digits String.[] = true
is_digits (String.◌∷◌ c s) = leb 48 (code c) && leb (code c) 57 && is_digits s

-- the resource after `certificate/`
unfoldable pub is_certificate : Option (String × String) → Bool
is_certificate none = false
is_certificate (some p) = p.0 == "certificate" && truthy p.1

-- The region and the account of the parts of an ARN.
unfoldable pub parse_parts : List String → Result String (String × String)
unfolding is_digits is_certificate
parse_parts (arn ∷ partition ∷ service ∷ region ∷ account_id ∷ resource ∷ []) =
    if not (arn == "arn")
      || not (truthy partition)
      || not (service == "acm")
      || not (truthy region)
      || not (nat_beq (count account_id) 12)
      || not (is_digits account_id)
      || not (is_certificate (split_once "/" resource))
    then err "invalid ACM certificate ARN"
    else ok (region, account_id)
parse_parts _ = err "invalid ACM certificate ARN"

unfoldable pub parse_acm_certificate_arn : String → Result String (String × String)
unfolding split_n parse_parts
parse_acm_certificate_arn certificate_arn = parse_parts (split_n 5 ":" certificate_arn)

abbrev pub Tags : Type 0
Tags = List (String × String)

-- the value of a key; of equal keys the last one holds
unfoldable pub tag_value : String → Tags → Option String
tag_value key [] = none
tag_value key (t ∷ ts) =
    let rest = tag_value key ts in
    elim rest [ some value ↦ some value | none ↦ if t.0 == key then some t.1 else none ]

-- `dict[key] = value`
unfoldable pub put_tag : String × String → Tags → Tags
put_tag t [] = t ∷ []
put_tag t (u ∷ us) = let rest = put_tag t us in if u.0 == t.0 then (u.0, t.1) ∷ us else u ∷ rest

unfoldable pub update_tags : Tags → Tags → Tags
unfolding put_tag
update_tags base [] = base
update_tags base (t ∷ ts) = update_tags (put_tag t base) ts

-- What a listed or described certificate has.
pub record Certificate : Type 0 where
  pub arn : Option String
  pub domain_name : Option String
  pub kind : Option String

-- A call of import_certificate in a region: the ARN to replace, or the tags of a new certificate.
pub record Import : Type 0 where
  pub region : String
  pub body : String
  pub chain : Option String
  pub key : String
  pub certificate_arn : Option String
  pub new_tags : Tags

-- AWS as one account sees it, after the imports so far: the issued certificates of all pages, the
-- description and the tags of an ARN, the ARN that an import gives, and the account; each may raise.
pub record Aws : Type 0 where
  pub listed : List Import → String → Result String (List Certificate)
  pub described : List Import → String → String → Result String Certificate
  pub tags_of : List Import → String → String → Result String Tags
  pub imported : List Import → Import → Result String String
  pub account : String → Result String String

-- The option `certificate_arn`: absent, a text, or a mapping whose values may be of another type.
pub data ArnOption : Type 0 where
  no_arn : ArnOption
  one_arn : String → ArnOption
  arn_map : List (String × Option String) → ArnOption

abbrev pub known_region : String → List String → Bool
known_region region = any (λ r. r == region)

-- a parsed ARN whose region must be the given one
unfoldable pub in_region : String → String → Result String (String × String) → Result String String
in_region region arn (err x) = err x
in_region region arn (ok (arn_region, account)) =
    if arn_region == region
    then ok arn
    else err (
        "explicit ACM certificate ARN region=" <> arn_region <> " does not match target region="
        <> region)

unfoldable pub arn_for : List String → String → Option String → Result String String
unfolding in_region
arn_for regions region raw_arn =
    if not (known_region region regions)
    then err
        ("certificate_arn configured for region=" <> region <> ", which is not present in regions")
    else if not (truthy (strip (or_empty raw_arn)))
    then err ("certificate_arn for region=" <> region <> " must be a non-empty string")
    else in_region region (strip (or_empty raw_arn))
        (parse_acm_certificate_arn (strip (or_empty raw_arn)))

unfoldable pub arns_of_map : List String → Tags → List (String × Option String) → Result String Tags
unfolding arn_for
arns_of_map regions acc [] = ok acc
arns_of_map regions acc ((raw_region, raw_arn) ∷ rest) =
    elim (arn_for regions (strip raw_region) raw_arn) [
      | err x ↦ err x
      | ok arn ↦ arns_of_map regions (put_tag (strip raw_region, arn) acc) rest
    ]

abbrev pub for_one : String → Result String String → Result String Tags
for_one region (err x) = err x
for_one region (ok arn) = ok ((region, arn) ∷ [])

abbrev pub for_single : String → List String → Result String Tags
for_single arn (region ∷ []) = for_one region (in_region region arn (parse_acm_certificate_arn arn))
for_single arn _ =
    err "delivery_targets.options.certificate_arn may be a string only for a single region"

unfoldable pub normalize_explicit_certificate_arns : ArnOption → List String → Result String Tags
unfolding in_region arns_of_map
normalize_explicit_certificate_arns no_arn regions = ok []
normalize_explicit_certificate_arns (one_arn text) regions =
    if truthy (strip text) then for_single (strip text) regions else ok []
normalize_explicit_certificate_arns (arn_map m) regions = arns_of_map regions [] m

-- all required tags are there
unfoldable pub has_tags : Tags → Tags → Bool
unfolding tag_value
has_tags required current = all (λ t. is_some_of (tag_value t.0 current) t.1) required

abbrev pub is_imported_for : String → Certificate → Bool
is_imported_for primary_domain c =
    is_some_of c.domain_name primary_domain && is_some_of c.kind "IMPORTED"

abbrev pub add_arn : String → List String → List String
add_arn arn arns = if any (λ a. a == arn) arns then arns else arn ∷ arns

module _ (aws : Aws) (history : List Import) (region primary_domain : String)
    (required : Tags) where
  -- `_certificate_tags_match`
  unfoldable pub tags_match : String → Result String Bool
  unfolding has_tags
  tags_match arn = elim (aws.tags_of history region arn) [
    | err x ↦ err x
    | ok current ↦ ok (has_tags required current)
  ]

  -- The set of candidates, as a list without repetition. Its order is not that of the set.
  unfoldable pub candidates : List Certificate → Result String (List String)
  unfolding tags_match
  candidates [] = ok []
  candidates (c ∷ cs) =
      if is_imported_for primary_domain c && truthy_opt c.arn
      then elim (tags_match (or_empty c.arn)) [
        | err x ↦ err x
        | ok b ↦ elim (candidates cs) [
          | err x ↦ err x
          | ok arns ↦ ok (if b then add_arn (or_empty c.arn) arns else arns)
        ]
      ]
      else candidates cs

  abbrev pub only : List String → Result String (Option String)
  only [] = ok none
  only (arn ∷ []) = ok (some arn)
  only (a ∷ b ∷ arns) = err "multiple matching imported certificates found"

  unfoldable pub find_existing_imported_cert_arn : Result String (Option String)
  unfolding candidates
  find_existing_imported_cert_arn = elim (aws.listed history region) [
    | err x ↦ err x
    | ok cs ↦ elim (candidates cs) [ err x ↦ err x | ok arns ↦ only arns ]
  ]

  unfoldable pub validate_described : String → Certificate → Result String (Option String)
  validate_described arn c =
      if not (is_some_of c.domain_name primary_domain)
      then err "explicit ACM certificate ARN DomainName does not match"
      else if not (is_some_of c.kind "IMPORTED")
      then err "explicit ACM certificate ARN must reference Type=IMPORTED"
      else elim (tags_match arn) [
        | err x ↦ err x
        | ok b ↦
            if b
            then ok (some arn)
            else err "explicit ACM certificate ARN does not match the required tags"
      ]

  unfoldable pub validate_explicit_imported_certificate :
      String → String → Result String (Option String)
  unfolding validate_described
  validate_explicit_imported_certificate account arn = elim (parse_acm_certificate_arn arn) [
    | err x ↦ err x
    | ok (arn_region, arn_account) ↦
        if not (arn_region == region)
        then err "explicit ACM certificate ARN region does not match"
        else if not (arn_account == account)
        then err "explicit ACM certificate ARN account does not match the active AWS account"
        else elim (aws.described history region arn) [
          | err x ↦ err x
          | ok c ↦ validate_described arn c
        ]
  ]

  -- the certificate to replace in the region, none for a new one
  unfoldable pub existing_arn : Tags → String → Result String (Option String)
  unfolding find_existing_imported_cert_arn validate_explicit_imported_certificate
  existing_arn explicit account =
      let arn = tag_value region explicit in
      if truthy_opt arn
      then validate_explicit_imported_certificate account (or_empty arn)
      else find_existing_imported_cert_arn

  abbrev pub import_of : String → Option String → String → Option String → Import
  import_of body chain key arn = record {
    region = region;
    body = body;
    chain = if truthy_opt chain then chain else none;
    key = key;
    certificate_arn = if truthy_opt arn then arn else none;
    new_tags = if truthy_opt arn then [] else required;
  }

module _ (aws : Aws) (primary_domain : String) (required explicit : Tags)
    (account body key : String) (chain : Option String) where
  abbrev pub next_import : List Import → String → Option String → Import
  next_import history region arn =
      import_of aws history region primary_domain required body chain key arn

  abbrev pub import_answer : Import → Result String String → Exec (List Import) String String
  import_answer i r history = (r, history ++ i ∷ [])

  unfoldable pub import_region : String → Exec (List Import) String String
  import_region region history =
      elim (existing_arn aws history region primary_domain required explicit account) [
        | err x ↦ (err x, history)
        | ok arn ↦
            import_answer (next_import history region arn)
              (aws.imported history (next_import history region arn)) history
      ]

  -- the loop over the regions, with the ARNs of the imports
  unfoldable pub import_regions : List String → Exec (List Import) String Tags
  unfolding import_region
  import_regions [] = pure []
  import_regions (region ∷ regions) = do
    arn ← import_region region
    rest ← import_regions regions
    pure ((region, arn) ∷ rest)

abbrev pub base_tags : String → String → Tags
base_tags entry_name primary_domain =
    ("managed-by", "certman") ∷ ("entry-name", entry_name) ∷ ("primary-domain", primary_domain) ∷ []

abbrev pub regions_or_default : List String → List String
regions_or_default [] = "us-east-1" ∷ []
regions_or_default (r ∷ rs) = r ∷ rs

abbrev pub first_region : List String → String
first_region [] = "us-east-1"
first_region (r ∷ rs) = r

unfoldable pub active_account : Aws → Tags → List String → Result String String
active_account aws explicit regions = elim explicit [
  | [] ↦ ok ""
  | e ∷ es ↦ aws.account (first_region regions)
]

unfoldable pub credentials_of : Env → Option String → String → Result String (Option AwsCredentials)
credentials_of env account_id region =
    if truthy_opt account_id
    then elim (aws_credentials_for_account env (or_empty account_id) region) [
      | err x ↦ err x
      | ok c ↦ ok (some c)
    ]
    else ok none

-- The imports, up to the metadata file; `connect` makes the session.
module _ (env : Env) (connect : Option AwsCredentials → Aws) (entry_name primary_domain : String)
    (account_id : Option String) (regions : List String) (tags : Tags)
    (certificate_arn : ArnOption) where
  abbrev pub effective_tags : Tags
  effective_tags = update_tags (base_tags entry_name primary_domain) tags

  abbrev pub effective_regions : List String
  effective_regions = regions_or_default regions

  unfoldable pub import_pair : Option String → String → String → Exec (List Import) String Tags
  unfolding normalize_explicit_certificate_arns credentials_of active_account import_regions
  import_pair chain body key = do
    explicit ← lift (normalize_explicit_certificate_arns certificate_arn effective_regions)
    credentials ← lift (credentials_of env account_id (first_region effective_regions))
    account ← lift (active_account (connect credentials) explicit effective_regions)
    import_regions (connect credentials) primary_domain effective_tags explicit account body key
        chain effective_regions

  abbrev pub import_files :
      Option String → Option String → Option String → Exec (List Import) String Tags
  import_files (some body) chain (some key) = import_pair chain body key
  import_files none chain _ =
      raise "aws-acm delivery requires cert.pem/fullchain.pem and privkey.pem"
  import_files (some body) chain none =
      raise "aws-acm delivery requires cert.pem/fullchain.pem and privkey.pem"

  unfoldable pub import_bundle : Files → Exec (List Import) String Tags
  unfolding import_pair
  import_bundle files =
      import_files (or_else (get_file "cert.pem" files) (get_file "fullchain.pem" files))
        (get_file "chain.pem" files) (get_file "privkey.pem" files)
