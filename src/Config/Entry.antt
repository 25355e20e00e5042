-- ===== src/Config/Entry.antt =====
-- The configuration of an entry, and what is derived from it.
use Prim.Native.Char.{Char, code}
use Prim.Native.String.{slice, len, count}
use certman.Base.{
  ◌-◌, String, ◌<>◌, Bool, true, false, Option, none, some, List, [], ◌∷◌, ◌++◌, ◌==◌, ◌&&◌, ◌||◌,
  not, ltb, leb, nat_beq, if◌then◌else◌, any, filter, truthy, truthy_opt, strip, lower, Result, ok,
  err,
}
use text.Mathlib.Text.{starts_with}

pub record Credentials : Type 0 where
  pub access_key_id : Option String
  pub access_key_secret : Option String
  pub api_token : Option String

-- a delivery target, without its options
pub record Target : Type 0 where
  pub enabled : Bool
  pub kind : String
  pub scope : Option String
  pub account_id : Option String

-- An entry, without its description and token.
pub record Entry : Type 0 where
  pub name : String
  pub primary_domain : String
  pub cert_name : Option String
  pub secondary_domains : List String
  pub wildcard : Bool
  pub dns_provider : String
  pub account_id : Option String
  pub credentials : Credentials
  pub target_type : String
  pub target_scope : Option String
  pub delivery_targets : List Target

pub data ConfigError : Type 0 where
  value_error : ConfigError

-- the loop of entry_domains: what is in `seen` is left out
unfoldable pub unique : List String → List String → List String
unique seen [] = []
unique seen (d ∷ ds) =
    let rest = unique (if any (λ s. s == d) seen then seen else d ∷ seen) ds in
    if any (λ s. s == d) seen then rest else d ∷ rest

unfoldable pub all_domains : Entry → List String
all_domains e =
    let domains = e.primary_domain ∷ e.secondary_domains in
    if e.wildcard then domains ++ ("*." <> e.primary_domain) ∷ [] else domains

unfoldable pub entry_domains : Entry → List String
unfolding unique all_domains
entry_domains e = unique [] (all_domains e)

abbrev pub is_cons : {A : Type 0} → List A → Bool
is_cons [] = false
is_cons (x ∷ xs) = true

unfoldable pub entry_delivery_targets : Entry → List Target
entry_delivery_targets e =
    if is_cons e.delivery_targets
    then filter (λ t. t.enabled) e.delivery_targets
    else if not (e.target_type == "generic") || truthy_opt e.target_scope
    then record { enabled = true; kind = e.target_type; scope = e.target_scope; account_id = none }
      ∷ []
    else []

-- `value.endswith("}")` looks at the last byte.
unfoldable pub is_env_ref : String → Bool
is_env_ref value =
    starts_with value "${" && slice value (len value - 1) (len value) == "}" && ltb 3 (count value)

-- `value[2:-1].strip()`; both characters at the front and the one at the end are single bytes
unfoldable pub env_ref_key : String → String
env_ref_key value = strip (slice value 2 (len value - 1))

-- `str.upper` of the ASCII letters, and `-` for `_`
unfoldable pub account_char : Char → Char
account_char c =
    if nat_beq (code c) 45
    then "_"
    else if leb 97 (code c) && leb (code c) 122
    then Prim.Native.String.char_at "ABCDEFGHIJKLMNOPQRSTUVWXYZ" (code c - 97)
    else c

unfoldable pub account_text : String → String
unfolding account_char
account_text String.[] = ""
account_text (String.◌∷◌ c s) = String.◌∷◌ (account_char c) (account_text s)

unfoldable pub normalize_account_id : String → String
unfolding account_text
normalize_account_id account_id = account_text (strip account_id)

-- `normalize_account_id(x) if x else None`
abbrev pub account_of : Option String → String
account_of none = ""
account_of (some a) = if truthy a then normalize_account_id a else ""

-- `env.get(key)`
abbrev pub Env : Type 0
Env = String → Option String

abbrev pub is_unset : Env → String → Bool
is_unset env key = not (truthy_opt (env key))

-- what the loop over the credentials appends for one of them
unfoldable pub missing_ref : Env → Option String → List String
unfolding is_env_ref env_ref_key
missing_ref env none = []
missing_ref env (some value) =
    if truthy value && is_env_ref value && is_unset env (env_ref_key value)
    then env_ref_key value ∷ []
    else []

unfoldable pub is_plain : Option String → Bool
unfolding is_env_ref
is_plain none = false
is_plain (some value) = truthy value && not (is_env_ref value)

unfoldable pub provider_keys : String → String → Result ConfigError (List String)
provider_keys provider account =
    if provider == "cloudflare"
    then ok (("CERTMAN_CLOUDFLARE_" <> account <> "_API_TOKEN") ∷ [])
    else if provider == "route53"
    then ok (
        ("CERTMAN_AWS_" <> account <> "_ACCESS_KEY_ID")
        ∷ ("CERTMAN_AWS_" <> account <> "_SECRET_ACCESS_KEY")
        ∷ ("CERTMAN_AWS_" <> account <> "_REGION")
        ∷ [])
    else if provider == "aliyun"
    then ok (
        ("CERTMAN_ALIYUN_" <> account <> "_ACCESS_KEY_ID")
        ∷ ("CERTMAN_ALIYUN_" <> account <> "_ACCESS_KEY_SECRET")
        ∷ [])
    else err value_error

unfoldable pub target_keys : Target → List String
unfolding normalize_account_id
target_keys t =
    let account = account_of t.account_id in
    if not (lower (strip t.kind) == "aws-acm") || not (truthy account)
    then []
    else ("CERTMAN_AWS_" <> account <> "_ACCESS_KEY_ID")
      ∷ ("CERTMAN_AWS_" <> account <> "_SECRET_ACCESS_KEY")
      ∷ []

unfoldable pub targets_keys : List Target → List String
unfolding target_keys
targets_keys [] = []
targets_keys (t ∷ ts) = target_keys t ++ targets_keys ts

unfoldable pub account_keys : Env → Entry → Result ConfigError (List String)
unfolding normalize_account_id provider_keys targets_keys
account_keys env e =
    let account = account_of e.account_id in
    if not (truthy account) then ok [] else elim (provider_keys (lower e.dns_provider) account) [
      | err x ↦ err x
      | ok required ↦ ok (
          filter (is_unset env) required ++ filter (is_unset env) (targets_keys e.delivery_targets))
    ]

unfoldable pub required_env_keys : Entry → Env → Result ConfigError (List String)
unfolding missing_ref is_plain account_keys
required_env_keys e env =
    let c = e.credentials in
    let missing =
      missing_ref env c.access_key_id
      ++ missing_ref env c.access_key_secret
      ++ missing_ref env c.api_token in
    if is_cons missing
      || (is_plain c.access_key_id || is_plain c.access_key_secret || is_plain c.api_token)
    then ok missing
    else account_keys env e
