-- ===== src/Cert/Providers.antt =====
-- certman/providers.py: the credentials of an entry for its DNS provider, and the files with them.
pub mod Laws
use Prim.Native.String.{slice, len}
use certman.Base.{
  ◌-◌, String, ◌<>◌, Bool, true, false, Option, none, some, ◌==◌, ◌&&◌, ◌||◌, not, if◌then◌else◌,
  truthy, truthy_opt, or_empty, strip, Result, ok, err,
}
use text.Mathlib.Text.{starts_with}
use certman.Config.Entry.{Entry, Env, normalize_account_id, account_of}
use certman.Delivery.Service.{get_or}

pub record AliyunCredentials : Type 0 where
  pub access_key_id : String
  pub access_key_secret : String

pub record CloudflareCredentials : Type 0 where
  pub api_token : String

-- Route53Credentials and AwsCredentials
pub record AwsCredentials : Type 0 where
  pub access_key_id : String
  pub secret_access_key : String
  pub region : String
  pub session_token : Option String

-- `value.startswith("${") and value.endswith("}")`
unfoldable pub is_reference : String → Bool
is_reference value = starts_with value "${" && slice value (len value - 1) (len value) == "}"

abbrev pub key_of : String → String
key_of value = strip (slice value 2 (len value - 1))

abbrev pub nonempty : Option String → Option String
nonempty o = if truthy_opt o then o else none

module _ (env : Env) where
  unfoldable pub resolve_value : String → Result String String
  unfolding is_reference
  resolve_value value =
      if is_reference (strip value)
      then if truthy_opt (env (key_of (strip value)))
        then ok (or_empty (env (key_of (strip value))))
        else err ("missing env var for reference: " <> key_of (strip value))
      else ok (strip value)

  unfoldable pub aws_credentials_for_account : String → String → Result String AwsCredentials
  aws_credentials_for_account account_id default_region =
      let account = normalize_account_id account_id in
      let ak = env ("CERTMAN_AWS_" <> account <> "_ACCESS_KEY_ID") in
      let sk = env ("CERTMAN_AWS_" <> account <> "_SECRET_ACCESS_KEY") in
      if not (truthy_opt ak) || not (truthy_opt sk)
      then err ("missing AWS env keys for account_id=" <> account_id)
      else ok (record {
        access_key_id = or_empty ak;
        secret_access_key = or_empty sk;
        region = get_or (env ("CERTMAN_AWS_" <> account <> "_REGION")) default_region;
        session_token = nonempty (env ("CERTMAN_AWS_" <> account <> "_SESSION_TOKEN"));
      })

  -- two values that are resolved one after the other
  abbrev pub both :
      {A : Type 0}
      → Result String String
      → Result String String
      → (String → String → A)
      → Result String A
  both (err x) _ f = err x
  both (ok a) (err x) f = err x
  both (ok a) (ok b) f = ok (f a b)

  abbrev pub aliyun_of : String → String → AliyunCredentials
  aliyun_of ak sk = record { access_key_id = ak; access_key_secret = sk }

  unfoldable pub aliyun_account : String → Result String AliyunCredentials
  aliyun_account account_id =
      let account = normalize_account_id account_id in
      let ak = env ("CERTMAN_ALIYUN_" <> account <> "_ACCESS_KEY_ID") in
      let sk = env ("CERTMAN_ALIYUN_" <> account <> "_ACCESS_KEY_SECRET") in
      if not (truthy_opt ak) || not (truthy_opt sk)
      then err ("missing aliyun env keys for account_id=" <> account_id)
      else ok (aliyun_of (or_empty ak) (or_empty sk))

  unfoldable pub aliyun_credentials_for_entry : Entry → Result String AliyunCredentials
  unfolding resolve_value aliyun_account
  aliyun_credentials_for_entry e =
      let c = e.credentials in
      if truthy_opt c.access_key_id && truthy_opt c.access_key_secret
      then both (resolve_value (or_empty c.access_key_id))
          (resolve_value (or_empty c.access_key_secret)) aliyun_of
      else if not (truthy_opt e.account_id)
      then err "aliyun entry missing account_id or credentials"
      else aliyun_account (or_empty e.account_id)

  abbrev pub token_of : Result String String → Result String CloudflareCredentials
  token_of (err x) = err x
  token_of (ok t) = ok (record { api_token = t })

  unfoldable pub cloudflare_account : String → Result String CloudflareCredentials
  cloudflare_account account_id =
      let token = env ("CERTMAN_CLOUDFLARE_" <> normalize_account_id account_id <> "_API_TOKEN") in
      if not (truthy_opt token)
      then err ("missing cloudflare env key for account_id=" <> account_id)
      else ok (record { api_token = or_empty token })

  unfoldable pub cloudflare_credentials_for_entry : Entry → Result String CloudflareCredentials
  unfolding resolve_value cloudflare_account
  cloudflare_credentials_for_entry e =
      if truthy_opt e.credentials.api_token
      then token_of (resolve_value (or_empty e.credentials.api_token))
      else if not (truthy_opt e.account_id)
      then err "cloudflare entry missing account_id or credentials.api_token"
      else cloudflare_account (or_empty e.account_id)

  -- the region of an entry with explicit credentials, before it is resolved
  unfoldable pub explicit_region : Entry → String
  explicit_region e =
      let account = account_of e.account_id in
      if truthy account
      then get_or (env ("CERTMAN_AWS_" <> account <> "_REGION")) "us-east-1"
      else "us-east-1"

  abbrev pub some_token : Result String String → Result String (Option String)
  some_token (err x) = err x
  some_token (ok t) = ok (some t)

  unfoldable pub explicit_session : Entry → Result String (Option String)
  explicit_session e =
      let account = account_of e.account_id in
      if truthy_opt e.credentials.api_token
      then some_token (resolve_value (or_empty e.credentials.api_token))
      else ok (if truthy account then env ("CERTMAN_AWS_" <> account <> "_SESSION_TOKEN") else none)

  abbrev pub aws_of :
      Result String (String × String)
      → Result String String
      → Result String (Option String)
      → Result String AwsCredentials
  aws_of (err x) _ _ = err x
  aws_of (ok k) (err x) _ = err x
  aws_of (ok k) (ok region) (err x) = err x
  aws_of (ok k) (ok region) (ok session) = ok (record {
    access_key_id = k.0;
    secret_access_key = k.1;
    region = region;
    session_token = session;
  })

  unfoldable pub route53_credentials_for_entry : Entry → Result String AwsCredentials
  unfolding resolve_value explicit_region explicit_session aws_credentials_for_account
  route53_credentials_for_entry e =
      let c = e.credentials in
      if truthy_opt c.access_key_id && truthy_opt c.access_key_secret
      then aws_of
          (both (resolve_value (or_empty c.access_key_id))
            (resolve_value (or_empty c.access_key_secret)) (λ a b. (a, b)))
          (resolve_value (explicit_region e)) (explicit_session e)
      else if not (truthy_opt e.account_id)
      then err "route53 entry missing account_id or credentials"
      else aws_credentials_for_account (or_empty e.account_id) "us-east-1"

unfoldable pub aliyun_ini : AliyunCredentials → String
aliyun_ini c =
    "dns_aliyun_access_key = " <> c.access_key_id <> "\n" <> "dns_aliyun_access_key_secret = "
    <> c.access_key_secret <> "\n"

unfoldable pub cloudflare_ini : CloudflareCredentials → String
cloudflare_ini c = "dns_cloudflare_api_token = " <> c.api_token <> "\n"
