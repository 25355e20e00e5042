-- ===== src/Cert/Providers/Laws.antt =====
-- A configuration that is validated has the credentials of its accounts.
use certman.Base.{
  String, ◌<>◌, ◌≡◌, refl, sym, ◌∙◌, ◌⊎◌, inl, inr, true, Option, none, some, List, [], ◌∷◌, ◌++◌,
  ◌==◌, filter, truthy, truthy_opt, or_empty, lower, ok, err, Result-cases, Bool-cases, arith,
  eq_iff,
}
use certman.Config.Entry.{
  ConfigError, Entry, Env, normalize_account_id, account_of, is_unset, missing_ref, is_plain,
  provider_keys, targets_keys, account_keys, required_env_keys,
}
use certman.Cert.Providers.{
  AliyunCredentials, CloudflareCredentials, AwsCredentials, aws_credentials_for_account,
  aliyun_account, cloudflare_account, aliyun_credentials_for_entry,
  cloudflare_credentials_for_entry, route53_credentials_for_entry,
}

-- The credentials of the entry for its provider are found.
abbrev pub HasCredentials : Env → Entry → Type 0
HasCredentials env e =
    ((lower e.dns_provider ≡ "cloudflare")
      × ((c : CloudflareCredentials) × (cloudflare_credentials_for_entry env e ≡ ok c)))
    ⊎ (((lower e.dns_provider ≡ "route53")
          × ((c : AwsCredentials) × (route53_credentials_for_entry env e ≡ ok c)))
        ⊎ ((lower e.dns_provider ≡ "aliyun")
            × ((c : AliyunCredentials) × (aliyun_credentials_for_entry env e ≡ ok c))))

-- The entry has an account and no credentials of its own.
abbrev pub UsesAccount : Entry → Type 0
UsesAccount e =
    (truthy (account_of e.account_id) ≡ true)
    × (e.credentials.access_key_id ≡ none)
    × (e.credentials.access_key_secret ≡ none)
    × (e.credentials.api_token ≡ none)

module _ (env : Env) where
  -- All keys are set.
  abbrev AreSet : List String → Type 0
  AreSet [] = Unit
  AreSet (k ∷ ks) = (truthy_opt (env k) ≡ true) × AreSet ks

  nothing_unset : (ks more : List String) → filter (is_unset env) ks ++ more ≡ [] → AreSet ks
  nothing_unset [] more h = tt
  nothing_unset (k ∷ ks) more h = elim (Bool-cases (truthy_opt (env k))) [
    | inl e ↦ (e, nothing_unset ks more (ground arith))
    | inr e ↦ absurd (ground arith)
  ]

  module _ (e : Entry) where
    account_step : UsesAccount e → required_env_keys e env ≡ account_keys env e
    unfolding required_env_keys missing_ref is_plain
    account_step (t, a, b, c) = rw (a, b, c) refl

    keys_step :
        (required : List String)
        → UsesAccount e
        → provider_keys (lower e.dns_provider) (account_of e.account_id) ≡ ok required
        → account_keys env e
          ≡ ok (
              filter (is_unset env) required
              ++ filter (is_unset env) (targets_keys e.delivery_targets))
    unfolding account_keys
    keys_step required (t, a, b, c) h = ground arith

    unsupported_step :
        (x : ConfigError)
        → UsesAccount e
        → provider_keys (lower e.dns_provider) (account_of e.account_id) ≡ err x
        → account_keys env e ≡ err x
    unfolding account_keys
    unsupported_step x (t, a, b, c) h = ground arith

    has_account :
        truthy (account_of e.account_id) ≡ true
        → (truthy_opt e.account_id ≡ true)
          × (account_of e.account_id ≡ normalize_account_id (or_empty e.account_id))
    has_account t = go e.account_id t
      where
        go :
            (o : Option String)
            → truthy (account_of o) ≡ true
            → (truthy_opt o ≡ true) × (account_of o ≡ normalize_account_id (or_empty o))
        go none h = absurd (ground arith)
        go (some a) h = elim (Bool-cases (truthy a)) [
          | inl q ↦ (q, ground arith)
          | inr q ↦ absurd (ground arith)
        ]

    module _ (u : UsesAccount e) where
      cloudflare_step :
          cloudflare_credentials_for_entry env e ≡ cloudflare_account env (or_empty e.account_id)
      unfolding cloudflare_credentials_for_entry
      cloudflare_step = let (t, a, b, c) = u in let (n, q) = has_account t in ground arith

      aliyun_step : aliyun_credentials_for_entry env e ≡ aliyun_account env (or_empty e.account_id)
      unfolding aliyun_credentials_for_entry
      aliyun_step = let (t, a, b, c) = u in let (n, q) = has_account t in ground arith

      route53_step :
          route53_credentials_for_entry env e
          ≡ aws_credentials_for_account env (or_empty e.account_id) "us-east-1"
      unfolding route53_credentials_for_entry
      route53_step = let (t, a, b, c) = u in let (n, q) = has_account t in ground arith

  cloudflare_found :
      (account_id : String)
      → AreSet (("CERTMAN_CLOUDFLARE_" <> normalize_account_id account_id <> "_API_TOKEN") ∷ [])
      → (c : CloudflareCredentials) × (cloudflare_account env account_id ≡ ok c)
  unfolding cloudflare_account
  cloudflare_found account_id (h, _) = elim (Result-cases (cloudflare_account env account_id)) [
    | inl (x, e) ↦ absurd (ground arith)
    | inr r ↦ r
  ]

  aliyun_found :
      (account_id : String)
      → AreSet (
          ("CERTMAN_ALIYUN_" <> normalize_account_id account_id <> "_ACCESS_KEY_ID")
          ∷ ("CERTMAN_ALIYUN_" <> normalize_account_id account_id <> "_ACCESS_KEY_SECRET")
          ∷ [])
      → (c : AliyunCredentials) × (aliyun_account env account_id ≡ ok c)
  unfolding aliyun_account
  aliyun_found account_id (h, (k, _)) = elim (Result-cases (aliyun_account env account_id)) [
    | inl (x, e) ↦ absurd (ground arith)
    | inr r ↦ r
  ]

  aws_found :
      (account_id : String)
      → AreSet (
          ("CERTMAN_AWS_" <> normalize_account_id account_id <> "_ACCESS_KEY_ID")
          ∷ ("CERTMAN_AWS_" <> normalize_account_id account_id <> "_SECRET_ACCESS_KEY")
          ∷ ("CERTMAN_AWS_" <> normalize_account_id account_id <> "_REGION")
          ∷ [])
      → (c : AwsCredentials) × (aws_credentials_for_account env account_id "us-east-1" ≡ ok c)
  unfolding aws_credentials_for_account
  aws_found account_id (h, (k, _)) =
      elim (Result-cases (aws_credentials_for_account env account_id "us-east-1")) [
        | inl (x, e) ↦ absurd (ground arith)
        | inr r ↦ r
      ]

-- The keys that an account needs, by provider.
abbrev ByProvider : String → String → List String → Type 0
ByProvider provider account required =
    ((provider ≡ "cloudflare")
      × (required ≡ ("CERTMAN_CLOUDFLARE_" <> account <> "_API_TOKEN") ∷ []))
    ⊎ (((provider ≡ "route53")
          × (required
              ≡ ("CERTMAN_AWS_" <> account <> "_ACCESS_KEY_ID")
                ∷ ("CERTMAN_AWS_" <> account <> "_SECRET_ACCESS_KEY")
                ∷ ("CERTMAN_AWS_" <> account <> "_REGION")
                ∷ []))
        ⊎ ((provider ≡ "aliyun")
            × (required
                ≡ ("CERTMAN_ALIYUN_" <> account <> "_ACCESS_KEY_ID")
                  ∷ ("CERTMAN_ALIYUN_" <> account <> "_ACCESS_KEY_SECRET")
                  ∷ [])))

keys-ByProvider :
    (provider account : String) (required : List String)
    → provider_keys provider account ≡ ok required
    → ByProvider provider account required
unfolding provider_keys
keys-ByProvider provider account required h = elim (Bool-cases (provider == "cloudflare")) [
  | inl a ↦ inl (ground (arith, eq_iff provider "cloudflare"), ground arith)
  | inr a ↦ elim (Bool-cases (provider == "route53")) [
    | inl b ↦ inr (inl (ground (arith, eq_iff provider "route53"), ground arith))
    | inr b ↦ elim (Bool-cases (provider == "aliyun")) [
      | inl c ↦ inr (inr (ground (arith, eq_iff provider "aliyun"), ground arith))
      | inr c ↦ absurd (ground arith)
    ]
  ]
]

module _ (env : Env) (e : Entry) (u : UsesAccount e) where
  all_set :
      (required : List String)
      → provider_keys (lower e.dns_provider) (account_of e.account_id) ≡ ok required
      → required_env_keys e env ≡ ok []
      → AreSet env required
  all_set required k h =
      let whole = sym (keys_step env e required u k) ∙ sym (account_step env e u) ∙ h in
      nothing_unset env required (filter (is_unset env) (targets_keys e.delivery_targets))
        (ground arith)

  found :
      (required : List String)
      → ByProvider (lower e.dns_provider) (normalize_account_id (or_empty e.account_id)) required
      → AreSet env required
      → HasCredentials env e
  found required (inl (p, q)) s =
      let (c, f) = cloudflare_found env (or_empty e.account_id) (rw q at s) in
      inl (p, (c, cloudflare_step env e u ∙ f))
  found required (inr (inl (p, q))) s =
      let (c, f) = aws_found env (or_empty e.account_id) (rw q at s) in
      inr (inl (p, (c, route53_step env e u ∙ f)))
  found required (inr (inr (p, q))) s =
      let (c, f) = aliyun_found env (or_empty e.account_id) (rw q at s) in
      inr (inr (p, (c, aliyun_step env e u ∙ f)))

  -- An entry that uses an account, and for which the validation of the configuration reports no
  -- missing key, has a known provider, and its credentials are found.
  pub validated-HasCredentials : required_env_keys e env ≡ ok [] → HasCredentials env e
  validated-HasCredentials h =
      elim (Result-cases (provider_keys (lower e.dns_provider) (account_of e.account_id))) [
        | inl (x, k) ↦ absurd (unsupported x k)
        | inr (required, k) ↦
            let (t, a, b, c) = u in
            let (n, same) = has_account env e t in
            found required
              (rw same at
                (keys-ByProvider (lower e.dns_provider) (account_of e.account_id) required k))
              (all_set required k h)
      ]
    where
      unsupported :
          (x : ConfigError)
          → provider_keys (lower e.dns_provider) (account_of e.account_id) ≡ err x
          → ⊥
      unsupported x k =
          let whole = sym (unsupported_step env e x u k) ∙ sym (account_step env e u) ∙ h in
          ground arith
