-- ===== src/Cert/Service/Prepared.antt =====
-- What `issue` prepares from the credentials of an entry, for each DNS provider.
use certman.Base.{
  ◌<>◌, String, ◌≡◌, false, some, none, List, [], ◌∷◌, ◌++◌, ◌==◌, if◌then◌else◌, lower, Result, ok,
  err, Result-cases, Bool-cases, inl, inr, eq_iff,
}
use certman.Config.Entry.{Entry}
use certman.Cert.Providers.{
  AliyunCredentials, CloudflareCredentials, AwsCredentials, aliyun_credentials_for_entry,
  cloudflare_credentials_for_entry, route53_credentials_for_entry, aliyun_ini, cloudflare_ini,
}
use certman.Cert.Service.{
  Site, Overrides, Runtime, owner, prepare_aliyun, prepare_cloudflare, route53_env, prepare_issue,
}

module _ (rt : Runtime) (e : Entry) where
  abbrev pub aliyun_file : String
  aliyun_file = rt.credentials_path ("aliyun_" <> owner rt e <> ".ini")

  abbrev pub cloudflare_file : String
  cloudflare_file = rt.credentials_path ("cloudflare_" <> owner rt e <> ".ini")

  -- The authenticator's arguments, the variables of the process, and the files written before and
  -- after: two providers take a file of credentials, the third takes variables.
  pub data IsPrepared
      : List String × Overrides → List (String × String) → List (String × String) → Type 0 where
    by_aliyun :
        {w : List (String × String)} (c : AliyunCredentials)
        → lower e.dns_provider ≡ "aliyun"
        → aliyun_credentials_for_entry rt.env e ≡ ok c
        → IsPrepared
            ("--authenticator" ∷ "dns-aliyun" ∷ "--dns-aliyun-credentials" ∷ aliyun_file ∷ [], [])
            w
            (w ++ (aliyun_file, aliyun_ini c) ∷ [])
    by_cloudflare :
        {w : List (String × String)} (c : CloudflareCredentials)
        → lower e.dns_provider ≡ "cloudflare"
        → cloudflare_credentials_for_entry rt.env e ≡ ok c
        → IsPrepared
            (
              "--authenticator" ∷ "dns-cloudflare" ∷ "--dns-cloudflare-credentials"
                  ∷ cloudflare_file ∷ [],
              [],
            )
            w
            (w ++ (cloudflare_file, cloudflare_ini c) ∷ [])
    by_route53 :
        {w : List (String × String)} (c : AwsCredentials)
        → lower e.dns_provider ≡ "route53"
        → route53_credentials_for_entry rt.env e ≡ ok c
        → IsPrepared
            (
              "--authenticator" ∷ "dns-route53" ∷ [],
              ("AWS_ACCESS_KEY_ID", some c.access_key_id)
                  ∷ ("AWS_SECRET_ACCESS_KEY", some c.secret_access_key)
                  ∷ ("AWS_DEFAULT_REGION", some c.region)
                  ∷ ("AWS_SESSION_TOKEN", c.session_token)
                  ∷ ("AWS_PROFILE", none)
                  ∷ ("AWS_DEFAULT_PROFILE", none)
                  ∷ ("AWS_SHARED_CREDENTIALS_FILE", none)
                  ∷ ("AWS_CONFIG_FILE", none)
                  ∷ [],
            )
            w
            w

  -- An outcome that, if it is one of success, is prepared.
  abbrev pub Prepared : Site → Result String (List String × Overrides) × Site → Type 0
  Prepared s (err x, s') = Unit
  Prepared s (ok prepared, s') = IsPrepared prepared s.written s'.written

  aliyun-Prepared : (s : Site) → lower e.dns_provider ≡ "aliyun" → Prepared s (prepare_issue rt e s)
  unfolding prepare_issue prepare_aliyun
  aliyun-Prepared s p = elim (Result-cases (aliyun_credentials_for_entry rt.env e)) [
    | inl (x, h) ↦ rw (p, h, prepare_aliyun) tt
    | inr (c, h) ↦ rw (p, h, prepare_aliyun) (by_aliyun c p h)
  ]

  cloudflare-Prepared :
      (s : Site) → lower e.dns_provider ≡ "cloudflare" → Prepared s (prepare_issue rt e s)
  unfolding prepare_issue prepare_cloudflare
  cloudflare-Prepared s p = elim (Result-cases (cloudflare_credentials_for_entry rt.env e)) [
    | inl (x, h) ↦ rw (p, h, prepare_cloudflare) tt
    | inr (c, h) ↦ rw (p, h, prepare_cloudflare) (by_cloudflare c p h)
  ]

  route53-Prepared :
      (s : Site) → lower e.dns_provider ≡ "route53" → Prepared s (prepare_issue rt e s)
  unfolding prepare_issue route53_env
  route53-Prepared s p = elim (Result-cases (route53_credentials_for_entry rt.env e)) [
    | inl (x, h) ↦ rw (p, h, route53_env) tt
    | inr (c, h) ↦ rw (p, h, route53_env) (by_route53 c p h)
  ]

  other-Prepared :
      (s : Site)
      → (lower e.dns_provider == "aliyun") ≡ false
      → (lower e.dns_provider == "cloudflare") ≡ false
      → (lower e.dns_provider == "route53") ≡ false
      → Prepared s (prepare_issue rt e s)
  unfolding prepare_issue
  other-Prepared s a b c = rw (a, b, c, if◌then◌else◌) tt

  pub issue-Prepared : (s : Site) → Prepared s (prepare_issue rt e s)
  issue-Prepared s =
      let provider = lower e.dns_provider in
      elim (Bool-cases (provider == "aliyun")) [
        | inl a ↦ aliyun-Prepared s ((eq_iff provider "aliyun").0 a)
        | inr a ↦ elim (Bool-cases (provider == "cloudflare")) [
          | inl b ↦ cloudflare-Prepared s ((eq_iff provider "cloudflare").0 b)
          | inr b ↦ elim (Bool-cases (provider == "route53")) [
            | inl c ↦ route53-Prepared s ((eq_iff provider "route53").0 c)
            | inr c ↦ other-Prepared s a b c
          ]
        ]
      ]
