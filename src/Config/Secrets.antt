-- ===== src/Config/Secrets.antt =====
-- `required_env_keys`: what it reports is missing.
use certman.Base.{
  String, ◌≡◌, inl, inr, true, Option, none, some, List, [], ◌∷◌, ◌++◌, ◌&&◌, ◌||◌, if◌then◌else◌,
  filter, All, All-append, truthy, lower, ok, Result-cases, Bool-cases, arith,
}
use certman.Config.Entry.{
  Entry, Env, is_unset, missing_ref, is_env_ref, env_ref_key, is_plain, is_cons, provider_keys,
  targets_keys, account_keys, account_of, required_env_keys,
}

-- All keys of the list are unset or empty in the environment.
abbrev pub AreUnset : Env → List String → Type 0
AreUnset env = All (λ k. is_unset env k ≡ true)

filter-AreUnset : (env : Env) (ks : List String) → AreUnset env (filter (is_unset env) ks)
filter-AreUnset env [] = tt
filter-AreUnset env (k ∷ ks) = elim (Bool-cases (is_unset env k)) [
  | inl e ↦ rw (e, if◌then◌else◌) (e, filter-AreUnset env ks)
  | inr e ↦ rw (e, if◌then◌else◌) (filter-AreUnset env ks)
]

missing_ref-AreUnset : (env : Env) (o : Option String) → AreUnset env (missing_ref env o)
unfolding missing_ref
missing_ref-AreUnset env none = tt
missing_ref-AreUnset env (some value) =
    elim (Bool-cases (truthy value && is_env_ref value && is_unset env (env_ref_key value))) [
      | inl e ↦ rw (e, if◌then◌else◌) (ground arith, tt)
      | inr e ↦ rw (e, if◌then◌else◌) tt
    ]

account_keys-AreUnset :
    (env : Env) (e : Entry) (ks : List String) → account_keys env e ≡ ok ks → AreUnset env ks
unfolding account_keys
account_keys-AreUnset env e ks h = elim (Bool-cases (truthy (account_of e.account_id))) [
  | inr f ↦ let whole : ks ≡ [] = ground arith in rw whole tt
  | inl f ↦ elim (Result-cases (provider_keys (lower e.dns_provider) (account_of e.account_id))) [
    | inl (x, g) ↦ absurd (ground arith)
    | inr (required, g) ↦
        let whole : ks
            ≡ filter (is_unset env) required
              ++ filter (is_unset env) (targets_keys e.delivery_targets) =
          ground arith in
        rw whole (
          All-append (λ k. is_unset env k ≡ true) (filter (is_unset env) required)
            (filter (is_unset env) (targets_keys e.delivery_targets)) (filter-AreUnset env required)
            (filter-AreUnset env (targets_keys e.delivery_targets)))
  ]
]

-- Every key that is reported for an entry is unset or empty in the environment.
pub required_sound :
    (e : Entry) (env : Env) (ks : List String) → required_env_keys e env ≡ ok ks → AreUnset env ks
unfolding required_env_keys
required_sound e env ks h =
    let c = e.credentials in
    let missing =
      missing_ref env c.access_key_id
      ++ missing_ref env c.access_key_secret
      ++ missing_ref env c.api_token in
    let unset : AreUnset env missing =
      All-append (λ k. is_unset env k ≡ true)
        (missing_ref env c.access_key_id ++ missing_ref env c.access_key_secret)
        (missing_ref env c.api_token)
        (All-append (λ k. is_unset env k ≡ true) (missing_ref env c.access_key_id)
          (missing_ref env c.access_key_secret) (missing_ref-AreUnset env c.access_key_id)
          (missing_ref-AreUnset env c.access_key_secret))
        (missing_ref-AreUnset env c.api_token) in
    elim (Bool-cases (
      is_cons missing
      || (is_plain c.access_key_id || is_plain c.access_key_secret || is_plain c.api_token))) [
        | inl f ↦ let whole : ks ≡ missing = ground arith in rw whole unset
        | inr f ↦ account_keys-AreUnset env e ks (ground arith)
      ]
