-- ===== src/Api/Admission.antt =====
-- Which requests the guards of certman/api/auth.py let through.
use certman.Base.{
  String, ◌≡◌, refl, true, false, Option, none, some, ◌==◌, find?, truthy, truthy_opt, strip, lower,
  split_once, ok, arith, eq_iff, inl, inr, Option-cases, Bool-cases,
}
use certman.Api.Auth.{
  AuthConfig, TokenEntry, space, bearer_of, get_bearer_token, resolve_entry_token,
  is_token_auth_enabled, compare_digest, require_token, require_entry_token_if_configured,
}

-- The header is `<scheme> <rest>` with the bearer scheme in any case, and the rest is the token with
-- white space around it.
abbrev pub Carries : String → String → Type 0
Carries header token =
    (scheme : String) × (rest : String) × (split_once space header ≡ some (scheme, rest))
    × (lower scheme ≡ "bearer")
    × (strip rest ≡ token)

-- The token that opens an entry: its own when it has one, the global one when it has none.
pub data Opens (config : AuthConfig) (name token : String) : Type 0 where
  own :
      (entry : TokenEntry)
      → find? (λ item. item.name == name) config.entries ≡ some entry
      → entry.token ≡ some token
      → Opens config name token
  shared :
      ((entry : TokenEntry)
        → find? (λ item. item.name == name) config.entries ≡ some entry
        → truthy_opt entry.token ≡ false)
      → config.global_token ≡ some token
      → Opens config name token

resolved-Opens :
    (config : AuthConfig) (name token : String)
    → resolve_entry_token config name ≡ some token
    → Opens config name token
unfolding resolve_entry_token
resolved-Opens config name token h =
    elim (Option-cases (find? (λ item. item.name == name) config.entries)) [
      | inl e ↦ shared (λ entry f. ground arith) (ground arith)
      | inr (entry, e) ↦ elim (Bool-cases (truthy_opt entry.token)) [
        | inl t ↦ own entry e (ground arith)
        | inr t ↦ shared (λ other f. ground arith) (ground arith)
      ]
    ]

bearer-Carries :
    (header token : String)
    → bearer_of (split_once space header) ≡ some token
    → Carries header token
unfolding bearer_of
bearer-Carries header token h = elim (Option-cases (split_once space header)) [
  | inl e ↦ absurd (ground arith)
  | inr ((scheme, rest), e) ↦
      (scheme, rest, e, ground (arith, eq_iff (lower scheme) "bearer"), ground arith)
]

get_bearer_token-Carries :
    (header : Option String) (token : String)
    → get_bearer_token header ≡ some token
    → (text : String) × (header ≡ some text) × Carries text token
unfolding get_bearer_token
get_bearer_token-Carries none token h = absurd (ground arith)
get_bearer_token-Carries (some text) token h =
    (text, refl, bearer-Carries text token (ground arith))

-- A token that is required is the one the request carries.
require_token_carried :
    (header : Option String) (expected : String)
    → require_token header expected ≡ ok tt
    → get_bearer_token header ≡ some expected
unfolding require_token compare_digest
require_token_carried header expected h = elim (Option-cases (get_bearer_token header)) [
  | inl e ↦ absurd (ground arith)
  | inr (provided, e) ↦ ground (arith, eq_iff provided expected)
]

-- When token authentication is on, a request that the guard of an entry lets through carries a
-- nonempty token in a bearer header, and it is the token that opens the entry: the entry's own if it
-- has one, otherwise the global one.
pub require_entry_token_sound :
    (config : AuthConfig) (header : Option String) (name : String)
    → is_token_auth_enabled config ≡ true
    → require_entry_token_if_configured config header name ≡ ok tt
    → (text : String) × (token : String) × (header ≡ some text)
      × Carries text token
      × (truthy token ≡ true)
      × Opens config name token
unfolding require_entry_token_if_configured
require_entry_token_sound config header name on h =
    elim (Option-cases (resolve_entry_token config name)) [
      | inl e ↦ absurd (ground arith)
      | inr (token, e) ↦
          let required : require_token header token ≡ ok tt = ground arith in
          let (text, f, c) =
            get_bearer_token-Carries header token (require_token_carried header token required) in
          (text, token, f, c, ground arith, resolved-Opens config name token e)
    ]
