-- ===== src/Agent/Token.antt =====
-- Bundle tokens: `_mint_bundle_token` and `_verify_bundle_token`.
pub mod Laws
use Prim.Native.Char.{Char, code}
use certman.Base.{
  ℕ, ◌+◌, String, ◌<>◌, Bool, true, false, Option, none, some, ◌==◌, ◌&&◌, ◌||◌, not, ltb,
  if◌then◌else◌, split_once, Result, ok, err,
}
use certman.Agent.Platform.{Platform, Claims}
use certman.Agent.State.{Settings, Failure, http, crash, seconds}

-- `text.encode("ascii")` does not raise
abbrev pub is_ascii : String → Bool
is_ascii String.[] = true
is_ascii (String.◌∷◌ c s) = ltb (code c) 128 && is_ascii s

unfoldable pub bundle_token_secret : Settings → Result Failure String
bundle_token_secret c = elim c.signing_key [
  | none ↦ err (http 500 "INTERNAL_SIGNING_KEY")
  | some key ↦ ok key
]

-- `max(30, ttl)`
unfoldable pub effective_ttl : ℕ → ℕ
effective_ttl ttl = if ltb 30 ttl then ttl else 30

abbrev pub dot : Char
dot = "."

module _ (p : Platform) (c : Settings) where
  unfoldable pub signed_token : String → String → String
  signed_token key body = body <> String.◌∷◌ dot (p.hmac_sha256 key body)

  unfoldable pub mint_bundle_token : ℕ → String → String → Result Failure (String × ℕ)
  unfolding bundle_token_secret effective_ttl signed_token
  mint_bundle_token now node_id job_id =
      let expires_at = seconds now + effective_ttl c.bundle_token_ttl_seconds in
      let body =
        p.encode_claims (record { node_id = node_id; job_id = job_id; exp = expires_at }) in
      elim (bundle_token_secret c) [
        | err e ↦ err e
        | ok key ↦ ok (signed_token key body, expires_at)
      ]

  -- `none` for a good token, or the code of its fault
  unfoldable pub judge_claims : ℕ → String → String → Option Claims → Option String
  judge_claims now node_id job_id none = some "AUTH_INVALID_BUNDLE_TOKEN"
  judge_claims now node_id job_id (some claims) =
      if ltb claims.exp (seconds now)
      then some "AUTH_BUNDLE_TOKEN_EXPIRED"
      else if not (claims.node_id == node_id) || not (claims.job_id == job_id)
      then some "AUTH_BUNDLE_TOKEN_SCOPE_MISMATCH"
      else none

  -- `compare_digest` of two texts raises TypeError unless both are ASCII.
  unfoldable pub judge_signature :
      ℕ → String → String → String → String → String → Result Failure (Option String)
  unfolding judge_claims
  judge_signature now node_id job_id key body signature =
      if not (is_ascii body) || not (is_ascii signature)
      then err crash
      else if not (signature == p.hmac_sha256 key body)
      then ok (some "AUTH_INVALID_BUNDLE_TOKEN")
      else ok (judge_claims now node_id job_id (p.decode_claims body))

  unfoldable pub verify_bundle_token : ℕ → String → String → String → Result Failure (Option String)
  unfolding bundle_token_secret judge_signature
  verify_bundle_token now token node_id job_id = elim (split_once dot token) [
    | none ↦ ok (some "AUTH_INVALID_BUNDLE_TOKEN")
    | some (body, signature) ↦ elim (bundle_token_secret c) [
      | err e ↦ err e
      | ok key ↦ judge_signature now node_id job_id key body signature
    ]
  ]
