-- ===== src/Agent/Token/Laws.antt =====
-- What a bundle token is good for: its own node and job, until it expires, and nothing else.
use certman.Base.{
  ℕ, ◌+◌, ◌≤◌, String, ◌≡◌, true, Option, none, some, ◌==◌, ◌&&◌, inl, inr, ltb, if◌then◌else◌, ◌∙◌,
  ap, split_once, split_once-append, ok, arith, eq_iff, str_refl, Option-cases,
}
use certman.Agent.Platform.{Platform, Claims}
use certman.Agent.State.{Settings, seconds}
use certman.Agent.Token.{
  is_ascii, dot, signed_token, mint_bundle_token, judge_claims, judge_signature,
  verify_bundle_token,
}

-- What the code relies on, for the claims `c`: the token's body decodes to them, is ASCII and has no
-- dot, and a hexadecimal digest is ASCII.
pub record IsLawful (p : Platform) (c : Claims) : Type 0 where
  pub decodes : p.decode_claims (p.encode_claims c) ≡ some c
  pub undotted : split_once dot (p.encode_claims c) ≡ none
  pub body_ascii : is_ascii (p.encode_claims c) ≡ true
  pub digest_ascii : (k t : String) → is_ascii (p.hmac_sha256 k t) ≡ true

module _ (p : Platform) (c : Settings) where
  verify_signed :
      (later : ℕ) (node' job' key : String) (cl : Claims)
      → IsLawful p cl
      → c.signing_key ≡ some key
      → verify_bundle_token p c later (signed_token p c key (p.encode_claims cl)) node' job'
        ≡ ok (judge_claims p c later node' job' (some cl))
  unfolding verify_bundle_token signed_token
  verify_signed later node' job' key cl law e =
      let body = p.encode_claims cl in
      let digest = p.hmac_sha256 key body in
      ground (
        arith,
        split_once-append dot body digest law.undotted,
        law.body_ascii,
        law.digest_ascii key body,
        str_refl digest,
        law.decodes,
      )

  judged :
      (later : ℕ) (node job node' job' : String) (exp : ℕ)
      → judge_claims p c later node' job'
          (some (record { node_id = node; job_id = job; exp = exp }))
        ≡ (if ltb exp (seconds later)
            then some "AUTH_BUNDLE_TOKEN_EXPIRED"
            else if (node == node') && (job == job')
            then none
            else some "AUTH_BUNDLE_TOKEN_SCOPE_MISMATCH")
  unfolding judge_claims
  judged later node job node' job' exp = ground arith

  -- A minted token lives at least 30 seconds, and is judged by the claims that it was minted for.
  pub verify-mint :
      (now later : ℕ) (node job node' job' token : String) (exp : ℕ)
      → IsLawful p (record { node_id = node; job_id = job; exp = exp })
      → mint_bundle_token p c now node job ≡ ok (token, exp)
      → (seconds now + 30 ≤ exp)
        × (verify_bundle_token p c later token node' job'
            ≡ ok (
                if ltb exp (seconds later)
                then some "AUTH_BUNDLE_TOKEN_EXPIRED"
                else if (node == node') && (job == job')
                then none
                else some "AUTH_BUNDLE_TOKEN_SCOPE_MISMATCH"))
  unfolding mint_bundle_token
  verify-mint now later node job node' job' token exp law h = elim (Option-cases c.signing_key) [
    | inl e ↦ absurd (ground arith)
    | inr (key, e) ↦
        let cl : Claims = record { node_id = node; job_id = job; exp = exp } in
        let minted : token ≡ signed_token p c key (p.encode_claims cl) = ground arith in
        (
          ground arith,
          rw minted (
              verify_signed later node' job' key cl law e
              ∙ ap ok (judged later node job node' job' exp)),
        )
  ]

  judge_claims_sound :
      (now : ℕ) (node job : String) (o : Option Claims)
      → judge_claims p c now node job o ≡ none
      → (exp : ℕ) × (o ≡ some (record { node_id = node; job_id = job; exp = exp }))
        × (seconds now ≤ exp)
  unfolding judge_claims
  judge_claims_sound now node job none h = ground arith
  judge_claims_sound now node job (some cl) h =
      (cl.exp, ground (arith, eq_iff cl.node_id node, eq_iff cl.job_id job), ground arith)

  judge_signature_sound :
      (now : ℕ) (node job key body signature : String)
      → judge_signature p c now node job key body signature ≡ ok none
      → (signature ≡ p.hmac_sha256 key body)
        × (judge_claims p c now node job (p.decode_claims body) ≡ none)
  unfolding judge_signature
  judge_signature_sound now node job key body signature h =
      (ground (arith, eq_iff signature (p.hmac_sha256 key body)), ground arith)

  -- A token that passes has, before its first dot, claims for this node and job that have not
  -- expired, and after it their HMAC under the signing key.
  pub verify_sound :
      (now : ℕ) (token node job : String)
      → verify_bundle_token p c now token node job ≡ ok none
      → (key body : String) × (c.signing_key ≡ some key)
        × (split_once dot token ≡ some (body, p.hmac_sha256 key body))
        × ((exp : ℕ) × (p.decode_claims body
              ≡ some (record { node_id = node; job_id = job; exp = exp }))
            × (seconds now ≤ exp))
  unfolding verify_bundle_token
  verify_sound now token node job h = elim (Option-cases (split_once dot token)) [
    | inl e ↦ absurd (ground arith)
    | inr ((body, signature), e) ↦ elim (Option-cases c.signing_key) [
      | inl f ↦ absurd (ground arith)
      | inr (key, f) ↦
          let (d, j) = judge_signature_sound now node job key body signature (ground arith) in
          (key, body, f, ground arith, judge_claims_sound now node job (p.decode_claims body) j)
    ]
  ]
