-- ===== src/NodeAgent/Cycle/Laws.antt =====
-- The exit code of the agent, and the reports of a cycle.
use certman.Base.{
  ℕ, String, ◌≡◌, ◌≢◌, ◌↔◌, refl, sym, ap, ◌∙◌, ◌⊎◌, inl, inr, true, false, Option, none, some,
  truthy_opt, Bool-cases, arith,
}
use certman.NodeAgent.Stream.{Loaded}
use certman.NodeAgent.Poller.{
  Reply, ErrorBody, replied, unreachable, Offer, Agent, Answers, classify, is_permanent, rejected,
  ensure_registered, poll,
}
use certman.NodeAgent.Cycle.{exit_code, first_exit}

-- The status is one that no retry mends.
abbrev pub IsPermanent : ℕ → Type 0
IsPermanent status = (status ≡ 401) ⊎ ((status ≡ 403) ⊎ ((status ≡ 409) ⊎ (status ≡ 422)))

-- Neither such a status nor one of success.
abbrev pub IsOther : ℕ → Type 0
IsOther status =
    (status ≢ 200)
    × (status ≢ 201)
    × (status ≢ 401)
    × (status ≢ 403)
    × (status ≢ 409)
    × (status ≢ 422)

module _ (loads : String → Loaded Offer) (a : Agent) (r : Answers) where
  -- The agent asks to be registered.
  abbrev pub Asks : Type 0
  Asks = (a.has_private_key ≡ true) × (truthy_opt a.register_token ≡ true)

  exit_step :
      a.has_private_key ≡ true
      → first_exit loads a r ≡ exit_code (ensure_registered a r.registration)
  unfolding first_exit poll
  exit_step h = ground arith

  no_exit : a.has_private_key ≡ false → first_exit loads a r ≡ none
  unfolding first_exit poll exit_code
  no_exit h = ground arith

  asked_step :
      truthy_opt a.register_token ≡ true
      → a.has_private_key ≡ true
      → ensure_registered a r.registration ≡ classify r.registration
  unfolding ensure_registered
  asked_step t h = ground arith

  silent_step : truthy_opt a.register_token ≡ false → first_exit loads a r ≡ none
  unfolding first_exit poll exit_code ensure_registered
  silent_step t = ground arith

  exit_asked : Asks → first_exit loads a r ≡ exit_code (classify r.registration)
  exit_asked (h, t) = exit_step h ∙ ap (exit_code) (asked_step t h)

code_2 :
    (reply : Reply ErrorBody)
    → exit_code (classify reply) ≡ some 2
    → (status : ℕ) × (body : Option ErrorBody) × (reply ≡ replied status body) × IsPermanent status
unfolding exit_code classify is_permanent rejected
code_2 unreachable h = absurd (ground arith)
code_2 (replied status body) h = (status, body, refl, ground arith)

code_of_permanent :
    (status : ℕ) (body : Option ErrorBody)
    → IsPermanent status
    → exit_code (classify (replied status body)) ≡ some 2
unfolding exit_code classify is_permanent rejected
code_of_permanent status body h = ground arith

-- Another answer than a registration or a permanent refusal, or none.
abbrev pub IsTransient : Reply ErrorBody → Type 0
IsTransient reply =
    (reply ≡ unreachable)
    ⊎ ((status : ℕ) × (body : Option ErrorBody) × (reply ≡ replied status body) × IsOther status)

code_3 : (reply : Reply ErrorBody) → exit_code (classify reply) ≡ some 3 → IsTransient reply
unfolding exit_code classify is_permanent rejected
code_3 unreachable h = inl refl
code_3 (replied status body) h = inr (
  status,
  body,
  refl,
  (ground arith, ground arith, ground arith, ground arith, ground arith, ground arith),
)

code_of_other :
    (status : ℕ) (body : Option ErrorBody)
    → IsOther status
    → exit_code (classify (replied status body)) ≡ some 3
unfolding exit_code classify is_permanent rejected
code_of_other status body (a, b, c, d, e, f) = ground arith

code_unreachable : exit_code (classify unreachable) ≡ some 3
unfolding exit_code classify
code_unreachable = refl

code_of_transient :
    (reply : Reply ErrorBody) → IsTransient reply → exit_code (classify reply) ≡ some 3
code_of_transient reply (inl e) = rw e code_unreachable
code_of_transient reply (inr (status, body, e, o)) = rw e (code_of_other status body o)

module _ (loads : String → Loaded Offer) (a : Agent) (r : Answers) where
  asks_if : (n : ℕ) → first_exit loads a r ≡ some n → Asks loads a r
  asks_if n h = elim (Bool-cases a.has_private_key) [
    | inr k ↦ absurd (never (no_exit loads a r k) h)
    | inl k ↦ elim (Bool-cases (truthy_opt a.register_token)) [
      | inr t ↦ absurd (never (silent_step loads a r t) h)
      | inl t ↦ (k, t)
    ]
  ]
    where
      never : first_exit loads a r ≡ none → first_exit loads a r ≡ some n → ⊥
      never e f = ground arith

  -- The first cycle ends the process with code 2 exactly when an agent that asks to be registered gets
  -- status 401, 403, 409 or 422, and with code 3 exactly when it gets another status that is not 200
  -- or 201, or no answer. An agent without a key or without a token goes on.
  pub first_exit_lem :
      ((first_exit loads a r ≡ some 2) ↔ (
        Asks loads a r
        × ((status : ℕ) × (body : Option ErrorBody) × (r.registration ≡ replied status body)
            × IsPermanent status)))
      × ((first_exit loads a r ≡ some 3) ↔ (Asks loads a r × IsTransient r.registration))
      × ((a.has_private_key ≡ false) ⊎ (truthy_opt a.register_token ≡ false)
          → first_exit loads a r ≡ none)
  first_exit_lem = ((two, two_of), (three, three_of), none_of)
    where
      two :
          first_exit loads a r ≡ some 2
          → Asks loads a r
            × ((status : ℕ) × (body : Option ErrorBody) × (r.registration ≡ replied status body)
                × IsPermanent status)
      two h = let k = asks_if 2 h in (k, code_2 r.registration (sym (exit_asked loads a r k) ∙ h))

      two_of :
          Asks loads a r
            × ((status : ℕ) × (body : Option ErrorBody) × (r.registration ≡ replied status body)
                × IsPermanent status)
          → first_exit loads a r ≡ some 2
      two_of (k, (status, body, e, q)) =
          exit_asked loads a r k ∙ rw e (code_of_permanent status body q)

      three : first_exit loads a r ≡ some 3 → Asks loads a r × IsTransient r.registration
      three h = let k = asks_if 3 h in (k, code_3 r.registration (sym (exit_asked loads a r k) ∙ h))

      three_of : Asks loads a r × IsTransient r.registration → first_exit loads a r ≡ some 3
      three_of (k, q) = exit_asked loads a r k ∙ code_of_transient r.registration q

      none_of :
          (a.has_private_key ≡ false) ⊎ (truthy_opt a.register_token ≡ false)
          → first_exit loads a r ≡ none
      none_of (inl k) = no_exit loads a r k
      none_of (inr t) = silent_step loads a r t
