-- ===== src/Agent/Assign/Endpoints.antt =====
-- `poll` and `subscribe` as wholes.
use certman.Base.{
  ℕ, String, ◌≡◌, true, none, some, List, [], ◌∷◌, ◌⊎◌, inl, inr, ok, err, Result-cases, arith,
}
use certman.Job.Table.{Job}
use certman.Job.Service.{claim_next_job}
use certman.Agent.Platform.{Platform}
use certman.Agent.State.{Server, Settings, Failure, http}
use certman.Agent.Auth.{Signed, admit, authenticate}
use certman.Agent.Token.{mint_bundle_token}
use certman.Agent.Assign.{
  Assignment, Draws, Round, assignment_for, claim_assignment_payload, poll, heartbeat, wait_rounds,
  subscribe,
}
use certman.Agent.Assign.Laws.{IsAssigned, claim_payload_sound}

module _ (p : Platform) (c : Settings) where
  -- No assignment, or one that holds for the node at some time of the request.
  abbrev pub AtMostOne : String → List Job → List Assignment → Type 0
  AtMostOne node_id jobs l =
      (l ≡ []) ⊎ ((t : ℕ) × (a : Assignment) × (l ≡ a ∷ []) × IsAssigned p c node_id t jobs a)

  pub one_claim :
      (nonce : String) (now : ℕ) (node_id : String) (s s' : Server) (l : List Assignment)
      → claim_assignment_payload p c nonce now node_id s ≡ (ok l, s')
      → AtMostOne node_id s'.jobs l
  one_claim nonce now node_id s s' l h = elim (claim_payload_sound p c nonce now node_id s s' l h) [
    | inl (e, _) ↦ inl e
    | inr (a, e, i) ↦ inr (now, a, e, i)
  ]

  one_wait :
      (node_id : String) (rounds : List Round) (s s' : Server) (l : List Assignment)
      → wait_rounds p c node_id rounds s ≡ (ok l, s')
      → AtMostOne node_id s'.jobs l
  unfolding wait_rounds
  one_wait node_id [] s s' l h = inl (ground arith)
  one_wait node_id (r ∷ rs) s s' l h =
      let out = claim_assignment_payload p c r.nonce r.now node_id (r.meanwhile s) in
      elim (Result-cases out.0) [
        | inl (e, f) ↦ absurd (ground arith)
        | inr ([], f) ↦ one_wait node_id rs out.1 s' l (ground arith)
        | inr (a ∷ more, f) ↦ one_claim r.nonce r.now node_id (r.meanwhile s) s' l (ground arith)
      ]

  -- A long poll that succeeds hands out at most one job, however many rounds it waits: the job is then
  -- running and held by the node, and the bundle token is for it.
  pub subscribe_sound :
      (d : Draws) (m : Signed) (now : ℕ) (rounds : List Round) (s s' : Server) (l : List Assignment)
      → subscribe p c d m now rounds s ≡ (ok l, s')
      → AtMostOne m.node_id s'.jobs l
  unfolding subscribe
  subscribe_sound d m now rounds s s' l h =
      let auth = authenticate p d.row m "" now s in
      let out = claim_assignment_payload p c d.nonce now m.node_id auth.1 in
      elim (Result-cases auth.0) [
        | inl (e, f) ↦ absurd (ground arith)
        | inr (n, f) ↦ elim (Result-cases out.0) [
          | inl (e, g) ↦ absurd (ground arith)
          | inr ([], g) ↦ one_wait m.node_id rounds out.1 s' l (ground arith)
          | inr (a ∷ more, g) ↦ one_claim d.nonce now m.node_id auth.1 s' l (ground arith)
        ]
      ]

  -- A poll that succeeds hands out at most one job, which is then running and held by the node.
  pub poll_sound :
      (d : Draws) (m : Signed) (now : ℕ) (s s' : Server) (l : List Assignment)
      → poll p c d m now s ≡ (ok l, s')
      → AtMostOne m.node_id s'.jobs l
  unfolding poll
  poll_sound d m now s s' l h =
      let auth = authenticate p d.row m "" now s in
      elim (Result-cases auth.0) [
        | inl (e, f) ↦ absurd (ground arith)
        | inr (n, f) ↦ one_claim d.nonce now m.node_id auth.1 s' l (ground arith)
      ]

  -- Without a signing key, a request that claims a job is answered with status 500, and the job stays
  -- claimed.
  pub claim_stranded :
      (nonce : String) (now : ℕ) (node_id : String) (s : Server) (j : Job) (db : List Job)
      → c.signing_key ≡ none
      → claim_next_job (some node_id) true none now s.jobs ≡ (ok (some j), db)
      → claim_assignment_payload p c nonce now node_id s
        ≡ (err (http 500 "INTERNAL_SIGNING_KEY"), record s { jobs = db })
  unfolding claim_assignment_payload assignment_for mint_bundle_token
  claim_stranded nonce now node_id s j db k h = ground arith

  -- A poll or a long poll whose node or signature is refused writes nothing.
  pub unsigned_writes_nothing :
      (d : Draws) (m : Signed) (now : ℕ) (rounds : List Round) (s : Server) (e : Failure)
      → admit p m "" now s ≡ err e
      → (poll p c d m now s ≡ (err e, s))
        × (heartbeat p c d m now s ≡ (err e, s))
        × (subscribe p c d m now rounds s ≡ (err e, s))
  unfolding poll heartbeat subscribe authenticate
  unsigned_writes_nothing d m now rounds s e h = (ground arith, ground arith, ground arith)
