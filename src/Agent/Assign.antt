-- ===== src/Agent/Assign.antt =====
-- The endpoints `poll`, `heartbeat` and `subscribe`, and `_claim_assignment_payload`.
pub mod Laws
pub mod Endpoints
use certman.Base.{
  ℕ, String, ◌<>◌, Bool, true, false, Option, none, some, List, [], ◌∷◌, Exec, Result, ok, err,
  pure, continue, ◌>>=◌,
}
use certman.Job.Table.{Job}
use certman.Job.Service.{claim_next_job}
use certman.Agent.Platform.{Platform}
use certman.Agent.State.{Server, Settings, Failure, http, on_jobs, seconds}
use certman.Agent.Auth.{Signed, ActiveNode, canonical_message, authenticate}
use certman.Agent.Token.{bundle_token_secret, mint_bundle_token}

-- api/schemas.py: PollAssignmentResponse
pub record Assignment : Type 0 where
  pub job_id : String
  pub job_type : String
  pub bundle_url : String
  pub bundle_signature : String
  pub bundle_token : String
  pub bundle_token_expires_at : ℕ

-- What a request draws: the identifier of its nonce row and the nonce of the server's signature.
pub record Draws : Type 0 where
  pub row : String
  pub nonce : String

-- A round of the wait: what other requests did to the tables meanwhile, the nonce drawn, and the
-- time. The rounds end at the deadline.
pub record Round : Type 0 where
  pub meanwhile : Server → Server
  pub nonce : String
  pub now : ℕ

module _ (p : Platform) (c : Settings) where
  unfoldable pub assignment_of : String → ℕ → String → String → ℕ → Job → Assignment
  assignment_of nonce now key token expires_at job = record {
    job_id = job.job_id;
    job_type = job.job_type;
    bundle_url = "/api/v1/node-agent/bundles/" <> job.job_id;
    bundle_signature =
        p.sign key (canonical_message p "server" (seconds now) nonce (p.dump_job job));
    bundle_token = token;
    bundle_token_expires_at = expires_at;
  }

  -- the response for a job that was claimed; the signing key is read for the token first
  unfoldable pub assignment_for : String → ℕ → String → Job → Result Failure (List Assignment)
  unfolding assignment_of
  assignment_for nonce now node_id job = elim (mint_bundle_token p c now node_id job.job_id) [
    | err e ↦ err e
    | ok (token, expires_at) ↦ elim (bundle_token_secret c) [
      | err e ↦ err e
      | ok key ↦ ok (assignment_of nonce now key token expires_at job ∷ [])
    ]
  ]

  -- the rest after the claim, which is committed by then
  unfoldable pub answer_claim : String → ℕ → String → Option Job → Result Failure (List Assignment)
  unfolding assignment_for
  answer_claim nonce now node_id none = ok []
  answer_claim nonce now node_id (some job) = assignment_for nonce now node_id job

  unfoldable pub claim_assignment_payload :
      String → ℕ → String → Exec Server Failure (List Assignment)
  unfolding answer_claim
  claim_assignment_payload nonce now node_id = do
    job ← on_jobs (claim_next_job (some node_id) true none now)
    λ s. (answer_claim nonce now node_id job, s)

  unfoldable pub poll : Draws → Signed → ℕ → Exec Server Failure (List Assignment)
  unfolding claim_assignment_payload
  poll d m now = do
    node ← authenticate p d.row m "" now
    claim_assignment_payload d.nonce now m.node_id

  unfoldable pub heartbeat : Draws → Signed → ℕ → Exec Server Failure (List Assignment)
  heartbeat d m now = do node ← authenticate p d.row m "" now; pure []

  -- The wait: the first claim that gives an assignment ends it, an error too; at the deadline the last
  -- answer stands.
  unfoldable pub wait_rounds : String → List Round → Exec Server Failure (List Assignment)
  wait_rounds node_id [] s = (ok [], s)
  wait_rounds node_id (r ∷ rs) s =
      let (res, s') = claim_assignment_payload r.nonce r.now node_id (r.meanwhile s) in
      let rest = wait_rounds node_id rs s' in
      elim res [ err e ↦ (err e, s') | ok l ↦ elim l [ [] ↦ rest | a ∷ as' ↦ (ok (a ∷ as'), s') ] ]

  unfoldable pub subscribe : Draws → Signed → ℕ → List Round → Exec Server Failure (List Assignment)
  unfolding wait_rounds
  subscribe d m now rounds = do
    node ← authenticate p d.row m "" now
    first ← claim_assignment_payload d.nonce now m.node_id
    elim first [ [] ↦ wait_rounds m.node_id rounds | a ∷ as' ↦ pure (a ∷ as') ]
