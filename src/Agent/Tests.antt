-- ===== src/Agent/Tests.antt =====
-- Requests against a small control plane, and the theorems at these inputs.
use certman.Base.{
  ℕ, ◌≤◌, ◌+◌, ◌*◌, String, ◌≡◌, ◌≢◌, refl, true, none, some, List, [], ◌∷◌, ◌==◌, ◌&&◌, ok, arith,
  if◌then◌else◌, ltb, split_once,
}
use certman.Job.Table.{Job, get_row, save, key_taken, replace}
use certman.Job.Service.{claim_next_job, get_job}
use certman.Node.Table.{Node, store_node}
use certman.Agent.Platform.{Platform, Claims}
use certman.Agent.State.{Nonce, Server, Settings, second, seconds}
use certman.Agent.Auth.{Signed, ActiveNode, admit, authenticate}
use certman.Agent.Replay.{attempts, replay_rejected}
use certman.Agent.Token.{dot, mint_bundle_token, verify_bundle_token}
use certman.Agent.Token.Laws.{IsLawful, verify-mint, verify_sound}
use certman.Agent.Assign.{Assignment, Draws, Round, claim_assignment_payload, poll, subscribe}
use certman.Agent.Assign.Endpoints.{AtMostOne, subscribe_sound}
use certman.Agent.Report.{check_running, completed, Report, report_result}
use certman.Agent.Replay.{holds}
use certman.Agent.Bundle.{Download, download_payload, authorize_download}
use certman.Agent.Bundle.Laws.{download_sound}
use certman.Agent.Report.Laws.{MaySettle}

abbrev claims_1 : Claims
claims_1 = record { node_id = "edge"; job_id = "j1"; exp = 400 }

abbrev pub toy : Platform
toy = record {
  sha256 = λ t. t;
  hmac_sha256 = λ k t. "beef";
  loads_pem = λ t. true;
  verifies = λ k sig m. sig == "good";
  sign = λ k m. "sig";
  quote = λ t. t;
  decimal = λ n. "0";
  quote_opt = λ o. "null";
  dump_job = λ j. j.job_id;
  encode_claims = λ c. "abc";
  decode_claims = λ t. some claims_1;
}

abbrev pub settings : Settings
settings = record {
  bundle_token_required = true;
  bundle_token_ttl_seconds = 300;
  signing_key = some "KEY";
}

abbrev keyless : Settings
keyless = record settings { signing_key = none }

abbrev pub edge : Node
edge = record {
  node_id = "edge";
  node_type = "agent";
  public_key = some "PEM";
  encryption_public_key = none;
  status = "active";
  last_seen = none;
  last_seen_updated_at = none;
  created_at = 0;
  updated_at = 0;
}

abbrev pub queued_job : Job
queued_job = record {
  job_id = "j1";
  job_type = "issue";
  subject_id = "site";
  target_type = "generic";
  target_scope = none;
  node_id = none;
  status = "queued";
  attempts = 0;
  result = none;
  error = none;
  created_at = 5;
  updated_at = 5;
}

abbrev pub noon : ℕ
noon = 100 * second

abbrev pub running_job : Job
running_job = record queued_job {
  node_id = some "edge";
  status = "running";
  attempts = 1;
  updated_at = noon;
}

abbrev pub start : Server
start = record { nodes = edge ∷ []; nonces = []; jobs = queued_job ∷ [] }

abbrev request : Signed
request = record { node_id = "edge"; timestamp = 90; nonce = "n1"; signature = "good" }

abbrev seen_edge : Node
seen_edge = record edge {
  last_seen = some noon;
  last_seen_updated_at = some noon;
  updated_at = noon;
}

abbrev stored : Nonce
stored = record { id = "r1"; node_id = "edge"; nonce = "n1"; created_at = noon }

abbrev after_auth : Server
after_auth = record start { nodes = seen_edge ∷ []; nonces = stored ∷ [] }

abbrev edge_key : ActiveNode
edge_key = record { node_id = "edge"; public_key_pem = "PEM"; encryption_public_key_pem = none }

accepted : authenticate toy "r1" request "" noon start ≡ (ok edge_key, after_auth)
unfolding authenticate store_node
accepted = refl

-- Another nonce of the node is stored in between; then the first request comes again.
replay_rejected_example :
    (authenticate toy "r3" request "" (noon + second) (record after_auth {
      nonces =
          attempts
            (record { id = "r2"; now = noon; node_id = "edge"; nonce = "n2" } ∷ [])
            after_auth.nonces;
    })).0
    ≢ ok edge_key
replay_rejected_example =
    replay_rejected toy "r1" "r3" request request "" "" noon (noon + second) start after_auth _
      edge_key edge_key (record { id = "r2"; now = noon; node_id = "edge"; nonce = "n2" } ∷ [])
      accepted (omega arith, tt) refl (refl, refl, refl)

toy-IsLawful : IsLawful toy claims_1
unfolding split_once
toy-IsLawful = record {
  decodes = refl;
  undotted = refl;
  body_ascii = refl;
  digest_ascii = λ k t. refl;
}

minted : mint_bundle_token toy settings noon "edge" "j1" ≡ ok ("abc.beef", 400)
unfolding mint_bundle_token
minted = refl

verify-mint_example :
    (seconds noon + 30 ≤ 400)
    × (verify_bundle_token toy settings (150 * second) "abc.beef" "core" "j1"
        ≡ ok (
            if ltb 400 (seconds (150 * second))
            then some "AUTH_BUNDLE_TOKEN_EXPIRED"
            else if ("edge" == "core") && ("j1" == "j1")
            then none
            else some "AUTH_BUNDLE_TOKEN_SCOPE_MISMATCH"))
verify-mint_example =
    verify-mint toy settings noon (150 * second) "edge" "j1" "core" "j1" "abc.beef" 400 toy-IsLawful
      minted

verify_sound_example :
    (key body : String) × (settings.signing_key ≡ some key)
    × (split_once dot "abc.beef" ≡ some (body, toy.hmac_sha256 key body))
    × ((exp : ℕ) × (toy.decode_claims body
          ≡ some (record { node_id = "edge"; job_id = "j1"; exp = exp }))
        × (seconds noon ≤ exp))
unfolding verify_bundle_token split_once
verify_sound_example = verify_sound toy settings noon "abc.beef" "edge" "j1" refl

abbrev draws : Draws
draws = record { row = "r1"; nonce = "s1" }

abbrev pub handed : Assignment
handed = record {
  job_id = "j1";
  job_type = "issue";
  bundle_url = "/api/v1/node-agent/bundles/j1";
  bundle_signature = "sig";
  bundle_token = "abc.beef";
  bundle_token_expires_at = 400;
}

abbrev after_poll : Server
after_poll = record after_auth { jobs = running_job ∷ [] }

polled : poll toy settings draws request noon start ≡ (ok (handed ∷ []), after_poll)
unfolding poll authenticate store_node claim_next_job save key_taken replace
    claim_assignment_payload mint_bundle_token
polled = refl

abbrev rounds : List Round
rounds =
    record { meanwhile = λ s. record s { jobs = queued_job ∷ [] }; nonce = "s2"; now = noon } ∷ []

abbrev pub idle : Server
idle = record start { jobs = [] }

waited : subscribe toy settings draws request noon rounds idle ≡ (ok (handed ∷ []), after_poll)
unfolding subscribe authenticate store_node claim_next_job save key_taken replace
    claim_assignment_payload mint_bundle_token
waited = refl

subscribe_sound_example : AtMostOne toy settings "edge" (running_job ∷ []) (handed ∷ [])
subscribe_sound_example =
    subscribe_sound toy settings draws request noon rounds idle after_poll (handed ∷ []) waited

abbrev forged : Signed
forged = record request { signature = "bad" }

abbrev report : Report
report = record {
  signed = request;
  job_id = "j1";
  outcome = completed;
  output = some "ok";
  error = some "ignored";
}

abbrev done : Job
done = record running_job {
  status = "completed";
  result = some "ok";
  error = none;
  updated_at = 101 * second;
}

abbrev after_report : Server
after_report = record after_poll { jobs = done ∷ [] }

abbrev fresh_poll : Server
fresh_poll = record start { jobs = running_job ∷ [] }

abbrev after_callback : Server
after_callback = (report_result toy "r1" report noon fresh_poll).1

abbrev download : Download
download = record {
  signed = record request { nonce = "n2" };
  job_id = "j1";
  bundle_token = some "abc.beef";
}

abbrev after_download : Server
after_download = record after_poll {
  nonces = stored ∷ record { id = "r2"; node_id = "edge"; nonce = "n2"; created_at = noon } ∷ [];
}

downloaded :
    authorize_download toy settings "r2" download noon after_poll
    ≡ (ok (edge_key, running_job), after_download)
unfolding authorize_download authenticate get_job store_node verify_bundle_token split_once
    check_running
downloaded = refl

download_sound_example :
    (admit toy download.signed (download_payload toy settings "j1") noon after_poll ≡ ok edge_key)
    × (holds "edge" "n2" noon after_download.nonces ≡ true)
    × (true ≡ true → verify_bundle_token toy settings noon "abc.beef" "edge" "j1" ≡ ok none)
    × (get_row "j1" after_poll.jobs ≡ some running_job)
    × MaySettle "edge" running_job
    × (after_download.jobs ≡ after_poll.jobs)
download_sound_example =
    download_sound toy settings "r2" download noon after_poll after_download edge_key running_job
      downloaded
