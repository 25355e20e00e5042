-- ===== src/Agent/Report.antt =====
-- The endpoint `report_result`, which `callback_result` calls.
pub mod Laws
use certman.Base.{
  ℕ, String, ◌<>◌, Bool, true, false, Option, none, some, List, [], ◌∷◌, ◌==◌, not, if◌then◌else◌,
  Exec, Result, ok, err, pure, ◌>>=◌, ◌>>◌, raise,
}
use certman.Job.Table.{Job}
use certman.Job.Service.{get_job, update_status}
use certman.Agent.Platform.{Platform}
use certman.Agent.State.{Server, Failure, http, on_jobs}
use certman.Agent.Auth.{Signed, ActiveNode, authenticate}

-- `Literal["completed", "failed"]`
pub data Outcome : Type 0 where
  completed failed : Outcome

abbrev pub outcome_status : Outcome → String
outcome_status completed = "completed"
outcome_status failed = "failed"

pub record Report : Type 0 where
  pub signed : Signed
  pub open signed use *
  pub job_id : String
  pub outcome : Outcome
  pub output : Option String
  pub error : Option String

pub record Ack : Type 0 where
  pub job_id : String
  pub status : String

-- the checks on the job that a node names
unfoldable pub check_running : String → Option Job → Result Failure Job
check_running node_id none = err (http 404 "NOT_FOUND_JOB")
check_running node_id (some job) =
    if not (job.status == "running")
    then err (http 422 "SEMANTIC_INVALID_JOB_STATE")
    else elim job.node_id [
      | none ↦ ok job
      | some owner ↦ if owner == node_id then ok job else err (http 401 "AUTH_NODE_NOT_ALLOWED")
    ]

abbrev pub kept_output : Report → Option String
kept_output r = elim r.outcome [ completed ↦ r.output | failed ↦ none ]

abbrev pub kept_error : Report → Option String
kept_error r = elim r.outcome [ completed ↦ none | failed ↦ r.error ]

unfoldable pub acknowledge : Report → Option Job → Ack
acknowledge r none = record { job_id = r.job_id; status = outcome_status r.outcome }
acknowledge r (some job) = record { job_id = r.job_id; status = job.status }

unfoldable pub settle : Report → ℕ → Exec Server Failure Ack
unfolding check_running acknowledge
settle r now = do
  job ← on_jobs (get_job r.job_id)
  running ← λ s. (check_running r.node_id job, s)
  updated ←
      on_jobs (update_status r.job_id (outcome_status r.outcome) (kept_output r) (kept_error r) now)
  pure (acknowledge r updated)

module _ (p : Platform) where
  unfoldable pub result_payload : Report → String
  result_payload r =
      "{\"error\":"
      <> p.quote_opt r.error
      <> ",\"job_id\":"
      <> p.quote r.job_id
      <> ",\"output\":"
      <> p.quote_opt r.output
      <> ",\"status\":"
      <> p.quote (outcome_status r.outcome)
      <> "}"

  unfoldable pub report_result : String → Report → ℕ → Exec Server Failure Ack
  unfolding result_payload settle
  report_result row r now = do
    node ← authenticate p row r.signed (result_payload r) now
    settle r now
