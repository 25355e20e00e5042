-- ===== src/Agent/Bundle.antt =====
-- The endpoint `download_bundle`, up to the reading of the certificate files.
pub mod Laws
use certman.Base.{
  ℕ, String, ◌<>◌, true, false, Option, none, some, Exec, Result, ok, err, not, if◌then◌else◌,
  truthy_opt, or_empty, ◌>>=◌, ◌>>◌,
}
use certman.Job.Table.{Job}
use certman.Job.Service.{get_job}
use certman.Agent.Platform.{Platform}
use certman.Agent.State.{Server, Settings, Failure, http, on_jobs}
use certman.Agent.Auth.{Signed, ActiveNode, authenticate}
use certman.Agent.Token.{verify_bundle_token}
use certman.Agent.Report.{check_running}

pub record Download : Type 0 where
  pub signed : Signed
  pub open signed use *
  pub job_id : String
  pub bundle_token : Option String

-- the answer to a token: a fault is refused with its code
unfoldable pub token_answer : Result Failure (Option String) → Result Failure (Unit {0})
token_answer (err e) = err e
token_answer (ok none) = ok tt
token_answer (ok (some code)) = err (http 401 code)

module _ (p : Platform) (c : Settings) where
  unfoldable pub download_payload : String → String
  download_payload job_id = "{\"job_id\":" <> p.quote job_id <> "}"

  unfoldable pub check_token : Download → ℕ → Result Failure (Unit {0})
  unfolding token_answer
  check_token r now =
      if not c.bundle_token_required
      then ok tt
      else if not (truthy_opt r.bundle_token)
      then err (http 401 "AUTH_BUNDLE_TOKEN_REQUIRED")
      else token_answer (verify_bundle_token p c now (or_empty r.bundle_token) r.node_id r.job_id)

  -- The job whose files may be read, and the node that they are for.
  unfoldable pub authorize_download : String → Download → ℕ → Exec Server Failure (ActiveNode × Job)
  unfolding download_payload check_token
  authorize_download row r now = do
    node ← authenticate p row r.signed (download_payload r.job_id) now
    (λ s. (check_token r now, s))
    job ← on_jobs (get_job r.job_id)
    λ s. elim (check_running r.node_id job) [ err e ↦ (err e, s) | ok j ↦ (ok (node, j), s) ]
