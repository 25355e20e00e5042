-- ===== src/Agent/State.antt =====
-- The state of the control plane that the agents' endpoints read and write, and their errors.
use certman.Base.{ℕ, ◌/◌, String, Bool, Option, List, Exec, Result, ok, err}
use certman.Job.Table.{Job, DbError, integrity_error}
use certman.Node.Table.{Node}

-- A row of `node_nonce`.
pub record Nonce : Type 0 where
  pub id : String
  pub node_id : String
  pub nonce : String
  pub created_at : ℕ

-- The three tables. Times are microseconds since the epoch.
pub record Server : Type 0 where
  pub nodes : List Node
  pub nonces : List Nonce
  pub jobs : List Job

-- What the endpoints read of `runtime.config.server`, and the text of the signing key file, `none`
-- where the file is missing.
pub record Settings : Type 0 where
  pub bundle_token_required : Bool
  pub bundle_token_ttl_seconds : ℕ
  pub signing_key : Option String

-- An HTTPException with its status and code, or an exception that no handler catches (status 500).
pub data Failure : Type 0 where
  http : ℕ → String → Failure
  crash : Failure

abbrev pub second : ℕ
second = 1000000

-- `int(now.timestamp())`
abbrev pub seconds : ℕ → ℕ
seconds t = t / second

-- A call of `JobService`: an IntegrityError is not caught.
abbrev pub jobs_result :
    {A : Type 0} → Server → Result DbError A × List Job → Result Failure A × Server
jobs_result s (ok a, db) = (ok a, record s { jobs = db })
jobs_result s (err integrity_error, db) = (err crash, record s { jobs = db })

abbrev pub on_jobs : {A : Type 0} → Exec (List Job) DbError A → Exec Server Failure A
on_jobs m s = jobs_result s (m s.jobs)
