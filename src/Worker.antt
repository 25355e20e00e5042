-- ===== src/Worker.antt =====
-- certman/worker.py: `run_once`, on the job table and the services that it calls.
pub mod Success
pub mod Laws
mod Tests
use certman.Base.{
  ℕ, String, ◌<>◌, Bool, true, false, Option, none, some, List, [], ◌∷◌, ◌==◌, not, if◌then◌else◌,
  map, filter, truthy_opt, or_empty, join, Exec, Result, ok, err,
}
use certman.Job.Table.{Job, DbError, integrity_error}
use certman.Job.Service.{claim_next_job, update_status}

-- A call that returns, or raises an Exception with a text.
pub data Called (A : Type 0) : Type 0 where
  returned : A → Called A
  raised : String → Called A

-- What the worker reads of an IssueResult, a RenewResult and a DeliveryResult.
pub record Outcome : Type 0 where
  pub success : Bool
  pub error : Option String

-- CertService, CertificateInventoryService and DeliveryService, as the worker calls them for an entry.
pub record Services : Type 0 where
  pub issue : String → Called Outcome
  pub renew : String → Called (List Outcome)
  pub sync_entry : String → Called (Unit {0})
  pub deliver : String → Called Outcome

-- The arguments of the update_status that a job comes to.
pub record Verdict : Type 0 where
  pub status : String
  pub result : Option String
  pub error : Option String

abbrev pub completed : Verdict
completed = record { status = "completed"; result = some "ok"; error = none }

abbrev pub failed : Option String → Verdict
failed error = record { status = "failed"; result = none; error = error }

unfoldable pub delivered : Called Outcome → Called Verdict
delivered (raised text) = raised text
delivered (returned d) = returned (if d.success then completed else failed d.error)

-- after the certificate was issued or renewed
unfoldable pub hand_over : Services → String → Called Verdict
unfolding delivered
hand_over s entry = elim (s.sync_entry entry) [
  | raised text ↦ raised text
  | returned _ ↦ delivered (s.deliver entry)
]

abbrev pub error_messages : List Outcome → List (Option String)
error_messages rs = map (λ r. r.error) (filter (λ r. not r.success) rs)

unfoldable pub judge_issue : Services → String → Called Outcome → Called Verdict
unfolding hand_over
judge_issue s entry (raised text) = raised text
judge_issue s entry (returned r) =
    if r.success then hand_over s entry else returned (failed r.error)

unfoldable pub judge_renewals : Services → String → Called (List Outcome) → Called Verdict
unfolding hand_over
judge_renewals s entry (raised text) = raised text
judge_renewals s entry (returned rs) = elim (error_messages rs) [
  | [] ↦ hand_over s entry
  | e ∷ es ↦ returned (failed (some (join "; " (map or_empty (filter truthy_opt (e ∷ es))))))
]

unfoldable pub judge : Services → Job → Called Verdict
unfolding judge_issue judge_renewals
judge s job =
    if job.job_type == "issue"
    then judge_issue s job.subject_id (s.issue job.subject_id)
    else if job.job_type == "renew"
    then judge_renewals s job.subject_id (s.renew job.subject_id)
    else returned (failed (some ("unsupported job_type: " <> job.job_type)))

abbrev pub record_verdict : String → ℕ → Verdict → Exec (List Job) DbError (Option Job)
record_verdict id now v = update_status id v.status v.result v.error now

-- `except Exception`, for an update that raises inside the `try`; `text` is the text of that exception
unfoldable pub retried :
    String
    → ℕ
    → String
    → Result DbError (Option Job) × List Job
    → Result DbError (Option Job) × List Job
retried id now text (ok o, db) = (ok o, db)
retried id now text (err integrity_error, db) = record_verdict id now (failed (some text)) db

unfoldable pub settle_job : String → ℕ → Job → Called Verdict → Exec (List Job) DbError (Option Job)
unfolding retried
settle_job text now job (raised exc) db = record_verdict job.job_id now (failed (some exc)) db
settle_job text now job (returned v) db =
    retried job.job_id now text (record_verdict job.job_id now v db)

abbrev pub processed : Result DbError (Option Job) × List Job → Result DbError ℕ × List Job
processed (ok _, db) = (ok 1, db)
processed (err e, db) = (err e, db)

-- The services are asked after the claim is committed; `later` is the time of the updates.
unfoldable pub after_claim :
    Services → String → ℕ → Result DbError (Option Job) × List Job → Result DbError ℕ × List Job
unfolding judge settle_job
after_claim s text later (err e, db) = (err e, db)
after_claim s text later (ok none, db) = (ok 0, db)
after_claim s text later (ok (some job), db) =
    processed (settle_job text later job (judge s job) db)

unfoldable pub run_once : Services → String → ℕ → ℕ → Exec (List Job) DbError ℕ
unfolding after_claim
run_once s text now later db = after_claim s text later (claim_next_job none true none now db)
