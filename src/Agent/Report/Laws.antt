-- ===== src/Agent/Report/Laws.antt =====
-- The checks and the writes of `report_result`, for one report and for another after it.
use certman.Base.{
  ℕ, String, ◌≡◌, Option, none, some, ◌⊎◌, inl, inr, ok, err, arith, eq_iff, Option-cases,
}
use certman.Job.Table.{Job}
use certman.Job.Update.{updated}
use certman.Agent.Platform.{Platform}
use certman.Agent.Auth.{authenticate}
use certman.Agent.State.{Failure, Server, http}
use certman.Agent.Report.{
  completed, failed, outcome_status, Report, check_running, kept_output, kept_error, result_payload,
  report_result,
}

-- `k` is the row `j` after the report: the reported status, with the output if it is completed and the
-- error if it failed, and nothing else changed but the time of the update.
abbrev pub IsReported : Report → ℕ → Job → Job → Type 0
IsReported r now j k =
    (r.outcome ≡ completed → (k.status ≡ "completed") × (k.result ≡ r.output) × (k.error ≡ none))
    × (r.outcome ≡ failed → (k.status ≡ "failed") × (k.result ≡ none) × (k.error ≡ r.error))
    × (k.updated_at ≡ now)
    × (k.job_id ≡ j.job_id)
    × (k.job_type ≡ j.job_type)
    × (k.subject_id ≡ j.subject_id)
    × (k.target_type ≡ j.target_type)
    × (k.target_scope ≡ j.target_scope)
    × (k.node_id ≡ j.node_id)
    × (k.attempts ≡ j.attempts)
    × (k.created_at ≡ j.created_at)

-- The row that an accepted report writes over `j`.
abbrev settled : Report → ℕ → Job → Job
settled r now j = updated r.job_id (outcome_status r.outcome) (kept_output r) (kept_error r) now j

-- `j` is a running job that the node may settle.
abbrev pub MaySettle : String → Job → Type 0
MaySettle node_id j = (j.status ≡ "running") × ((j.node_id ≡ none) ⊎ (j.node_id ≡ some node_id))

pub check_running_sound :
    (node_id : String) (o : Option Job) (j : Job)
    → check_running node_id o ≡ ok j
    → (o ≡ some j) × MaySettle node_id j
unfolding check_running
check_running_sound node_id none j h = ground arith
check_running_sound node_id (some k) j h = elim (Option-cases k.node_id) [
  | inl e ↦ (
    ground arith,
    (ground (arith, eq_iff k.status "running", eq_iff j.status "running"), inl (ground arith)),
  )
  | inr (owner, e) ↦ (
    ground arith,
    (
      ground (arith, eq_iff k.status "running", eq_iff j.status "running"),
      inr (ground (arith, eq_iff owner node_id)),
    ),
  )
]

module _ (p : Platform) where
  -- The report was refused, for its request if that is not admitted and otherwise for the state of the
  -- job, and the job table is as it was.
  abbrev pub IsTooLate : String → Report → ℕ → Server → Type 0
  IsTooLate row r now t =
      let out = report_result p row r now t in
      (((e : Failure) × ((authenticate p row r.signed (result_payload p r) now t).0 ≡ err e)
          × (out.0 ≡ err e))
        ⊎ (out.0 ≡ err (http 422 "SEMANTIC_INVALID_JOB_STATE")))
      × (out.1.jobs ≡ t.jobs)
