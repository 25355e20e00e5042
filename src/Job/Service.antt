-- ===== src/Job/Service.antt =====
-- certman/services/job_service.py: the methods of `JobService`. The state is the `job` table. A new
-- row's identifier (`uuid4().hex[:12]`) and the time are arguments.
use certman.Base.{
  ℕ, ◌+◌, String, Bool, true, false, Option, none, some, List, [], ◌∷◌, ◌&&◌, ◌||◌, ◌==◌, leb, ltb,
  if◌then◌else◌, is_none, is_some_of, filter, take, Exec, Result, pure, ok, err, ◌>>◌,
}
use certman.Job.Table.{Job, DbError, integrity_error, get_row, insert, save}

-- What `create_job` and `enqueue_unique_job` put into the row.
unfoldable pub new_job : String → ℕ → String → String → Option String → String → Option String → Job
new_job id now job_type subject_id node_id target_type target_scope = record {
  job_id = id;
  job_type = job_type;
  subject_id = subject_id;
  target_type = target_type;
  target_scope = target_scope;
  node_id = node_id;
  status = "queued";
  attempts = 0;
  result = none;
  error = none;
  created_at = now;
  updated_at = now;
}

unfoldable pub create_job :
    String
    → ℕ
    → String
    → String
    → Option String
    → String
    → Option String
    → Exec (List Job) DbError Job
unfolding new_job
create_job id now job_type subject_id node_id target_type target_scope = do
  let job = new_job id now job_type subject_id node_id target_type target_scope
  insert job
  pure job

-- `ORDER BY created_at ASC LIMIT 1`: the first of the oldest rows
unfoldable pub oldest : List Job → Option Job
oldest [] = none
oldest (j ∷ js) = elim (oldest js) [
  | none ↦ some j
  | some k ↦ some (if leb j.created_at k.created_at then j else k)
]

-- the rows that the query for the job already in the queue selects
unfoldable pub is_queued : String → String → Job → Bool
is_queued job_type subject_id j =
    j.job_type == job_type && j.subject_id == subject_id && j.status == "queued"

-- `except IntegrityError`: the session was rolled back
unfoldable pub reuse_queued : String → String → Exec (List Job) DbError (Job × Bool)
unfolding oldest is_queued
reuse_queued job_type subject_id db = elim (oldest (filter (is_queued job_type subject_id) db)) [
  | none ↦ (err integrity_error, db)
  | some existing ↦ (ok (existing, false), db)
]

-- the `try` of enqueue_unique_job, from the outcome of the commit
unfoldable pub enqueued :
    Job → Result DbError (Unit {0}) × List Job → Result DbError (Job × Bool) × List Job
unfolding reuse_queued
enqueued job (ok _, db) = (ok (job, true), db)
enqueued job (err integrity_error, db) = reuse_queued job.job_type job.subject_id db

unfoldable pub enqueue_unique_job :
    String
    → ℕ
    → String
    → String
    → Option String
    → String
    → Option String
    → Exec (List Job) DbError (Job × Bool)
unfolding enqueued new_job
enqueue_unique_job id now job_type subject_id node_id target_type target_scope db =
    let job = new_job id now job_type subject_id node_id target_type target_scope in
    enqueued job (insert job db)

unfoldable pub get_job : String → Exec (List Job) DbError (Option Job)
get_job id db = (ok (get_row id db), db)

-- `ORDER BY created_at DESC`
unfoldable pub insert_newest : Job → List Job → List Job
insert_newest j [] = j ∷ []
insert_newest j (k ∷ ks) =
    let rest = insert_newest j ks in if ltb j.created_at k.created_at then k ∷ rest else j ∷ k ∷ ks

unfoldable pub newest_first : List Job → List Job
unfolding insert_newest
newest_first [] = []
newest_first (j ∷ js) = insert_newest j (newest_first js)

-- a filter that is not applied when its argument is `None`
unfoldable pub optional : Option String → (String → Bool) → Bool
optional none p = true
optional (some s) p = p s

unfoldable pub is_listed : Option String → Option String → Option String → Job → Bool
unfolding optional
is_listed subject_id status target_scope j =
    optional subject_id (λ s. j.subject_id == s)
    && optional status (λ s. j.status == s)
    && optional target_scope (is_some_of j.target_scope)

unfoldable pub list_jobs :
    Option String → Option String → Option String → ℕ → Exec (List Job) DbError (List Job)
unfolding newest_first is_listed
list_jobs subject_id status target_scope limit db =
    (ok (take limit (newest_first (filter (is_listed subject_id status target_scope) db))), db)

unfoldable pub update_status :
    String → String → Option String → Option String → ℕ → Exec (List Job) DbError (Option Job)
update_status id status result error now db = elim (get_row id db) [
  | none ↦ (ok none, db)
  | some job ↦
      let job' = record job { status = status; result = result; error = error; updated_at = now } in
      (save job' >> pure (some job')) db
]

-- the inner SELECT of claim_next_job; a NULL parameter makes `=` false
unfoldable pub eligible : Option String → Bool → Option String → Job → Bool
unfolding optional
eligible node_id include_unassigned target_scope j =
    j.status == "queued"
    && optional target_scope (is_some_of j.target_scope)
    && (optional node_id (is_some_of j.node_id) || (include_unassigned && is_none j.node_id))

-- its SET clause
unfoldable pub claimed : Option String → ℕ → Job → Job
claimed node_id now j = record j {
  status = "running";
  node_id = if is_none j.node_id then node_id else j.node_id;
  attempts = j.attempts + 1;
  updated_at = now;
}

unfoldable pub claim_next_job :
    Option String → Bool → Option String → ℕ → Exec (List Job) DbError (Option Job)
unfolding oldest eligible claimed
claim_next_job node_id include_unassigned target_scope now db =
    elim (oldest (filter (eligible node_id include_unassigned target_scope) db)) [
      | none ↦ (ok none, db)
      | some j ↦ (save (claimed node_id now j) >> pure (some (claimed node_id now j))) db
    ]
