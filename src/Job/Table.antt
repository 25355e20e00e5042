-- ===== src/Job/Table.antt =====
-- The `job` table: its rows, its two unique constraints, and the statements that write it.
use certman.Base.{
  ℕ, String, Bool, false, Option, List, [], ◌∷◌, ◌++◌, ◌&&◌, ◌||◌, not, ◌==◌, if◌then◌else◌, any,
  find?, Exec, ok, err,
}

pub record Job : Type 0 where
  pub job_id : String
  pub job_type : String
  pub subject_id : String
  pub target_type : String
  pub target_scope : Option String
  pub node_id : Option String
  pub status : String
  pub attempts : ℕ
  pub result : Option String
  pub error : Option String
  pub created_at : ℕ
  pub updated_at : ℕ

-- sqlalchemy.exc.IntegrityError
pub data DbError : Type 0 where
  integrity_error : DbError

-- uq_job_type_subject_status
unfoldable pub same_key : Job → Job → Bool
same_key j k = j.job_type == k.job_type && j.subject_id == k.subject_id && j.status == k.status

-- the primary key, or the unique constraint
unfoldable pub clashes : Job → Job → Bool
unfolding same_key
clashes j k = j.job_id == k.job_id || same_key j k

-- session.get(JobORM, job_id)
abbrev pub get_row : String → List Job → Option Job
get_row id = find? (λ j. j.job_id == id)

-- INSERT and commit
unfoldable pub insert : Job → Exec (List Job) DbError (Unit {0})
insert j rows =
    if any (clashes j) rows then (err integrity_error, rows) else (ok tt, rows ++ j ∷ [])

-- another row has the key of `j`
unfoldable pub key_taken : Job → List Job → Bool
unfolding same_key
key_taken j [] = false
key_taken j (k ∷ ks) = (not (k.job_id == j.job_id) && same_key j k) || key_taken j ks

unfoldable pub replace : Job → List Job → List Job
replace j [] = []
replace j (k ∷ ks) = (if k.job_id == j.job_id then j else k) ∷ replace j ks

-- UPDATE of the row with the primary key of `j`, and commit
unfoldable pub save : Job → Exec (List Job) DbError (Unit {0})
save j rows = if key_taken j rows then (err integrity_error, rows) else (ok tt, replace j rows)
