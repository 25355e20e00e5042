-- ===== src/Worker/Laws.antt =====
-- What a run of the worker records.
use certman.Base.{ℕ, String, ◌≡◌, refl, ◌⊎◌, true, Option, none, some, List, Memᴰ, ok}
use certman.Job.Table.{Job, get_row}
use certman.Job.Service.{claim_next_job, claimed}
use certman.Job.Rival.{Rival}
use certman.Job.Claim.{claim_writes}
use certman.Job.Update.{updated, update_refused, update_writes, get_row-replace_self}
use certman.Agent.Assign.Laws.{get_row-mem}
use certman.Worker.Success.{HasSucceeded}
use certman.Worker.{
  Called, returned, raised, Services, Verdict, completed, failed, judge, retried, settle_job,
  after_claim, run_once,
}

-- A verdict that is reached is `completed`, or `failed` with an error or none.
abbrev pub IsVerdict : Called Verdict → Type 0
IsVerdict (raised text) = Unit
IsVerdict (returned v) = (v ≡ completed) ⊎ ((e : Option String) × (v ≡ failed e))

-- The row that a job ends with: completed, only if the services have all succeeded, or failed.
abbrev pub IsSettled : Services → Job → Job → Type 0
IsSettled s j r = ((r.status ≡ "completed") × HasSucceeded s j) ⊎ (r.status ≡ "failed")

claimed_row :
    (now : ℕ) (db mid : List Job) (j : Job)
    → claim_next_job none true none now db ≡ (ok (some j), mid)
    → get_row j.job_id mid ≡ some j
unfolding claimed
claimed_row now db mid j h =
    let (k, (m, _, _), e, f) = claim_writes none true none now db mid j h in
    rw (f, e) (get_row-replace_self (claimed none now k) db (get_row-mem k db m))

-- When all service calls of a claimed job succeed, but another job of its type and entry is completed
-- already and none is failed, the job is recorded as failed, with the text of the IntegrityError.
pub success_lost :
    (s : Services) (text : String) (now later : ℕ) (db mid : List Job) (j k : Job)
    → claim_next_job none true none now db ≡ (ok (some j), mid)
    → judge s j ≡ returned completed
    → Memᴰ k mid
    → Rival "completed" j k
    → ((i : Job) → Memᴰ i mid → ¬ Rival "failed" j i)
    → (db' : List Job) × (run_once s text now later db ≡ (ok 1, db'))
      × (get_row j.job_id db' ≡ some (updated j.job_id "failed" none (some text) later j))
unfolding run_once after_claim settle_job retried
success_lost s text now later db mid j k c v m r none_failed =
    let row = claimed_row now db mid j c in
    let refused = update_refused j.job_id "completed" (some "ok") none later mid j k row m r in
    let (db', w, found, _) =
      update_writes j.job_id "failed" none (some text) later mid j row none_failed in
    (db', rw (c, v, refused, w) refl, found)
