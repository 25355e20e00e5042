-- ===== src/Worker/Tests.antt =====
-- Runs of the worker on small tables, and the theorems at these inputs.
use certman.Base.{◌≡◌, refl, true, none, some, List, [], ◌∷◌, ok, Memᴰ, arith, eq_iff}
use certman.Job.Table.{Job, get_row, save, key_taken, replace}
use certman.Job.Service.{claim_next_job}
use certman.Job.Rival.{Rival}
use certman.Job.Update.{updated}
use certman.Worker.{returned, Outcome, Services, judge, run_once}
use certman.Worker.Laws.{success_lost}

abbrev fine : Outcome
fine = record { success = true; error = none }

abbrev services : Services
services = record {
  issue = λ entry. returned fine;
  renew = λ entry. returned (fine ∷ []);
  sync_entry = λ entry. returned tt;
  deliver = λ entry. returned fine;
}

abbrev first : Job
first = record {
  job_id = "j1";
  job_type = "issue";
  subject_id = "site";
  target_type = "generic";
  target_scope = none;
  node_id = none;
  status = "completed";
  attempts = 1;
  result = some "ok";
  error = none;
  created_at = 1;
  updated_at = 2;
}

abbrev second : Job
second = record first {
  job_id = "j2";
  status = "queued";
  attempts = 0;
  result = none;
  created_at = 3;
  updated_at = 3;
}

abbrev running : Job
running = record second { status = "running"; attempts = 1; updated_at = 5 }

abbrev lost : Job
lost = record running { status = "failed"; error = some "UNIQUE constraint failed"; updated_at = 6 }

abbrev alone : Job
alone = record running { status = "completed"; result = some "ok"; updated_at = 6 }

claimed_second :
    claim_next_job none true none 5 (first ∷ second ∷ [])
    ≡ (ok (some running), first ∷ running ∷ [])
unfolding claim_next_job save key_taken replace
claimed_second = refl

none_failed : (i : Job) → Memᴰ i (first ∷ running ∷ []) → ¬ Rival "failed" running i
none_failed i (Memᴰ.head e) r = ground (arith, r.holds, e, eq_iff "completed" "failed")
none_failed i (Memᴰ.tail (Memᴰ.head e)) r = ground (arith, r.holds, e, eq_iff "running" "failed")
none_failed i (Memᴰ.tail (Memᴰ.tail m)) r = elim m [ ]

success_lost_example :
    (db' : List Job) × (run_once services "UNIQUE constraint failed" 5 6 (first ∷ second ∷ [])
      ≡ (ok 1, db'))
    × (get_row "j2" db'
        ≡ some (updated "j2" "failed" none (some "UNIQUE constraint failed") 6 running))
unfolding judge
success_lost_example =
    success_lost services "UNIQUE constraint failed" 5 6 (first ∷ second ∷ [])
      (first ∷ running ∷ []) running first claimed_second refl (Memᴰ.head refl)
      (record {
        other = λ e. ground (arith, eq_iff "j1" "j2");
        type = refl;
        subject = refl;
        holds = refl;
      })
      none_failed
