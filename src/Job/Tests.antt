-- ===== src/Job/Tests.antt =====
-- Runs of `JobService` on small tables, and the theorems at these inputs.
use certman.Base.{
  ℕ, String, ◌≡◌, refl, true, false, none, some, List, [], ◌∷◌, Memᴰ, All, ok, err, arith, eq_iff,
  ◌≢◌, ◌+◌,
}
use certman.Job.Table.{Job, integrity_error, get_row, clashes, replace, save, key_taken}
use certman.Job.Service.{eligible, oldest, claim_next_job}
use certman.Job.Unique.{IsUnique}
use certman.Job.Rival.{Rival}
use certman.Job.Claim.{IsOldest, IsClaimed, claim_sound, claim_idle, claim_blocked}
use certman.Job.History.{Call, enqueue, claim, update, run}
use certman.Job.Attempts.{IsSameJob, times, run_keeps}
use certman.Job.Once.{handed_out, claim_once}

abbrev job : String → String → String → String → ℕ → Job
job id job_type subject status at = record {
  job_id = id;
  job_type = job_type;
  subject_id = subject;
  target_type = "generic";
  target_scope = none;
  node_id = none;
  status = status;
  attempts = 0;
  result = none;
  error = none;
  created_at = at;
  updated_at = at;
}

abbrev issue_a : Job
issue_a = job "j1" "issue" "site-a" "queued" 10

abbrev renew_b : Job
renew_b = job "j2" "renew" "site-b" "queued" 20

abbrev running_a : Job
running_a = job "j0" "issue" "site-a" "running" 5

abbrev two : List Job
two = renew_b ∷ issue_a ∷ []

abbrev taken_a : Job
taken_a = record issue_a { node_id = some "n1"; status = "running"; attempts = 1; updated_at = 30 }

claim_two :
    claim_next_job (some "n1") true none 30 two ≡ (ok (some taken_a), renew_b ∷ taken_a ∷ [])
unfolding claim_next_job save key_taken replace
claim_two = refl

claim_sound_example :
    (j : Job) × IsOldest (some "n1") true none 30 j two
    × IsClaimed (some "n1") true none 30 j taken_a
    × (renew_b ∷ taken_a ∷ [] ≡ replace taken_a two)
claim_sound_example =
    claim_sound (some "n1") true none 30 two (renew_b ∷ taken_a ∷ []) taken_a claim_two

abbrev only_running : List Job
only_running = running_a ∷ []

claim_idle_example :
    All (λ k. eligible none true none k ≡ false) only_running × (only_running ≡ only_running)
unfolding claim_next_job
claim_idle_example = claim_idle none true none 30 only_running only_running refl

abbrev stuck : List Job
stuck = running_a ∷ issue_a ∷ renew_b ∷ []

stuck-Rival : Rival "running" issue_a running_a
stuck-Rival = record {
  other = λ e. ground (arith, eq_iff "j0" "j1");
  type = refl;
  subject = refl;
  holds = refl;
}

claim_blocked_example :
    claim_next_job
      (some "n2")
      false
      none
      30
      (running_a ∷ record issue_a { node_id = some "n2" } ∷ renew_b ∷ [])
    ≡ (err integrity_error, running_a ∷ record issue_a { node_id = some "n2" } ∷ renew_b ∷ [])
unfolding oldest eligible
claim_blocked_example =
    claim_blocked (some "n2") false none 30
      (running_a ∷ record issue_a { node_id = some "n2" } ∷ renew_b ∷ [])
      (record issue_a { node_id = some "n2" }) running_a refl (Memᴰ.head refl)
      (record { other = stuck-Rival.other; type = refl; subject = refl; holds = refl })

abbrev finished_twice : List Job
finished_twice = job "j3" "issue" "site-a" "completed" 1 ∷ running_a ∷ []

abbrev calls : List Call
calls =
    enqueue "j1" 1 "issue" "site-a" none "generic" none
    ∷ enqueue "j2" 2 "issue" "site-a" none "generic" none
    ∷ claim none true none 3
    ∷ update "j1" "completed" (some "ok") none 4
    ∷ []

run_keeps_example :
    IsUnique (run calls two)
    × ((k : Job) × (get_row "j1" (run calls two) ≡ some k)
        × IsSameJob issue_a k
        × (k.attempts ≡ 0 + times "j1" (handed_out calls two)))
unfolding clashes
run_keeps_example = run_keeps "j1" calls issue_a two ((refl, tt), (tt, tt)) refl

claim_once_example : All (λ j. j.job_id ≢ "j1") (handed_out calls (renew_b ∷ taken_a ∷ []))
claim_once_example =
    claim_once (some "n1") true none 30 two (renew_b ∷ taken_a ∷ []) taken_a calls claim_two
      (tt, (tt, (tt, ((λ _ e. ground (arith, eq_iff "completed" "queued")), tt))))
