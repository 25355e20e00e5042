-- ===== src/Scheduler/Tests.antt =====
-- Cron expressions, rounds and scans, and the theorems at these inputs.
use certman.Base.{
  String, ◌≡◌, refl, true, none, some, List, [], ◌∷◌, Memᴰ, All, filter, ok, err, strip, split_all,
  split_once,
}
use certman.Job.Table.{Job, insert}
use certman.Job.Service.{enqueue_unique_job, optional}
use certman.Scheduler.Int.{parse_int, range}
use certman.Scheduler.Cron.{
  Cron, Moment, value_error, parse_cron_field, parse_cron_expr, matches_cron, is_match,
}
use certman.Scheduler.Cron.Laws.{IsCalendar, parse-IsCalendar}
use certman.Scheduler.Loop.{cron_loop, IsSpaced, IsCovered, loop_sound, loop_complete}
use certman.Scheduler.Renewal.{Certificate, Draw, schedule_due_renewals, is_due, in_scope}
use certman.Scheduler.Renewal.Laws.{has_renewal, IsRenewalOf, schedule_sound, deadline}

abbrev weekly : Cron
weekly = record {
  minute = 0 ∷ 20 ∷ 40 ∷ [];
  hour = 3 ∷ [];
  day = 1 ∷ 2 ∷ 5 ∷ [];
  month = 12 ∷ [];
  weekday = 0 ∷ [];
}

parsed : parse_cron_expr "*/20 3 1-2,5 12 7" ≡ ok weekly
unfolding parse_cron_expr parse_cron_field parse_int range strip split_all split_once
parsed = refl

refused : parse_cron_expr "60 * * * *" ≡ err value_error
unfolding parse_cron_expr parse_cron_field parse_int range strip split_all split_once
refused = refl

parse-IsCalendar_example : IsCalendar weekly
parse-IsCalendar_example = parse-IsCalendar "*/20 3 1-2,5 12 7" weekly parsed

abbrev sunday : Moment
sunday = record { year = 2026; month = 12; day = 5; hour = 3; minute = 20; isoweekday = 7 }

abbrev minute_after : Moment
minute_after = record sunday { minute = 21 }

abbrev rounds : List Moment
rounds = sunday ∷ sunday ∷ minute_after ∷ []

scanned : cron_loop "*/20 3 1-2,5 12 7" none rounds ≡ sunday ∷ []
unfolding cron_loop parse_cron_expr parse_cron_field parse_int range strip split_all split_once
    matches_cron
scanned = refl

loop_sound_example :
    IsSpaced none (cron_loop "*/20 3 1-2,5 12 7" none rounds)
    × ((m : Moment)
        → Memᴰ m (cron_loop "*/20 3 1-2,5 12 7" none rounds)
        → matches_cron "*/20 3 1-2,5 12 7" m ≡ ok true)
loop_sound_example = loop_sound "*/20 3 1-2,5 12 7" none rounds

loop_complete_example : IsCovered none sunday (cron_loop "*/20 3 1-2,5 12 7" none rounds)
unfolding is_match
loop_complete_example =
    loop_complete "*/20 3 1-2,5 12 7" weekly none rounds sunday parsed (Memᴰ.tail (Memᴰ.head refl))
      refl

abbrev due : Certificate
due = record {
  id = "c1";
  entry_name = "site";
  primary_domain = "a.example";
  status = "active";
  not_after = some 50;
  created_at = 0;
  updated_at = 0;
}

abbrev unknown : Certificate
unknown = record due { id = "c2"; entry_name = "other"; not_after = none }

abbrev draw : Certificate → Draw
draw c = record { id = "j1"; now = 7 }

abbrev renewal : Job
renewal = record {
  job_id = "j1";
  job_type = "renew";
  subject_id = "site";
  target_type = "generic";
  target_scope = none;
  node_id = none;
  status = "queued";
  attempts = 0;
  result = none;
  error = none;
  created_at = 7;
  updated_at = 7;
}

scheduled :
    schedule_due_renewals draw none none 40 30 (due ∷ unknown ∷ []) []
    ≡ (ok (renewal ∷ []), renewal ∷ [])
unfolding schedule_due_renewals enqueue_unique_job optional insert
scheduled = refl

schedule_sound_example :
    ((c : Certificate)
      → Memᴰ c (due ∷ unknown ∷ [])
      → is_due (deadline draw none none 40 30) c ≡ true
      → in_scope none none c ≡ true
      → has_renewal c.entry_name (renewal ∷ []) ≡ true)
    × ((other : String) → has_renewal other [] ≡ true → has_renewal other (renewal ∷ []) ≡ true)
    × All
        (IsRenewalOf draw none none
          (filter (is_due (deadline draw none none 40 30)) (due ∷ unknown ∷ [])))
        (renewal ∷ [])
schedule_sound_example =
    schedule_sound draw none none 40 30 (due ∷ unknown ∷ []) [] (renewal ∷ []) (renewal ∷ [])
      scheduled
