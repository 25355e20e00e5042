-- ===== src/Scheduler/Renewal.antt =====
-- certman/scheduler/jobs.py: `schedule_due_renewals`.
pub mod Laws
use certman.Base.{
  ℕ, ◌+◌, ◌*◌, String, Bool, true, false, Option, none, some, List, [], ◌∷◌, ◌==◌, ◌&&◌, leb,
  filter, is_some_of, Exec, Result, ok, err, if◌then◌else◌, ◌>>=◌, pure,
}
use certman.Job.Table.{Job, DbError}
use certman.Job.Service.{enqueue_unique_job, optional}

-- A row of `certificate`, as far as the scan reads it.
pub record Certificate : Type 0 where
  pub id : String
  pub entry_name : String
  pub primary_domain : String
  pub status : String
  pub not_after : Option ℕ
  pub created_at : ℕ
  pub updated_at : ℕ

abbrev pub day : ℕ
day = 86400000000

abbrev pub expires_by : ℕ → Option ℕ → Bool
expires_by deadline none = false
expires_by deadline (some t) = leb t deadline

-- the rows that the query selects
unfoldable pub is_due : ℕ → Certificate → Bool
is_due deadline c = c.status == "active" && expires_by deadline c.not_after

-- the target of an entry, by `entry_targets`
abbrev pub Targets : Type 0
Targets = Option (String → Option (String × Option String))

abbrev pub or_generic : Option (String × Option String) → String × Option String
or_generic none = ("generic", none)
or_generic (some t) = t

unfoldable pub target_of : Targets → Certificate → String × Option String
target_of none c = ("generic", none)
target_of (some targets) c = or_generic (targets c.entry_name)

unfoldable pub in_scope : Option String → Targets → Certificate → Bool
unfolding target_of
in_scope target_scope targets c = optional target_scope (is_some_of (target_of targets c).1)

-- What a scan draws for a certificate: the identifier and the time of the row it may create.
pub record Draw : Type 0 where
  pub id : String
  pub now : ℕ

abbrev pub when_created : Job × Bool → List Job → List Job
when_created (job, created) jobs = if created then job ∷ jobs else jobs

module _ (draw : Certificate → Draw) (target_scope : Option String) (targets : Targets) where
  unfoldable pub enqueue_renewal : Certificate → Exec (List Job) DbError (Job × Bool)
  unfolding target_of
  enqueue_renewal c =
      let target = target_of targets c in
      enqueue_unique_job (draw c).id (draw c).now "renew" c.entry_name none target.0 target.1

  unfoldable pub schedule_all : List Certificate → Exec (List Job) DbError (List Job)
  unfolding in_scope enqueue_renewal
  schedule_all [] = pure []
  schedule_all (c ∷ cs) =
      let rest = schedule_all cs in
      if in_scope target_scope targets c
      then enqueue_renewal c >>= (λ r. rest >>= (λ jobs. pure (when_created r jobs)))
      else rest

  unfoldable pub schedule_due_renewals :
      ℕ → ℕ → List Certificate → Exec (List Job) DbError (List Job)
  unfolding is_due schedule_all
  schedule_due_renewals now renew_before_days certificates =
      schedule_all (filter (is_due (now + renew_before_days * day)) certificates)
