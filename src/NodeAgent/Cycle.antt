-- ===== src/NodeAgent/Cycle.antt =====
-- certman/node_agent/agent.py: one cycle over the assignments, with `fetch_bundle` and `report_result`
-- of certman/node_agent/poller.py, and the exit code of the process.
pub mod Laws
pub mod Reports
use Prim.Native.Char.{code}
use certman.Base.{
  ℕ, zero, suc, ◌+◌, String, ◌<>◌, Bool, true, false, Option, none, some, List, [], ◌∷◌, ◌++◌, ◌||◌,
  ◌&&◌, not, nat_beq, if◌then◌else◌, truthy, truthy_opt, or_empty, strip, length, Exec, Result, ok,
  err,
}
use certman.Config.Entry.{is_cons}
use certman.Delivery.Ingress.{or_else}
use certman.NodeAgent.Executor.{Bundle, Hook, ExecutionResult, Host}
use certman.NodeAgent.Stream.{Loaded}
use certman.NodeAgent.Poller.{
  Reply, replied, unreachable, Offer, Agent, Answers, RegistrationOutcome, not_required, poll,
}
use text.Mathlib.Text.{starts_with}

-- `s.lstrip("/")`
unfoldable pub lstrip_slash : String → String
lstrip_slash String.[] = ""
lstrip_slash (String.◌∷◌ c s) =
    let rest = lstrip_slash s in if nat_beq (code c) 47 then rest else String.◌∷◌ c s

-- `s.rstrip("/")`
unfoldable pub rstrip_slash : String → String
rstrip_slash String.[] = ""
rstrip_slash (String.◌∷◌ c s) =
    let rest = rstrip_slash s in
    if nat_beq (code c) 47 && not (truthy rest) then "" else String.◌∷◌ c rest

unfoldable pub resolve_url : String → String → String
unfolding lstrip_slash rstrip_slash
resolve_url endpoint path_or_url =
    let normalized = strip path_or_url in
    if starts_with normalized "http://" || starts_with normalized "https://"
    then normalized
    else rstrip_slash endpoint <> "/" <> lstrip_slash normalized

-- What the agent reads of the data of a bundle response: the bundle, none where it is no dict, the
-- hooks, empty where there are none, and the envelope, none where it is absent or null.
pub record Payload (V : Type 0) : Type 0 where
  pub bundle : Option Bundle
  pub hooks : List Hook
  pub envelope : Option V

-- What opening an envelope comes to: the payload inside, a ValueError, or another exception.
pub data Opened (V : Type 0) : Type 0 where
  opened : Payload V → Opened V
  value_error : Opened V
  other_error : String → Opened V

pub record Report : Type 0 where
  pub job_id : String
  pub status : String
  pub output : Option String
  pub error : Option String

-- What the agent has done: on its host, and the reports it has posted.
pub record Progress : Type 0 where
  pub host : Host
  pub reports : List Report

-- The agent's surroundings: its configuration, the answers to a download, the opening of an envelope
-- and NodeExecutor.
pub record Surroundings (V : Type 0) : Type 0 where
  pub endpoint : String
  pub target_dir : String
  pub default_hooks : List Hook
  pub has_encryption_key : Bool
  pub download : Progress → String → String → Option String → Reply (Option (Payload V))
  pub open_envelope : V → Opened V
  pub execute : Bundle → String → List Hook → Exec Host String ExecutionResult

module _ {V : Type 0} (w : Surroundings V) where
  unfoldable pub maybe_decrypt_bundle : Payload V → Opened V
  maybe_decrypt_bundle data' = elim data'.envelope [
    | none ↦ opened data'
    | some envelope ↦ if w.has_encryption_key then w.open_envelope envelope else opened data'
  ]

  abbrev pub or_no_bundle : Opened V → Result String (Option (Payload V))
  or_no_bundle (opened payload) = ok (some payload)
  or_no_bundle value_error = ok none
  or_no_bundle (other_error text) = err text

  unfoldable pub bundle_of : Reply (Option (Payload V)) → Result String (Option (Payload V))
  unfolding maybe_decrypt_bundle
  bundle_of unreachable = ok none
  bundle_of (replied status none) = ok none
  bundle_of (replied status (some none)) = ok none
  bundle_of (replied status (some (some data'))) =
      if nat_beq status 200 then or_no_bundle (maybe_decrypt_bundle data') else ok none

  -- `bundle_token` goes into the query only if it is a text that is not empty
  unfoldable pub fetch_bundle :
      String → String → Option String → Progress → Result String (Option (Payload V))
  unfolding resolve_url bundle_of
  fetch_bundle job_id bundle_url bundle_token s = bundle_of (
      w.download s job_id (resolve_url w.endpoint bundle_url)
        (if truthy_opt bundle_token then bundle_token else none))

  abbrev pub reported : Report → Progress → Progress
  reported r s = record s { reports = s.reports ++ r ∷ [] }

  abbrev pub failed : String → String → Report
  failed job_id error = record {
    job_id = job_id;
    status = "failed";
    output = none;
    error = some error;
  }

  abbrev pub completed : String → Report
  completed job_id = record {
    job_id = job_id;
    status = "completed";
    output = some "ok";
    error = none;
  }

  -- `result.error or "execution failed"`
  unfoldable pub report_of : String → ExecutionResult → Report
  report_of job_id result =
      if result.success
      then completed job_id
      else failed job_id
          (if truthy_opt result.error then or_empty result.error else "execution failed")

  unfoldable pub execute_bundle : String → Bundle → List Hook → Exec Progress String (Unit {0})
  unfolding report_of
  execute_bundle job_id bundle hooks s =
      let (r, host) = w.execute bundle w.target_dir hooks s.host in
      elim r [
        | err text ↦ (err text, record s { host = host })
        | ok result ↦ (ok tt, reported (report_of job_id result) (record s { host = host }))
      ]

  unfoldable pub use_payload : String → Option (Payload V) → Exec Progress String (Unit {0})
  unfolding execute_bundle
  use_payload job_id none s = (ok tt, reported (failed job_id "bundle download failed") s)
  use_payload job_id (some payload) s = elim payload.bundle [
    | none ↦ (ok tt, reported (failed job_id "bundle payload invalid") s)
    | some bundle ↦
        execute_bundle job_id bundle
          (if is_cons payload.hooks then payload.hooks else w.default_hooks) s
  ]

  unfoldable pub process_assignment :
      String → String → Option String → Exec Progress String (Unit {0})
  unfolding fetch_bundle use_payload
  process_assignment job_id bundle_url bundle_token s =
      elim (fetch_bundle job_id bundle_url bundle_token s) [
        | err text ↦ (err text, s)
        | ok payload ↦ use_payload job_id payload s
      ]

  abbrev pub is_usable : Offer → Bool
  is_usable o = truthy_opt o.job_id && truthy_opt o.bundle_url

  -- the loop over the assignments, which counts those that were processed
  unfoldable pub process_assignments : ℕ → List Offer → Exec Progress String ℕ
  unfolding process_assignment
  process_assignments processed [] s = (ok processed, s)
  process_assignments processed (o ∷ os) s =
      let (r, s') =
        if is_usable o
        then process_assignment (or_empty o.job_id) (or_empty o.bundle_url) o.bundle_token s
        else (ok tt, s) in
      let rest = process_assignments (if is_usable o then suc processed else processed) os s' in
      elim r [ err text ↦ (err text, s') | ok _ ↦ rest ]

-- the exit of the process after the first cycle: none goes on or returns
unfoldable pub exit_code : RegistrationOutcome → Option ℕ
exit_code registration =
    if not registration.success then if registration.retryable then some 3 else some 2 else none

-- The first poll of the process, and the exit that it leads to.
unfoldable pub first_exit : (String → Loaded Offer) → Agent → Answers → Option ℕ
unfolding exit_code
first_exit loads a r = exit_code (poll loads a r not_required).1
