-- ===== src/NodeAgent/Tests.antt =====
-- Executions of small bundles, and the theorems there.
use certman.Base.{
  ℕ, ◌+◌, ◌<>◌, ◌++◌, ◌↔◌, truthy_opt, Each, Option, none, filter, length, String, ◌≡◌, refl, ◌⊎◌,
  some, List, [], ◌∷◌, ◌==◌, if◌then◌else◌, true, false, strip, lower, Result, ok,
}
use certman.Delivery.Files.{Site, deliver_filesystem_bundle}
use certman.Delivery.Ingress.{Finished}
use certman.Delivery.Service.{deliver_target}
use certman.Delivery.Service.Fixtures.{machine, kubectl, acm, target, entry, options, clean}
use certman.NodeAgent.Executor.{
  Value, absent, null, text, Bundle, Hook, Host, deliver_bundle, execute,
}
use certman.NodeAgent.Stream.{Loaded, not_json}
use certman.NodeAgent.Poller.{
  poll, Offer, Agent, Answers, ErrorBody, replied, unreachable, no_stream,
}
use certman.NodeAgent.Cycle.{
  Surroundings, value_error, Progress, Report, completed, failed, is_usable, process_assignments,
  first_exit,
}
use certman.NodeAgent.Cycle.Laws.{Asks, IsPermanent, IsTransient, first_exit_lem}
use certman.NodeAgent.Cycle.Reports.{Tells, process_assignments_sound}
use certman.NodeAgent.Executor.Laws.{
  IsUndelivered, IsHooked, rendering, execute_lem, deliver_bundle_as_target,
}

-- The command `false` ends with status 1.
abbrev spawn : List Hook → Hook → Result String Finished
spawn done h =
    ok (record { returncode = if h.command == "false" then 1 else 0; stdout = ""; stderr = "no\n" })

abbrev hook : String → Hook
hook command = record { name = command; event = "deployed"; command = command; shell = true }

abbrev bundle : Value → Value → Bundle
bundle kind scope = record {
  files = ("fullchain.pem", "CHAIN\n") ∷ ("privkey.pem", "KEY\n") ∷ [];
  target_type = kind;
  target_scope = scope;
  delivery_options = options;
}

abbrev host : Host
host = record { site = clean; hooks = [] }

abbrev three_hooks : List Hook
three_hooks = hook "reload" ∷ hook "false" ∷ hook "notify" ∷ []

abbrev with_pair : Site
with_pair = record {
  written = ("out/fullchain.pem", "CHAIN\n") ∷ ("out/privkey.pem", "KEY\n") ∷ [];
  commands = [];
}

-- The third hook is not run.
hook_failed :
    execute machine (kubectl) spawn (bundle (text "nginx") absent) "out" three_hooks host ≡ (
      ok (record {
        success = false;
        status = "failed";
        delivered_paths = "out/fullchain.pem" ∷ "out/privkey.pem" ∷ [];
        error = some "no";
      }),
      record { site = with_pair; hooks = hook "reload" ∷ hook "false" ∷ [] },
    )
unfolding execute deliver_filesystem_bundle strip lower
hook_failed = refl

execute_lem_example :
    IsUndelivered machine kubectl spawn
      (bundle (text "nginx") absent)
      "out"
      three_hooks
      host
      (execute machine kubectl spawn (bundle (text "nginx") absent) "out" three_hooks host)
    ⊎ IsHooked machine kubectl spawn
        (bundle (text "nginx") absent)
        "out"
        three_hooks
        host
        (execute machine kubectl spawn (bundle (text "nginx") absent) "out" three_hooks host)
execute_lem_example =
    execute_lem machine kubectl spawn (bundle (text "nginx") absent) "out" three_hooks host

deliver_bundle_as_target_example :
    deliver_bundle machine kubectl (bundle (text "K8s-Ingress") (text "web/tls")) "out" clean
    ≡ deliver_target machine kubectl acm
        (entry [])
        (target "K8s-Ingress" (some "web/tls"))
        (rendering options)
        (bundle absent absent).files
        "out"
        clean
unfolding strip lower
deliver_bundle_as_target_example =
    deliver_bundle_as_target machine kubectl acm (bundle (text "K8s-Ingress") (text "web/tls"))
      (entry []) (target "K8s-Ingress" (some "web/tls")) "out" clean refl refl refl

-- A null scope is read as the text `None`, which names the namespace.
null_scope :
    deliver_bundle machine kubectl (bundle (text "k8s-ingress") null) "out" clean
    ≡ deliver_bundle machine kubectl (bundle (text "k8s-ingress") (text "None")) "out" clean
unfolding deliver_bundle
null_scope = refl

abbrev offer : String → Offer
offer job_id = record {
  job_id = some job_id;
  bundle_url = some ("/bundles/" <> job_id);
  bundle_token = none;
}

abbrev agent : Agent
agent = record {
  register_token = some "token";
  has_private_key = true;
  prefer_sse = false;
  prefer_subscribe = false;
}

abbrev answers : ℕ → Answers
answers status = record {
  registration = replied status none;
  events = no_stream;
  subscription = unreachable;
  assignments = replied 200 (some (offer "j1" ∷ []));
}

abbrev loads : String → Loaded Offer
loads line = not_json

exits :
    (first_exit loads agent (answers 201) ≡ none)
    × (first_exit loads agent (answers 409) ≡ some 2)
    × (first_exit loads agent (answers 503) ≡ some 3)
unfolding first_exit poll
exits = (refl, refl, refl)

-- Without the key file nothing is asked, and the process does not fail.
keyless : first_exit loads (record agent { has_private_key = false }) (answers 401) ≡ none
unfolding first_exit poll
keyless = refl

first_exit_lem_example :
    ((first_exit loads agent (answers 409) ≡ some 2) ↔ (
      Asks loads agent (answers 409)
      × ((status : ℕ) × (body : Option ErrorBody) × ((answers 409).registration
            ≡ replied status body)
          × IsPermanent status)))
    × ((first_exit loads agent (answers 409) ≡ some 3)
        ↔ (Asks loads agent (answers 409) × IsTransient (answers 409).registration))
    × ((agent.has_private_key ≡ false) ⊎ (truthy_opt agent.register_token ≡ false)
        → first_exit loads agent (answers 409) ≡ none)
first_exit_lem_example = first_exit_lem loads agent (answers 409)

-- The bundle of `j2` is not there; the others are for Nginx.
abbrev surroundings : Surroundings String
surroundings = record {
  endpoint = "http://control/";
  target_dir = "out";
  default_hooks = hook "reload" ∷ [];
  has_encryption_key = false;
  download = λ s job_id url token.
      if job_id == "j2"
      then replied 404 none
      else replied 200 (
          some (
            some (record {
              bundle = some (bundle (text "nginx") absent);
              hooks = [];
              envelope = none;
            })));
  open_envelope = λ v. value_error;
  execute = execute machine kubectl spawn;
}

abbrev idle : Progress
idle = record { host = host; reports = [] }

abbrev all_offers : List Offer
all_offers = offer "j1" ∷ record (offer "j3") { bundle_url = none } ∷ offer "j2" ∷ []

abbrev finished_cycle : Progress
finished_cycle = record {
  host = record { site = with_pair; hooks = hook "reload" ∷ [] };
  reports = completed surroundings "j1" ∷ failed surroundings "j2" "bundle download failed" ∷ [];
}

cycle : process_assignments surroundings 0 all_offers idle ≡ (ok 2, finished_cycle)
unfolding process_assignments execute deliver_filesystem_bundle strip lower
cycle = refl

process_assignments_sound_example :
    (rs : List Report) × (finished_cycle.reports ≡ [] ++ rs)
    × Each (Tells surroundings) (filter (is_usable surroundings) all_offers) rs
    × (2 ≡ 0 + length rs)
process_assignments_sound_example =
    process_assignments_sound surroundings 0 all_offers idle finished_cycle 2 cycle
