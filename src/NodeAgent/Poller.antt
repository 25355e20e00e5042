-- ===== src/NodeAgent/Poller.antt =====
-- certman/node_agent/poller.py and agent.py: registration, the poll with its fallbacks, and the cycle
-- that fetches, executes and reports.
use certman.Base.{
  ℕ, suc, String, ◌<>◌, Bool, true, false, Option, none, some, List, [], ◌||◌, not, leb, nat_beq,
  if◌then◌else◌, truthy_opt,
}
use certman.Delivery.Service.{decimal, get_or}
use certman.NodeAgent.Stream.{Loaded, no_event, read_lines}

-- The answer to a request: a status and the JSON body, none where it does not parse; or no answer, an
-- httpx.HTTPError.
pub data Reply (A : Type 0) : Type 0 where
  replied : ℕ → Option A → Reply A
  unreachable : Reply A

pub record RegistrationOutcome : Type 0 where
  pub success : Bool
  pub retryable : Bool
  pub code : String
  pub message : String

-- The `error` of a body.
pub record ErrorBody : Type 0 where
  pub code : Option String
  pub message : Option String

abbrev pub not_required : RegistrationOutcome
not_required = record {
  success = true;
  retryable = false;
  code = "REGISTER_NOT_REQUIRED";
  message = "registration not required";
}

abbrev pub missing_key : RegistrationOutcome
missing_key = record {
  success = false;
  retryable = false;
  code = "REGISTER_MISSING_PRIVATE_KEY";
  message = "private key missing";
}

abbrev pub registered : RegistrationOutcome
registered = record {
  success = true;
  retryable = false;
  code = "REGISTER_OK";
  message = "registered";
}

abbrev pub network_error : RegistrationOutcome
network_error = record {
  success = false;
  retryable = true;
  code = "REGISTER_NETWORK_ERROR";
  message = "register request failed";
}

abbrev pub body_code : Option ErrorBody → String
body_code none = "REGISTER_REJECTED"
body_code (some b) = get_or b.code "REGISTER_REJECTED"

abbrev pub body_message : ℕ → Option ErrorBody → String
body_message status none = "register failed with status " <> decimal (suc status) status
body_message status (some b) =
    get_or b.message ("register failed with status " <> decimal (suc status) status)

-- the status is 401, 403, 409 or 422
unfoldable pub is_permanent : ℕ → Bool
is_permanent status =
    nat_beq status 401 || nat_beq status 403 || nat_beq status 409 || nat_beq status 422

unfoldable pub rejected : Bool → ℕ → Option ErrorBody → RegistrationOutcome
rejected retryable status body = record {
  success = false;
  retryable = retryable;
  code = body_code body;
  message = body_message status body;
}

unfoldable pub classify : Reply ErrorBody → RegistrationOutcome
unfolding is_permanent rejected
classify unreachable = network_error
classify (replied status body) =
    if nat_beq status 200 || nat_beq status 201
    then registered
    else if is_permanent status
    then rejected false status body
    else if nat_beq status 429 || leb 500 status
    then rejected true status body
    else rejected true status body

-- The agent: its token, whether the private key file exists, and what it prefers.
pub record Agent : Type 0 where
  pub register_token : Option String
  pub has_private_key : Bool
  pub prefer_sse : Bool
  pub prefer_subscribe : Bool

unfoldable pub ensure_registered : Agent → Reply ErrorBody → RegistrationOutcome
unfolding classify
ensure_registered a reply =
    if not (truthy_opt a.register_token)
    then not_required
    else if not a.has_private_key
    then missing_key
    else classify reply

-- What the agent reads of an assignment, none where the key is absent or null.
pub record Offer : Type 0 where
  pub job_id : Option String
  pub bundle_url : Option String
  pub bundle_token : Option String

-- A stream: its status, its lines, and whether reading them raises at the end.
pub data StreamReply : Type 0 where
  streamed : ℕ → List String → Bool → StreamReply
  no_stream : StreamReply

-- What the server answers in one poll; a body is the list of assignments in it, empty without one.
pub record Answers : Type 0 where
  pub registration : Reply ErrorBody
  pub events : StreamReply
  pub subscription : Reply (List Offer)
  pub assignments : Reply (List Offer)

unfoldable pub events : (String → Loaded Offer) → StreamReply → Option (List Offer)
unfolding read_lines
events loads no_stream = none
events loads (streamed status lines broken) =
    if nat_beq status 404
    then none
    else if not (nat_beq status 200)
    then some []
    else read_lines loads broken no_event lines

abbrev pub offers_of : ℕ → Option (List Offer) → List Offer
offers_of status body = if nat_beq status 200 then get_or body [] else []

unfoldable pub subscribe : Reply (List Offer) → Option (List Offer)
subscribe unreachable = some []
subscribe (replied status body) = if nat_beq status 404 then none else some (offers_of status body)

unfoldable pub plain_poll : Reply (List Offer) → List Offer
plain_poll unreachable = []
plain_poll (replied status body) = offers_of status body

-- the channels in turn; one that gives none is followed by the next
unfoldable pub choose : (String → Loaded Offer) → Agent → Answers → List Offer
unfolding events subscribe plain_poll
choose loads a r =
    let polled = plain_poll r.assignments in
    let subscribed =
      if a.prefer_subscribe then get_or (subscribe r.subscription) polled else polled in
    if a.prefer_sse then get_or (events loads r.events) subscribed else subscribed

-- the assignments, and `_last_registration` after the poll
unfoldable pub poll :
    (String → Loaded Offer)
    → Agent
    → Answers
    → RegistrationOutcome
    → List Offer × RegistrationOutcome
unfolding ensure_registered choose
poll loads a r last =
    if not a.has_private_key
    then ([], last)
    else let registration = ensure_registered a r.registration in
      (if registration.success then choose loads a r else [], registration)
