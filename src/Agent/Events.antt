-- ===== src/Agent/Events.antt =====
-- The endpoint `events`: a stream of server-sent events that ends with an assignment or at the
-- deadline.
pub mod Wire
pub mod Laws
pub mod Received
mod Tests
use certman.Base.{
  ℕ, String, ◌<>◌, Bool, true, false, Option, none, some, List, [], ◌∷◌, ◌++◌, if◌then◌else◌, Exec,
  Result, ok, err, map,
}
use certman.Agent.Platform.{Platform}
use certman.Agent.State.{Server, Settings, Failure, seconds}
use certman.Agent.Auth.{Signed, authenticate}
use certman.Agent.Assign.{Assignment, Draws, claim_assignment_payload}

-- What is yielded, with the server's seconds where they are sent.
pub data Frame : Type 0 where
  connected : String → ℕ → Frame
  assignment : List Assignment → Frame
  keepalive : ℕ → Frame
  timeout : Frame

-- A round of the wait: what other requests did to the tables meanwhile, whether the revision of the
-- event bus has changed, the nonce drawn, the time, and whether a keepalive is due at the end.
pub record Wait : Type 0 where
  pub meanwhile : Server → Server
  pub is_new : Bool
  pub nonce : String
  pub now : ℕ
  pub is_quiet : Bool

-- The frames yielded so far, and how the stream ends: it is closed, or an exception breaks it.
pub record Stream : Type 0 where
  pub frames : List Frame
  pub ending : Result Failure (Unit {0})

abbrev pub closed : List Frame → Stream
closed frames = record { frames = frames; ending = ok tt }

abbrev pub before : List Frame → Stream → Stream
before frames t = record t { frames = frames ++ t.frames }

abbrev pub keepalive_of : Wait → List Frame
keepalive_of w = if w.is_quiet then keepalive (seconds w.now) ∷ [] else []

-- what follows a claim: an exception, the assignments, or the rest of the stream
abbrev pub after_claim :
    Result Failure (List Assignment) × Server → Stream × Server → Stream × Server
after_claim (err e, s) rest = (record { frames = []; ending = err e }, s)
after_claim (ok [], s) rest = rest
after_claim (ok (a ∷ as'), s) rest = (closed (assignment (a ∷ as') ∷ []), s)

abbrev pub delayed : Wait → Stream × Server → Stream × Server
delayed w (t, s) = (before (keepalive_of w) t, s)

module _ (p : Platform) (c : Settings) where
  -- a claim where the revision has changed, and none where it has not
  unfoldable pub claim_if_new : String → Wait → Exec Server Failure (List Assignment)
  claim_if_new node_id w s =
      if w.is_new
      then claim_assignment_payload p c w.nonce w.now node_id (w.meanwhile s)
      else (ok [], w.meanwhile s)

  unfoldable pub wait_events : String → List Wait → Server → Stream × Server
  unfolding claim_if_new
  wait_events node_id [] s = (closed (timeout ∷ []), s)
  wait_events node_id (w ∷ ws) s =
      let out = claim_if_new node_id w s in
      after_claim out (delayed w (wait_events node_id ws out.1))

  abbrev pub opened : Frame → Stream × Server → Stream × Server
  opened f (t, s) = (before (f ∷ []) t, s)

  -- `_sse_stream`
  unfoldable pub sse_stream : String → String → ℕ → List Wait → Server → Stream × Server
  unfolding wait_events
  sse_stream nonce node_id now waits s =
      let out = claim_assignment_payload p c nonce now node_id s in
      opened (connected node_id (seconds now)) (after_claim out (wait_events node_id waits out.1))

  -- the payload that is signed
  abbrev pub signed_payload : String
  signed_payload = "{\"channel\":\"events\"}"

  abbrev pub streaming : Stream × Server → Result Failure Stream × Server
  streaming (t, s) = (ok t, s)

  -- An exception of the opening is the response; the stream has none any more.
  unfoldable pub events : Draws → Signed → ℕ → List Wait → Exec Server Failure Stream
  unfolding sse_stream
  events d m now waits s = elim (authenticate p d.row m signed_payload now s).0 [
    | err e ↦ (err e, (authenticate p d.row m signed_payload now s).1)
    | ok _ ↦
        streaming
          (sse_stream d.nonce m.node_id now waits (authenticate p d.row m signed_payload now s).1)
  ]

-- The texts of the frames; `dump_connected` and `dump_assignments` are the calls of json.dumps.
module _ (p : Platform) (dump_assignments : List Assignment → String) where
  unfoldable pub connected_json : String → ℕ → String
  connected_json node_id server_time =
      "{\"node_id\":" <> p.quote node_id <> ",\"server_time\":" <> p.decimal server_time <> "}"

  unfoldable pub frame_text : Frame → String
  frame_text (connected node_id server_time) =
      "event: connected\ndata: " <> connected_json node_id server_time <> "\n\n"
  frame_text (assignment l) = "event: assignment\ndata: " <> dump_assignments l <> "\n\n"
  frame_text (keepalive server_time) = ": keepalive " <> p.decimal server_time <> "\n\n"
  frame_text timeout = "event: timeout\ndata: {}\n\n"

  unfoldable pub stream_text : List Frame → String
  unfolding frame_text
  stream_text [] = ""
  stream_text (f ∷ fs) = frame_text f <> stream_text fs
