-- ===== src/Agent/Events/Tests.antt =====
-- A stream in which a job is queued while the node waits, and the theorem at it.
use certman.Base.{String, ◌≡◌, refl, true, false, List, [], ◌∷◌, lstrip}
use certman.Job.Service.{claim_next_job}
use certman.Job.Table.{save, key_taken, replace}
use certman.Agent.Assign.{Assignment, claim_assignment_payload}
use certman.Agent.Token.{mint_bundle_token}
use certman.Agent.State.{Server}
use certman.Agent.Events.{
  connected, assignment, keepalive, Wait, Stream, closed, sse_stream, stream_text, connected_json,
}
use certman.Agent.Events.Wire.{offer_of}
use certman.Agent.Events.Laws.{Claims, opening}
use certman.Agent.Events.Received.{IsReceived, stream-IsReceived}
use certman.Agent.Tests.{toy, settings, noon, queued_job, running_job, handed, idle}
use certman.NodeAgent.Poller.{Offer}
use certman.NodeAgent.Stream.{Loaded, loaded}
use certman.NodeAgent.Stream.Laws.{is_line, break_lines-unlines}
use certman.Delivery.Ingress.{is_break, break_lines}

abbrev waits : List Wait
waits =
    record { meanwhile = λ s. s; is_new = false; nonce = "s2"; now = noon; is_quiet = true }
    ∷ record {
      meanwhile = λ s. record s { jobs = queued_job ∷ [] };
      is_new = true;
      nonce = "s3";
      now = noon;
      is_quiet = false;
    }
    ∷ []

abbrev dump : List Assignment → String
dump l = "{\"assignments\":[]}"

abbrev loads : String → Loaded Offer
loads text = loaded (offer_of handed ∷ [])

abbrev stream : Stream
stream = closed (connected "edge" 100 ∷ keepalive 100 ∷ assignment (handed ∷ []) ∷ [])

abbrev final : Server
final = record idle { jobs = running_job ∷ [] }

streams : sse_stream toy settings "s1" "edge" noon waits idle ≡ (stream, final)
unfolding sse_stream claim_assignment_payload claim_next_job save key_taken replace
    mint_bundle_token
streams = refl

text_of_stream :
    stream_text toy dump stream.frames
    ≡ "event: connected\ndata: {\"node_id\":edge,\"server_time\":0}\n\n: keepalive 0\n\nevent: assignment\ndata: {\"assignments\":[]}\n\n"
unfolding stream_text connected_json
text_of_stream = refl

stream-IsReceived_example :
    IsReceived toy settings dump loads break_lines
      (Claims toy settings "edge" (opening "s1" noon ∷ waits) idle)
      "edge"
      stream
      final
unfolding is_line is_break lstrip connected_json
stream-IsReceived_example =
    stream-IsReceived toy settings dump loads break_lines break_lines-unlines "s1" "edge" noon waits
      idle final stream streams (refl, (refl, ((refl, refl, refl), tt)))
