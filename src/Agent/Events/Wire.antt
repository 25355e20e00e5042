-- ===== src/Agent/Events/Wire.antt =====
-- The text of a stream's frames, and what the agent reads of it.
use certman.Base.{
  String, ◌<>◌, ◌≡◌, refl, sym, ap, ◌∙◌, Bool, true, Option, none, some, List, [], ◌∷◌, ◌++◌, All,
  All-append, map, lstrip, if◌then◌else◌,
}
use text.Mathlib.TextLemmas.{append_assoc as text_assoc}
use certman.Delivery.Ingress.{is_break}
use certman.Agent.Platform.{Platform}
use certman.Agent.Assign.{Assignment}
use certman.Agent.Events.{
  Frame, connected, assignment, keepalive, timeout, connected_json, frame_text, stream_text,
}
use certman.NodeAgent.Poller.{Offer}
use certman.NodeAgent.Stream.{Loaded, loaded, loaded_answer, no_event, read_lines}
use certman.NodeAgent.Stream.Laws.{
  is_line, is_line-append, unlines, unlines-append, assignment_read, timeout_read, connected_passed,
  keepalive_passed,
}

-- What the agent reads of an assignment.
abbrev pub offer_of : Assignment → Offer
offer_of a = record {
  job_id = some a.job_id;
  bundle_url = some a.bundle_url;
  bundle_token = some a.bundle_token;
}

module _ (p : Platform) (dump : List Assignment → String) where
  abbrev frame_lines : Frame → List String
  frame_lines (connected node_id t) =
      "event: connected" ∷ ("data: " <> connected_json p dump node_id t) ∷ "" ∷ []
  frame_lines (assignment l) = "event: assignment" ∷ ("data: " <> dump l) ∷ "" ∷ []
  frame_lines (keepalive t) = (": keepalive " <> p.decimal t) ∷ "" ∷ []
  frame_lines timeout = "event: timeout" ∷ "data: {}" ∷ "" ∷ []

  abbrev pub stream_lines : List Frame → List String
  stream_lines [] = []
  stream_lines (f ∷ fs) = frame_lines f ++ stream_lines fs

  event_text :
      (front d : String)
      → front <> "\n" <> ("data: " <> d) <> "\n\n" ≡ (front <> "\ndata: ") <> d <> "\n\n"
  event_text front d =
      ap (λ r. front <> "\n" <> r) (text_assoc "data: " d "\n\n")
      ∙ ap (λ r. front <> r) (sym (text_assoc "\n" "data: " (d <> "\n\n")))
      ∙ sym (text_assoc front "\ndata: " (d <> "\n\n"))

  frame_text-unlines : (f : Frame) → frame_text p dump f ≡ unlines (frame_lines f)
  unfolding frame_text unlines
  frame_text-unlines (connected node_id t) =
      sym (event_text "event: connected" (connected_json p dump node_id t))
  frame_text-unlines (assignment l) = sym (event_text "event: assignment" (dump l))
  frame_text-unlines (keepalive t) = sym (text_assoc ": keepalive " (p.decimal t) "\n\n")
  frame_text-unlines timeout = refl

  pub stream_text-unlines : (fs : List Frame) → stream_text p dump fs ≡ unlines (stream_lines fs)
  unfolding stream_text unlines
  stream_text-unlines [] = refl
  stream_text-unlines (f ∷ fs) =
      ap (λ r. r <> stream_text p dump fs) (frame_text-unlines f)
      ∙ ap (λ r. unlines (frame_lines f) <> r) (stream_text-unlines fs)
      ∙ unlines-append (frame_lines f) (stream_lines fs)

  module _ (loads : String → Loaded Offer) where
    -- The JSON text of the frame is one line, and that of assignments is read back.
    abbrev pub IsSent : Frame → Type 0
    IsSent (connected node_id t) = is_line (connected_json p dump node_id t) ≡ true
    IsSent (assignment l) =
        (is_line (dump l) ≡ true)
        × (lstrip (dump l) ≡ dump l)
        × (loads (dump l) ≡ loaded (map offer_of l))
    IsSent (keepalive t) = is_line (p.decimal t) ≡ true
    IsSent timeout = Unit

    are_lines : (f : Frame) → IsSent f → All (λ l. is_line l ≡ true) (frame_lines f)
    unfolding is_line is_break
    are_lines (connected node_id t) h =
        (refl, (is_line-append "data: " (connected_json p dump node_id t) refl h, (refl, tt)))
    are_lines (assignment l) (h, _, _) =
        (refl, (is_line-append "data: " (dump l) refl h, (refl, tt)))
    are_lines (keepalive t) h = (is_line-append ": keepalive " (p.decimal t) refl h, (refl, tt))
    are_lines timeout h = (refl, (refl, (refl, tt)))

    pub All-lines :
        (fs : List Frame) → All IsSent fs → All (λ l. is_line l ≡ true) (stream_lines fs)
    All-lines [] h = tt
    All-lines (f ∷ fs) (h, hs) =
        All-append (λ l. is_line l ≡ true) (frame_lines f) (stream_lines fs) (are_lines f h)
          (All-lines fs hs)

    -- A frame that the agent passes over.
    abbrev pub IsPassed : Frame → Type 0
    IsPassed (connected node_id t) = Unit
    IsPassed (keepalive t) = Unit
    IsPassed _ = ⊥

    module _ (broken : Bool) where
      unfoldable pub read : List Frame → Option (List Offer)
      read fs = read_lines loads broken no_event (stream_lines fs)

      pub passes : (ps fs : List Frame) → All IsPassed ps → read (ps ++ fs) ≡ read fs
      unfolding read
      passes [] fs h = refl
      passes (connected node_id t ∷ ps) fs (_, h) =
          connected_passed loads broken (connected_json p dump node_id t) (stream_lines (ps ++ fs))
          ∙ passes ps fs h
      passes (keepalive t ∷ ps) fs (_, h) =
          ap (λ l. read_lines loads broken no_event (l ∷ "" ∷ stream_lines (ps ++ fs)))
            (text_assoc ": " "keepalive " (p.decimal t))
          ∙ keepalive_passed loads broken ("keepalive " <> p.decimal t) (stream_lines (ps ++ fs))
          ∙ passes ps fs h
      passes (assignment l ∷ ps) fs (h, _) = absurd h
      passes (timeout ∷ ps) fs (h, _) = absurd h

      pub read_assignment :
          (l : List Assignment)
          → IsSent (assignment l)
          → read (assignment l ∷ []) ≡ some (map offer_of l)
      unfolding read loaded_answer
      read_assignment l (_, s, e) = assignment_read loads broken (dump l) [] s ∙ rw e refl

      pub read_timeout : read (timeout ∷ []) ≡ some []
      unfolding read
      read_timeout = timeout_read loads broken []

      pub read_end : read [] ≡ (if broken then none else some [])
      unfolding read read_lines
      read_end = refl
