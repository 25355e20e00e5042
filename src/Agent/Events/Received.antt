-- ===== src/Agent/Events/Received.antt =====
-- From the server's stream to the agent's assignments.
use certman.Base.{
  ℕ, String, ◌≡◌, refl, sym, ap, ◌∙◌, ◌⊎◌, inl, inr, Bool, true, false, Option, none, some, List,
  [], ◌∷◌, ◌++◌, All, map, Result, ok, err, append-nil,
}
use mathlib.Core.Path.{subst}
use certman.Agent.Platform.{Platform}
use certman.Agent.State.{Server, Settings, Failure}
use certman.Agent.Assign.{Assignment}
use certman.Agent.Assign.Endpoints.{AtMostOne}
use certman.Agent.Events.{Frame, assignment, timeout, Wait, Stream, sse_stream, stream_text}
use certman.Agent.Events.Wire.{
  offer_of, stream_lines, stream_text-unlines, IsSent, All-lines, IsPassed, read, passes,
  read_assignment, read_timeout, read_end,
}
use certman.Agent.Events.Laws.{Claims, opening, Ends, stream-Ends}
use certman.NodeAgent.Poller.{Offer, streamed, events}
use certman.NodeAgent.Stream.{Loaded}
use certman.NodeAgent.Stream.Laws.{is_line, unlines}

module _ (p : Platform) (c : Settings) (dump : List Assignment → String)
    (loads : String → Loaded Offer) (iter_lines : String → List String) where
  -- The answer of the server as the agent gets it, which may break off after the frames.
  abbrev pub received : Bool → Stream → Option (List Offer)
  received broken t = events loads (streamed 200 (iter_lines (stream_text p dump t.frames)) broken)

  -- What the claims come to, by `C`, arrives: the assignments, which are none if none was claimed; or
  -- the agent goes on to the next channel after an exception.
  abbrev pub IsReceived :
      (Result Failure (List Assignment) → Server → Type 0) → String → Stream → Server → Type 0
  IsReceived C node_id t s =
      ((t.ending ≡ ok tt)
        × ((l : List Assignment) × C (ok l) s
            × AtMostOne p c node_id s.jobs l
            × (received false t ≡ some (map offer_of l))))
      ⊎ ((e : Failure) × C (err e) s × (t.ending ≡ err e) × (received true t ≡ none))

  module _
      (lines_of : (ls : List String)
        → All (λ l. is_line l ≡ true) ls
        → iter_lines (unlines ls) ≡ ls) where
    received_lines :
        (broken : Bool) (t : Stream)
        → All (IsSent p dump loads) t.frames
        → received broken t ≡ read p dump loads broken t.frames
    unfolding events read
    received_lines broken t h =
        let same =
          ap (λ s. iter_lines s) (stream_text-unlines p dump t.frames)
          ∙ lines_of (stream_lines p dump t.frames) (All-lines p dump loads t.frames h) in
        rw same refl

    last-IsSent :
        (ps fs : List Frame) → All (IsSent p dump loads) (ps ++ fs) → All (IsSent p dump loads) fs
    last-IsSent [] fs h = h
    last-IsSent (q ∷ ps) fs h = last-IsSent ps fs h.1

    IsSent-of :
        (t : Stream) (ps fs : List Frame)
        → t.frames ≡ ps ++ fs
        → All (IsSent p dump loads) t.frames
        → All (IsSent p dump loads) fs
    IsSent-of t ps fs e h = last-IsSent ps fs (subst (λ l. All (IsSent p dump loads) l) e h)

    received_as :
        (broken : Bool) (t : Stream) (ps fs : List Frame)
        → t.frames ≡ ps ++ fs
        → All (IsSent p dump loads) t.frames
        → All (IsPassed p dump loads) ps
        → received broken t ≡ read p dump loads broken fs
    received_as broken t ps fs e h k =
        received_lines broken t h
        ∙ ap (λ l. read p dump loads broken l) e
        ∙ passes p dump loads broken ps fs k

    Ends-IsReceived :
        (C : Result Failure (List Assignment) → Server → Type 0) (node_id : String) (t : Stream)
        (s : Server)
        → All (IsSent p dump loads) t.frames
        → Ends p c node_id dump loads C t s
        → IsReceived C node_id t s
    Ends-IsReceived C node_id t s h (ps, k, inl (l, e, one, q)) = inl (
      ap (λ u. u.ending) e,
      (
        l,
        q,
        one,
        received_as false t ps (assignment l ∷ []) (ap (λ u. u.frames) e) h k
            ∙ read_assignment p dump loads false l
                (IsSent-of t ps (assignment l ∷ []) (ap (λ u. u.frames) e) h).0,
      ),
    )
    Ends-IsReceived C node_id t s h (ps, k, inr (inl (e, q))) = inl (
      ap (λ u. u.ending) e,
      (
        [],
        q,
        inl refl,
        received_as false t ps (timeout ∷ []) (ap (λ u. u.frames) e) h k
            ∙ read_timeout p dump loads false,
      ),
    )
    Ends-IsReceived C node_id t s h (ps, k, inr (inr (x, e, q))) = inr (
      x,
      q,
      ap (λ u. u.ending) e,
      received_as true t ps [] (ap (λ u. u.frames) e ∙ sym (append-nil ps)) h k
          ∙ read_end p dump loads true,
    )

    -- What the server claims for a node while it streams is what the agent reads: the claims are made at
    -- the opening and at each change of the revision, until one raises or hands out a job. If the stream
    -- is closed, the agent gets exactly the one assignment that they have handed out, or none if there
    -- was none until the deadline; if a claim raises, the agent goes on to the next channel. The JSON
    -- texts are single lines that parse back, and lines that were put together are split again.
    pub stream-IsReceived :
        (nonce node_id : String) (now : ℕ) (waits : List Wait) (s s' : Server) (t : Stream)
        → sse_stream p c nonce node_id now waits s ≡ (t, s')
        → All (IsSent p dump loads) t.frames
        → IsReceived (Claims p c node_id (opening nonce now ∷ waits) s) node_id t s'
    stream-IsReceived nonce node_id now waits s s' t h sent =
        Ends-IsReceived (Claims p c node_id (opening nonce now ∷ waits) s) node_id t s' sent (
          subst
            (λ o.
              Ends p c node_id dump loads (Claims p c node_id (opening nonce now ∷ waits) s) o.0
                o.1)
            h (stream-Ends p c node_id dump loads nonce now waits s))
