-- ===== src/Agent/Events/Laws.antt =====
-- The frames and the ending of the stream of `events`, against the claims that it makes.
use certman.Base.{
  ℕ, String, true, false, ◌≡◌, refl, sym, ap, ◌∙◌, ◌⊎◌, inl, inr, List, [], ◌∷◌, ◌++◌, All,
  All-append, if◌then◌else◌, Bool-cases, Result, ok, err, arith, append_assoc,
}
use mathlib.Core.Path.{subst}
use certman.Agent.Platform.{Platform}
use certman.Agent.State.{Server, Settings, Failure, seconds}
use certman.Agent.Assign.{Assignment, claim_assignment_payload}
use certman.Agent.Assign.Endpoints.{AtMostOne, one_claim}
use certman.Agent.Events.{
  Frame, connected, assignment, timeout, Wait, Stream, closed, before, keepalive_of, after_claim,
  delayed, claim_if_new, wait_events, sse_stream,
}
use certman.Agent.Events.Wire.{IsPassed}
use certman.NodeAgent.Poller.{Offer}
use certman.NodeAgent.Stream.{Loaded}

-- The claims that a node is due during some waits, and what they come to: at each change of the
-- revision one is made, and the first that raises or hands out a job is the last.
module _ (p : Platform) (c : Settings) (node_id : String) where
  abbrev pub claim_at : Wait → Server → Result Failure (List Assignment) × Server
  claim_at w s = claim_assignment_payload p c w.nonce w.now node_id (w.meanwhile s)

  pub data Claims : List Wait → Server → Result Failure (List Assignment) → Server → Type 0 where
    over : {s : Server} → Claims [] s (ok []) s
    unchanged :
        {w : Wait} {ws : List Wait} {s s' : Server} {r : Result Failure (List Assignment)}
        → w.is_new ≡ false
        → Claims ws (w.meanwhile s) r s'
        → Claims (w ∷ ws) s r s'
    nothing :
        {w : Wait} {ws : List Wait} {s s₁ s' : Server} {r : Result Failure (List Assignment)}
        → w.is_new ≡ true
        → claim_at w s ≡ (ok [], s₁)
        → Claims ws s₁ r s'
        → Claims (w ∷ ws) s r s'
    handed :
        {w : Wait} {ws : List Wait} {s s' : Server} {a : Assignment} {more : List Assignment}
        → w.is_new ≡ true
        → claim_at w s ≡ (ok (a ∷ more), s')
        → Claims (w ∷ ws) s (ok (a ∷ more)) s'
    broken :
        {w : Wait} {ws : List Wait} {s s' : Server} {e : Failure}
        → w.is_new ≡ true
        → claim_at w s ≡ (err e, s')
        → Claims (w ∷ ws) s (err e) s'

  module _ (w : Wait) (ws : List Wait) (s s₁ : Server) where
    claims_nothing :
        (r : Result Failure (List Assignment)) (s' : Server)
        → claim_if_new p c node_id w s ≡ (ok [], s₁)
        → Claims ws s₁ r s'
        → Claims (w ∷ ws) s r s'
    unfolding claim_if_new
    claims_nothing r s' h k = elim (Bool-cases w.is_new) [
      | inl n ↦ nothing n (rw (n, if◌then◌else◌) at h) k
      | inr n ↦
          let same : w.meanwhile s ≡ s₁ = ap (λ o. o.1) (rw (n, if◌then◌else◌) at h) in
          unchanged n (subst (λ x. Claims ws x r s') (sym same) k)
    ]

    claims_handed :
        (a : Assignment) (more : List Assignment)
        → claim_if_new p c node_id w s ≡ (ok (a ∷ more), s₁)
        → Claims (w ∷ ws) s (ok (a ∷ more)) s₁
    unfolding claim_if_new
    claims_handed a more h = elim (Bool-cases w.is_new) [
      | inl n ↦ handed n (rw (n, if◌then◌else◌) at h)
      | inr n ↦ absurd (ground arith)
    ]

    claims_broken :
        (e : Failure) → claim_if_new p c node_id w s ≡ (err e, s₁) → Claims (w ∷ ws) s (err e) s₁
    unfolding claim_if_new
    claims_broken e h = elim (Bool-cases w.is_new) [
      | inl n ↦ broken n (rw (n, if◌then◌else◌) at h)
      | inr n ↦ absurd (ground arith)
    ]

-- The claim that a stream makes when it opens, as a first wait.
abbrev pub opening : String → ℕ → Wait
opening nonce now = record {
  meanwhile = λ s. s;
  is_new = true;
  nonce = nonce;
  now = now;
  is_quiet = false;
}

-- What the stream is, where the claims come to what `C` holds of: frames that are passed over, and then
-- the assignments that were claimed, or the end of the wait when none was, or nothing more after an
-- exception.
module _ (p : Platform) (c : Settings) (node_id : String) (dump : List Assignment → String)
    (loads : String → Loaded Offer) where
  abbrev pub Ends : (Result Failure (List Assignment) → Server → Type 0) → Stream → Server → Type 0
  Ends C t s =
      (ps : List Frame) × All (IsPassed p dump loads) ps
      × (((l : List Assignment) × (t ≡ closed (ps ++ assignment l ∷ []))
            × AtMostOne p c node_id s.jobs l
            × C (ok l) s)
          ⊎ (((t ≡ closed (ps ++ timeout ∷ [])) × C (ok []) s)
              ⊎ ((e : Failure) × (t ≡ record { frames = ps; ending = err e }) × C (err e) s)))

  module _ (qs ps fs : List Frame) where
    more_before : (t : Stream) → t ≡ closed (ps ++ fs) → before qs t ≡ closed (qs ++ ps ++ fs)
    more_before t e = ap (λ u. before qs u) e ∙ ap (λ l. closed l) (sym (append_assoc qs ps fs))

  Ends-before :
      (C : Result Failure (List Assignment) → Server → Type 0) (qs : List Frame) (t : Stream)
      (s : Server)
      → All (IsPassed p dump loads) qs
      → Ends C t s
      → Ends C (before qs t) s
  Ends-before C qs t s h (ps, k, ends) = (
    qs ++ ps,
    All-append (IsPassed p dump loads) qs ps h k,
    elim ends [
      | inl (l, e, one, q) ↦ inl (l, more_before qs ps (assignment l ∷ []) t e, one, q)
      | inr (inl (e, q)) ↦ inr (inl (more_before qs ps (timeout ∷ []) t e, q))
      | inr (inr (x, e, q)) ↦ inr (inr (x, ap (λ u. before qs u) e, q))
    ],
  )

  Ends-map :
      (C D : Result Failure (List Assignment) → Server → Type 0) (t : Stream) (s : Server)
      → ((r : Result Failure (List Assignment)) → D r s → C r s)
      → Ends D t s
      → Ends C t s
  Ends-map C D t s f (ps, k, inl (l, e, one, q)) = (ps, k, inl (l, e, one, f (ok l) q))
  Ends-map C D t s f (ps, k, inr (inl (e, q))) = (ps, k, inr (inl (e, f (ok []) q)))
  Ends-map C D t s f (ps, k, inr (inr (x, e, q))) = (ps, k, inr (inr (x, e, f (err x) q)))

  Ends-claim :
      (w : Wait) (ws : List Wait) (s₀ : Server) (out : Result Failure (List Assignment) × Server)
      (rest : Stream × Server)
      → claim_if_new p c node_id w s₀ ≡ out
      → ((l : List Assignment) (s : Server) → out ≡ (ok l, s) → AtMostOne p c node_id s.jobs l)
      → Ends (Claims p c node_id ws out.1) rest.0 rest.1
      → Ends (Claims p c node_id (w ∷ ws) s₀) (after_claim out rest).0 (after_claim out rest).1
  Ends-claim w ws s₀ (err e, s) rest h one ends =
      ([], tt, inr (inr (e, refl, claims_broken p c node_id w ws s₀ s e h)))
  Ends-claim w ws s₀ (ok [], s) rest h one ends =
      Ends-map (Claims p c node_id (w ∷ ws) s₀) (Claims p c node_id ws s) rest.0 rest.1
        (λ r k. claims_nothing p c node_id w ws s₀ s r rest.1 h k) ends
  Ends-claim w ws s₀ (ok (a ∷ more), s) rest h one ends = (
    [],
    tt,
    inl (a ∷ more, refl, one (a ∷ more) s refl, claims_handed p c node_id w ws s₀ s a more h),
  )

  claim_one :
      (w : Wait) (s s' : Server) (l : List Assignment)
      → claim_if_new p c node_id w s ≡ (ok l, s')
      → AtMostOne p c node_id s'.jobs l
  unfolding claim_if_new
  claim_one w s s' l h = elim (Bool-cases w.is_new) [
    | inl n ↦ one_claim p c w.nonce w.now node_id (w.meanwhile s) s' l (rw (n, if◌then◌else◌) at h)
    | inr n ↦ inl (ground arith)
  ]

  keepalive_passes : (w : Wait) → All (IsPassed p dump loads) (keepalive_of w)
  keepalive_passes w = elim (Bool-cases w.is_quiet) [
    | inl q ↦ rw (q, if◌then◌else◌) (tt, tt)
    | inr q ↦ rw (q, if◌then◌else◌) tt
  ]

  wait-Ends :
      (ws : List Wait) (s : Server)
      → Ends
          (Claims p c node_id ws s)
          (wait_events p c node_id ws s).0
          (wait_events p c node_id ws s).1
  unfolding wait_events
  wait-Ends [] s = ([], tt, inr (inl (refl, over)))
  wait-Ends (w ∷ ws) s =
      let out = claim_if_new p c node_id w s in
      let rest = wait_events p c node_id ws out.1 in
      Ends-claim w ws s out (delayed w rest) refl (λ l s' h. claim_one w s s' l h)
        (Ends-before (Claims p c node_id ws out.1) (keepalive_of w) rest.0 rest.1
          (keepalive_passes w) (wait-Ends ws out.1))

  pub stream-Ends :
      (nonce : String) (now : ℕ) (ws : List Wait) (s : Server)
      → Ends
          (Claims p c node_id (opening nonce now ∷ ws) s)
          (sse_stream p c nonce node_id now ws s).0
          (sse_stream p c nonce node_id now ws s).1
  unfolding sse_stream claim_if_new
  stream-Ends nonce now ws s =
      let out = claim_assignment_payload p c nonce now node_id s in
      let rest = wait_events p c node_id ws out.1 in
      Ends-before (Claims p c node_id (opening nonce now ∷ ws) s)
        (connected node_id (seconds now) ∷ []) (after_claim out rest).0 (after_claim out rest).1
        (tt, tt)
        (Ends-claim (opening nonce now) ws s out rest refl
          (λ l s' h. one_claim p c nonce now node_id s s' l h) (wait-Ends ws out.1))
