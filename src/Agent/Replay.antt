-- ===== src/Agent/Replay.antt =====
-- Replay protection: a signed request is accepted at most once, however late it is sent again.
use certman.Base.{
  ℕ, ◌+◌, ◌*◌, ◌≤◌, String, ◌≡◌, ◌≢◌, refl, Bool, true, List, [], ◌∷◌, ◌++◌, ◌==◌, ◌&&◌, not, leb,
  if◌then◌else◌, any, filter, All, ok, err, arith, eq_iff,
}
use mathlib.Core.Path.{subst}
use certman.Agent.Platform.{Platform}
use certman.Agent.State.{Nonce, Server, http, second}
use certman.Agent.Auth.{
  Signed, ActiveNode, skew, is_expired, nonce_clashes, nonce_ttl_seconds, max_skew_seconds,
  store_nonce_or_conflict, verify_message, admit, authenticate,
}

-- The table holds the nonce of the node, stored at `t` or later.
unfoldable pub holds : String → String → ℕ → List Nonce → Bool
holds node nonce t = any (λ m. m.node_id == node && m.nonce == nonce && leb t m.created_at)

holds-filter :
    (node nonce : String) (t now : ℕ) (db : List Nonce)
    → now ≤ t + nonce_ttl_seconds * second
    → holds node nonce t db ≡ true
    → holds node nonce t (filter (λ m. not (is_expired now m)) db) ≡ true
unfolding holds is_expired
holds-filter node nonce t now [] le h = h
holds-filter node nonce t now (x ∷ xs) le h = ground (arith, holds-filter node nonce t now xs le)

holds-append :
    (node nonce : String) (t : ℕ) (db : List Nonce) (n : Nonce)
    → holds node nonce t db ≡ true
    → holds node nonce t (db ++ n ∷ []) ≡ true
unfolding holds
holds-append node nonce t [] n h = ground arith
holds-append node nonce t (x ∷ xs) n h = ground (arith, holds-append node nonce t xs n)

holds-last :
    (node nonce : String) (t : ℕ) (db : List Nonce) (n : Nonce)
    → n.node_id ≡ node
    → n.nonce ≡ nonce
    → n.created_at ≡ t
    → holds node nonce t (db ++ n ∷ []) ≡ true
unfolding holds
holds-last node nonce t [] n a b c = ground (arith, eq_iff n.node_id node, eq_iff n.nonce nonce)
holds-last node nonce t (x ∷ xs) n a b c = ground (arith, holds-last node nonce t xs n a b c)

clash_of_holds :
    (n : Nonce) (t : ℕ) (db : List Nonce)
    → holds n.node_id n.nonce t db ≡ true
    → any (nonce_clashes n) db ≡ true
unfolding holds nonce_clashes
clash_of_holds n t [] h = h
clash_of_holds n t (x ∷ xs) h = ground (
  arith,
  clash_of_holds n t xs,
  eq_iff x.node_id n.node_id,
  eq_iff n.node_id x.node_id,
  eq_iff x.nonce n.nonce,
  eq_iff n.nonce x.nonce,
)

-- A nonce stored within the last hour is refused.
store_refuses :
    (id : String) (t now : ℕ) (node nonce : String) (db : List Nonce)
    → now ≤ t + nonce_ttl_seconds * second
    → holds node nonce t db ≡ true
    → store_nonce_or_conflict id now node nonce db ≡ (err (http 409 "CONFLICT_REPLAY"), db)
unfolding store_nonce_or_conflict
store_refuses id t now node nonce db le h =
    let n : Nonce = record { id = id; node_id = node; nonce = nonce; created_at = now } in
    rw
      (
        clash_of_holds n t (filter (λ m. not (is_expired now m)) db)
            (holds-filter node nonce t now db le h),
        if◌then◌else◌,
      )
      refl

store_keeps :
    (id : String) (t now : ℕ) (node nonce node' nonce' : String) (db : List Nonce)
    → now ≤ t + nonce_ttl_seconds * second
    → holds node nonce t db ≡ true
    → holds node nonce t (store_nonce_or_conflict id now node' nonce' db).1 ≡ true
unfolding store_nonce_or_conflict
store_keeps id t now node nonce node' nonce' db le h =
    let n : Nonce = record { id = id; node_id = node'; nonce = nonce'; created_at = now } in
    ground (
      arith,
      holds-append node nonce t (filter (λ m. not (is_expired now m)) db) n
          (holds-filter node nonce t now db le h),
    )

store_stores :
    (id : String) (now : ℕ) (node nonce : String) (db : List Nonce)
    → (store_nonce_or_conflict id now node nonce db).0 ≡ ok tt
    → holds node nonce now (store_nonce_or_conflict id now node nonce db).1 ≡ true
unfolding store_nonce_or_conflict
store_stores id now node nonce db h =
    let n : Nonce = record { id = id; node_id = node; nonce = nonce; created_at = now } in
    ground
      (arith, holds-last node nonce now (filter (λ m. not (is_expired now m)) db) n refl refl refl)

-- An attempt to store a nonce, by any request.
pub record Attempt : Type 0 where
  pub id : String
  pub now : ℕ
  pub node_id : String
  pub nonce : String

unfoldable pub attempts : List Attempt → List Nonce → List Nonce
attempts [] db = db
attempts (a ∷ rest) db = attempts rest (store_nonce_or_conflict a.id a.now a.node_id a.nonce db).1

attempts_keep :
    (node nonce : String) (t end : ℕ) (tries : List Attempt) (db : List Nonce)
    → end ≤ t + nonce_ttl_seconds * second
    → All (λ a. a.now ≤ end) tries
    → holds node nonce t db ≡ true
    → holds node nonce t (attempts tries db) ≡ true
unfolding attempts
attempts_keep node nonce t end [] db le b h = h
attempts_keep node nonce t end (a ∷ rest) db le b h =
    attempts_keep node nonce t end rest _ le b.1
      (store_keeps a.id t a.now node nonce a.node_id a.nonce db (omega arith) h)

-- Two times within a minute of one timestamp are less than an hour apart.
within_hour :
    (now later timestamp : ℕ)
    → skew now timestamp ≤ max_skew_seconds
    → skew later timestamp ≤ max_skew_seconds
    → later ≤ now + nonce_ttl_seconds * second
unfolding skew
within_hour now later timestamp a b = omega arith

module _ (p : Platform) where
  -- A request that passes the checks is at most a minute off.
  pub admit-skew :
      (m : Signed) (payload : String) (now : ℕ) (s : Server) (node : ActiveNode)
      → admit p m payload now s ≡ ok node
      → skew now m.timestamp ≤ max_skew_seconds
  unfolding admit verify_message
  admit-skew m payload now s node h = ground arith

  pub authenticate_stores :
      (id : String) (m : Signed) (payload : String) (now : ℕ) (s s1 : Server) (node : ActiveNode)
      → authenticate p id m payload now s ≡ (ok node, s1)
      → (admit p m payload now s ≡ ok node) × (holds m.node_id m.nonce now s1.nonces ≡ true)
  unfolding authenticate
  authenticate_stores id m payload now s s1 node h =
      (ground arith, ground (arith, store_stores id now m.node_id m.nonce s.nonces))

  authenticate_admits :
      (id : String) (m : Signed) (payload : String) (now : ℕ) (s : Server) (node : ActiveNode)
      → (authenticate p id m payload now s).0 ≡ ok node
      → admit p m payload now s ≡ ok node
  unfolding authenticate
  authenticate_admits id m payload now s node h = ground arith

  pub authenticate_jobs :
      (id : String) (m : Signed) (payload : String) (now : ℕ) (s : Server)
      → (authenticate p id m payload now s).1.jobs ≡ s.jobs
  unfolding authenticate
  authenticate_jobs id m payload now s = ground arith

  authenticate_refuses :
      (id : String) (m : Signed) (payload : String) (now : ℕ) (s : Server) (node : ActiveNode)
      → store_nonce_or_conflict id now m.node_id m.nonce s.nonces
        ≡ (err (http 409 "CONFLICT_REPLAY"), s.nonces)
      → (authenticate p id m payload now s).0 ≢ ok node
  unfolding authenticate
  authenticate_refuses id m payload now s node e h = ground arith

  -- The same node, nonce and timestamp, perhaps with another signature, payload or row identifier.
  abbrev pub Repeats : Signed → Signed → Type 0
  Repeats m n = (n.node_id ≡ m.node_id) × (n.nonce ≡ m.nonce) × (n.timestamp ≡ m.timestamp)

  -- Once a request has been accepted, no request with its node, nonce and timestamp is accepted
  -- again, at whatever time: in the meantime any requests may store their nonces, none of them later
  -- than the repeated one.
  pub replay_rejected :
      (id id' : String) (m n : Signed) (payload payload' : String) (now later : ℕ)
      (s s1 s2 : Server) (node node' : ActiveNode) (tries : List Attempt)
      → authenticate p id m payload now s ≡ (ok node, s1)
      → All (λ a. a.now ≤ later) tries
      → s2.nonces ≡ attempts tries s1.nonces
      → Repeats m n
      → (authenticate p id' n payload' later s2).0 ≢ ok node'
  replay_rejected id id' m n payload payload' now later s s1 s2 node node' tries h b e r k =
      let (a, held) = authenticate_stores id m payload now s s1 node h in
      let soon = within_hour now later m.timestamp (admit-skew m payload now s node a) (
        subst (λ t. skew later t ≤ max_skew_seconds) r.2
          (admit-skew n payload' later s2 node'
            (authenticate_admits id' n payload' later s2 node' k))) in
      let kept = attempts_keep m.node_id m.nonce now later tries s1.nonces soon b held in
      authenticate_refuses id' n payload' later s2 node'
        (store_refuses id' now later n.node_id n.nonce s2.nonces soon (rw (r.0, r.1, e) kept)) k
