-- ===== src/Agent/Auth.antt =====
-- The checks that every signed endpoint makes first: the node, the signature, the nonce, and the
-- time that the node was last seen.
use certman.Base.{
  ℕ, ◌+◌, ◌-◌, ◌*◌, String, ◌<>◌, Bool, true, false, Option, none, some, List, [], ◌∷◌, ◌++◌, ◌==◌,
  ◌&&◌, ◌||◌, not, ltb, if◌then◌else◌, any, filter, truthy_opt, or_empty, Result, Exec, ok, err,
  ◌>>=◌, ◌>>◌, pure,
}
use certman.Node.Table.{Node, find_node, store_node}
use certman.Agent.Platform.{Platform}
use certman.Agent.State.{Nonce, Server, Failure, http, crash, second, seconds}

pub record ActiveNode : Type 0 where
  pub node_id : String
  pub public_key_pem : String
  pub encryption_public_key_pem : Option String

-- the fields of a signed request
pub record Signed : Type 0 where
  pub node_id : String
  pub timestamp : ℕ
  pub nonce : String
  pub signature : String

-- security/signing.py: SecurityError
pub data SecurityError : Type 0 where
  outside_skew invalid_signature : SecurityError

abbrev pub max_skew_seconds : ℕ
max_skew_seconds = 60

abbrev pub nonce_ttl_seconds : ℕ
nonce_ttl_seconds = 3600

unfoldable pub approve : Node → Result Failure ActiveNode
approve n =
    if not (truthy_opt n.public_key)
    then err (http 401 "AUTH_NODE_NOT_APPROVED")
    else if n.status == "disabled"
    then err (http 403 "AUTH_NODE_DISABLED")
    else if not (n.status == "active")
    then err (http 401 "AUTH_NODE_NOT_APPROVED")
    else ok (record {
      node_id = n.node_id;
      public_key_pem = or_empty n.public_key;
      encryption_public_key_pem = n.encryption_public_key;
    })

unfoldable pub get_active_node : String → Server → Result Failure ActiveNode
unfolding approve
get_active_node id s = elim (find_node id s.nodes) [
  | none ↦ err (http 401 "AUTH_NODE_NOT_APPROVED")
  | some n ↦ approve n
]

-- `abs(int(now.timestamp()) - timestamp)`
unfoldable pub skew : ℕ → ℕ → ℕ
skew now timestamp = (seconds now - timestamp) + (timestamp - seconds now)

unfoldable pub is_expired : ℕ → Nonce → Bool
is_expired now n = ltb n.created_at (now - nonce_ttl_seconds * second)

-- the unique constraint on node and nonce, and the primary key
unfoldable pub nonce_clashes : Nonce → Nonce → Bool
nonce_clashes m n = m.id == n.id || (m.node_id == n.node_id && m.nonce == n.nonce)

-- A conflict rolls back the deletion of the expired rows too.
unfoldable pub store_nonce_or_conflict :
    String → ℕ → String → String → Exec (List Nonce) Failure (Unit {0})
unfolding is_expired nonce_clashes
store_nonce_or_conflict id now node_id nonce db =
    let n : Nonce = record { id = id; node_id = node_id; nonce = nonce; created_at = now } in
    let kept = filter (λ m. not (is_expired now m)) db in
    if any (nonce_clashes n) kept
    then (err (http 409 "CONFLICT_REPLAY"), db)
    else (ok tt, kept ++ n ∷ [])

abbrev pub throttle_window_seconds : ℕ
throttle_window_seconds = 45

unfoldable pub seen : ℕ → Node → Node
seen now n = record n { last_seen = some now; last_seen_updated_at = some now; updated_at = now }

unfoldable pub is_throttled : ℕ → Option ℕ → Bool
is_throttled now none = false
is_throttled now (some last) = ltb (now - last) (throttle_window_seconds * second)

unfoldable pub touch_node_last_seen : ℕ → String → List Node → List Node
unfolding seen is_throttled
touch_node_last_seen now id db = elim (find_node id db) [
  | none ↦ db
  | some n ↦ if is_throttled now n.last_seen_updated_at then db else store_node (seen now n) db
]

abbrev pub nonce_result :
    Server → Result Failure (Unit {0}) × List Nonce → Result Failure (Unit {0}) × Server
nonce_result s (r, db) = (r, record s { nonces = db })

module _ (p : Platform) where
  -- security/signing.py: _canonical_message
  unfoldable pub canonical_message : String → ℕ → String → String → String
  canonical_message node_id timestamp nonce payload =
      "{\"node_id\":"
      <> p.quote node_id
      <> ",\"nonce\":"
      <> p.quote nonce
      <> ",\"payload_hash\":"
      <> p.quote (p.sha256 payload)
      <> ",\"timestamp\":"
      <> p.decimal timestamp
      <> "}"

  unfoldable pub verify_message : String → Signed → String → ℕ → Result SecurityError Bool
  unfolding skew canonical_message
  verify_message public_key m payload now =
      if ltb max_skew_seconds (skew now m.timestamp)
      then err outside_skew
      else if p.verifies public_key m.signature
          (canonical_message m.node_id m.timestamp m.nonce payload)
      then ok true
      else err invalid_signature

  -- the checks before the nonce is stored
  unfoldable pub admit : Signed → String → ℕ → Server → Result Failure ActiveNode
  unfolding get_active_node verify_message
  admit m payload now s = elim (get_active_node m.node_id s) [
    | err e ↦ err e
    | ok node ↦
        if p.loads_pem node.public_key_pem
        then elim (verify_message node.public_key_pem m payload now) [
          | err _ ↦ err (http 401 "AUTH_INVALID_SIGNATURE")
          | ok _ ↦ ok node
        ]
        else err crash
  ]

  -- The opening of every signed endpoint. `id` is the identifier of the new nonce row.
  unfoldable pub authenticate : String → Signed → String → ℕ → Exec Server Failure ActiveNode
  unfolding admit store_nonce_or_conflict touch_node_last_seen
  authenticate id m payload now = do
    node ← λ s. (admit m payload now s, s)
    (λ s. nonce_result s (store_nonce_or_conflict id now m.node_id m.nonce s.nonces))
    (λ s. (ok tt, record s { nodes = touch_node_last_seen now m.node_id s.nodes }))
    pure node
