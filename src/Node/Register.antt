-- ===== src/Node/Register.antt =====
-- certman/services/node_service.py: `NodeService.register_node` on the `node` table.
use certman.Base.{
  ℕ, String, Bool, true, false, Option, none, some, List, [], ◌∷◌, ◌++◌, ◌==◌, not, ◌||◌, is_none,
  if◌then◌else◌, strip, truthy_opt, or_empty, Exec, ok, err,
}
use certman.Node.Table.{Node, find_node, store_node}

pub record RegisterResult : Type 0 where
  pub node_id : String
  pub status : String
  pub created : Bool

pub data RegisterError : Type 0 where
  -- ValueError: node already registered with another key
  other_key : RegisterError
  -- the IntegrityError of the commit, raised again
  integrity_error : RegisterError

pub record Registration : Type 0 where
  pub node_id : String
  pub node_type : String
  pub public_key : String
  pub encryption_public_key : Option String

-- `encryption_public_key.strip() if encryption_public_key else None`
unfoldable pub normalized_enc_key : Option String → Option String
normalized_enc_key none = none
normalized_enc_key (some k) = if truthy_opt (some k) then some (strip k) else none

-- the row of a node that was not there
unfoldable pub new_node : Registration → ℕ → Node
unfolding normalized_enc_key
new_node r now = record {
  node_id = r.node_id;
  node_type = r.node_type;
  public_key = some (strip r.public_key);
  encryption_public_key = normalized_enc_key r.encryption_public_key;
  status = "active";
  last_seen = none;
  last_seen_updated_at = none;
  created_at = now;
  updated_at = now;
}

-- `(existing.public_key or "").strip() == normalized_key`
unfoldable pub same_public_key : Registration → Node → Bool
same_public_key r n = strip (or_empty n.public_key) == strip r.public_key

unfoldable pub answer : Registration → String → Bool → RegisterResult
answer r status created = record { node_id = r.node_id; status = status; created = created }

-- `normalized_enc_key is not None and (existing.encryption_public_key or "").strip() != …`
unfoldable pub enc_changed : Option String → Node → Bool
enc_changed none n = false
enc_changed (some k) n = not (strip (or_empty n.encryption_public_key) == k)

-- after the rollback of a lost race: the row that the other session committed
unfoldable pub after_race :
    Registration → Option Node → Exec (List Node) RegisterError RegisterResult
unfolding same_public_key answer
after_race r none db = (err integrity_error, db)
after_race r (some existing) db =
    if same_public_key r existing
    then (ok (answer r existing.status false), db)
    else (err other_key, db)

-- `db` is the table at the commit, which another session may have written since the query
unfoldable pub create_node : Registration → ℕ → Exec (List Node) RegisterError RegisterResult
unfolding new_node after_race
create_node r now db = elim (find_node r.node_id db) [
  | none ↦ (ok (answer r "active" true), db ++ new_node r now ∷ [])
  | some existing ↦ after_race r (some existing) db
]

-- the row after a registration with the key that it has
unfoldable pub refreshed : Registration → ℕ → Node → Node
unfolding normalized_enc_key enc_changed
refreshed r now n =
    let enc = normalized_enc_key r.encryption_public_key in
    let changed = not (n.status == "active") || not (n.node_type == r.node_type) in
    let newer = enc_changed enc n in
    if changed || newer
    then record n {
      status = "active";
      node_type = r.node_type;
      encryption_public_key = if newer then enc else n.encryption_public_key;
      updated_at = now;
    }
    else n

-- the row after a registration with a new key, over a node that is not active
unfoldable pub taken_over : Registration → ℕ → Node → Node
unfolding normalized_enc_key
taken_over r now n =
    let enc = normalized_enc_key r.encryption_public_key in
    record n {
      public_key = some (strip r.public_key);
      node_type = r.node_type;
      status = "active";
      encryption_public_key = if is_none enc then n.encryption_public_key else enc;
      updated_at = now;
    }

unfoldable pub existing_node :
    Registration → ℕ → Node → Exec (List Node) RegisterError RegisterResult
unfolding same_public_key answer refreshed taken_over
existing_node r now n db =
    if same_public_key r n
    then (ok (answer r "active" false), store_node (refreshed r now n) db)
    else if n.status == "active"
    then (err other_key, db)
    else (ok (answer r "active" false), store_node (taken_over r now n) db)

-- `race` is what other sessions commit between the query and the INSERT.
unfoldable pub register_node :
    (List Node → List Node) → Registration → ℕ → Exec (List Node) RegisterError RegisterResult
unfolding create_node existing_node
register_node race r now db = elim (find_node r.node_id db) [
  | none ↦ create_node r now (race db)
  | some n ↦ existing_node r now n db
]
