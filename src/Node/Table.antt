-- ===== src/Node/Table.antt =====
-- The `node` table of certman/db/models.py.
use certman.Base.{
  ℕ, String, ◌≡◌, ◌≢◌, refl, false, Option, none, some, List, [], ◌∷◌, ◌++◌, ◌==◌, find?,
  if◌then◌else◌, arith, eq_iff, str_refl, Bool-cases, inl, inr,
}

pub record Node : Type 0 where
  pub node_id : String
  pub node_type : String
  pub public_key : Option String
  pub encryption_public_key : Option String
  pub status : String
  pub last_seen : Option ℕ
  pub last_seen_updated_at : Option ℕ
  pub created_at : ℕ
  pub updated_at : ℕ

-- session.query(NodeORM).filter(NodeORM.node_id == node_id).first()
abbrev pub find_node : String → List Node → Option Node
find_node id = find? (λ n. n.node_id == id)

-- UPDATE of the row with the primary key of `n`
unfoldable pub store_node : Node → List Node → List Node
store_node n [] = []
store_node n (m ∷ ms) = (if m.node_id == n.node_id then n else m) ∷ store_node n ms

pub find_node-id :
    (id : String) (db : List Node) (n : Node) → find_node id db ≡ some n → n.node_id ≡ id
find_node-id id [] n h = ground arith
find_node-id id (m ∷ ms) n h = ground (arith, find_node-id id ms n, eq_iff m.node_id id)

pub find_node-store_self :
    (n : Node) (db : List Node)
    → find_node n.node_id db ≢ none
    → find_node n.node_id (store_node n db) ≡ some n
unfolding store_node
find_node-store_self n [] h = absurd (h refl)
find_node-store_self n (m ∷ ms) h =
    ground (arith, find_node-store_self n ms, str_refl n.node_id, eq_iff m.node_id n.node_id)

pub find_node-store_ne :
    (n : Node) (id : String) (db : List Node)
    → (n.node_id == id) ≡ false
    → find_node id (store_node n db) ≡ find_node id db
unfolding store_node
find_node-store_ne n id [] h = refl
find_node-store_ne n id (m ∷ ms) h = ground (
  arith,
  find_node-store_ne n id ms h,
  eq_iff m.node_id n.node_id,
  eq_iff m.node_id id,
  eq_iff n.node_id id,
)

-- A row at the end is found if no row before it has its identifier.
pub find_node-append :
    (id : String) (db : List Node) (n : Node)
    → find_node id (db ++ n ∷ [])
      ≡ elim (find_node id db) [ none ↦ if n.node_id == id then some n else none | some m ↦ some m ]
find_node-append id [] n = refl
find_node-append id (m ∷ ms) n = elim (Bool-cases (m.node_id == id)) [
  | inl e ↦ rw e refl
  | inr e ↦ rw e (find_node-append id ms n)
]
