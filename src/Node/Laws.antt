-- ===== src/Node/Laws.antt =====
-- What a registration can and cannot do to the `node` table.
use certman.Base.{
  ℕ, String, ◌≡◌, ◌≢◌, refl, true, false, Option, none, some, List, ◌==◌, ◌∙◌, ap, ◌↔◌,
  Option-cases, Bool-cases, inl, inr, strip, strip_idem, or_empty, Result, ok, err, arith, eq_iff,
  str_refl,
}
use certman.Node.Table.{
  Node, find_node, store_node, find_node-id, find_node-store_self, find_node-store_ne,
  find_node-append,
}
use certman.Node.Register.{
  RegisterResult, Registration, RegisterError, other_key, same_public_key, refreshed, taken_over,
  new_node, create_node, existing_node, register_node,
}

refreshed-id : (r : Registration) (now : ℕ) (n : Node) → (refreshed r now n).node_id ≡ n.node_id
unfolding refreshed
refreshed-id r now n = ground arith

refreshed-key :
    (r : Registration) (now : ℕ) (n : Node) → (refreshed r now n).public_key ≡ n.public_key
unfolding refreshed
refreshed-key r now n = ground arith

refreshed-status : (r : Registration) (now : ℕ) (n : Node) → (refreshed r now n).status ≡ "active"
unfolding refreshed
refreshed-status r now n = ground (arith, eq_iff n.status "active")

new_node-id : (r : Registration) (now : ℕ) → (new_node r now).node_id ≡ r.node_id
unfolding new_node
new_node-id r now = refl

new_node-status : (r : Registration) (now : ℕ) → (new_node r now).status ≡ "active"
unfolding new_node
new_node-status r now = refl

new_node-key :
    (r : Registration) (now : ℕ) → (new_node r now).public_key ≡ some (strip r.public_key)
unfolding new_node
new_node-key r now = refl

taken_over-id : (r : Registration) (now : ℕ) (n : Node) → (taken_over r now n).node_id ≡ n.node_id
unfolding taken_over
taken_over-id r now n = refl

taken_over-status : (r : Registration) (now : ℕ) (n : Node) → (taken_over r now n).status ≡ "active"
unfolding taken_over
taken_over-status r now n = refl

taken_over-key :
    (r : Registration) (now : ℕ) (n : Node)
    → (taken_over r now n).public_key ≡ some (strip r.public_key)
unfolding taken_over
taken_over-key r now n = refl

same_key-eq :
    (r : Registration) (n : Node)
    → same_public_key r n ≡ true
    → strip (or_empty n.public_key) ≡ strip r.public_key
unfolding same_public_key
same_key-eq r n h = (eq_iff _ _).0 h

find_node-stored :
    (m n : Node) (id : String) (db : List Node)
    → find_node id db ≡ some n
    → m.node_id ≡ n.node_id
    → find_node id (store_node m db) ≡ some m
find_node-stored m n id db e i =
    let p : m.node_id ≡ id = i ∙ find_node-id id db n e in
    rw (← p) (find_node-store_self m db (λ h. ground arith))

find_node-stored_ne :
    (m n : Node) (id other : String) (db : List Node)
    → find_node id db ≡ some n
    → m.node_id ≡ n.node_id
    → (id == other) ≡ false
    → find_node other (store_node m db) ≡ find_node other db
find_node-stored_ne m n id other db e i ne =
    let p : m.node_id ≡ id = i ∙ find_node-id id db n e in find_node-store_ne m other db (rw p ne)

existing_elsewhere :
    (r : Registration) (now : ℕ) (db : List Node) (n : Node) (id : String)
    → find_node r.node_id db ≡ some n
    → (r.node_id == id) ≡ false
    → find_node id (existing_node r now n db).1 ≡ find_node id db
unfolding existing_node taken_over
existing_elsewhere r now db n id e ne = ground (
  arith,
  find_node-stored_ne (refreshed r now n) n r.node_id id db e (refreshed-id r now n) ne,
  find_node-stored_ne (taken_over r now n) n r.node_id id db e refl ne,
)

create_elsewhere :
    (r : Registration) (now : ℕ) (db : List Node) (id : String)
    → (r.node_id == id) ≡ false
    → find_node id (create_node r now db).1 ≡ find_node id db
unfolding create_node
create_elsewhere r now db id ne = ground (
  arith,
  find_node-append id db (new_node r now),
  Option-cases (find_node r.node_id db),
  Option-cases (find_node id db),
)

module _ (race : List Node → List Node) (r : Registration) (now : ℕ) where
  -- A registration touches no other node: a lookup of another identifier gives what it gives in the
  -- table that the registration started from, or in the one left by the other sessions when the node
  -- was not there.
  pub register_elsewhere :
      (db : List Node) (id : String)
      → (r.node_id == id) ≡ false
      → find_node id (register_node race r now db).1
        ≡ elim (find_node r.node_id db) [ none ↦ find_node id (race db) | some _ ↦ find_node id db ]
  unfolding register_node
  register_elsewhere db id ne = elim (Option-cases (find_node r.node_id db)) [
    | inl e ↦ rw (e, register_node) (create_elsewhere r now (race db) id ne)
    | inr (n, e) ↦ rw (e, register_node) (existing_elsewhere r now db n id e ne)
  ]

  -- The table that the registration writes: the one it was given, or, when the node was not there, the
  -- one that the other sessions have left.
  abbrev pub met : List Node → List Node
  met db = elim (find_node r.node_id db) [ none ↦ race db | some _ ↦ db ]

-- a registration that no other session runs into
abbrev pub register_alone :
    Registration → ℕ → List Node → Result RegisterError RegisterResult × List Node
register_alone r now db = register_node (λ t. t) r now db

-- The node of the registration is active under the submitted key, up to surrounding space.
abbrev pub IsRegistered : Registration → List Node → Type 0
IsRegistered r db =
    (m : Node) × (find_node r.node_id db ≡ some m)
    × (m.status ≡ "active")
    × (strip (or_empty m.public_key) ≡ strip r.public_key)

created_sound :
    (r : Registration) (now : ℕ) (db : List Node)
    → find_node r.node_id db ≡ none
    → IsRegistered r (create_node r now db).1
unfolding create_node
created_sound r now db e = (
  new_node r now,
  ground (
    arith,
    find_node-append r.node_id db (new_node r now),
    str_refl r.node_id,
    new_node-id r now,
  ),
  new_node-status r now,
  ap strip (ap or_empty (new_node-key r now)) ∙ strip_idem r.public_key,
)

existing_sound :
    (r : Registration) (now : ℕ) (db : List Node) (n : Node) (out : RegisterResult)
    → find_node r.node_id db ≡ some n
    → (existing_node r now n db).0 ≡ ok out
    → IsRegistered r (existing_node r now n db).1
unfolding existing_node
existing_sound r now db n out e h = elim (Bool-cases (same_public_key r n)) [
  | inl same ↦ (
    refreshed r now n,
    ground (arith, find_node-stored (refreshed r now n) n r.node_id db e (refreshed-id r now n)),
    refreshed-status r now n,
    ap (λ k. strip (or_empty k)) (refreshed-key r now n) ∙ same_key-eq r n same,
  )
  | inr other ↦ (
    taken_over r now n,
    ground (arith, find_node-stored (taken_over r now n) n r.node_id db e (taken_over-id r now n)),
    taken_over-status r now n,
    ap strip (ap or_empty (taken_over-key r now n)) ∙ strip_idem r.public_key,
  )
]

-- A registration that succeeds, with no other session in between, leaves the node active under the
-- submitted key, up to surrounding space.
pub register_sound :
    (r : Registration) (now : ℕ) (db : List Node) (out : RegisterResult)
    → (register_alone r now db).0 ≡ ok out
    → IsRegistered r (register_alone r now db).1
unfolding register_node
register_sound r now db out h = elim (Option-cases (find_node r.node_id db)) [
  | inl e ↦ rw (e, register_node) (created_sound r now db e)
  | inr (n, e) ↦
      rw (e, register_node) (existing_sound r now db n out e (rw (e, register_node) at h))
]

-- A registration, with no other session in between, is refused exactly when the node is active under
-- another key, up to surrounding space.
pub register_refused :
    (r : Registration) (now : ℕ) (db : List Node)
    → ((register_alone r now db).0 ≡ err other_key) ↔ (
        (n : Node) × (find_node r.node_id db ≡ some n)
        × (n.status ≡ "active")
        × (strip (or_empty n.public_key) ≢ strip r.public_key))
unfolding register_node existing_node create_node same_public_key
register_refused r now db = (
  λ h. elim (Option-cases (find_node r.node_id db)) [
    | inl e ↦ absurd (ground arith)
    | inr (n, e) ↦ (
      n,
      e,
      ground (arith, eq_iff n.status "active"),
      λ q. ground (arith, eq_iff (strip (or_empty n.public_key)) (strip r.public_key)),
    )
  ],
  λ (n, e, a, q). ground (
    arith,
    eq_iff n.status "active",
    eq_iff (strip (or_empty n.public_key)) (strip r.public_key),
  ),
)
