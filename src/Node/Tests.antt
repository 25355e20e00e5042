-- ===== src/Node/Tests.antt =====
-- Registrations on small tables, and the theorems at these inputs.
use certman.Base.{◌≡◌, refl, true, false, none, some, List, [], ◌∷◌, ok, err, strip}
use certman.Node.Table.{Node, store_node}
use certman.Node.Register.{Registration, other_key, register_node, new_node}
use certman.Node.Laws.{IsRegistered, register_alone, register_sound}

abbrev edge : Registration
edge = record {
  node_id = "edge";
  node_type = "agent";
  public_key = "KEY-1\n";
  encryption_public_key = some " ENC ";
}

abbrev intruder : Registration
intruder = record edge { public_key = "KEY-2" }

abbrev edge_node : Node
edge_node = record {
  node_id = "edge";
  node_type = "agent";
  public_key = some "KEY-1";
  encryption_public_key = some "ENC";
  status = "active";
  last_seen = none;
  last_seen_updated_at = none;
  created_at = 7;
  updated_at = 7;
}

first_registration :
    register_alone edge 7 []
    ≡ (ok (record { node_id = "edge"; status = "active"; created = true }), edge_node ∷ [])
unfolding register_node new_node strip
first_registration = refl

repeated_registration :
    register_alone edge 9 (edge_node ∷ [])
    ≡ (ok (record { node_id = "edge"; status = "active"; created = false }), edge_node ∷ [])
unfolding register_node store_node strip
repeated_registration = refl

-- Another session registered the node under another key between the query and the commit.
lost_race : register_node (λ _. edge_node ∷ []) intruder 9 [] ≡ (err other_key, edge_node ∷ [])
unfolding register_node strip
lost_race = refl

-- another session registers the node first
abbrev overtaken : List Node → List Node
overtaken db = edge_node ∷ db

register_sound_example : IsRegistered edge (register_alone edge 7 []).1
unfolding register_node new_node strip
register_sound_example =
    register_sound edge 7 [] (record { node_id = "edge"; status = "active"; created = true }) refl
