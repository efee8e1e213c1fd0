-- ===== src/Graph/Guard8.antt =====
-- guards/schema_guards.py, `guard8_validate_workflow`.
use trail_signal_os.Prelude.{Bool, false, not, ◌&&◌, List, [], ◌∷◌, if◌then◌else◌, any}
use trail_signal_os.Guards.{
  Result, ok, err, ◌>>=◌, ◌>>◌, guard_violation, attribute_error, type_error,
}
use trail_signal_os.Graph.Texts.{codes}
use trail_signal_os.Graph.Values.{
  Value, mapping, Fields, get, truthy, is_text, is_none, is_hashable, same_id,
}

-- `v.get`, of a value that need not be a mapping.
abbrev pub attributes : Value → Result Fields
attributes (mapping fs) = ok fs
attributes _ = err attribute_error

abbrev pub hashed : Value → Result Value
hashed v = if is_hashable v then ok v else err type_error

-- `{node.get("id") for node in nodes}`
abbrev pub collect_ids : List Value → Result (List Value)
collect_ids [] = ok []
collect_ids (v ∷ vs) = do
  node ← attributes v
  id ← hashed (get (codes "id") node)
  rest ← collect_ids vs
  ok (id ∷ rest)

abbrev pub check_node : Fields → Result (Unit {0})
check_node node =
    if is_text (codes "llm") (get (codes "kind") node) && not (truthy (get (codes "verifier") node))
    then err guard_violation
    else ok tt

abbrev pub check_nodes : List Value → Result (Unit {0})
check_nodes [] = ok tt
check_nodes (v ∷ vs) = do node ← attributes v; check_node node; check_nodes vs

-- `x in node_ids`
abbrev pub in_ids : Value → List Value → Result Bool
in_ids v ids = do id ← hashed v; ok (any (same_id id) ids)

abbrev pub check_edge : List Value → Fields → Result (Unit {0})
check_edge ids edge =
    if not (is_text (codes "back") (get (codes "edge_type") edge)) then ok tt else do
      from_known ← in_ids (get (codes "from") edge) ids
      to_known ← if from_known then in_ids (get (codes "to") edge) ids else ok false
      if to_known && is_none (get (codes "max_trips") edge) then err guard_violation else ok tt

abbrev pub check_edges : List Value → List Value → Result (Unit {0})
check_edges ids [] = ok tt
check_edges ids (v ∷ vs) = do edge ← attributes v; check_edge ids edge; check_edges ids vs

unfoldable pub guard8_validate_workflow : List Value → List Value → Result (Unit {0})
guard8_validate_workflow nodes edges = do
  ids ← collect_ids nodes
  check_nodes nodes
  check_edges ids edges
