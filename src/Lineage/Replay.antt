-- ===== src/Lineage/Replay.antt =====
-- lineage/replay.py. Its `while` runs on fuel. A pin is a version tag under the pair of the child
-- and the parent, where the source joins the two into a text.
pub mod Ends
use trail_signal_os.Prelude.{
  ℕ, zero, suc, Bool, true, false, ◌&&◌, Option, none, some, List, [], ◌∷◌, ◌++◌, if◌then◌else◌,
  select, map, length,
}
use trail_signal_os.Guards.{Result, ok, err}
use trail_signal_os.Lineage.Edges.{
  Kind, Kind.query_spec as query_spec_kind, Node, node_eq, LineageEdge,
}
use trail_signal_os.Lineage.Trace.{
  LineageDb, QuerySpec, TraceResult, has_node, resolve_root, trace_ancestors,
}

pub record Pin : Type 0 where
  pub child : Node
  pub parent : Node
  pub version_tag : Option ℕ

-- `next_pins[rel] = version_tag`
abbrev pub put_pin : Pin → List Pin → List Pin
put_pin p [] = p ∷ []
put_pin p (q ∷ qs) =
    let rest = put_pin p qs in
    if node_eq p.child q.child && node_eq p.parent q.parent then p ∷ qs else q ∷ rest

pub record QueuedPath : Type 0 where
  pub node : Node
  pub path_pins : List Pin

-- `child_to_parent.get(current, [])`, each with the pins of the path to it.
abbrev pub next_paths : List LineageEdge → QueuedPath → List QueuedPath
next_paths edges q =
    map
      (λ (e : LineageEdge). record {
        node = e.parent;
        path_pins =
            put_pin (record { child = q.node; parent = e.parent; version_tag = e.version_tag })
              q.path_pins;
      })
      (select (λ (e : LineageEdge). node_eq e.child q.node) edges)

-- `none` means that the fuel ran out.
unfoldable pub find_pins :
    ℕ → List LineageEdge → Node → List QueuedPath → List Node → Option (List Pin)
find_pins zero edges target queue visited = none
find_pins (suc fuel) edges target [] visited = some []
find_pins (suc fuel) edges target (q ∷ rest) visited = elim (has_node q.node visited) [
  | true ↦ find_pins fuel edges target rest visited
  | false ↦ elim (node_eq q.node target) [
    | true ↦ some q.path_pins
    | false ↦ find_pins fuel edges target (rest ++ next_paths edges q) (q.node ∷ visited)
  ]
]

unfoldable pub version_pins_for_leaf : TraceResult → ℕ → Bool → Option (List Pin)
unfolding find_pins
version_pins_for_leaf t query_spec_id pin_versions =
    if pin_versions
    then find_pins (suc (suc (length t.edges))) t.edges
        (record { kind = query_spec_kind; id = query_spec_id })
        (record { node = t.root; path_pins = [] } ∷ []) []
    else some []

pub record ReplayQuerySpec : Type 0 where
  pub query_spec : QuerySpec
  pub version_pins : List Pin

pub record ReplayPlan : Type 0 where
  pub root : Node
  pub pin_versions : Bool
  pub query_specs : List ReplayQuerySpec
  pub trace_edges : List LineageEdge

abbrev pub add_spec :
    QuerySpec → Option (List Pin) → Option (List ReplayQuerySpec) → Option (List ReplayQuerySpec)
add_spec leaf (some pins) (some specs) =
    some (record { query_spec = leaf; version_pins = pins } ∷ specs)
add_spec leaf _ _ = none

-- The loop over the leaves.
abbrev pub replay_specs : TraceResult → Bool → List QuerySpec → Option (List ReplayQuerySpec)
replay_specs t pin_versions [] = some []
replay_specs t pin_versions (leaf ∷ leaves) =
    add_spec leaf (version_pins_for_leaf t leaf.query_spec_id pin_versions)
      (replay_specs t pin_versions leaves)

abbrev pub plan_of : TraceResult → Bool → Option (List ReplayQuerySpec) → Option ReplayPlan
plan_of t pin_versions none = none
plan_of t pin_versions (some specs) = some (record {
  root = t.root;
  pin_versions = pin_versions;
  query_specs = specs;
  trace_edges = t.edges;
})

abbrev pub plan_trace : Bool → Option TraceResult → Option ReplayPlan
plan_trace pin_versions none = none
plan_trace pin_versions (some t) =
    plan_of t pin_versions (replay_specs t pin_versions t.query_spec_leaves)

abbrev pub plan_root : LineageDb → Bool → Result Node → Result (Option ReplayPlan)
plan_root db pin_versions (err e) = err e
plan_root db pin_versions (ok root) = ok (plan_trace pin_versions (trace_ancestors db root))

unfoldable pub replay_lineage : LineageDb → ℕ → Option Kind → Bool → Result (Option ReplayPlan)
replay_lineage db artifact_id kind pin_versions =
    plan_root db pin_versions (resolve_root db artifact_id kind)
