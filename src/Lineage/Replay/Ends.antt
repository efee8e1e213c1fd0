-- ===== src/Lineage/Replay/Ends.antt =====
-- lineage/replay.py: a replay ends, with an entry for every leaf of the trace.
use trail_signal_os.Prelude.{
  ℕ, zero, suc, ◌+◌, ◌<◌, ◌≡◌, refl, ap, ◌∙◌, Bool, true, false, Option, some, List, [], ◌∷◌, ◌++◌,
  map, select, length, length-append, length-select, count_where, inl, inr, Bool-cases, arith,
}
use trail_signal_os.Guards.{ok}
use trail_signal_os.Lineage.Edges.{
  Kind, Kind.query_spec as query_spec_kind, Node, node_eq, LineageEdge,
}
use trail_signal_os.Lineage.Edges.Laws.{of_child}
use trail_signal_os.Lineage.Trace.{
  LineageDb, QuerySpec, TraceResult, has_node, resolve_root, trace_ancestors,
}
use trail_signal_os.Lineage.Trace.Walks.{unvisited, unvisited-visit}
use trail_signal_os.Lineage.Trace.Ends.{count_where-le-length}
use trail_signal_os.Lineage.Trace.Refines.{trace_ancestors_sound}
use trail_signal_os.Lineage.Replay.{
  Pin, QueuedPath, next_paths, find_pins, version_pins_for_leaf, ReplayQuerySpec, ReplayPlan,
  replay_specs, replay_lineage,
}

length-map {ℓ κ} :
    {A : Type ℓ} {B : Type κ} (f : A → B) (xs : List A) → length (map f xs) ≡ length xs
length-map f [] = refl
length-map f (x ∷ xs) = ap suc (length-map f xs)

length-next_paths :
    (edges : List LineageEdge) (q : QueuedPath)
    → length (next_paths edges q) ≡ count_where (of_child q.node) edges
length-next_paths edges q =
    length-map _ (select (of_child q.node) edges) ∙ length-select (of_child q.node) edges

find_pins_ends :
    (fuel : ℕ) (edges : List LineageEdge) (target : Node) (queue : List QueuedPath)
    (visited : List Node)
    → length queue + count_where (unvisited visited) edges < fuel
    → (pins : List Pin) × (find_pins fuel edges target queue visited ≡ some pins)
unfolding find_pins
find_pins_ends zero edges target queue visited enough = absurd (omega arith)
find_pins_ends (suc fuel) edges target [] visited enough = ([], refl)
find_pins_ends (suc fuel) edges target (q ∷ rest) visited enough =
    elim (Bool-cases (has_node q.node visited)) [
      | inl old ↦ rw (old, find_pins) (find_pins_ends fuel edges target rest visited (omega arith))
      | inr new ↦ elim (Bool-cases (node_eq q.node target)) [
        | inl found ↦ rw (new, found, find_pins) (q.path_pins, refl)
        | inr other ↦
            rw (new, other, find_pins)
              (find_pins_ends fuel edges target (rest ++ next_paths edges q) (q.node ∷ visited) (
                omega (
                  arith,
                  length-append rest (next_paths edges q),
                  length-next_paths edges q,
                  unvisited-visit q.node visited edges new,
                )))
      ]
    ]

pins_ends :
    (t : TraceResult) (id : ℕ) (pin_versions : Bool)
    → (pins : List Pin) × (version_pins_for_leaf t id pin_versions ≡ some pins)
unfolding version_pins_for_leaf
pins_ends t id true =
    find_pins_ends (suc (suc (length t.edges))) t.edges (record { kind = query_spec_kind; id = id })
      (record { node = t.root; path_pins = [] } ∷ []) []
      (omega (arith, count_where-le-length (unvisited []) t.edges))
pins_ends t id false = ([], refl)

abbrev pub specs_of : List ReplayQuerySpec → List QuerySpec
specs_of specs = map (λ (s : ReplayQuerySpec). s.query_spec) specs

replay_specs_ends :
    (t : TraceResult) (pin_versions : Bool) (leaves : List QuerySpec)
    → (specs : List ReplayQuerySpec) × (replay_specs t pin_versions leaves ≡ some specs)
      × (specs_of specs ≡ leaves)
replay_specs_ends t pin_versions [] = ([], refl, refl)
replay_specs_ends t pin_versions (leaf ∷ leaves) =
    let (pins, found) = pins_ends t leaf.query_spec_id pin_versions in
    let (specs, rest, same) = replay_specs_ends t pin_versions leaves in
    (
      record { query_spec = leaf; version_pins = pins } ∷ specs,
      rw (found, rest) refl,
      ap (λ l. leaf ∷ l) same,
    )

-- Where the root is resolved, a replay ends on every graph, with the entries of exactly the leaves
-- of the root's trace, in their order, and with the edges of this trace.
pub replay_lineage_ends :
    (db : LineageDb) (artifact_id : ℕ) (kind : Option Kind) (pin_versions : Bool) {root : Node}
    → resolve_root db artifact_id kind ≡ ok root
    → (t : TraceResult) × (plan : ReplayPlan) × (trace_ancestors db root ≡ some t)
      × (replay_lineage db artifact_id kind pin_versions ≡ ok (some plan))
      × (specs_of plan.query_specs ≡ t.query_spec_leaves)
      × (plan.trace_edges ≡ t.edges)
unfolding replay_lineage
replay_lineage_ends db artifact_id kind pin_versions {root} resolved =
    let (t, run, _, _) = trace_ancestors_sound db root in
    let (specs, done, same) = replay_specs_ends t pin_versions t.query_spec_leaves in
    (
      t,
      record {
        root = t.root;
        pin_versions = pin_versions;
        query_specs = specs;
        trace_edges = t.edges;
      },
      run,
      rw (resolved, run, done) refl,
      same,
      refl,
    )
