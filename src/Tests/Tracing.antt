-- ===== src/Tests/Tracing.antt =====
-- A page that a task made from a query spec, in a graph with a cycle.
use trail_signal_os.Prelude.{
  refl, ℕ, ◌≤◌, ◌≡◌, true, none, some, [], ◌∷◌, Memᴰ, All, any, count_where, ◌==◌, arith,
}
use trail_signal_os.Lineage.Edges.{Node, query_spec, task, versioned, LineageEdge}
use trail_signal_os.Lineage.Edges.Laws.{of_child}
use trail_signal_os.Guards.{ok}
use trail_signal_os.Lineage.Trace.{resolve_root}
use trail_signal_os.Lineage.Replay.{ReplayPlan, replay_lineage}
use trail_signal_os.Lineage.Replay.Ends.{specs_of, replay_lineage_ends}
use trail_signal_os.Lineage.Diff.{LineageDiff, diff_lineage}
use trail_signal_os.Lineage.Diff.Ancestry.{diff_lineage_lem}
use trail_signal_os.Prelude.{◌↔◌}
use trail_signal_os.Lineage.Trace.{
  has_node, LineageDb, QuerySpec, TraceResult, has_spec, trace_ancestors,
}
use trail_signal_os.Lineage.Trace.Ends.{count_where-le-length}
use trail_signal_os.Lineage.Trace.Ancestors.{IsAncestor}
use trail_signal_os.Lineage.Trace.Complete.{is_collected}
use trail_signal_os.Lineage.Trace.Refines.{
  is_listed, trace_ancestors_sound, trace_ancestors_complete,
}

abbrev pub page : Node
page = record { kind = versioned 1; id = 1 }

abbrev pub fetch : Node
fetch = record { kind = task; id = 2 }

abbrev spec : Node
spec = record { kind = query_spec; id = 3 }

abbrev edge : Node → Node → LineageEdge
edge child parent = record {
  child = child;
  parent = parent;
  relation = 0;
  version_tag = none;
  created_at = 10;
}

abbrev pub graph : LineageDb
graph = record {
  edges = edge page fetch ∷ edge fetch spec ∷ edge spec page ∷ [];
  artifacts = [];
  query_specs =
      record { query_spec_id = 3; job_id = 7; text = 0; engine = 0; params = 0; created_at = 5 }
      ∷ [];
  tasks = [];
}

trace_ancestors_sound_example :
    (r : TraceResult) × (trace_ancestors graph page ≡ some r)
    × ((n : Node) → is_listed n r.nodes ≡ true → IsAncestor graph.edges page n)
    × All (λ (e : LineageEdge). Memᴰ e graph.edges × IsAncestor graph.edges page e.child) r.edges
trace_ancestors_sound_example = trace_ancestors_sound graph page

few_parents : (n : Node) → count_where (of_child n) graph.edges ≤ 500
few_parents n = omega (arith, count_where-le-length (of_child n) graph.edges)

trace_ancestors_complete_example :
    (r : TraceResult) × (trace_ancestors graph page ≡ some r)
    × ((n : Node) → IsAncestor graph.edges page n → is_listed n r.nodes ≡ true)
    × ((e : LineageEdge)
        → Memᴰ e graph.edges
        → IsAncestor graph.edges page e.child
        → is_collected e.child e.parent r.edges ≡ true)
    × ((i : ℕ)
        → IsAncestor graph.edges page (record { kind = query_spec; id = i })
        → any (λ (s : QuerySpec). s.query_spec_id == i) r.query_spec_leaves ≡ has_spec graph i)
    × All
        (λ (s : QuerySpec).
          Memᴰ s graph.query_specs
          × IsAncestor graph.edges page (record { kind = query_spec; id = s.query_spec_id }))
        r.query_spec_leaves
trace_ancestors_complete_example = trace_ancestors_complete graph page few_parents

diff_lineage_lem_example :
    (d : LineageDiff) × (diff_lineage graph page spec ≡ some d)
    × ((n : Node)
        → ((has_node n d.nodes_only_left ≡ true)
            ↔ (IsAncestor graph.edges page n × (¬ IsAncestor graph.edges spec n)))
          × ((has_node n d.nodes_only_right ≡ true)
              ↔ (IsAncestor graph.edges spec n × (¬ IsAncestor graph.edges page n)))
          × ((has_node n d.shared_nodes ≡ true)
              ↔ (IsAncestor graph.edges page n × IsAncestor graph.edges spec n)))
diff_lineage_lem_example = diff_lineage_lem graph page spec few_parents

replay_lineage_ends_example :
    (t : TraceResult) × (plan : ReplayPlan) × (trace_ancestors graph page ≡ some t)
    × (replay_lineage graph 1 (some (versioned 1)) true ≡ ok (some plan))
    × (specs_of plan.query_specs ≡ t.query_spec_leaves)
    × (plan.trace_edges ≡ t.edges)
unfolding resolve_root
replay_lineage_ends_example =
    replay_lineage_ends graph 1 (some (versioned 1)) true {root = page} refl
