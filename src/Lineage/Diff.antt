-- ===== src/Lineage/Diff.antt =====
-- lineage/diff.py. A trace lists its nodes and edges sorted and without repetition, so a set of
-- keys, sorted, is what a selection of them leaves.
pub mod Ancestry
use trail_signal_os.Prelude.{
  ℕ, Bool, true, false, not, ◌&&◌, Option, none, some, List, [], ◌∷◌, ◌==◌, if◌then◌else◌, any,
  select, map, first, ◌++◌,
}
use trail_signal_os.Lineage.Edges.{Node, node_eq, LineageEdge, same_edge}
use trail_signal_os.Lineage.Trace.{LineageDb, TraceNode, TraceResult, has_node, trace_ancestors}

pub record VersionChange : Type 0 where
  pub child : Node
  pub parent : Node
  pub left_version_tag : Option ℕ
  pub right_version_tag : Option ℕ

pub record LineageDiff : Type 0 where
  pub left : Node
  pub right : Node
  pub nodes_only_left : List Node
  pub nodes_only_right : List Node
  pub shared_nodes : List Node
  pub edges_only_left : List LineageEdge
  pub edges_only_right : List LineageEdge
  pub shared_edges : List LineageEdge
  pub version_tag_changes : List VersionChange

-- `_trace_to_sets`: the keys of the nodes.
abbrev pub node_keys : TraceResult → List Node
node_keys t = map (λ (n : TraceNode). n.node) t.nodes

abbrev pub nodes_without : List Node → List Node → List Node
nodes_without others nodes = select (λ (n : Node). not (has_node n others)) nodes

abbrev pub nodes_with : List Node → List Node → List Node
nodes_with others nodes = select (λ (n : Node). has_node n others) nodes

abbrev pub has_key : List LineageEdge → LineageEdge → Bool
has_key es e = any (same_edge e.child e.parent) es

abbrev pub edges_without : List LineageEdge → List LineageEdge → List LineageEdge
edges_without others es = select (λ (e : LineageEdge). not (has_key others e)) es

abbrev pub edges_with : List LineageEdge → List LineageEdge → List LineageEdge
edges_with others es = select (λ (e : LineageEdge). has_key others e) es

abbrev pub same_tag : Option ℕ → Option ℕ → Bool
same_tag none none = true
same_tag (some m) (some n) = m == n
same_tag _ _ = false

abbrev pub change_of : LineageEdge → Option LineageEdge → List VersionChange
change_of e none = []
change_of e (some f) =
    if same_tag e.version_tag f.version_tag
    then []
    else record {
      child = e.child;
      parent = e.parent;
      left_version_tag = e.version_tag;
      right_version_tag = f.version_tag;
    }
      ∷ []

-- The loop over the shared edges.
abbrev pub version_changes : List LineageEdge → List LineageEdge → List VersionChange
version_changes right_edges [] = []
version_changes right_edges (e ∷ es) =
    change_of e (first (select (same_edge e.child e.parent) right_edges))
    ++ version_changes right_edges es

abbrev pub diff_of : Node → Node → TraceResult → TraceResult → LineageDiff
diff_of left right l r = record {
  left = left;
  right = right;
  nodes_only_left = nodes_without (node_keys r) (node_keys l);
  nodes_only_right = nodes_without (node_keys l) (node_keys r);
  shared_nodes = nodes_with (node_keys r) (node_keys l);
  edges_only_left = edges_without r.edges l.edges;
  edges_only_right = edges_without l.edges r.edges;
  shared_edges = edges_with r.edges l.edges;
  version_tag_changes = version_changes r.edges (edges_with r.edges l.edges);
}

abbrev pub diff_traces : Node → Node → Option TraceResult → Option TraceResult → Option LineageDiff
diff_traces left right (some l) (some r) = some (diff_of left right l r)
diff_traces left right _ _ = none

-- `none` means that the fuel of a trace ran out.
unfoldable pub diff_lineage : LineageDb → Node → Node → Option LineageDiff
diff_lineage db left right =
    diff_traces left right (trace_ancestors db left) (trace_ancestors db right)

abbrev pub is_nil {ℓ} : {A : Type ℓ} → List A → Bool
is_nil [] = true
is_nil (x ∷ xs) = false

-- The entry "identical" of `as_dict`.
abbrev pub identical : LineageDiff → Bool
identical d =
    is_nil d.nodes_only_left
    && (is_nil d.nodes_only_right
        && (is_nil d.edges_only_left
            && (is_nil d.edges_only_right && is_nil d.version_tag_changes)))
