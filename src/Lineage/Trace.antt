-- ===== src/Lineage/Trace.antt =====
-- lineage/trace.py. Its `while` runs on fuel; the sets and dicts are lists in the order of
-- insertion.
pub mod Walks
pub mod Ends
pub mod Ancestors
pub mod Complete
pub mod Refines
use trail_signal_os.Prelude.{
  ℕ, zero, suc, Bool, true, false, ◌&&◌, ◌||◌, not, Option, none, some, List, [], ◌∷◌, ◌++◌, ◌==◌,
  leb, ltb, if◌then◌else◌, any, select, sort, first, length,
}
use mathlib.Core.Option
use trail_signal_os.Store.{Task, has_id}
use trail_signal_os.Guards.{Result, ok, err, lookup_error}
use trail_signal_os.Lineage.Edges.{
  Kind, Kind.query_spec as query_spec_kind, Kind.task as task_kind, versioned, Node, node_eq,
  node_before, LineageEdge, same_edge, edges_for_child,
}

pub record Artifact : Type 0 where
  pub artifact_id : ℕ
  pub artifact_kind : Kind
  pub content_hash : ℕ
  pub derived_from : List ℕ
  pub provenance : ℕ
  pub created_at : ℕ

pub record QuerySpec : Type 0 where
  pub query_spec_id : ℕ
  pub job_id : ℕ
  pub text : ℕ
  pub engine : ℕ
  pub params : ℕ
  pub created_at : ℕ

-- The tables that a trace reads.
pub record LineageDb : Type 0 where
  pub edges : List LineageEdge
  pub artifacts : List Artifact
  pub query_specs : List QuerySpec
  pub tasks : List Task

pub data Metadata : Type 0 where
  no_metadata : Metadata
  spec_metadata : QuerySpec → Metadata
  artifact_metadata : Artifact → Metadata
  task_metadata : Task → Metadata

pub record TraceNode : Type 0 where
  pub node : Node
  pub relation_to_parent : Option ℕ
  pub metadata : Metadata

-- `resolve_root`
abbrev newest_first : Artifact → Artifact → Bool
newest_first a b = leb b.created_at a.created_at

abbrev pub find_artifacts : LineageDb → ℕ → List Artifact
find_artifacts db id = select (λ (a : Artifact). a.artifact_id == id) db.artifacts

abbrev pub has_spec : LineageDb → ℕ → Bool
has_spec db id = any (λ (q : QuerySpec). q.query_spec_id == id) db.query_specs

abbrev root_of : LineageDb → ℕ → Option Artifact → Result Node
root_of db id (some a) = ok (record { kind = a.artifact_kind; id = id })
root_of db id none =
    if has_spec db id
    then ok (record { kind = query_spec_kind; id = id })
    else if any (has_id id) db.tasks
    then ok (record { kind = task_kind; id = id })
    else err lookup_error

unfoldable pub resolve_root : LineageDb → ℕ → Option Kind → Result Node
resolve_root db id (some kind) = ok (record { kind = kind; id = id })
resolve_root db id none = root_of db id (first (sort newest_first (find_artifacts db id)))

abbrev artifact_or_none : Option Artifact → Metadata
artifact_or_none none = no_metadata
artifact_or_none (some a) = artifact_metadata a

abbrev spec_or_none : Option QuerySpec → Metadata
spec_or_none none = no_metadata
spec_or_none (some q) = spec_metadata q

abbrev task_or_none : Option Task → Metadata
task_or_none none = no_metadata
task_or_none (some t) = task_metadata t

abbrev pub node_metadata : LineageDb → Kind → ℕ → Metadata
node_metadata db query_spec_kind id =
    spec_or_none (first (select (λ (q : QuerySpec). q.query_spec_id == id) db.query_specs))
node_metadata db task_kind id = task_or_none (first (select (has_id id) db.tasks))
node_metadata db (versioned n) id = artifact_or_none (first (find_artifacts db id))
node_metadata db _ id = no_metadata

pub record Queued : Type 0 where
  pub node : Node
  pub relation : Option ℕ

pub record Walk : Type 0 where
  pub visited : List Node
  pub queue : List Queued
  pub collected_edges : List LineageEdge
  pub nodes : List TraceNode

abbrev pub has_node : Node → List Node → Bool
has_node n ns = any (node_eq n) ns

-- `collected_edges[edge_key] = edge`
abbrev pub put_edge : LineageEdge → List LineageEdge → List LineageEdge
put_edge e [] = e ∷ []
put_edge e (f ∷ fs) =
    let rest = put_edge e fs in if same_edge e.child e.parent f then e ∷ fs else f ∷ rest

-- The body of the `for` over the edges of a child.
abbrev pub offer : LineageEdge → Walk → Walk
offer e w = record w {
  collected_edges = put_edge e w.collected_edges;
  queue =
      if not (has_node e.parent w.visited)
      then w.queue ++ record { node = e.parent; relation = some e.relation } ∷ []
      else w.queue;
}

abbrev pub offer_all : List LineageEdge → Walk → Walk
offer_all [] w = w
offer_all (e ∷ es) w = offer_all es (offer e w)

-- What a round makes of the walk without the head of its queue.
abbrev pub opened : LineageDb → Queued → Walk → Walk
opened db q w = record w {
  visited = q.node ∷ w.visited;
  nodes =
      w.nodes
      ++ record {
        node = q.node;
        relation_to_parent = q.relation;
        metadata = node_metadata db q.node.kind q.node.id;
      }
        ∷ [];
}

abbrev pub visit : LineageDb → Queued → Walk → Walk
visit db q w = offer_all (edges_for_child q.node db.edges) (opened db q w)

abbrev pub round : LineageDb → Queued → List Queued → Walk → Walk
round db q rest w =
    let popped = record w { queue = rest } in
    if has_node q.node w.visited then popped else visit db q popped

-- The `while`; `none` means that the fuel ran out.
unfoldable pub walk : ℕ → LineageDb → Walk → Option Walk
walk zero db w = none
walk (suc fuel) db w = elim w.queue [ [] ↦ some w | q ∷ rest ↦ walk fuel db (round db q rest w) ]

pub record TraceResult : Type 0 where
  pub root : Node
  pub nodes : List TraceNode
  pub edges : List LineageEdge
  pub query_spec_leaves : List QuerySpec

abbrev at_or_before : Node → Node → Bool
at_or_before a b = node_before a b || node_eq a b

abbrev pub node_order : TraceNode → TraceNode → Bool
node_order a b = at_or_before a.node b.node

abbrev pub key_order : LineageEdge → LineageEdge → Bool
key_order a b =
    node_before a.child b.child || (node_eq a.child b.child && at_or_before a.parent b.parent)

abbrev pub spec_order : QuerySpec → QuerySpec → Bool
spec_order a b = leb a.query_spec_id b.query_spec_id

abbrev pub result_of : LineageDb → Node → Walk → TraceResult
result_of db root w = record {
  root = root;
  nodes = sort node_order w.nodes;
  edges = sort key_order w.collected_edges;
  query_spec_leaves = sort spec_order (
      select
        (λ (s : QuerySpec).
          has_node (record { kind = query_spec_kind; id = s.query_spec_id }) w.visited)
        db.query_specs);
}

abbrev pub start : Node → Walk
start root = record {
  visited = [];
  queue = record { node = root; relation = none } ∷ [];
  collected_edges = [];
  nodes = [];
}

unfoldable pub trace_ancestors : LineageDb → Node → Option TraceResult
unfolding walk
trace_ancestors db root =
    Option.map (result_of db root) (walk (suc (suc (length db.edges))) db (start root))

-- `trace`
abbrev pub trace : LineageDb → ℕ → Option Kind → Result (Option TraceResult)
trace db artifact_id kind = go (resolve_root db artifact_id kind)
  where
    go : Result Node → Result (Option TraceResult)
    go (err e) = err e
    go (ok root) = ok (trace_ancestors db root)
