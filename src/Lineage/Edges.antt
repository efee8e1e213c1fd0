-- ===== src/Lineage/Edges.antt =====
-- lineage/edges.py, with `insert_lineage_edge_idempotent` of db/repositories/constraints.py. The
-- numbers of texts stand in the order of the texts.
pub mod Laws
use trail_signal_os.Prelude.{
  ℕ, ◌*◌, ◌+◌, Bool, true, false, ◌&&◌, ◌||◌, Option, none, some, List, [], ◌∷◌, ◌++◌, ◌==◌, ltb,
  leb, if◌then◌else◌, any, select, sort, take,
}

-- The kind of an artifact, as `_node_metadata` tells them apart: `versioned` ends in ".v1".
pub data Kind : Type 0 where
  query_spec task : Kind
  versioned other_kind : ℕ → Kind

-- The numbers of the other kinds stand in the order of their texts: up to 1000 for those before
-- "query_spec", up to 2000 for those between it and "task", and above for the rest.
abbrev pub kind_code : Kind → ℕ
kind_code query_spec = 4002
kind_code task = 8002
kind_code (versioned n) = 4 * n
kind_code (other_kind n) = 4 * n + 1

pub record Node : Type 0 where
  pub kind : Kind
  pub id : ℕ

abbrev pub node_eq : Node → Node → Bool
node_eq a b = kind_code a.kind == kind_code b.kind && a.id == b.id

-- `child` is the pair (child_kind, child_id), `parent` the pair (parent_kind, parent_id).
pub record LineageEdge : Type 0 where
  pub child : Node
  pub parent : Node
  pub relation : ℕ
  pub version_tag : Option ℕ
  pub created_at : ℕ

-- `lineage_edges_unique_edge`
abbrev pub same_edge : Node → Node → LineageEdge → Bool
same_edge child parent e = node_eq child e.child && node_eq parent e.parent

unfoldable pub insert_lineage_edge_idempotent :
    ℕ → Node → Node → ℕ → Option ℕ → List LineageEdge → Bool × List LineageEdge
insert_lineage_edge_idempotent now child parent relation version_tag edges =
    if any (same_edge child parent) edges then (false, edges) else (
      true,
      edges
          ++ record {
            child = child;
            parent = parent;
            relation = relation;
            version_tag = version_tag;
            created_at = now;
          }
            ∷ [],
    )

abbrev pub write_lineage_edge :
    ℕ → Node → Node → ℕ → Option ℕ → List LineageEdge → Bool × List LineageEdge
write_lineage_edge = insert_lineage_edge_idempotent

-- The optional conditions of the WHERE clause.
abbrev pub kind_is : Option Kind → Kind → Bool
kind_is none k = true
kind_is (some j) k = kind_code k == kind_code j

abbrev pub id_is : Option ℕ → ℕ → Bool
id_is none n = true
id_is (some m) n = n == m

abbrev pub node_before : Node → Node → Bool
node_before a b =
    ltb (kind_code a.kind) (kind_code b.kind)
    || (kind_code a.kind == kind_code b.kind && ltb a.id b.id)

-- `ORDER BY created_at ASC, child_kind, child_id, parent_kind, parent_id`
abbrev pub edge_order : LineageEdge → LineageEdge → Bool
edge_order a b =
    ltb a.created_at b.created_at
    || (a.created_at == b.created_at
        && (node_before a.child b.child
            || (node_eq a.child b.child
                && (node_before a.parent b.parent || node_eq a.parent b.parent))))

unfoldable pub list_edges :
    Option Kind → Option ℕ → Option Kind → Option ℕ → ℕ → List LineageEdge → List LineageEdge
list_edges child_kind child_id parent_kind parent_id limit edges = take limit (
    sort edge_order (
      select
        (λ (e : LineageEdge).
          (kind_is child_kind e.child.kind && id_is child_id e.child.id)
          && (kind_is parent_kind e.parent.kind && id_is parent_id e.parent.id))
        edges))

-- The default limit is 500.
unfoldable pub edges_for_child : Node → List LineageEdge → List LineageEdge
unfolding list_edges
edges_for_child n edges = list_edges (some n.kind) (some n.id) none none 500 edges

unfoldable pub edges_for_parent : Node → List LineageEdge → List LineageEdge
unfolding list_edges
edges_for_parent n edges = list_edges none none (some n.kind) (some n.id) 500 edges
