-- ===== src/Graph/Persist.antt =====
-- graph/compiler.py, `persist_compiled_workflow`, on the tables workflow_defs, workflow_nodes and
-- workflow_edges of db/migrations/002_core_foundation.sql with their constraints. An error leaves
-- the tables as they were: the transaction is rolled back.
pub mod Inserts
pub mod RoundTrip
pub mod Replace
use trail_signal_os.Prelude.{
  ℕ, zero, suc, Bool, true, false, not, ◌&&◌, ◌||◌, Option, none, some, List, [], ◌∷◌, ◌++◌,
  if◌then◌else◌, any, select, update, first, leb,
}
use trail_signal_os.Guards.{Result, ok, err, ◌>>=◌, ◌>>◌, integrity_error}
use trail_signal_os.Graph.Texts.{Text, text_eq}
use trail_signal_os.Graph.Compiler.{
  WorkflowDefRow, WorkflowNodeRow, WorkflowEdgeRow, CompiledWorkflow,
}

pub record GraphDb : Type 0 where
  pub workflow_defs : List WorkflowDefRow
  pub workflow_nodes : List WorkflowNodeRow
  pub workflow_edges : List WorkflowEdgeRow

-- An insert under a primary key and a check.
abbrev pub insert_row : {A : Type 0} → (A → A → Bool) → (A → Bool) → A → List A → Result (List A)
insert_row same_key check row table =
    if any (same_key row) table || not (check row)
    then err integrity_error
    else ok (table ++ row ∷ [])

abbrev pub insert_rows :
    {A : Type 0} → (A → A → Bool) → (A → Bool) → List A → List A → Result (List A)
insert_rows same_key check [] table = ok table
insert_rows same_key check (row ∷ rows) table = do
  larger ← insert_row same_key check row table
  insert_rows same_key check rows larger

abbrev pub def_of : Text → WorkflowDefRow → Bool
def_of id d = text_eq d.workflow_id id

abbrev pub node_of : Text → WorkflowNodeRow → Bool
node_of id n = text_eq n.workflow_id id

abbrev pub edge_of : Text → WorkflowEdgeRow → Bool
edge_of id e = text_eq e.workflow_id id

-- UNIQUE (name, version), against the rows of other workflows.
abbrev pub takes_name : WorkflowDefRow → WorkflowDefRow → Bool
takes_name d row =
    not (def_of d.workflow_id row) && (text_eq row.name d.name && text_eq row.version d.version)

-- `INSERT … ON CONFLICT (workflow_id) DO UPDATE`
abbrev pub upsert_def : WorkflowDefRow → List WorkflowDefRow → Result (List WorkflowDefRow)
upsert_def d defs =
    if any (takes_name d) defs
    then err integrity_error
    else if any (def_of d.workflow_id) defs
    then ok (
        update (def_of d.workflow_id)
          (λ (row : WorkflowDefRow). record row {
            name = d.name;
            version = d.version;
            graph_yaml_hash = d.graph_yaml_hash;
          })
          defs)
    else ok (defs ++ d ∷ [])

-- PRIMARY KEY (workflow_id, node_id)
abbrev pub same_node_key : WorkflowNodeRow → WorkflowNodeRow → Bool
same_node_key m n = text_eq m.workflow_id n.workflow_id && text_eq m.node_id n.node_id

-- PRIMARY KEY (workflow_id, from_node, to_node, edge_type)
abbrev pub same_edge_key : WorkflowEdgeRow → WorkflowEdgeRow → Bool
same_edge_key e f =
    text_eq e.workflow_id f.workflow_id
    && (text_eq e.from_node f.from_node
        && (text_eq e.to_node f.to_node && text_eq e.edge_type f.edge_type))

-- `CHECK (… IS NULL OR … >= 1)`
abbrev pub is_limit : Option ℕ → Bool
is_limit none = true
is_limit (some n) = leb 1 n

abbrev pub check_node_row : WorkflowNodeRow → Bool
check_node_row n = is_limit n.loop_budget

-- A row that a foreign key names.
abbrev pub has_node : List WorkflowNodeRow → Text → Text → Bool
has_node nodes workflow_id node_id =
    any (λ (n : WorkflowNodeRow). node_of workflow_id n && text_eq node_id n.node_id) nodes

abbrev pub check_edge_row : List WorkflowNodeRow → WorkflowEdgeRow → Bool
check_edge_row nodes e =
    is_limit e.max_trips
    && (has_node nodes e.workflow_id e.from_node && has_node nodes e.workflow_id e.to_node)

-- `DELETE FROM workflow_nodes`: the foreign keys of the edges do not cascade.
abbrev pub delete_nodes :
    Text → List WorkflowEdgeRow → List WorkflowNodeRow → Result (List WorkflowNodeRow)
delete_nodes id edges nodes =
    if any
      (λ (e : WorkflowEdgeRow).
        edge_of id e && (has_node nodes id e.from_node || has_node nodes id e.to_node))
      edges
    then err integrity_error
    else ok (select (λ (n : WorkflowNodeRow). not (node_of id n)) nodes)

abbrev pub delete_edges : Text → List WorkflowEdgeRow → List WorkflowEdgeRow
delete_edges id edges = select (λ (e : WorkflowEdgeRow). not (edge_of id e)) edges

unfoldable pub persist_compiled_workflow : GraphDb → CompiledWorkflow → Result GraphDb
persist_compiled_workflow db compiled = do
  let id = compiled.definition.workflow_id
  defs ← upsert_def compiled.definition db.workflow_defs
  kept_nodes ← delete_nodes id db.workflow_edges db.workflow_nodes
  let kept_edges = delete_edges id db.workflow_edges
  nodes ← insert_rows same_node_key check_node_row compiled.nodes kept_nodes
  edges ← insert_rows same_edge_key (check_edge_row nodes) compiled.edges kept_edges
  ok (record { workflow_defs = defs; workflow_nodes = nodes; workflow_edges = edges })

-- What the tables hold of one workflow.
abbrev pub read_definition : Text → GraphDb → Option WorkflowDefRow
read_definition id db = first (select (def_of id) db.workflow_defs)

abbrev pub read_nodes : Text → GraphDb → List WorkflowNodeRow
read_nodes id db = select (node_of id) db.workflow_nodes

abbrev pub read_edges : Text → GraphDb → List WorkflowEdgeRow
read_edges id db = select (edge_of id) db.workflow_edges
