-- ===== src/Graph/Compiler.antt =====
-- graph/compiler.py, `compile_workflow_yaml`. The YAML parser and the hash of the source are
-- arguments; `yaml.YAMLError` is the `none` of the first.
pub mod Rows
pub mod WellFormed
use trail_signal_os.Prelude.{
  ℕ, zero, suc, pos, negsuc, ℤ, Bool, true, false, not, ◌&&◌, ◌||◌, Option, none, some, is_null,
  List, [], ◌∷◌, ◌++◌, map, if◌then◌else◌, any,
}
use trail_signal_os.Guards.{Result, ok, err, ◌>>=◌, ◌>>◌, guard_violation, compile_error}
use trail_signal_os.Graph.Texts.{Text, codes, text_eq, has_text, strip, is_empty}
use trail_signal_os.Graph.Values.{
  Value, null, bool, int, str, other, seq, mapping, Fields, end, nil, elements, find_key,
  or_default, get, truthy, or_else, is_none, as_int,
}
use trail_signal_os.Graph.Guard8.{guard8_validate_workflow}

abbrev pub start_node : Text
start_node = codes "__start__"

abbrev pub end_node : Text
end_node = codes "__end__"

-- `CATALOG_VERIFIER_NAMES` of graph/verifiers/catalog.py
abbrev pub catalog_verifier_names : List Text
catalog_verifier_names =
    codes "schema_validate"
    ∷ codes "plan_validates"
    ∷ codes "claim_grounding"
    ∷ codes "quorum_met"
    ∷ codes "novelty_floor"
    ∷ codes "decision_valid"
    ∷ codes "sample_judge"
    ∷ []

pub record WorkflowDefRow : Type 0 where
  pub workflow_id : Text
  pub name : Text
  pub version : Text
  pub graph_yaml_hash : Text

pub record WorkflowNodeRow : Type 0 where
  pub workflow_id : Text
  pub node_id : Text
  pub kind : Text
  pub role : Option Text
  pub input_schemas : List Text
  pub output_schemas : List Text
  pub verifier : Option Text
  pub loop_budget : Option ℕ

pub record WorkflowEdgeRow : Type 0 where
  pub workflow_id : Text
  pub from_node : Text
  pub to_node : Text
  pub edge_type : Text
  pub condition_expr : Option Text
  pub max_trips : Option ℕ

pub record CompiledNode : Type 0 where
  pub node_id : Text
  pub kind : Text
  pub role : Option Text
  pub input_schema : Text
  pub output_schema : Text
  pub verifier : Text
  pub max_iterations : ℕ
  pub prompt : Option Text
  pub cassette_kind : Option Text

-- `runtime_nodes` is the dict's values in the order of insertion: each holds its key.
pub record CompiledWorkflow : Type 0 where
  pub definition : WorkflowDefRow
  pub nodes : List WorkflowNodeRow
  pub edges : List WorkflowEdgeRow
  pub runtime_nodes : List CompiledNode
  pub source_yaml : Text

-- `raise WorkflowCompileError` under a test.
abbrev pub refuse_if : Bool → Result (Unit {0})
refuse_if b = if b then err compile_error else ok tt

abbrev pub require_mapping : Value → Result Fields
require_mapping (mapping fs) = ok fs
require_mapping _ = err compile_error

abbrev pub require_list : Value → Result (List Value)
require_list (seq vs) = ok (elements vs)
require_list _ = err compile_error

abbrev pub is_nil : List Value → Bool
is_nil [] = true
is_nil (v ∷ vs) = false

-- A text that is not blank, stripped.
unfoldable pub require_text : Value → Result Text
require_text (str t) = if is_empty (strip t) then err compile_error else ok (strip t)
require_text _ = err compile_error

-- None, or a text as it stands.
abbrev pub optional_text : Value → Result (Option Text)
optional_text null = ok none
optional_text (str t) = ok (some t)
optional_text _ = err compile_error

unfoldable pub schema_ref : Fields → Text → Result Text
schema_ref node key = require_text (get key node)

abbrev pub at_least_one : Option ℤ → Result ℕ
at_least_one (some (pos (suc n))) = ok (suc n)
at_least_one _ = err compile_error

-- `_loop_budget`; the truth value `true` counts as 1.
unfoldable pub read_loop_budget : Fields → Result ℕ
read_loop_budget node = do
  loop ← require_mapping (or_else (get (codes "loop") node) (mapping end))
  at_least_one (as_int (or_default (int (pos 1)) (find_key (codes "max_iterations") loop)))

abbrev pub catalogued : Text → Result (Option Text)
catalogued name = if has_text name catalog_verifier_names then ok (some name) else err compile_error

unfoldable pub validate_verifier_name : Text → Value → Result (Option Text)
validate_verifier_name kind verifier =
    if not (text_eq kind (codes "llm")) && is_none verifier
    then ok none
    else do name ← require_text verifier; catalogued name

-- `not role`
abbrev pub has_no_role : Option Text → Bool
has_no_role none = true
has_no_role (some r) = is_empty r

abbrev pub verifier_or : Option Text → Text
verifier_or none = codes "schema_validate"
verifier_or (some v) = v

-- The body of the loop over the nodes.
unfoldable pub compile_node : Text → List Text → Value → Result (WorkflowNodeRow × CompiledNode)
compile_node workflow_id seen_ids raw_node = do
  node ← require_mapping raw_node
  node_id ← require_text (get (codes "id") node)
  kind ← require_text (get (codes "kind") node)
  refuse_if (has_text node_id seen_ids)
  role ← optional_text (get (codes "role") node)
  refuse_if (text_eq kind (codes "llm") && has_no_role role)
  input_schema ← schema_ref node (codes "input_schema")
  output_schema ← schema_ref node (codes "output_schema")
  verifier ← validate_verifier_name kind (get (codes "verifier") node)
  loop_budget ← read_loop_budget node
  prompt ← optional_text (get (codes "prompt") node)
  cassette_kind ← optional_text (get (codes "cassette_kind") node)
  ok (
    record {
      workflow_id = workflow_id;
      node_id = node_id;
      kind = kind;
      role = role;
      input_schemas = input_schema ∷ [];
      output_schemas = output_schema ∷ [];
      verifier = verifier;
      loop_budget = some loop_budget;
    },
    record {
      node_id = node_id;
      kind = kind;
      role = role;
      input_schema = input_schema;
      output_schema = output_schema;
      verifier = verifier_or verifier;
      max_iterations = loop_budget;
      prompt = prompt;
      cassette_kind = cassette_kind;
    },
  )

unfoldable pub compile_nodes :
    Text → List Text → List Value → Result (List (WorkflowNodeRow × CompiledNode))
compile_nodes workflow_id seen_ids [] = ok []
compile_nodes workflow_id seen_ids (v ∷ vs) = do
  both ← compile_node workflow_id seen_ids v
  rest ← compile_nodes workflow_id (both.0.node_id ∷ seen_ids) vs
  ok (both ∷ rest)

abbrev pub trip_limit : Value → Result (Option ℕ)
trip_limit v = if is_none v then ok none else do n ← at_least_one (as_int v); ok (some n)

-- The body of the loop over the edges.
unfoldable pub compile_edge : Text → List Text → Value → Result WorkflowEdgeRow
compile_edge workflow_id seen_ids raw_edge = do
  edge ← require_mapping raw_edge
  from_node ← require_text (get (codes "from") edge)
  to_node ← require_text (get (codes "to") edge)
  edge_type ← require_text (get (codes "edge_type") edge)
  refuse_if (not (has_text from_node seen_ids) && not (text_eq from_node start_node))
  refuse_if (not (has_text to_node seen_ids) && not (text_eq to_node end_node))
  condition_expr ← optional_text (get (codes "condition") edge)
  max_trips ← trip_limit (get (codes "max_trips") edge)
  ok (record {
    workflow_id = workflow_id;
    from_node = from_node;
    to_node = to_node;
    edge_type = edge_type;
    condition_expr = condition_expr;
    max_trips = max_trips;
  })

unfoldable pub compile_edges : Text → List Text → List Value → Result (List WorkflowEdgeRow)
compile_edges workflow_id seen_ids [] = ok []
compile_edges workflow_id seen_ids (v ∷ vs) = do
  edge ← compile_edge workflow_id seen_ids v
  rest ← compile_edges workflow_id seen_ids vs
  ok (edge ∷ rest)

abbrev pub is_referenced : Text → List WorkflowEdgeRow → Bool
is_referenced id edges =
    any (λ (e : WorkflowEdgeRow). text_eq id e.from_node || text_eq id e.to_node) edges

-- The row of an entry or exit that an edge names.
abbrev pub pseudo_node : Text → Text → Text → List WorkflowEdgeRow → List WorkflowNodeRow
pseudo_node workflow_id id kind edges =
    if is_referenced id edges
    then record {
      workflow_id = workflow_id;
      node_id = id;
      kind = kind;
      role = none;
      input_schemas = [];
      output_schemas = [];
      verifier = none;
      loop_budget = none;
    }
      ∷ []
    else []

abbrev pub row_id : WorkflowNodeRow × CompiledNode → Text
row_id both = both.0.node_id

-- `except GuardViolation`
abbrev pub as_compile_error : Result (Unit {0}) → Result (Unit {0})
as_compile_error (ok u) = ok u
as_compile_error (err guard_violation) = err compile_error
as_compile_error (err e) = err e

abbrev pub parsed : Option Value → Result Value
parsed none = err compile_error
parsed (some v) = ok v

-- What follows the parser.
unfoldable pub compile_document : (Text → Text) → Text → Value → Result CompiledWorkflow
compile_document yaml_hash source payload = do
  document ← require_mapping payload
  meta ← require_mapping (or_else (get (codes "workflow") document) (mapping end))
  workflow_id ← require_text (get (codes "id") meta)
  name ← require_text (get (codes "name") meta)
  version ← require_text (get (codes "version") meta)
  raw_nodes ← require_list (or_else (get (codes "nodes") document) (seq nil))
  refuse_if (is_nil raw_nodes)
  raw_edges ← require_list (or_else (get (codes "edges") document) (seq nil))
  as_compile_error (guard8_validate_workflow raw_nodes raw_edges)
  rows ← compile_nodes workflow_id [] raw_nodes
  edges ← compile_edges workflow_id (map row_id rows) raw_edges
  ok (record {
    definition = record {
      workflow_id = workflow_id;
      name = name;
      version = version;
      graph_yaml_hash = yaml_hash source;
    };
    nodes =
        map (λ (both : WorkflowNodeRow × CompiledNode). both.0) rows
        ++ (pseudo_node workflow_id start_node (codes "entry") edges
            ++ pseudo_node workflow_id end_node (codes "exit") edges);
    edges = edges;
    runtime_nodes = map (λ (both : WorkflowNodeRow × CompiledNode). both.1) rows;
    source_yaml = source;
  })

unfoldable pub compile_workflow_yaml :
    (Text → Option Value) → (Text → Text) → Text → Result CompiledWorkflow
unfolding compile_document compile_nodes compile_node compile_edges compile_edge
    guard8_validate_workflow read_loop_budget validate_verifier_name schema_ref require_text strip
compile_workflow_yaml safe_load yaml_hash source = do
  payload ← parsed (safe_load source)
  compile_document yaml_hash source payload
