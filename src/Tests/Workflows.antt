-- ===== src/Tests/Workflows.antt =====
-- A workflow of two nodes with a back edge, compiled, persisted and executed.
use mathlib.Core.List.Memᴰ
use trail_signal_os.Prelude.{
  ℕ, ◌≡◌, refl, Bool, true, false, pos, Option, none, some, [], ◌∷◌, ◌==◌, if◌then◌else◌, any, ◌&&◌,
  is_null, arith,
}
use trail_signal_os.Guards.{Result, ok, err, integrity_error}
use trail_signal_os.Graph.Texts.{Text, codes, text_eq}
use trail_signal_os.Graph.Values.{Value, str, int, mapping, seq, cons, nil, Fields, end, field}
use trail_signal_os.Graph.Compiler.{
  WorkflowEdgeRow, CompiledNode, CompiledWorkflow, compile_workflow_yaml,
}
use trail_signal_os.Graph.Compiler.WellFormed.{IsWellFormed, compile_workflow_yaml-IsWellFormed}
use trail_signal_os.Graph.Persist.{
  GraphDb, persist_compiled_workflow, read_definition, read_nodes, read_edges,
}
use trail_signal_os.Graph.Persist.RoundTrip.{persist-read}
use trail_signal_os.Graph.Persist.Replace.{persist_replace_fails}
use trail_signal_os.Graph.Executor.{Catalog}
use trail_signal_os.Harness.{
  Environment, VerifierResult, NodeDefinition, NodeKind, NodeExecutionResult, pass,
  validate_packed_input, validate_output_schema, extract_llm_output, build_messages,
  reject_hook_injection, schema_name, ends_with,
}
use trail_signal_os.Harness.Execute.{attempt_loop, attempt_node, execute_node}
use trail_signal_os.Harness.Execute.Bounds.{Means, execute_node-Means}

abbrev node : Text → Text → Fields
node id kind = field (codes "id") (str id) (
    field (codes "kind") (str kind) (
      field (codes "role") (str (codes "reason")) (
        field (codes "input_schema") (str (codes "in.v1")) (
          field (codes "output_schema") (str (codes "out.v1"))
            (field (codes "verifier") (str (codes "quorum_met")) end)))))

abbrev edge : Text → Text → Text → Fields → Fields
edge from to edge_type rest =
    field (codes "from") (str from)
      (field (codes "to") (str to) (field (codes "edge_type") (str edge_type) rest))

abbrev document : Value
document = mapping (
    field (codes "workflow")
      (mapping (
        field (codes "id") (str (codes " wf "))
          (field (codes "name") (str (codes "n")) (field (codes "version") (str (codes "1")) end))))
      (field (codes "nodes")
        (seq (
          cons (mapping (node (codes "a") (codes "llm")))
            (cons (mapping (node (codes "b") (codes "check"))) nil)))
        (field (codes "edges")
          (seq (
            cons (mapping (edge (codes "__start__") (codes "a") (codes "sequence") end)) (
              cons (mapping (edge (codes "a") (codes "b") (codes "sequence") end)) (
                cons
                  (mapping (
                    edge (codes "b") (codes "a") (codes "back")
                      (field (codes "max_trips") (int (pos 2)) end)))
                  nil))))
          end)))

-- A parser and a hash that serve one source.
abbrev load : Text → Option Value
load source = if text_eq source (codes "w") then some document else none

abbrev hash : Text → Text
hash source = source

abbrev empty_workflow : CompiledWorkflow
empty_workflow = record {
  definition = record { workflow_id = []; name = []; version = []; graph_yaml_hash = [] };
  nodes = [];
  edges = [];
  runtime_nodes = [];
  source_yaml = [];
}

abbrev workflow_or_empty : Result CompiledWorkflow → CompiledWorkflow
workflow_or_empty (ok w) = w
workflow_or_empty (err e) = empty_workflow

unfoldable compiled : CompiledWorkflow
unfolding compile_workflow_yaml
compiled = workflow_or_empty (compile_workflow_yaml load hash (codes "w"))

compiled_lem : compile_workflow_yaml load hash (codes "w") ≡ ok compiled
unfolding compile_workflow_yaml compiled
compiled_lem = refl

compile_workflow_yaml-IsWellFormed_example : IsWellFormed compiled
compile_workflow_yaml-IsWellFormed_example =
    compile_workflow_yaml-IsWellFormed load hash (codes "w") compiled compiled_lem

-- A back edge between blanks escapes the guard and compiles without a limit.
abbrev unguarded : Value
unguarded = mapping (
    field (codes "workflow")
      (mapping (
        field (codes "id") (str (codes "wf"))
          (field (codes "name") (str (codes "n")) (field (codes "version") (str (codes "1")) end))))
      (field (codes "nodes") (seq (cons (mapping (node (codes "a") (codes "llm"))) nil)) (
        field (codes "edges")
          (seq (cons (mapping (edge (codes "a ") (codes "a") (codes "back") end)) nil)) end)))

unguarded_back_edge :
    any
      (λ (e : WorkflowEdgeRow). text_eq e.edge_type (codes "back") && is_null e.max_trips)
      (workflow_or_empty (compile_workflow_yaml (λ source. some unguarded) hash (codes "w"))).edges
    ≡ true
unfolding compile_workflow_yaml
unguarded_back_edge = refl

abbrev empty_db : GraphDb
empty_db = record { workflow_defs = []; workflow_nodes = []; workflow_edges = [] }

persist-read_example :
    (after : GraphDb) × (persist_compiled_workflow empty_db compiled ≡ ok after)
    × (read_definition compiled.definition.workflow_id after ≡ some compiled.definition)
    × (read_nodes compiled.definition.workflow_id after ≡ compiled.nodes)
    × (read_edges compiled.definition.workflow_id after ≡ compiled.edges)
    × ((j : Text)
        → text_eq j compiled.definition.workflow_id ≡ false
        → (read_definition j after ≡ read_definition j empty_db)
          × (read_nodes j after ≡ read_nodes j empty_db)
          × (read_edges j after ≡ read_edges j empty_db))
unfolding compiled
persist-read_example =
    persist-read empty_db compiled compile_workflow_yaml-IsWellFormed_example refl refl
      (refl, (refl, (refl, tt))) (refl, (refl, (refl, tt)))

-- The tables after the workflow was persisted.
unfoldable persisted : GraphDb
unfolding compiled
persisted = record {
  workflow_defs = compiled.definition ∷ [];
  workflow_nodes = compiled.nodes;
  workflow_edges = compiled.edges;
}

abbrev back_edge : WorkflowEdgeRow
back_edge = record {
  workflow_id = codes "wf";
  from_node = codes "b";
  to_node = codes "a";
  edge_type = codes "back";
  condition_expr = none;
  max_trips = some 2;
}

persist_replace_fails_example : persist_compiled_workflow persisted compiled ≡ err integrity_error
unfolding persisted compiled
persist_replace_fails_example =
    persist_replace_fails persisted compiled back_edge (Memᴰ.tail (Memᴰ.tail (Memᴰ.head refl))) refl
      refl

abbrev accepts_all : Catalog
accepts_all = record {
  has_schema = λ name. true;
  verifier_of = λ name schema output packed_input. record { passed = true; violations = [] };
}

abbrev node_b : CompiledNode
node_b = record {
  node_id = codes "b";
  kind = codes "check";
  role = some (codes "reason");
  input_schema = codes "in.v1";
  output_schema = codes "out.v1";
  verifier = codes "quorum_met";
  max_iterations = 1;
  prompt = none;
  cassette_kind = none;
}

-- The gateway answers nothing that satisfies the verifier in the first round, and does in the
-- second.
abbrev answer : ℕ → Fields
answer attempt = field (codes "n") (int (pos attempt)) end

abbrev environment : Environment
environment = record {
  is_instance = λ schema v. true;
  loads = λ t. none;
  dumps = λ v. [];
  generate = λ attempt role messages cassette_kind replay.
      ok (record { parsed = some (mapping (answer attempt)); text = []; replayed = false });
}

abbrev is_second : Fields → Bool
is_second (field k (int (pos n)) fs) = n == 2
is_second _ = false

abbrev judge : Fields → Fields → VerifierResult
judge output packed_input = record { passed = is_second output; violations = codes "not yet" ∷ [] }

abbrev reasoner : NodeDefinition
reasoner = record {
  node_id = codes "a";
  kind = NodeKind.llm;
  input_schema = codes "in.v1";
  output_schema = codes "out.v1";
  verifier = judge;
  max_iterations = 3;
  role = some (codes "reason");
  prompt = none;
  cassette_kind = none;
}

abbrev second_passes : NodeExecutionResult
second_passes = record {
  node_id = codes "a";
  verdict = pass;
  attempts = 2;
  output = some (answer 2);
  violations = [];
  replayed = some false;
}

execute_node-Means_example :
    (fields : Fields) × (validate_packed_input environment (mapping end) reasoner.input_schema
      ≡ ok fields)
    × Means NodeKind.llm environment reasoner fields none none second_passes
unfolding execute_node attempt_loop attempt_node reject_hook_injection validate_packed_input
    validate_output_schema extract_llm_output build_messages schema_name ends_with
execute_node-Means_example =
    execute_node-Means environment reasoner (mapping end) none none second_passes (omega arith) refl
