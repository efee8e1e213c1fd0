-- ===== src/Graph/Executor.antt =====
-- graph/executor.py: the runtime node behind a compiled node, and the record of its executions.
-- The verifiers of the catalog and the files of the schemas are an argument.
pub mod Buildable
pub mod Recorded
use trail_signal_os.Prelude.{
  ℕ, Bool, true, false, not, ◌&&◌, Option, none, some, List, [], ◌∷◌, ◌++◌, ◌==◌, if◌then◌else◌,
  any, select, first, update,
}
use trail_signal_os.Guards.{Result, ok, err, ◌>>=◌, executor_error, key_error, file_not_found}
use trail_signal_os.Graph.Texts.{Text, codes, text_eq, has_text}
use trail_signal_os.Graph.Values.{Fields}
use trail_signal_os.Graph.Compiler.{CompiledNode, CompiledWorkflow, catalog_verifier_names}
use trail_signal_os.Harness.{
  VerifierResult, NodeDefinition, NodeKind, llm, deterministic, Verdict, NodeExecutionResult,
  post_init, schema_name,
}

-- Whether a schema has its file, and the function that the factory of a name gives for an output
-- schema. Of the factories, only that of `schema_validate` reads a file.
pub record Catalog : Type 0 where
  pub has_schema : Text → Bool
  pub verifier_of : Text → Text → Fields → Fields → VerifierResult

abbrev pub validates_schema : CompiledNode → Bool
validates_schema runtime = text_eq runtime.verifier (codes "schema_validate")

unfoldable pub resolve_verifier : Catalog → CompiledNode → Result (Fields → Fields → VerifierResult)
resolve_verifier catalog runtime =
    if has_text runtime.verifier catalog_verifier_names
    then (if validates_schema runtime
          && not (catalog.has_schema (schema_name runtime.output_schema))
        then err file_not_found
        else ok (catalog.verifier_of runtime.verifier runtime.output_schema))
    else err key_error

-- `compiled.runtime_nodes[node_id]`
abbrev pub find_node : Text → CompiledWorkflow → Option CompiledNode
find_node id compiled =
    first (select (λ (n : CompiledNode). text_eq id n.node_id) compiled.runtime_nodes)

abbrev pub kind_of : Text → NodeKind
kind_of kind = if text_eq kind (codes "llm") then llm else deterministic

abbrev pub definition_of : Catalog → CompiledNode → NodeDefinition
definition_of catalog runtime = record {
  node_id = runtime.node_id;
  kind = kind_of runtime.kind;
  input_schema = runtime.input_schema;
  output_schema = runtime.output_schema;
  verifier = catalog.verifier_of runtime.verifier runtime.output_schema;
  max_iterations = runtime.max_iterations;
  role = runtime.role;
  prompt = runtime.prompt;
  cassette_kind = runtime.cassette_kind;
}

abbrev pub is_human_gate : CompiledNode → Bool
is_human_gate runtime = text_eq runtime.kind (codes "human_gate")

abbrev pub build_from : Catalog → Option CompiledNode → Result NodeDefinition
build_from catalog none = err executor_error
build_from catalog (some runtime) = if is_human_gate runtime then err executor_error else do
  verifier ← resolve_verifier catalog runtime
  post_init (record {
    node_id = runtime.node_id;
    kind = kind_of runtime.kind;
    input_schema = runtime.input_schema;
    output_schema = runtime.output_schema;
    verifier = verifier;
    max_iterations = runtime.max_iterations;
    role = runtime.role;
    prompt = runtime.prompt;
    cassette_kind = runtime.cassette_kind;
  })

unfoldable pub build_node_definition : Catalog → CompiledWorkflow → Text → Result NodeDefinition
unfolding resolve_verifier
build_node_definition catalog compiled node_id = build_from catalog (find_node node_id compiled)

-- A row of `node_executions`. Identifiers of runs, tasks and decisions are numbers.
pub record NodeExecutionRow : Type 0 where
  pub run_id : ℕ
  pub node_id : Text
  pub task_id : Option ℕ
  pub attempt : ℕ
  pub verdict : Verdict
  pub decision_ref : Option ℕ

abbrev pub same_execution : ℕ → Text → ℕ → NodeExecutionRow → Bool
same_execution run_id node_id attempt row =
    row.run_id == run_id && (text_eq node_id row.node_id && row.attempt == attempt)

-- `decision_id` is what the output holds under that key.
unfoldable pub record_node_execution :
    ℕ
    → Text
    → NodeExecutionResult
    → Option ℕ
    → Option ℕ
    → List NodeExecutionRow
    → List NodeExecutionRow
record_node_execution run_id node_id result decision_id task_id rows =
    if any (same_execution run_id node_id result.attempts) rows
    then update (same_execution run_id node_id result.attempts)
        (λ (row : NodeExecutionRow). record row {
          task_id = task_id;
          verdict = result.verdict;
          decision_ref = decision_id;
        })
        rows
    else rows
      ++ record {
        run_id = run_id;
        node_id = node_id;
        task_id = task_id;
        attempt = result.attempts;
        verdict = result.verdict;
        decision_ref = decision_id;
      }
        ∷ []
