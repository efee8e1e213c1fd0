-- ===== src/Harness/Execute.antt =====
-- harness/node_executor.py, `execute_node`.
pub mod Bounds
use trail_signal_os.Prelude.{
  ℕ, zero, suc, ◌+◌, Bool, true, false, Option, none, some, List, [], ◌∷◌,
}
use trail_signal_os.Guards.{Result, ok, err, ◌>>=◌, ◌>>◌, executor_error, iteration_ceiling_error}
use trail_signal_os.Graph.Texts.{Text}
use trail_signal_os.Graph.Values.{Value, Fields}
use trail_signal_os.Harness.{
  Completion, Environment, VerifierResult, NodeDefinition, NodeKind, llm, deterministic, Verdict,
  pass, ceiling, NodeExecutionResult, reject_hook_injection, validate_packed_input,
  validate_output_schema, build_messages, extract_llm_output, reject_all,
}

-- What the loop carries from one attempt to the next.
pub record Carried : Type 0 where
  pub last_violations : List Text
  pub last_output : Option Fields
  pub replayed : Option Bool

abbrev pub passing : NodeDefinition → ℕ → Fields → Option Bool → NodeExecutionResult
passing node attempt output replayed = record {
  node_id = node.node_id;
  verdict = pass;
  attempts = attempt;
  output = some output;
  violations = [];
  replayed = replayed;
}

-- One round up to the verifier: the candidate, and whether it was replayed. In the first round
-- nothing is carried, so the source's tests of `attempt` change nothing.
unfoldable pub attempt_node :
    Environment → NodeDefinition → Fields → Option Fields → ℕ → Carried → Result (Fields × Bool)
attempt_node env node packed_input replay_request attempt c = do
  let messages = build_messages env node packed_input c.last_output c.last_violations
  reject_all messages
  completion ← env.generate attempt node.role messages node.cassette_kind replay_request
  candidate ← extract_llm_output env completion
  validate_output_schema env candidate node.output_schema
  ok (candidate, completion.replayed)

-- The `for` over `range(1, max_iterations + 1)`: the rounds left, and the number of the next one.
unfoldable pub attempt_loop :
    Environment
    → NodeDefinition
    → Fields
    → Option Fields
    → ℕ
    → ℕ
    → Carried
    → Result NodeExecutionResult
attempt_loop env node packed_input replay_request zero attempt c = ok (record {
  node_id = node.node_id;
  verdict = ceiling;
  attempts = node.max_iterations;
  output = c.last_output;
  violations = c.last_violations;
  replayed = c.replayed;
})
attempt_loop env node packed_input replay_request (suc rounds) attempt c = do
  both ← attempt_node env node packed_input replay_request attempt c
  let verdict = node.verifier both.0 packed_input
  elim verdict.passed [
    | true ↦ ok (passing node attempt both.0 (some both.1))
    | false ↦ attempt_loop env node packed_input replay_request rounds (attempt + 1) (record {
      last_violations = verdict.violations;
      last_output = some both.0;
      replayed = some both.1;
    })
  ]

abbrev pub run_deterministic :
    Environment → NodeDefinition → Fields → Option (Fields → Fields) → Result NodeExecutionResult
run_deterministic env node packed_input none = err executor_error
run_deterministic env node packed_input (some deterministic_fn) = do
  let output = deterministic_fn packed_input
  validate_output_schema env output node.output_schema
  elim (node.verifier output packed_input).passed [
    | true ↦ ok (passing node 1 output none)
    | false ↦ err iteration_ceiling_error
  ]

abbrev pub run_kind :
    NodeKind
    → Environment
    → NodeDefinition
    → Fields
    → Option (Fields → Fields)
    → Option Fields
    → Result NodeExecutionResult
run_kind deterministic env node packed_input deterministic_fn replay_request =
    run_deterministic env node packed_input deterministic_fn
run_kind llm env node packed_input deterministic_fn replay_request =
    attempt_loop env node packed_input replay_request node.max_iterations 1
      (record { last_violations = []; last_output = none; replayed = none })

unfoldable pub execute_node :
    Environment
    → NodeDefinition
    → Value
    → Option (Fields → Fields)
    → Option Fields
    → Result NodeExecutionResult
execute_node env node packed_input deterministic_fn replay_request = do
  reject_hook_injection replay_request
  fields ← validate_packed_input env packed_input node.input_schema
  run_kind node.kind env node fields deterministic_fn replay_request
