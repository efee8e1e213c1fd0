-- ===== src/Harness/Execute/Bounds.antt =====
-- harness/node_executor.py, `execute_node`: the bound on its rounds, and what its verdicts mean.
use trail_signal_os.Prelude.{
  ℕ, zero, suc, ◌+◌, ◌≤◌, ◌≡◌, refl, Bool, true, false, Option, none, some, [], inl, inr,
  Bool-cases, arith, ◌⊎◌,
}
use mathlib.Core.Path.{subst}
use trail_signal_os.Guards.{ok}
use trail_signal_os.Graph.Outcomes.{Ensures, returned, failed, bind, Ensures-ok, Ensures-map}
use trail_signal_os.Graph.Values.{Value, mapping, Fields}
use trail_signal_os.Harness.{
  Environment, NodeDefinition, NodeKind, llm, deterministic, Verdict, pass, ceiling,
  NodeExecutionResult, schema_name, reject_hook_injection, reject_all, build_messages,
  extract_llm_output, validate_packed_input, validate_output_schema,
}
use trail_signal_os.Harness.Execute.{Carried, attempt_node, attempt_loop, run_kind, execute_node}

-- An output that is an instance of the node's output schema.
abbrev pub IsTyped : Environment → NodeDefinition → Fields → Type 0
IsTyped env node output = env.is_instance (schema_name node.output_schema) (mapping output) ≡ true

validate_output-IsTyped :
    (env : Environment) (node : NodeDefinition) (output : Fields) {u : Unit {0}}
    → validate_output_schema env output node.output_schema ≡ ok u
    → IsTyped env node output
unfolding validate_output_schema
validate_output-IsTyped env node output h = ground (arith, h)

attempt_node-IsTyped :
    (env : Environment) (node : NodeDefinition) (packed_input : Fields) (replay : Option Fields)
    (attempt : ℕ) (c : Carried)
    → Ensures
        (λ both. IsTyped env node both.0)
        (attempt_node env node packed_input replay attempt c)
unfolding attempt_node
attempt_node-IsTyped env node packed_input replay attempt c =
    let messages = build_messages env node packed_input c.last_output c.last_violations in
    bind (reject_all messages) _ (λ _ _.
      bind (env.generate attempt node.role messages node.cassette_kind replay) _ (λ completion _.
        bind (extract_llm_output env completion) _ (λ candidate _.
          bind (validate_output_schema env candidate node.output_schema) _
            (λ _ typed. returned (validate_output-IsTyped env node candidate typed)))))

suc_is_add : (n : ℕ) → suc (suc n) ≡ suc n + 1
suc_is_add n = omega arith

-- The rounds that were refused so far, and what the last of them carries on: each ran with the
-- number of its attempt on what the one before it carried, and the verifier refused its output.
module _ (env : Environment) (node : NodeDefinition) (packed_input : Fields)
    (replay : Option Fields) where
  pub data Refused : ℕ → Carried → Type 0 where
    start : Refused 0 (record { last_violations = []; last_output = none; replayed = none })
    again :
        {n : ℕ} {c : Carried} (output : Fields) (replayed : Bool)
        → Refused n c
        → attempt_node env node packed_input replay (suc n) c ≡ ok (output, replayed)
        → (node.verifier output packed_input).passed ≡ false
        → Refused (suc n) (record {
          last_violations = (node.verifier output packed_input).violations;
          last_output = some output;
          replayed = some replayed;
        })

  -- What a result of an llm node says, by its verdict.
  abbrev pub LlmMeans : NodeExecutionResult → Verdict → Type 0
  LlmMeans r pass =
      (n : ℕ) × (c : Carried) × (o : Fields) × (replayed : Bool) × Refused n c
      × (attempt_node env node packed_input replay (suc n) c ≡ ok (o, replayed))
      × ((node.verifier o packed_input).passed ≡ true)
      × (r.output ≡ some o)
      × (r.attempts ≡ suc n)
      × (suc n ≤ node.max_iterations)
      × IsTyped env node o
  LlmMeans r ceiling =
      (c : Carried) × (o : Fields) × Refused node.max_iterations c
      × (c.last_output ≡ some o)
      × (r.output ≡ some o)
      × (r.violations ≡ c.last_violations)
      × (r.attempts ≡ node.max_iterations)
      × ((node.verifier o packed_input).passed ≡ false)
      × (c.last_violations ≡ (node.verifier o packed_input).violations)
      × IsTyped env node o

  -- What is carried after a failed round.
  record HasFailed (c : Carried) : Type 0 where
    candidate : Fields
    carried : c.last_output ≡ some candidate
    typed : IsTyped env node candidate
    refused : (node.verifier candidate packed_input).passed ≡ false
    told : c.last_violations ≡ (node.verifier candidate packed_input).violations

  attempt_loop-Means :
      (rounds n : ℕ) (c : Carried)
      → (1 ≤ rounds) ⊎ HasFailed c
      → Refused n c
      → n + rounds ≡ node.max_iterations
      → Ensures
          (λ r. LlmMeans r r.verdict)
          (attempt_loop env node packed_input replay rounds (suc n) c)
  unfolding attempt_loop
  attempt_loop-Means zero n c (inl more) ran sum = absurd (omega arith)
  attempt_loop-Means zero n c (inr f) ran sum =
      let all : n ≡ node.max_iterations = omega arith in
      returned (
        c,
        f.candidate,
        subst (λ k. Refused k c) all ran,
        f.carried,
        f.carried,
        refl,
        refl,
        f.refused,
        f.told,
        f.typed,
      )
  attempt_loop-Means (suc rounds) n c some_round ran sum =
      bind (attempt_node env node packed_input replay (suc n) c) _ (λ both e.
        let typed = Ensures-ok (attempt_node-IsTyped env node packed_input replay (suc n) c) e in
        elim (Bool-cases (node.verifier both.0 packed_input).passed) [
          | inl yes_passed ↦
              rw yes_passed (
                returned (n, c, both.0, both.1, ran, e, yes_passed, refl, refl, omega arith, typed))
          | inr no_passed ↦ rw no_passed (
              subst
                (λ k.
                  Ensures (λ r. LlmMeans r r.verdict)
                    (attempt_loop env node packed_input replay rounds k (record {
                      last_violations = (node.verifier both.0 packed_input).violations;
                      last_output = some both.0;
                      replayed = some both.1;
                    })))
                (suc_is_add n)
                (attempt_loop-Means rounds (suc n) _
                  (inr (record {
                    candidate = both.0;
                    carried = refl;
                    typed = typed;
                    refused = no_passed;
                    told = refl;
                  }))
                  (again both.0 both.1 ran e no_passed) (omega arith)))
        ])

-- What a result of a deterministic node says: a pass of its one function.
abbrev pub DeterministicMeans :
    Environment
    → NodeDefinition
    → Fields
    → Option (Fields → Fields)
    → NodeExecutionResult
    → Verdict
    → Type 0
DeterministicMeans env node packed_input f r pass =
    (g : Fields → Fields) × (f ≡ some g)
    × (r.output ≡ some (g packed_input))
    × (r.attempts ≡ 1)
    × IsTyped env node (g packed_input)
    × ((node.verifier (g packed_input) packed_input).passed ≡ true)
DeterministicMeans env node packed_input f r ceiling = ⊥

abbrev pub Means :
    NodeKind
    → Environment
    → NodeDefinition
    → Fields
    → Option (Fields → Fields)
    → Option Fields
    → NodeExecutionResult
    → Type 0
Means llm env node packed_input f replay r = LlmMeans env node packed_input replay r r.verdict
Means deterministic env node packed_input f replay r =
    DeterministicMeans env node packed_input f r r.verdict

run_kind-Means :
    (kind : NodeKind) (env : Environment) (node : NodeDefinition) (packed_input : Fields)
    (f : Option (Fields → Fields)) (replay : Option Fields)
    → 1 ≤ node.max_iterations
    → Ensures
        (Means kind env node packed_input f replay)
        (run_kind kind env node packed_input f replay)
run_kind-Means llm env node packed_input f replay limit =
    attempt_loop-Means env node packed_input replay node.max_iterations 0 _ (inl limit) start
      (omega arith)
run_kind-Means deterministic env node packed_input none replay limit = failed
run_kind-Means deterministic env node packed_input (some f) replay limit =
    bind (validate_output_schema env (f packed_input) node.output_schema) _ (λ _ typed.
      elim (Bool-cases (node.verifier (f packed_input) packed_input).passed) [
        | inl yes_passed ↦ rw yes_passed (
            returned (
              f,
              refl,
              refl,
              refl,
              validate_output-IsTyped env node (f packed_input) typed,
              yes_passed,
            ))
        | inr no_passed ↦ rw no_passed failed
      ])

-- A node that may run at least once returns only what its rounds say. A pass of an llm node comes
-- with the output of the first round that the verifier accepts, whose number it gives and which is
-- within the limit: every round before it ran, on what the one before it carried, and was refused. A
-- ceiling comes after as many refused rounds as the limit says, with the output and the violations of
-- the last of them. A deterministic node gives only passes, in one attempt, with what its function
-- gives. The output is always an instance of the output schema, and the input was an object that the
-- checks let through.
pub execute_node-Means :
    (env : Environment) (node : NodeDefinition) (packed_input : Value)
    (f : Option (Fields → Fields)) (replay : Option Fields) (r : NodeExecutionResult)
    → 1 ≤ node.max_iterations
    → execute_node env node packed_input f replay ≡ ok r
    → (fields : Fields) × (validate_packed_input env packed_input node.input_schema ≡ ok fields)
      × Means node.kind env node fields f replay r
unfolding execute_node
execute_node-Means env node packed_input f replay r limit h =
    Ensures-ok
      {P = λ r.
        (fields : Fields) × (validate_packed_input env packed_input node.input_schema ≡ ok fields)
        × Means node.kind env node fields f replay r}
      (bind (reject_hook_injection replay) _ (λ _ _.
        bind (validate_packed_input env packed_input node.input_schema) _ (λ fields valid.
          Ensures-map (λ r m. (fields, valid, m))
            (run_kind-Means node.kind env node fields f replay limit))))
      h
