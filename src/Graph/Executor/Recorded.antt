-- ===== src/Graph/Executor/Recorded.antt =====
-- graph/executor.py, `record_node_execution`: what the table holds of an execution.
use trail_signal_os.Prelude.{
  ◌∙◌, ℕ, ◌≡◌, refl, Bool, true, false, Option, List, [], ◌∷◌, ◌++◌, any, update, inl, inr,
  Bool-cases, All, arith,
}
use trail_signal_os.Graph.Texts.{Text, text_eq_self}
use trail_signal_os.Harness.{NodeExecutionResult}
use trail_signal_os.Graph.Executor.{NodeExecutionRow, same_execution, record_node_execution}

module _ (run_id : ℕ) (node_id : Text) (result : NodeExecutionResult)
    (decision_id task_id : Option ℕ) where
  -- A row of this execution holds what was recorded last.
  abbrev pub IsRecorded : NodeExecutionRow → Type 0
  IsRecorded row =
      same_execution run_id node_id result.attempts row ≡ true
      → (row.task_id ≡ task_id) × (row.verdict ≡ result.verdict) × (row.decision_ref ≡ decision_id)

  abbrev key : NodeExecutionRow → Bool
  key = same_execution run_id node_id result.attempts

  abbrev overwrite : NodeExecutionRow → NodeExecutionRow
  overwrite row = record row {
    task_id = task_id;
    verdict = result.verdict;
    decision_ref = decision_id;
  }

  any-overwrite :
      (rows : List NodeExecutionRow) → any key (update key overwrite rows) ≡ any key rows
  any-overwrite [] = refl
  any-overwrite (row ∷ rows) = elim (Bool-cases (key row)) [
    | inl own ↦ rw own (ground (arith, own))
    | inr other ↦ rw other (ground (arith, other, any-overwrite rows))
  ]

  All-overwrite : (rows : List NodeExecutionRow) → All IsRecorded (update key overwrite rows)
  All-overwrite [] = tt
  All-overwrite (row ∷ rows) = elim (Bool-cases (key row)) [
    | inl own ↦ rw own ((λ _. (refl, refl, refl)), All-overwrite rows)
    | inr other ↦ rw other ((λ own. absurd (ground arith)), All-overwrite rows)
  ]

  abbrev new_row : NodeExecutionRow
  new_row = record {
    run_id = run_id;
    node_id = node_id;
    task_id = task_id;
    attempt = result.attempts;
    verdict = result.verdict;
    decision_ref = decision_id;
  }

  any-new : (rows : List NodeExecutionRow) → any key (rows ++ new_row ∷ []) ≡ true
  any-new [] = ground (arith, text_eq_self node_id)
  any-new (row ∷ rows) = ground (arith, any-new rows)

  All-new :
      (rows : List NodeExecutionRow) → any key rows ≡ false → All IsRecorded (rows ++ new_row ∷ [])
  All-new [] h = ((λ _. (refl, refl, refl)), tt)
  All-new (row ∷ rows) h = ((λ own. absurd (ground arith)), All-new rows (ground arith))

  -- After an execution is recorded, the table has a row of its run, node and attempt, and every such
  -- row holds the task, the verdict and the decision that were recorded, whatever it held before.
  pub record_node_execution_lem :
      (rows : List NodeExecutionRow)
      → let after = record_node_execution run_id node_id result decision_id task_id rows in
        (any (same_execution run_id node_id result.attempts) after ≡ true) × All IsRecorded after
  unfolding record_node_execution
  record_node_execution_lem rows = elim (Bool-cases (any key rows)) [
    | inl old ↦ rw old (any-overwrite rows ∙ old, All-overwrite rows)
    | inr new ↦ rw new (any-new rows, All-new rows new)
  ]
