-- ===== src/Reconciliation/Tasks.antt =====
-- control/reconciliation/task_reconciler.py
use trail_signal_os.Prelude.{
  ℕ, Bool, false, not, ◌&&◌, Option, none, some, is_null, List, ◌++◌, ◌==◌, any, select, sort, take,
  map, leb,
}
use trail_signal_os.Store.{Task, Db}
use trail_signal_os.Store.States.{is_succeeded}
use trail_signal_os.Leases.Reaper.{reclaim_expired_leases}
use trail_signal_os.Lineage.Trace.{Artifact}

pub data TaskIssue : Type 0 where
  missing_result_artifact result_artifact_not_found : TaskIssue

pub record TaskInconsistency : Type 0 where
  pub task_id : ℕ
  pub issue : TaskIssue

unfoldable pub reclaim_task_inconsistencies : ℕ → ℕ → Db → List ℕ × Db
unfolding reclaim_expired_leases
reclaim_task_inconsistencies now limit db = reclaim_expired_leases now limit db

abbrev is_missing : Task → Bool
is_missing t = is_succeeded t.state && is_null t.result_artifact_id

-- The outer join finds no artifact.
abbrev lacks_artifact : List Artifact → Option ℕ → Bool
lacks_artifact artifacts none = false
lacks_artifact artifacts (some id) = not (any (λ (a : Artifact). a.artifact_id == id) artifacts)

abbrev task_query : ℕ → (Task → Bool) → TaskIssue → List Task → List TaskInconsistency
task_query limit p issue tasks =
    map (λ (t : Task). record { task_id = t.task_id; issue = issue })
      (take limit (sort (λ (s : Task) (t : Task). leb t.updated_at s.updated_at) (select p tasks)))

unfoldable pub flag_task_inconsistencies : ℕ → List Artifact → List Task → List TaskInconsistency
flag_task_inconsistencies limit artifacts tasks =
    task_query limit is_missing missing_result_artifact tasks
    ++ task_query limit (λ (t : Task). lacks_artifact artifacts t.result_artifact_id)
        result_artifact_not_found tasks
