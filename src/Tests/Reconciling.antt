-- ===== src/Tests/Reconciling.antt =====
-- A lost worker, a job that ended too early, and an artifact with its edge.
use trail_signal_os.Prelude.{ℕ, ◌≡◌, refl, none, some, [], ◌∷◌, any, ◌&&◌, ◌==◌, All, arith}
use trail_signal_os.Store.{Task, find_task}
use trail_signal_os.Guards.{ok}
use trail_signal_os.Leases.Recovery.{Reclaims}
use trail_signal_os.Reconciliation.Artifacts.Gaps.{IsLinked}
use trail_signal_os.Api.Jobs.{ResearchJob, completed}
use trail_signal_os.Lineage.Edges.{versioned}
use trail_signal_os.Lineage.Trace.{LineageDb}
use trail_signal_os.Reconciliation.Counters.Flags.{names_job, disagrees}
use trail_signal_os.Reconciliation.Pass.{
  ReconcilerPassResult, ReconcilerState, default_settings, run_reconciler_pass,
}
use trail_signal_os.Reconciliation.Pass.Report.{run_reconciler_pass_lem}
use trail_signal_os.Tests.Data.{leased_db}
use trail_signal_os.Tests.Jobs.{dossier_job}
use trail_signal_os.Tests.Tracing.{graph}

abbrev linked : LineageDb
linked = record graph {
  artifacts =
      record {
        artifact_id = 1;
        artifact_kind = versioned 1;
        content_hash = 0;
        derived_from = 2 ∷ [];
        provenance = 0;
        created_at = 10;
      }
      ∷ [];
}

abbrev state : ReconcilerState (Unit {0})
state = record {
  world = record { db = leased_db; streams = tt };
  jobs = record dossier_job { job_id = 7; status = completed } ∷ [];
  lineage = linked;
}

run_reconciler_pass_lem_example :
    (r : ReconcilerPassResult) × (after : ReconcilerState (Unit {0})) × (run_reconciler_pass 900
        none default_settings state
      ≡ (ok r, after))
    × ((j : ℕ) (t : Task)
        → find_task state.world.db j ≡ some t
        → Reclaims 900 t r.reclaimed_tasks (find_task after.world.db j))
    × ((id : ℕ)
        → any (names_job id) r.counter_mismatches
          ≡ any
              (λ (j : ResearchJob). j.job_id == id && disagrees after.world.db.tasks j)
              state.jobs)
    × (All (IsLinked state.lineage.edges) state.lineage.artifacts → r.lineage_gaps ≡ [])
    × (after.jobs ≡ state.jobs)
    × (after.lineage ≡ state.lineage)
run_reconciler_pass_lem_example =
    run_reconciler_pass_lem 900 default_settings state (refl, (refl, tt)) (omega arith)
      (omega arith)
