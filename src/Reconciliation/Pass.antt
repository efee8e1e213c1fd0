-- ===== src/Reconciliation/Pass.antt =====
-- control/reconciliation/run.py, with settings.py and stream_reconciler.py. The jobs and the
-- lineage stand beside the tables of Store.
pub mod Report
use trail_signal_os.Prelude.{ℕ, Option, none, some, List, []}
use trail_signal_os.Guards.{Result, ok, err}
use trail_signal_os.Dispatcher.Redis.{Redis}
use trail_signal_os.Dispatcher.Publish.{World, republish_missing_stream_messages}
use trail_signal_os.Api.Jobs.{ResearchJob}
use trail_signal_os.Lineage.Trace.{LineageDb}
use trail_signal_os.Reconciliation.Artifacts.{LineageGap, flag_lineage_gaps}
use trail_signal_os.Reconciliation.Counters.{JobCounterMismatch, flag_counter_mismatches}
use trail_signal_os.Reconciliation.Tasks.{
  TaskInconsistency, flag_task_inconsistencies, reclaim_task_inconsistencies,
}

pub record ReconcilerSettings : Type 0 where
  pub stream_batch_size : ℕ
  pub lease_reclaim_limit : ℕ
  pub artifact_scan_limit : ℕ
  pub counter_scan_limit : ℕ

abbrev pub default_settings : ReconcilerSettings
default_settings = record {
  stream_batch_size = 100;
  lease_reclaim_limit = 100;
  artifact_scan_limit = 200;
  counter_scan_limit = 100;
}

pub record ReconcilerPassResult : Type 0 where
  pub republished_streams : ℕ
  pub reclaimed_tasks : List ℕ
  pub lineage_gaps : List LineageGap
  pub counter_mismatches : List JobCounterMismatch
  pub task_inconsistencies : List TaskInconsistency

pub record ReconcilerState (S : Type 0) : Type 0 where
  pub world : World S
  pub jobs : List ResearchJob
  pub lineage : LineageDb

unfoldable pub republish_missing_streams : {S : Type 0} → Redis S → ℕ → World S → Result ℕ × World S
unfolding republish_missing_stream_messages
republish_missing_streams redis batch_size w = republish_missing_stream_messages redis batch_size w

-- `if redis_client is not None`
abbrev pub repair_streams : {S : Type 0} → Option (Redis S) → ℕ → World S → Result ℕ × World S
repair_streams none batch_size w = (ok 0, w)
repair_streams (some redis) batch_size w = republish_missing_streams redis batch_size w

-- What follows the repair of the streams; the flags read the tasks after the reclaim.
abbrev pub after_streams :
    {S : Type 0}
    → ℕ
    → ReconcilerSettings
    → Result ℕ
    → World S
    → ReconcilerState S
    → Result ReconcilerPassResult × ReconcilerState S
after_streams now cfg (err e) w s = (err e, record s { world = w })
after_streams now cfg (ok republished) w s =
    let (reclaimed, db) = reclaim_task_inconsistencies now cfg.lease_reclaim_limit w.db in
    (
      ok (record {
        republished_streams = republished;
        reclaimed_tasks = reclaimed;
        lineage_gaps = flag_lineage_gaps cfg.artifact_scan_limit s.lineage;
        counter_mismatches = flag_counter_mismatches cfg.counter_scan_limit db.tasks s.jobs;
        task_inconsistencies =
            flag_task_inconsistencies cfg.lease_reclaim_limit s.lineage.artifacts db.tasks;
      }),
      record s { world = record w { db = db } },
    )

unfoldable pub run_reconciler_pass :
    {S : Type 0}
    → ℕ
    → Option (Redis S)
    → ReconcilerSettings
    → ReconcilerState S
    → Result ReconcilerPassResult × ReconcilerState S
unfolding republish_missing_streams reclaim_task_inconsistencies flag_lineage_gaps
    flag_counter_mismatches flag_task_inconsistencies
run_reconciler_pass now redis cfg s =
    let (republished, w) = repair_streams redis cfg.stream_batch_size s.world in
    after_streams now cfg republished w s
