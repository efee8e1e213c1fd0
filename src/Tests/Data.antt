-- ===== src/Tests/Data.antt =====
-- Tables of a few rows.
use trail_signal_os.Prelude.{ℕ, false, zero, suc, Option, none, some, List, [], ◌∷◌, arith}
use trail_signal_os.Store.{Task, Db, BudgetField}
use trail_signal_os.Store.Lanes.{Lane}
use trail_signal_os.Store.States.{TaskState}
use trail_signal_os.Dispatcher.Streams.{default_streams}
use trail_signal_os.Scheduler.Concurrency.{default_limits}
use trail_signal_os.Scheduler.Backpressure.{
  BacklogKey, extract_backlog, enrich_backlog, index_backlog, Watermarks, BackpressureState,
}
use trail_signal_os.Scheduler.Reasons.{downstream_below_high_watermark}
use trail_signal_os.Scheduler.Fairness.{PollWeights}
use trail_signal_os.Scheduler.Fairness.Batch.{IsPositive}
use trail_signal_os.Scheduler.Admit.{Config}

abbrev pub row : ℕ → Lane → TaskState → Task
row id lane state = record {
  task_id = id;
  job_id = 7;
  task_kind = none;
  lane = lane;
  priority = 1;
  attempt = 1;
  state = state;
  idempotency_key = id;
  payload_ref = 40;
  traceparent = none;
  not_before = none;
  retry_at = none;
  lease_owner = none;
  lease_generation = 3;
  lease_expires_at = none;
  last_heartbeat_at = none;
  result_artifact_id = none;
  completed_at = none;
  provenance = 0;
  created_at = 10;
  updated_at = 10;
}

abbrev pub leased_row : ℕ → ℕ → ℕ → Task
leased_row id worker until = record (row id Lane.http TaskState.leased) {
  lease_owner = some worker;
  lease_expires_at = some until;
}

abbrev budget_of_two : BudgetField → Option ℕ
budget_of_two field = some 2

abbrev pub db_of : List Task → Db
db_of tasks = record {
  tasks = tasks;
  dependencies = [];
  jobs = record { job_id = 7; budget = budget_of_two } ∷ [];
  outbox = [];
  next_event_id = 5;
  artifacts = [];
}

abbrev pub ready_db : Db
ready_db = db_of (row 1 Lane.http TaskState.ready ∷ row 2 Lane.http TaskState.ready ∷ [])

abbrev pub leased_db : Db
leased_db = db_of (leased_row 1 8 100 ∷ leased_row 2 9 200 ∷ [])

abbrev pub pending_db : Db
pending_db = db_of (row 1 Lane.http TaskState.pending ∷ row 2 Lane.index TaskState.ready ∷ [])

-- config/phases.yaml
abbrev high_marks : BacklogKey → ℕ
high_marks extract_backlog = 500
high_marks enrich_backlog = 300
high_marks index_backlog = 1000

abbrev low_marks : BacklogKey → ℕ
low_marks extract_backlog = 200
low_marks enrich_backlog = 100
low_marks index_backlog = 400

abbrev pub default_marks : Watermarks
default_marks = record { high = high_marks; low = low_marks }

-- Marks that one task reaches.
abbrev one_of_each : BacklogKey → ℕ
one_of_each key = 1

abbrev none_of_each : BacklogKey → ℕ
none_of_each key = 0

abbrev pub small_marks : Watermarks
small_marks = record { high = one_of_each; low = none_of_each }

-- config/queues.yaml
abbrev pub default_weights : PollWeights
default_weights = record { high = some 8; normal = some 4; bulk = some 1 }

pub default_weights-IsPositive : IsPositive default_weights
default_weights-IsPositive zero = omega arith
default_weights-IsPositive (suc zero) = omega arith
default_weights-IsPositive (suc (suc zero)) = omega arith
default_weights-IsPositive (suc (suc (suc n))) = omega arith

abbrev pub default_config : Config
default_config = record {
  streams = default_streams;
  limits = default_limits;
  watermarks = default_marks;
  weights = default_weights;
}

abbrev pub small_config : Config
small_config = record default_config { watermarks = small_marks }

abbrev pub calm : BackpressureState
calm = record {
  paused = false;
  reason = downstream_below_high_watermark;
  backlogs = none_of_each;
  watermarks = default_marks;
}
