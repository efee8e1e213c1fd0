-- ===== src/Tests/Retrying.antt =====
-- Failures of one leased task.
use trail_signal_os.Prelude.{ℕ, ◌≡◌, ◌≢◌, refl, none, some, [], ◌∷◌, arith}
use trail_signal_os.Store.{Task, Db, find_task, max_fetched_urls}
use trail_signal_os.Store.Lanes.{Lane}
use trail_signal_os.Store.States.{TaskState}
use trail_signal_os.Guards.{ok, err, stale_lease}
use trail_signal_os.Leases.Fencing.{update_task_fenced}
use trail_signal_os.Retries.Classifier.{classify_failure}
use trail_signal_os.Retries.Registry.{get, allow_request_at, record_failure_at}
use trail_signal_os.Retries.Backoff.{compute_backoff_seconds, raw_delay}
use trail_signal_os.Scheduler.Backpressure.{fetch_admission_allowed}
use trail_signal_os.Scheduler.Budgets.{check_lane_budget}
use trail_signal_os.Scheduler.Concurrency.{check_lane_concurrency}
use trail_signal_os.Dispatcher.Streams.{resolve_stream_name}
use trail_signal_os.Retries.Circuit.{
  CircuitState, RouteCircuit, default_config, fresh, allow_request, record_failure,
}
use trail_signal_os.Retries.Handle.{
  FailureReport, Control, FailureHandlingResult, HandledAction, handle_task_failure,
}
use trail_signal_os.Retries.Handle.Deferral.{open_circuit_defers}
use trail_signal_os.Retries.Handle.Outcomes.{retryable_waits, retry_revokes_lease}
use trail_signal_os.Scheduler.Admit.{admit_task, denied}
use trail_signal_os.Scheduler.Admit.Retry.{retry_counts_itself, retry_counts_twice}
use trail_signal_os.Scheduler.Reasons.{budget_exhausted}
use trail_signal_os.Tests.Data.{leased_db, leased_row, row, db_of, default_config as config, calm}

-- The first attempt of task 1 got a 503.
abbrev report : FailureReport
report = record {
  task_id = 1;
  job_id = 7;
  domain = 2;
  route_key = 5;
  lane = Lane.http;
  attempt = 1;
  max_attempts = 3;
  config_hash = 0;
  status_code = some 503;
  error_code = none;
  escalation = none;
  retry_after = none;
  event_id_prefix = 0;
}

abbrev last_report : FailureReport
last_report = record report { attempt = 3 }

abbrev control : Control
control = record { db = leased_db; circuits = record { config = default_config; circuits = [] } }

abbrev tripped : RouteCircuit
tripped = record (fresh 5 default_config) {
  state = CircuitState.open_state;
  open_count = 1;
  consecutive_failures = 10;
  cooldown_until = some 900;
}

abbrev tripped_control : Control
tripped_control = record {
  db = leased_db;
  circuits = record { config = default_config; circuits = (5, tripped) ∷ [] };
}

retryable_waits_example :
    let (result, s') = handle_task_failure 50 1000000 report control in
    (r : FailureHandlingResult) × (at : ℕ) × (result ≡ ok r)
    × (r.action ≡ HandledAction.retry_wait)
    × (r.retry_at ≡ some at)
    × (r.attempt ≡ some 2)
    × (find_task s'.db 1
        ≡ some (record (row 1 Lane.http TaskState.retry_wait) {
          retry_at = some at;
          attempt = 2;
          lease_generation = 4;
          updated_at = 50;
        }))
    × ((j : ℕ) → j ≢ 1 → find_task s'.db j ≡ find_task leased_db j)
unfolding classify_failure
retryable_waits_example =
    retryable_waits 50 1000000 report control refl refl refl (omega arith) (omega arith)

retry_revokes_lease_example :
    let db' = (handle_task_failure 50 1000000 report control).1.db in
    update_task_fenced 60 1 8 3 TaskState.succeeded none [] db' ≡ (err stale_lease, db')
unfolding classify_failure
retry_revokes_lease_example =
    retry_revokes_lease 50 1000000 report control 60 8 3 TaskState.succeeded none []
      (refl, (refl, tt)) refl refl refl (omega arith) (omega arith)

open_circuit_defers_example :
    find_task (handle_task_failure 50 1000000 report tripped_control).1.db 1
    ≡ some (record (row 1 Lane.http TaskState.retry_wait) {
      retry_at = some 900;
      attempt = 2;
      lease_generation = 4;
      updated_at = 50;
    })
unfolding classify_failure get
open_circuit_defers_example =
    open_circuit_defers 50 1000000 report tripped_control refl refl refl (omega arith) refl refl
      (omega arith)

-- The job may spend two, and has spent them: on task 2, and on task 1 itself.
abbrev waiting_db : Db
waiting_db = db_of (
    record (row 1 Lane.http TaskState.retry_wait) { retry_at = some 40; attempt = 2 }
    ∷ row 2 Lane.http TaskState.succeeded
    ∷ [])

retry_counts_itself_example :
    let (result, after) = admit_task config 50 1 (some calm) none waiting_db in
    (result ≡ ok (denied 1 budget_exhausted)) × (after.db ≡ waiting_db)
retry_counts_itself_example =
    retry_counts_itself config 50 1 calm none waiting_db max_fetched_urls 2 (refl, (refl, tt)) refl
      refl refl refl refl (omega arith)

abbrev lone_control : Control
lone_control = record {
  db = db_of (leased_row 1 8 100 ∷ []);
  circuits = record { config = default_config; circuits = [] };
}

retry_counts_twice_example :
    (t : Task) × (find_task
        (admit_task config 5000000000 1
          (some calm)
          none
          (handle_task_failure 50 1000000 report lone_control).1.db).1.db
        1
      ≡ some t)
    × (t.state ≡ TaskState.ready)
    × (t.attempt ≡ 3)
unfolding classify_failure handle_task_failure admit_task allow_request_at allow_request
    record_failure_at record_failure compute_backoff_seconds raw_delay fetch_admission_allowed
    check_lane_budget check_lane_concurrency resolve_stream_name
retry_counts_twice_example =
    retry_counts_twice 50 1000000 report lone_control config 5000000000 calm none (refl, tt) refl
      refl refl refl (omega arith) (omega arith) refl
