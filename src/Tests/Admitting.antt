-- ===== src/Tests/Admitting.antt =====
-- Ticks of the scheduler over the rows of `Data`.
use trail_signal_os.Prelude.{
  ℕ, ◌≡◌, ◌≢◌, ◌≤◌, ◌<◌, ◌++◌, refl, Bool, true, false, none, some, List, [], ◌∷◌, arith, length,
  count_where, All,
}
use trail_signal_os.Store.{Task, OutboxEvent, StreamName, find_task}
use trail_signal_os.Store.Lanes.{Lane}
use trail_signal_os.Store.States.{TaskState}
use trail_signal_os.Guards.{Result, ok}
use trail_signal_os.Dispatcher.Streams.{default_streams, resolve_stream_name}
use trail_signal_os.Scheduler.Reasons.{Reason}
use trail_signal_os.Scheduler.Concurrency.{
  count_lane_in_flight, http_global, check_lane_concurrency,
}
use trail_signal_os.Scheduler.Budgets.{check_lane_budget}
use trail_signal_os.Scheduler.Dependencies.{dependencies_satisfied}
use trail_signal_os.Scheduler.Backpressure.{BacklogKey, BackpressureGate, fetch_admission_allowed}
use trail_signal_os.Scheduler.Backpressure.Hysteresis.{
  update_all, IsBehind, IsBelow, gate_has_hysteresis,
}
use trail_signal_os.Scheduler.Fairness.{AdmissionCandidate, select_fair_batch}
use trail_signal_os.Scheduler.Fairness.Batch.{select_fair_batch_lem}
use trail_signal_os.Scheduler.Admit.{AdmissionTickResult, Admission, admit_task, run_admission_tick}
use trail_signal_os.Scheduler.Admit.Gates.{Passed, admitted-Passed}
use trail_signal_os.Scheduler.Admit.Outbox.{admission_writes}
use trail_signal_os.Scheduler.Admit.Tick.{tick_keeps_limit}
use trail_signal_os.Tests.Data.{
  row, pending_db, default_config, default_weights, default_weights-IsPositive, default_marks, calm,
}

abbrev pending_row : Task
pending_row = row 1 Lane.http TaskState.pending

admitted-Passed_example : Passed default_config calm pending_db pending_row
unfolding admit_task dependencies_satisfied fetch_admission_allowed check_lane_budget
    check_lane_concurrency resolve_stream_name
admitted-Passed_example = admitted-Passed default_config 50 1 calm none pending_db refl refl

admission_writes_example :
    let (result, after) = admit_task default_config 50 1 (some calm) none pending_db in
    (name : StreamName) × (attempt : ℕ) × (e : OutboxEvent) × (resolve_stream_name default_streams
        Lane.http 1
      ≡ ok name)
    × (pending_row.state ≡ TaskState.pending → attempt ≡ 1)
    × (pending_row.state ≡ TaskState.retry_wait → attempt ≡ 2)
    × (result
        ≡ ok (record {
          task_id = 1;
          admitted = true;
          reason = Reason.admitted;
          event_id = some e.event_id;
          stream_name = some name;
        }))
    × (find_task after.db 1
        ≡ some (record (row 1 Lane.http TaskState.ready) { attempt = attempt; updated_at = 50 }))
    × (after.db.outbox ≡ [] ++ e ∷ [])
    × (e ≡ record {
      event_id = 5;
      task_id = 1;
      stream_name = name;
      payload = record {
        task_id = 1;
        job_id = 7;
        lane = Lane.http;
        priority = 1;
        attempt = attempt;
        idempotency_key = 1;
        payload_ref = 40;
        created_at = 10;
        traceparent = none;
      };
      published_at = none;
      created_at = 50;
    })
    × All (λ (f : OutboxEvent). f.event_id ≢ e.event_id) []
    × (e.event_id < after.db.next_event_id)
    × ((j : ℕ) → j ≢ 1 → find_task after.db j ≡ find_task pending_db j)
    × (after.db.dependencies ≡ pending_db.dependencies)
    × (after.db.jobs ≡ pending_db.jobs)
unfolding admit_task dependencies_satisfied fetch_admission_allowed check_lane_budget
    check_lane_concurrency resolve_stream_name
admission_writes_example =
    admission_writes default_config 50 1 calm none pending_db {t = pending_row} (refl, (refl, tt))
      tt refl refl

tick_keeps_limit_example :
    (result : Result AdmissionTickResult) × (after : Admission) × (run_admission_tick default_config
        50 10 none none pending_db
      ≡ some (result, after))
    × (count_lane_in_flight Lane.http after.db ≤ 24)
tick_keeps_limit_example =
    tick_keeps_limit default_config 50 10 none none pending_db Lane.http http_global
      default_weights-IsPositive (refl, (refl, tt)) refl (ground arith) (omega arith)

abbrev open_gate : BackpressureGate
open_gate = record { fetch_paused = false }

abbrev many : BacklogKey → ℕ
many key = 1000

gate_has_hysteresis_example :
    (((key : BacklogKey) × (default_marks.high key ≤ 1000))
      → All (IsBehind default_marks) []
      → (update_all default_marks (many ∷ []) open_gate).fetch_paused ≡ true)
    × (((key : BacklogKey) → 1000 ≤ default_marks.low key)
        → IsBelow default_marks many
        → All (IsBelow default_marks) []
        → (update_all default_marks (many ∷ []) open_gate).fetch_paused ≡ false)
gate_has_hysteresis_example = gate_has_hysteresis default_marks many [] open_gate

abbrev candidate : ℕ → ℕ → AdmissionCandidate
candidate id job = record {
  task_id = id;
  job_id = job;
  lane = Lane.http;
  priority = 1;
  created_at = id;
}

abbrev candidates : List AdmissionCandidate
candidates = candidate 1 7 ∷ candidate 2 7 ∷ candidate 3 8 ∷ []

select_fair_batch_lem_example :
    (selected : List AdmissionCandidate) × (select_fair_batch default_weights 2 candidates
      ≡ some selected)
    × (length selected ≤ 2)
    × ((p : AdmissionCandidate → Bool) → count_where p selected ≤ count_where p candidates)
    × (3 ≤ 2 → (p : AdmissionCandidate → Bool) → count_where p selected ≡ count_where p candidates)
select_fair_batch_lem_example =
    select_fair_batch_lem default_weights 2 candidates default_weights-IsPositive
