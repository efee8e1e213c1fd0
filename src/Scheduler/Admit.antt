-- ===== src/Scheduler/Admit.antt =====
-- control/scheduler/admit.py. The configuration files that the checks load are one argument.
pub mod Gates
pub mod Outbox
pub mod Tick
pub mod Retry
pub mod Paused
use trail_signal_os.Prelude.{
  ℕ, ◌+◌, Bool, true, false, ◌&&◌, ◌||◌, not, Option, none, some, List, [], ◌∷◌, ◌++◌, ◌==◌,
  if◌then◌else◌, first, select, update, map, length,
}
use trail_signal_os.Store.{Task, Db, StreamName, has_id, find_task}
use trail_signal_os.Store.Lanes.{Lane}
use trail_signal_os.Store.States.{TaskState, is_pending, is_retry_wait, is_admissible}
use trail_signal_os.Guards.{Result, ok, err, value_error, ◌>>=◌}
use trail_signal_os.Dispatcher.Streams.{StreamsConfig, resolve_stream_name}
use trail_signal_os.Dispatcher.Enqueue.{stream_payload, insert_outbox}
use trail_signal_os.Scheduler.Reasons.{
  Reason, task_not_found, dependencies_unsatisfied, backpressure_paused, state_changed, admitted,
  state_of,
}
use trail_signal_os.Scheduler.Budgets.{BudgetCheckResult, check_lane_budget}
use trail_signal_os.Scheduler.Concurrency.{Limits, check_lane_concurrency}
use trail_signal_os.Scheduler.Backpressure.{
  Watermarks, BackpressureGate, BackpressureState, fetch_admission_allowed, measure_backpressure,
}
use trail_signal_os.Scheduler.Fairness.{AdmissionCandidate, PollWeights, select_fair_batch}
use trail_signal_os.Scheduler.Dependencies.{dependencies_satisfied, fetch_admission_candidates}

pub record Config : Type 0 where
  pub streams : StreamsConfig
  pub limits : Limits
  pub watermarks : Watermarks
  pub weights : PollWeights

pub record AdmissionResult : Type 0 where
  pub task_id : ℕ
  pub admitted : Bool
  pub reason : Reason
  pub event_id : Option ℕ
  pub stream_name : Option StreamName

-- What a call leaves: the database, and the gate that backpressure may have changed.
pub record Admission : Type 0 where
  pub db : Db
  pub gate : Option BackpressureGate

abbrev pub denied : ℕ → Reason → AdmissionResult
denied task_id reason = record {
  task_id = task_id;
  admitted = false;
  reason = reason;
  event_id = none;
  stream_name = none;
}

-- `attempt + 1 if state == "RETRY_WAIT" else attempt`
abbrev pub next_attempt : Task → ℕ
next_attempt t = if is_retry_wait t.state then t.attempt + 1 else t.attempt

-- The SET and the WHERE clause of the update.
abbrev pub make_ready : ℕ → ℕ → Task → Task
make_ready now attempt t = record t {
  state = TaskState.ready;
  attempt = attempt;
  retry_at = none;
  updated_at = now;
}

abbrev pub can_admit : ℕ → Task → Bool
can_admit task_id t = has_id task_id t && is_admissible t.state

-- The transaction: the update, and the outbox row if the update found the task.
abbrev pub promote : Config → ℕ → Task → StreamName → Db → Result AdmissionResult × Db
promote config now t stream_name db = go (first (select (can_admit t.task_id) db.tasks))
  where
    go : Option Task → Result AdmissionResult × Db
    go none = (ok (denied t.task_id state_changed), db)
    go (some found) = (
      ok (record {
        task_id = t.task_id;
        admitted = true;
        reason = Reason.admitted;
        event_id = some db.next_event_id;
        stream_name = some stream_name;
      }),
      insert_outbox now t.task_id stream_name
          (stream_payload t.task_id t.job_id t.lane t.priority (next_attempt t) t.idempotency_key
            t.payload_ref t.traceparent t.created_at)
          (record db {
            tasks = update (can_admit t.task_id) (make_ready now (next_attempt t)) db.tasks;
          }),
    )

abbrev pub promote_on : Config → ℕ → Task → Result StreamName → Db → Result AdmissionResult × Db
promote_on config now t (err e) db = (err e, db)
promote_on config now t (ok stream_name) db = promote config now t stream_name db

-- From the budget check on.
abbrev pub after_budget :
    Config → ℕ → Task → Result BudgetCheckResult → Db → Result AdmissionResult × Db
after_budget config now t (err e) db = (err e, db)
after_budget config now t (ok budget) db =
    let concurrency = check_lane_concurrency config.limits t.lane db in
    if not budget.allowed
    then (ok (denied t.task_id budget.reason), db)
    else if not concurrency.allowed
    then (ok (denied t.task_id concurrency.reason), db)
    else promote_on config now t (resolve_stream_name config.streams t.lane t.priority) db

abbrev pub keeping :
    Option BackpressureGate → Result AdmissionResult × Db → Result AdmissionResult × Admission
keeping gate (result, db) = (result, record { db = db; gate = gate })

-- From the row on.
unfoldable pub admit_row :
    Config
    → ℕ
    → Task
    → Option BackpressureState
    → Option BackpressureGate
    → Db
    → Result AdmissionResult × Admission
admit_row config now t backpressure gate db =
    let (allowed, gate') = fetch_admission_allowed config.watermarks t.lane backpressure gate db in
    if not (is_admissible t.state)
    then (ok (denied t.task_id (state_of t.state)), record { db = db; gate = gate })
    else if is_pending t.state && not (dependencies_satisfied db t.task_id)
    then (ok (denied t.task_id dependencies_unsatisfied), record { db = db; gate = gate })
    else if not allowed
    then (ok (denied t.task_id backpressure_paused), record { db = db; gate = gate' })
    else keeping gate' (after_budget config now t (check_lane_budget t.job_id t.lane db) db)

unfoldable pub admit_task :
    Config
    → ℕ
    → ℕ
    → Option BackpressureState
    → Option BackpressureGate
    → Db
    → Result AdmissionResult × Admission
unfolding admit_row
admit_task config now task_id backpressure gate db = go (find_task db task_id)
  where
    go : Option Task → Result AdmissionResult × Admission
    go none = (ok (denied task_id task_not_found), record { db = db; gate = gate })
    go (some t) = admit_row config now t backpressure gate db

pub record AdmissionTickResult : Type 0 where
  pub examined : ℕ
  pub admitted : List AdmissionResult
  pub denied : List AdmissionResult

abbrev pub noted : AdmissionResult → AdmissionTickResult → AdmissionTickResult
noted r tick =
    if r.admitted
    then record tick { admitted = tick.admitted ++ r ∷ [] }
    else record tick { denied = tick.denied ++ r ∷ [] }

-- The loop over the selected candidates; an exception ends it.
unfoldable pub admit_each :
    Config
    → ℕ
    → BackpressureState
    → List AdmissionCandidate
    → AdmissionTickResult
    → Admission
    → Result AdmissionTickResult × Admission
admit_each config now state [] tick s = (ok tick, s)
admit_each config now state (c ∷ cs) tick s =
    let (result, s') = admit_task config now c.task_id (some state) s.gate s.db in
    elim result [ err e ↦ (err e, s') | ok r ↦ admit_each config now state cs (noted r tick) s' ]

abbrev pub gate_or_new : Option BackpressureGate → BackpressureGate
gate_or_new none = record { fetch_paused = false }
gate_or_new (some gate) = gate

-- `run_admission_tick`; `none` means that the fuel of the selection ran out.
unfoldable pub run_admission_tick :
    Config
    → ℕ
    → ℕ
    → Option Lane
    → Option BackpressureGate
    → Db
    → Option (Result AdmissionTickResult × Admission)
unfolding admit_each
run_admission_tick config now batch_limit lane gate db =
    let (state, gate') = measure_backpressure config.watermarks (some (gate_or_new gate)) db in
    go state gate'
      (select_fair_batch config.weights batch_limit (fetch_admission_candidates now lane db))
  where
    go :
        BackpressureState
        → Option BackpressureGate
        → Option (List AdmissionCandidate)
        → Option (Result AdmissionTickResult × Admission)
    go state gate' none = none
    go state gate' (some selected) = some (
        admit_each config now state selected
          (record { examined = length selected; admitted = []; denied = [] })
          (record { db = db; gate = gate' }))
