-- ===== src/Scheduler/Admit/Outbox.antt =====
-- What the transaction of an admission writes.
use trail_signal_os.Prelude.{
  ℕ, ◌+◌, ◌<◌, ◌≡◌, ◌≢◌, refl, ap, ◌∙◌, sym, true, Option, none, some, [], ◌∷◌, ◌++◌, All,
  All-map_to, arith, Option-cases, inl, inr, first, select, update,
}
use mathlib.Core.Path.{subst}
use trail_signal_os.Store.{Task, Db, OutboxEvent, StreamName, find_task}
use trail_signal_os.Store.States.{TaskState, is_admissible}
use trail_signal_os.Store.Rows.{HasUniqueIds, find-update_self, find-update_ne, find-has_id}
use trail_signal_os.Guards.{Result, ok, err, Result-cases}
use trail_signal_os.Dispatcher.Streams.{resolve_stream_name}
use trail_signal_os.Dispatcher.Enqueue.{stream_payload, new_event, insert_outbox}
use trail_signal_os.Scheduler.Reasons.{Reason}
use trail_signal_os.Scheduler.Backpressure.{BackpressureGate, BackpressureState}
use trail_signal_os.Scheduler.Budgets.{BudgetCheckResult, check_lane_budget}
use trail_signal_os.Scheduler.Admit.{
  Config, make_ready, can_admit, next_attempt, promote, after_budget, admit_row, admit_task,
  keeping,
}
use trail_signal_os.Scheduler.Admit.Gates.{was_admitted, row_admitted, after_budget-admitted}

-- The database after the admission of a row to a stream.
abbrev pub promoted : ℕ → ℕ → Task → StreamName → Db → Db
promoted now id t name db =
    insert_outbox now id name
      (stream_payload id t.job_id t.lane t.priority (next_attempt t) t.idempotency_key t.payload_ref
        t.traceparent t.created_at)
      (record db { tasks = update (can_admit id) (make_ready now (next_attempt t)) db.tasks })

promote_admits :
    (config : Config) (now : ℕ) (t : Task) (name : StreamName) (db : Db)
    → was_admitted (promote config now t name db).0 ≡ true
    → ((promote config now t name db).1 ≡ promoted now t.task_id t name db)
      × ((promote config now t name db).0
          ≡ ok (record {
            task_id = t.task_id;
            admitted = true;
            reason = Reason.admitted;
            event_id = some db.next_event_id;
            stream_name = some name;
          }))
promote_admits config now t name db h =
    elim (Option-cases (first (select (can_admit t.task_id) db.tasks))) [
      | inl lost ↦ absurd (ground arith)
      | inr (found, e) ↦ (rw e refl, rw e refl)
    ]

after_budget_admits :
    (config : Config) (now : ℕ) (t : Task) (b : Result BudgetCheckResult) (db : Db)
    → was_admitted (after_budget config now t b db).0 ≡ true
    → (name : StreamName) × (resolve_stream_name config.streams t.lane t.priority ≡ ok name)
      × (after_budget config now t b db ≡ promote config now t name db)
after_budget_admits config now t (err e) db h = absurd (ground arith)
after_budget_admits config now t (ok c) db h =
    let (_, _, allowed, slot) = after_budget-admitted config now t (ok c) db h in
    elim (Result-cases (resolve_stream_name config.streams t.lane t.priority)) [
      | inl (name, e) ↦ (name, e, ground arith)
      | inr (x, e) ↦ absurd (ground arith)
    ]

-- An admission is the transaction of `promote`.
pub admission_promotes :
    (config : Config) (now id : ℕ) (state : BackpressureState) (gate : Option BackpressureGate)
    (db : Db) {t : Task}
    → HasUniqueIds db.tasks
    → find_task db id ≡ some t
    → let (result, after) = admit_task config now id (some state) gate db in
      was_admitted result ≡ true
      → (name : StreamName) × (resolve_stream_name config.streams t.lane t.priority ≡ ok name)
        × (result
            ≡ ok (record {
              task_id = t.task_id;
              admitted = true;
              reason = Reason.admitted;
              event_id = some db.next_event_id;
              stream_name = some name;
            }))
        × (after.db ≡ promoted now t.task_id t name db)
        × (find_task after.db id ≡ some (make_ready now (next_attempt t) t))
unfolding admit_task
admission_promotes config now id state gate db {t} u e h =
    let admitted : was_admitted (admit_row config now t (some state) gate db).0 ≡ true =
      ground arith in
    let here : t.task_id ≡ id = find-has_id id db.tasks {t = t} e in
    let (waits, deps, lanes, same) = row_admitted config now t state gate db admitted in
    let budget = check_lane_budget t.job_id t.lane db in
    let (name, resolved, promotes) =
      after_budget_admits config now t budget db
        (ap (λ x. was_admitted x.0) (sym same) ∙ admitted) in
    let (written, given) = promote_admits config now t name db (
      ap (λ x. was_admitted x.0) (sym promotes)
      ∙ (ap (λ x. was_admitted x.0) (sym same) ∙ admitted)) in
    let row : find_task (promoted now t.task_id t name db) id
        ≡ some (make_ready now (next_attempt t) t) =
      subst
        (λ (k : ℕ).
          find_task (promoted now k t name db) id ≡ some (make_ready now (next_attempt t) t))
        (sym here)
        (find-update_self id (λ (s : Task). is_admissible s.state) (make_ready now (next_attempt t))
            db.tasks {t = t} (λ s. refl) e
          ∙ (rw waits refl)) in
    let whole : admit_task config now id (some state) gate db
        ≡ keeping gate (promote config now t name db) =
      rw e (same ∙ ap (keeping gate) promotes) in
    (
      name,
      resolved,
      ap (λ x. x.0) whole ∙ given,
      ap (λ x. x.1.db) whole ∙ written,
      ap (λ x. find_task x.1.db id) whole ∙ (ap (λ (d : Db). find_task d id) written ∙ row),
    )

-- Where keys are unique and the sequence of event identifiers is past those in the outbox, an
-- admission is one transaction. The row becomes READY, without a time to retry, with one attempt
-- more if it waited for a retry and the same if it was pending. The outbox has exactly one event
-- more: unpublished, under the identifier that is returned and that no earlier event has, for the
-- stream of the lane and priority, with the fields of the row and its new attempt. The sequence
-- moves past it; every other row, the dependencies and the jobs are as they were.
pub admission_writes :
    (config : Config) (now id : ℕ) (state : BackpressureState) (gate : Option BackpressureGate)
    (db : Db) {t : Task}
    → HasUniqueIds db.tasks
    → All (λ (f : OutboxEvent). f.event_id < db.next_event_id) db.outbox
    → find_task db id ≡ some t
    → let (result, after) = admit_task config now id (some state) gate db in
      was_admitted result ≡ true
      → (name : StreamName) × (attempt : ℕ) × (e : OutboxEvent) × (resolve_stream_name
            config.streams t.lane t.priority
          ≡ ok name)
        × (t.state ≡ TaskState.pending → attempt ≡ t.attempt)
        × (t.state ≡ TaskState.retry_wait → attempt ≡ t.attempt + 1)
        × (result
            ≡ ok (record {
              task_id = t.task_id;
              admitted = true;
              reason = Reason.admitted;
              event_id = some e.event_id;
              stream_name = some name;
            }))
        × (find_task after.db id
            ≡ some (record t {
              state = TaskState.ready;
              attempt = attempt;
              retry_at = none;
              updated_at = now;
            }))
        × (after.db.outbox ≡ db.outbox ++ e ∷ [])
        × (e ≡ record {
          event_id = db.next_event_id;
          task_id = t.task_id;
          stream_name = name;
          payload = record {
            task_id = t.task_id;
            job_id = t.job_id;
            lane = t.lane;
            priority = t.priority;
            attempt = attempt;
            idempotency_key = t.idempotency_key;
            payload_ref = t.payload_ref;
            created_at = t.created_at;
            traceparent = t.traceparent;
          };
          published_at = none;
          created_at = now;
        })
        × All (λ (f : OutboxEvent). f.event_id ≢ e.event_id) db.outbox
        × (e.event_id < after.db.next_event_id)
        × ((j : ℕ) → j ≢ id → find_task after.db j ≡ find_task db j)
        × (after.db.dependencies ≡ db.dependencies)
        × (after.db.jobs ≡ db.jobs)
admission_writes config now id state gate db {t} u past e h =
    let (name, resolved, given, written, row) =
      admission_promotes config now id state gate db {t = t} u e h in
    let here : t.task_id ≡ id = find-has_id id db.tasks {t = t} e in
    let event =
      new_event now t.task_id name
        (stream_payload t.task_id t.job_id t.lane t.priority (next_attempt t) t.idempotency_key
          t.payload_ref t.traceparent t.created_at)
        db in
    (
      name,
      next_attempt t,
      event,
      resolved,
      (λ pending. ground arith),
      (λ waits. ground arith),
      given,
      row,
      ap (λ (d : Db). d.outbox) written,
      refl,
      All-map_to _ _ db.outbox (λ f before. omega arith) past,
      rw written (omega arith),
      (λ j other.
          ap (λ (d : Db). find_task d j) written
          ∙ find-update_ne j t.task_id (λ (s : Task). is_admissible s.state)
              (make_ready now (next_attempt t)) db.tasks (λ s. refl) (λ same. other (same ∙ here))),
      ap (λ (d : Db). d.dependencies) written,
      ap (λ (d : Db). d.jobs) written,
    )
