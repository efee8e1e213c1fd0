-- ===== src/Scheduler/Admit/Retry.antt =====
-- A task that waits for its retry, at the gates of admission.
use trail_signal_os.Prelude.{
  ℕ, suc, ◌+◌, ◌≤◌, ◌<◌, ◌≡◌, refl, true, false, Option, some, arith, count_where,
}
use trail_signal_os.Store.{Task, Db, find_task, BudgetField, find_job}
use trail_signal_os.Store.States.{TaskState}
use trail_signal_os.Store.Rows.{HasUniqueIds}
use trail_signal_os.Store.Counts.{is_other, count_where_others}
use trail_signal_os.Guards.{ok}
use trail_signal_os.Scheduler.Reasons.{budget_exhausted}
use trail_signal_os.Scheduler.Budgets.{
  lane_budget_field, budget_limit, count_lane_spend, spends, check_lane_budget,
}
use trail_signal_os.Scheduler.Backpressure.{
  BackpressureGate, BackpressureState, fetch_admission_allowed,
}
use trail_signal_os.Scheduler.Admit.{Config, admit_task, denied}
use trail_signal_os.Scheduler.Admit.Gates.{was_admitted}
use trail_signal_os.Scheduler.Admit.Outbox.{admission_promotes}
use trail_signal_os.Retries.Classifier.{FailureAction, FailureClassification}
use trail_signal_os.Retries.Handle.{FailureReport, Control, handle_task_failure}
use trail_signal_os.Retries.Handle.Outcomes.{classified_of, retryable_waits, retry-HasUniqueIds}

spends_waiting : (t : Task) → t.state ≡ TaskState.retry_wait → spends t.job_id t.lane t ≡ true
spends_waiting t w = ground arith

-- Where keys are unique and nothing is paused, a task in RETRY_WAIT counts against the budget of
-- its own job: it is denied as soon as the other tasks of its job and lane have used all of the
-- limit but one, and the database is as it was.
pub retry_counts_itself :
    (config : Config) (now id : ℕ) (state : BackpressureState) (gate : Option BackpressureGate)
    (db : Db) {t : Task} (field : BudgetField) (limit : ℕ)
    → HasUniqueIds db.tasks
    → find_task db id ≡ some t
    → t.state ≡ TaskState.retry_wait
    → state.paused ≡ false
    → lane_budget_field t.lane ≡ some field
    → budget_limit (find_job db t.job_id) field ≡ ok limit
    → limit ≤ suc (count_where (is_other id (spends t.job_id t.lane)) db.tasks)
    → let (result, after) = admit_task config now id (some state) gate db in
      (result ≡ ok (denied t.task_id budget_exhausted)) × (after.db ≡ db)
unfolding admit_task check_lane_budget fetch_admission_allowed
retry_counts_itself config now id state gate db {t} field limit u e w p f l h =
    let counted = count_where_others (spends t.job_id t.lane) id db.tasks {t = t} u e in
    let itself : spends t.job_id t.lane t ≡ true = spends_waiting t w in
    let full : limit ≤ count_lane_spend t.job_id t.lane db = rw counted (rw itself (omega arith)) in
    (ground arith, ground arith)

-- Where keys are unique and the report carries the attempt of the row, a retryable failure with
-- attempts left, of an attempt below 1024, and an admission right after it raise the attempt of the
-- row by two: each of them counts the attempt.
pub retry_counts_twice :
    (now jitter : ℕ) (rep : FailureReport) (s : Control) {c : FailureClassification} {t : Task}
    (config : Config) (later : ℕ) (state : BackpressureState) (gate : Option BackpressureGate)
    → HasUniqueIds s.db.tasks
    → find_task s.db rep.task_id ≡ some t
    → t.attempt ≡ rep.attempt
    → classified_of rep ≡ ok c
    → c.action ≡ FailureAction.retry_wait
    → rep.attempt < rep.max_attempts
    → rep.attempt < 1024
    → let db' = (handle_task_failure now jitter rep s).1.db in
      let (result, after) = admit_task config later rep.task_id (some state) gate db' in
      was_admitted result ≡ true
      → (row : Task) × (find_task after.db rep.task_id ≡ some row)
        × (row.state ≡ TaskState.ready)
        × (row.attempt ≡ t.attempt + 2)
retry_counts_twice now jitter rep s {c} {t} config later state gate u e reported ec a room h
      admitted =
    let db' = (handle_task_failure now jitter rep s).1.db in
    let (_, _, _, _, _, _, row, _) =
      retryable_waits now jitter rep s {c = c} {t = t} e ec a room h in
    let unique = retry-HasUniqueIds now jitter rep s {c = c} {t = t} u e ec a room h in
    let (_, _, _, _, found) =
      admission_promotes config later rep.task_id state gate db' unique row admitted in
    (_, found, refl, omega arith)
