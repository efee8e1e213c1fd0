-- ===== src/Retries/Handle/Outcomes.antt =====
-- What becomes of a task whose failure is handled.
use trail_signal_os.Prelude.{
  ℕ, ◌+◌, ◌≤◌, ◌<◌, ◌≡◌, ◌≢◌, refl, ap, ◌∙◌, sym, Bool, true, false, Option, none, some, List,
  arith, keep_if,
}
use mathlib.Core.Path.{subst}
use trail_signal_os.Store.{Task, Db, has_id, find_task}
use trail_signal_os.Store.States.{TaskState}
use trail_signal_os.Store.Rows.{
  HasUniqueIds, find-update_id, find-update_id_ne, count_where_id, update-HasUniqueIds,
}
use trail_signal_os.Guards.{Result, ok, err, stale_lease}
use trail_signal_os.Leases.Fencing.{Assignment, update_task_fenced}
use trail_signal_os.Leases.Exclusion.{holds, update_task_fenced_stale}
use trail_signal_os.Retries.Classifier.{
  ErrorCode, FailureAction, FailureClassification, classify_failure,
}
use trail_signal_os.Retries.Backoff.Bounds.{compute_backoff_returns}
use trail_signal_os.Retries.Registry.{get, allow_request_at}
use trail_signal_os.Retries.DeadLetter.{terminate, send_to_dead_letter}
use trail_signal_os.Retries.Handle.{
  FailureReport, HandledAction, FailureHandlingResult, Control, wait_for_retry, set_retry_wait,
  count_failure, next_time, backoff_at, schedule_retry, handle_task_failure, degradation,
}

abbrev pub classified_of : FailureReport → Result FailureClassification
classified_of rep = classify_failure rep.status_code rep.error_code rep.escalation

-- Where keys are unique, a task whose failure is retryable but that has used its attempts goes to
-- DEAD_LETTER, and the circuits are as they were.
pub exhausted_goes_to_dead_letter :
    (now jitter : ℕ) (rep : FailureReport) (s : Control) {c : FailureClassification} {t : Task}
    → HasUniqueIds s.db.tasks
    → find_task s.db rep.task_id ≡ some t
    → classified_of rep ≡ ok c
    → c.action ≡ FailureAction.retry_wait
    → rep.max_attempts ≤ rep.attempt
    → let (result, s') = handle_task_failure now jitter rep s in
      (r : FailureHandlingResult) × (result ≡ ok r)
      × (r.action ≡ HandledAction.dead_letter)
      × (find_task s'.db rep.task_id ≡ some (terminate now TaskState.dead_letter t))
      × (s'.circuits ≡ s.circuits)
unfolding handle_task_failure send_to_dead_letter
exhausted_goes_to_dead_letter now jitter rep s {c} {t} u e ec a h = (
  record {
    task_id = rep.task_id;
    failure_class = c.failure_class;
    action = HandledAction.dead_letter;
    retry_at = none;
    attempt = some rep.attempt;
    degradation_event = none;
    circuit_state = none;
  },
  ground (arith, count_where_id rep.task_id s.db.tasks {t = t} u e),
  refl,
  ground (
    arith,
    count_where_id rep.task_id s.db.tasks {t = t} u e,
    find-update_id rep.task_id (terminate now TaskState.dead_letter) s.db.tasks {t = t} (λ x. refl)
        e,
  ),
  ground (arith, count_where_id rep.task_id s.db.tasks {t = t} u e),
)

backoff_returns :
    (now jitter : ℕ) (rep : FailureReport) (f : ErrorCode)
    → rep.attempt < 1024
    → (r : ℕ) × (backoff_at now jitter rep f ≡ ok r)
backoff_returns now jitter rep f h =
    let (delay, e) =
      compute_backoff_returns (rep.attempt + 1) rep.lane f rep.retry_after jitter (omega arith) in
    (now + delay, rw e refl)

next_time_returns :
    (allowed : Bool) (cooldown : Option ℕ) {b : Result ℕ}
    → (r : ℕ) × (b ≡ ok r)
    → (r : ℕ) × (next_time allowed cooldown b ≡ ok r)
next_time_returns true cooldown h = h
next_time_returns false none h = h
next_time_returns false (some until) h = (until, refl)

-- The retry branch writes the row, at a time that it returns.
schedule_retry_lem :
    (now jitter : ℕ) (rep : FailureReport) (c : FailureClassification) (s : Control) {t : Task}
    → find_task s.db rep.task_id ≡ some t
    → rep.attempt < 1024
    → let (result, s') = schedule_retry now jitter rep c s in
      (r : FailureHandlingResult) × (at : ℕ) × (result ≡ ok r)
      × (r.action ≡ HandledAction.retry_wait)
      × (r.retry_at ≡ some at)
      × (r.attempt ≡ some (rep.attempt + 1))
      × (s'.db ≡ set_retry_wait now rep.task_id at (rep.attempt + 1) s.db)
unfolding schedule_retry
schedule_retry_lem now jitter rep c s e h =
    let (transition, counted) = count_failure now rep c s.circuits in
    let (allowed, asked) = allow_request_at rep.route_key now counted in
    let circuit = get rep.route_key asked in
    let (at, found) =
      next_time_returns allowed circuit.cooldown_until
        (backoff_returns now jitter rep c.failure_class h) in
    (
      record {
        task_id = rep.task_id;
        failure_class = c.failure_class;
        action = HandledAction.retry_wait;
        retry_at = some at;
        attempt = some (rep.attempt + 1);
        degradation_event = degradation now rep transition;
        circuit_state = some circuit.state;
      },
      at,
      rw found refl,
      refl,
      refl,
      refl,
      rw found refl,
    )

-- A call that may retry and has attempts left is `schedule_retry`.
pub handle_is_schedule :
    (now jitter : ℕ) (rep : FailureReport) (s : Control) {c : FailureClassification}
    → classified_of rep ≡ ok c
    → c.action ≡ FailureAction.retry_wait
    → rep.attempt < rep.max_attempts
    → handle_task_failure now jitter rep s ≡ schedule_retry now jitter rep c s
unfolding handle_task_failure
handle_is_schedule now jitter rep s {c} ec a h = ground arith

-- A retryable failure with attempts left, of an attempt below 1024, returns, and leaves the row in
-- RETRY_WAIT until the time that is returned, with the attempt of the report and one more, no owner
-- and no end of a lease, and the next lease generation; the other fields but the time of the update
-- are as they were. That is so whatever the state of the row was and whoever held its lease: the
-- write is not fenced. Every other row is as it was.
pub retryable_waits :
    (now jitter : ℕ) (rep : FailureReport) (s : Control) {c : FailureClassification} {t : Task}
    → find_task s.db rep.task_id ≡ some t
    → classified_of rep ≡ ok c
    → c.action ≡ FailureAction.retry_wait
    → rep.attempt < rep.max_attempts
    → rep.attempt < 1024
    → let (result, s') = handle_task_failure now jitter rep s in
      (r : FailureHandlingResult) × (at : ℕ) × (result ≡ ok r)
      × (r.action ≡ HandledAction.retry_wait)
      × (r.retry_at ≡ some at)
      × (r.attempt ≡ some (rep.attempt + 1))
      × (find_task s'.db rep.task_id
          ≡ some (record t {
            state = TaskState.retry_wait;
            retry_at = some at;
            attempt = rep.attempt + 1;
            lease_owner = none;
            lease_generation = t.lease_generation + 1;
            lease_expires_at = none;
            updated_at = now;
          }))
      × ((j : ℕ) → j ≢ rep.task_id → find_task s'.db j ≡ find_task s.db j)
retryable_waits now jitter rep s {c} {t} e ec a room h =
    let (r, at, er, act, time, next, written) = schedule_retry_lem now jitter rep c s {t = t} e h in
    let same = handle_is_schedule now jitter rep s {c = c} ec a room in
    (
      r,
      at,
      ap (λ x. x.0) same ∙ er,
      act,
      time,
      next,
      ap (λ x. find_task x.1.db rep.task_id) same
          ∙ (ap (λ (d : Db). find_task d rep.task_id) written
              ∙ find-update_id rep.task_id (wait_for_retry now at (rep.attempt + 1)) s.db.tasks
                  {t = t} (λ x. refl) e),
      (λ j other.
          ap (λ x. find_task x.1.db j) same
          ∙ (ap (λ (d : Db). find_task d j) written
              ∙ find-update_id_ne j rep.task_id (wait_for_retry now at (rep.attempt + 1)) s.db.tasks
                  (λ x. refl) other)),
    )

-- The keys of the table stay unique.
pub retry-HasUniqueIds :
    (now jitter : ℕ) (rep : FailureReport) (s : Control) {c : FailureClassification} {t : Task}
    → HasUniqueIds s.db.tasks
    → find_task s.db rep.task_id ≡ some t
    → classified_of rep ≡ ok c
    → c.action ≡ FailureAction.retry_wait
    → rep.attempt < rep.max_attempts
    → rep.attempt < 1024
    → HasUniqueIds (handle_task_failure now jitter rep s).1.db.tasks
retry-HasUniqueIds now jitter rep s {c} {t} u e ec a room h =
    let (_, at, _, _, _, _, written) = schedule_retry_lem now jitter rep c s {t = t} e h in
    let same = handle_is_schedule now jitter rep s {c = c} ec a room in
    subst (λ (d : Db). HasUniqueIds d.tasks) (sym (ap (λ x. x.1.db) same ∙ written))
      (update-HasUniqueIds (has_id rep.task_id) (wait_for_retry now at (rep.attempt + 1)) s.db.tasks
        (λ x. refl) u)

-- Where keys are unique, after a retryable failure with attempts left, of an attempt below 1024, a
-- fenced write of the task by any worker at any generation is refused and changes nothing.
pub retry_revokes_lease :
    (now jitter : ℕ) (rep : FailureReport) (s : Control) {c : FailureClassification} {t : Task}
    (later w g : ℕ) (st : TaskState) (res : Option ℕ) (ex : List Assignment)
    → HasUniqueIds s.db.tasks
    → find_task s.db rep.task_id ≡ some t
    → classified_of rep ≡ ok c
    → c.action ≡ FailureAction.retry_wait
    → rep.attempt < rep.max_attempts
    → rep.attempt < 1024
    → let db' = (handle_task_failure now jitter rep s).1.db in
      update_task_fenced later rep.task_id w g st res ex db' ≡ (err stale_lease, db')
retry_revokes_lease now jitter rep s {c} {t} later w g st res ex u e ec a room h =
    let (_, _, _, _, _, _, row, _) =
      retryable_waits now jitter rep s {c = c} {t = t} e ec a room h in
    let unique = retry-HasUniqueIds now jitter rep s {c = c} {t = t} u e ec a room h in
    update_task_fenced_stale later rep.task_id w g st res ex
      (handle_task_failure now jitter rep s).1.db unique (ap (keep_if (holds w g)) row)
