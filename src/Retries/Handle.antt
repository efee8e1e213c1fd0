-- ===== src/Retries/Handle.antt =====
-- control/retries/handle.py: what `handle_task_failure` does to the tasks table
-- and to the circuits. The route key is the text that its first lines join; `jitter` is what the
-- random source gives, should a backoff be computed.
pub mod Outcomes
pub mod Deferral
use trail_signal_os.Prelude.{
  ℕ, ◌+◌, Bool, true, false, ◌&&◌, Option, none, some, List, ◌==◌, ltb, if◌then◌else◌, ℤ, update,
  count_where,
}
use trail_signal_os.Store.{Task, Db, has_id, find_task}
use trail_signal_os.Store.Lanes.{Lane}
use trail_signal_os.Store.States.{TaskState}
use trail_signal_os.Guards.{Result, ok, err, lookup_error}
use trail_signal_os.Retries.Classifier.{
  ErrorCode, FailureAction, FailureClassification, classify_failure,
}
use trail_signal_os.Retries.Backoff.{compute_backoff_seconds, retry_at_from_delay}
use trail_signal_os.Retries.Circuit.{
  CircuitState, RouteCircuit, CircuitTransition, EventType, circuit_open, circuit_close,
  probe_allowed,
}
use trail_signal_os.Retries.DeadLetter.{DeadLetterResult, set_terminal_state, send_to_dead_letter}
use trail_signal_os.Retries.Registry.{
  CircuitRegistry, get, allow_request_at, record_failure_at, record_success_at, EventId,
  DegradationEvent, build_degradation_event, open_of,
}

-- The arguments of one call.
pub record FailureReport : Type 0 where
  pub task_id : ℕ
  pub job_id : ℕ
  pub domain : ℕ
  pub route_key : ℕ
  pub lane : Lane
  pub attempt : ℕ
  pub max_attempts : ℕ
  pub config_hash : ℕ
  pub status_code : Option ℕ
  pub error_code : Option ErrorCode
  pub escalation : Option ℕ
  pub retry_after : Option ℤ
  pub event_id_prefix : ℕ

pub data HandledAction : Type 0 where
  blocked failed dead_letter retry_wait : HandledAction

pub record FailureHandlingResult : Type 0 where
  pub task_id : ℕ
  pub failure_class : ErrorCode
  pub action : HandledAction
  pub retry_at : Option ℕ
  pub attempt : Option ℕ
  pub degradation_event : Option DegradationEvent
  pub circuit_state : Option CircuitState

-- The database and the registry that the call changes.
pub record Control : Type 0 where
  pub db : Db
  pub circuits : CircuitRegistry

abbrev pub wait_for_retry : ℕ → ℕ → ℕ → Task → Task
wait_for_retry now retry_at attempt t = record t {
  state = TaskState.retry_wait;
  retry_at = some retry_at;
  attempt = attempt;
  lease_owner = none;
  lease_generation = t.lease_generation + 1;
  lease_expires_at = none;
  updated_at = now;
}

abbrev pub set_retry_wait : ℕ → ℕ → ℕ → ℕ → Db → Db
set_retry_wait now task_id retry_at attempt db = record db {
  tasks = update (has_id task_id) (wait_for_retry now retry_at attempt) db.tasks;
}

abbrev plain : FailureReport → ErrorCode → HandledAction → Option ℕ → FailureHandlingResult
plain rep failure_class action attempt = record {
  task_id = rep.task_id;
  failure_class = failure_class;
  action = action;
  retry_at = none;
  attempt = attempt;
  degradation_event = none;
  circuit_state = none;
}

-- `send_to_dead_letter` may raise; its result is not used.
abbrev exhausted :
    FailureReport
    → ErrorCode
    → Result DeadLetterResult × Db
    → CircuitRegistry
    → Result FailureHandlingResult × Control
exhausted rep failure_class (ok _, db) circuits = (
  ok (plain rep failure_class dead_letter (some rep.attempt)),
  record { db = db; circuits = circuits },
)
exhausted rep failure_class (err e, db) circuits = (err e, record { db = db; circuits = circuits })

abbrev is_open_event : CircuitTransition → EventType → Bool
is_open_event transition circuit_open = true
is_open_event transition probe_allowed = false
is_open_event transition circuit_close = false

-- `if transition and transition.event_type == "circuit_open"`
abbrev pub degradation : ℕ → FailureReport → Option CircuitTransition → Option DegradationEvent
degradation now rep none = none
degradation now rep (some transition) =
    if is_open_event transition transition.event_type
    then some (
        build_degradation_event (open_of rep.event_id_prefix) rep.domain rep.route_key transition
          rep.config_hash now (some rep.task_id) (some rep.job_id))
    else none

-- The time of the next attempt: the backoff, unless the circuit refused and has a cooldown.
abbrev pub backoff_at : ℕ → ℕ → FailureReport → ErrorCode → Result ℕ
backoff_at now jitter rep failure_class =
    go (compute_backoff_seconds (rep.attempt + 1) rep.lane failure_class rep.retry_after jitter)
  where
    go : Result ℕ → Result ℕ
    go (ok delay) = ok (retry_at_from_delay now delay)
    go (err e) = err e

abbrev pub next_time : Bool → Option ℕ → Result ℕ → Result ℕ
next_time true cooldown backoff = backoff
next_time false none backoff = backoff
next_time false (some until) backoff = ok until

-- `_set_retry_wait` and the result, once the time is known.
abbrev waiting :
    ℕ
    → FailureReport
    → ErrorCode
    → Result ℕ
    → Option CircuitTransition
    → CircuitState
    → Db
    → CircuitRegistry
    → Result FailureHandlingResult × Control
waiting now rep failure_class (err e) transition state db circuits =
    (err e, record { db = db; circuits = circuits })
waiting now rep failure_class (ok retry_at) transition state db circuits = (
  ok (record {
    task_id = rep.task_id;
    failure_class = failure_class;
    action = retry_wait;
    retry_at = some retry_at;
    attempt = some (rep.attempt + 1);
    degradation_event = degradation now rep transition;
    circuit_state = some state;
  }),
  record { db = set_retry_wait now rep.task_id retry_at (rep.attempt + 1) db; circuits = circuits },
)

-- `if classification.counts_toward_circuit`
abbrev pub count_failure :
    ℕ
    → FailureReport
    → FailureClassification
    → CircuitRegistry
    → Option CircuitTransition × CircuitRegistry
count_failure now rep c circuits =
    if c.counts_toward_circuit
    then record_failure_at rep.route_key now (some c.failure_class) circuits
    else (none, circuits)

unfoldable pub schedule_retry :
    ℕ → ℕ → FailureReport → FailureClassification → Control → Result FailureHandlingResult × Control
schedule_retry now jitter rep c s =
    let (transition, counted) = count_failure now rep c s.circuits in
    let (allowed, asked) = allow_request_at rep.route_key now counted in
    let circuit = get rep.route_key asked in
    waiting now rep c.failure_class
      (next_time allowed circuit.cooldown_until (backoff_at now jitter rep c.failure_class))
      transition circuit.state s.db asked

handle_by :
    FailureAction
    → ℕ
    → ℕ
    → FailureReport
    → FailureClassification
    → Control
    → Result FailureHandlingResult × Control
unfolding schedule_retry
handle_by FailureAction.blocked now jitter rep c s = (
  ok (plain rep c.failure_class blocked none),
  record s { db = set_terminal_state now rep.task_id TaskState.blocked s.db },
)
handle_by FailureAction.failed now jitter rep c s = (
  ok (plain rep c.failure_class failed none),
  record s { db = set_terminal_state now rep.task_id TaskState.failed s.db },
)
handle_by FailureAction.retry_wait now jitter rep c s =
    if ltb rep.max_attempts (rep.attempt + 1)
    then exhausted rep c.failure_class (send_to_dead_letter now rep.task_id c.failure_class s.db)
        s.circuits
    else schedule_retry now jitter rep c s

handle_classified :
    ℕ
    → ℕ
    → FailureReport
    → Result FailureClassification
    → Control
    → Result FailureHandlingResult × Control
unfolding handle_by
handle_classified now jitter rep (ok c) s = handle_by c.action now jitter rep c s
handle_classified now jitter rep (err e) s = (err e, s)

unfoldable pub handle_task_failure :
    ℕ → ℕ → FailureReport → Control → Result FailureHandlingResult × Control
unfolding handle_classified
handle_task_failure now jitter rep s =
    handle_classified now jitter rep
      (classify_failure rep.status_code rep.error_code rep.escalation) s

abbrev is_close_event : EventType → Bool
is_close_event circuit_close = true
is_close_event _ = false

abbrev close_event : ℕ → EventId → ℕ → ℕ → ℕ → Option CircuitTransition → Option DegradationEvent
close_event now event_id domain route_key config_hash none = none
close_event now event_id domain route_key config_hash (some transition) =
    if is_close_event transition.event_type
    then some
        (build_degradation_event event_id domain route_key transition config_hash now none none)
    else none

unfoldable pub record_route_success :
    ℕ → ℕ → ℕ → ℕ → EventId → CircuitRegistry → Option DegradationEvent × CircuitRegistry
record_route_success now domain route_key config_hash event_id circuits =
    let (transition, circuits') = record_success_at route_key now circuits in
    (close_event now event_id domain route_key config_hash transition, circuits')
