-- ===== src/Retries/Registry.antt =====
-- control/retries/circuit_breaker.py: `CircuitRegistry` and the degradation event of a transition.
-- A route key is the text that `handle_task_failure` joins from domain and route.
use trail_signal_os.Prelude.{
  ℕ, Bool, Option, none, some, List, [], ◌∷◌, ◌==◌, if◌then◌else◌, ◌≡◌, ◌≢◌, arith,
}
use trail_signal_os.Retries.Classifier.{ErrorCode}
use trail_signal_os.Retries.Circuit.{
  CircuitConfig, RouteCircuit, CircuitTransition, EventType, fresh, allow_request, record_failure,
  record_success,
}

-- The dict from route keys, in insertion order.
pub record CircuitRegistry : Type 0 where
  pub config : CircuitConfig
  pub circuits : List (ℕ × RouteCircuit)

abbrev pub lookup : ℕ → List (ℕ × RouteCircuit) → Option RouteCircuit
lookup k [] = none
lookup k ((j, c) ∷ cs) = if j == k then some c else lookup k cs

abbrev pub insert : ℕ → RouteCircuit → List (ℕ × RouteCircuit) → List (ℕ × RouteCircuit)
insert k c [] = (k, c) ∷ []
insert k c ((j, d) ∷ cs) = if j == k then (k, c) ∷ cs else (j, d) ∷ insert k c cs

abbrev pub or_fresh : Option RouteCircuit → ℕ → CircuitConfig → RouteCircuit
or_fresh none key config = fresh key config
or_fresh (some c) key config = c

-- `get`: the circuit of the key, made if it is not there. The object is written back by `put`.
unfoldable pub get : ℕ → CircuitRegistry → RouteCircuit
get key r = or_fresh (lookup key r.circuits) key r.config

abbrev pub put : ℕ → RouteCircuit → CircuitRegistry → CircuitRegistry
put key c r = record r { circuits = insert key c r.circuits }

-- `CircuitRegistry.allow_request`, `record_failure` and `record_success`.
unfoldable pub allow_request_at : ℕ → ℕ → CircuitRegistry → Bool × CircuitRegistry
unfolding get
allow_request_at key now r =
    let (allowed, c) = allow_request now (get key r) in (allowed, put key c r)

unfoldable pub record_failure_at :
    ℕ → ℕ → Option ErrorCode → CircuitRegistry → Option CircuitTransition × CircuitRegistry
unfolding get
record_failure_at key now failure_class r =
    let (transition, c) = record_failure now failure_class (get key r) in (transition, put key c r)

unfoldable pub record_success_at :
    ℕ → ℕ → CircuitRegistry → Option CircuitTransition × CircuitRegistry
unfolding get
record_success_at key now r =
    let (transition, c) = record_success now (get key r) in (transition, put key c r)

-- `f"{event_id_prefix}_open"`, or the text that a caller gives.
pub data EventId : Type 0 where
  open_of given : ℕ → EventId

pub record DegradationEvent : Type 0 where
  pub event_id : EventId
  pub domain : ℕ
  pub route : ℕ
  pub event_type : EventType
  pub recorded_at : ℕ
  pub config_hash : ℕ
  pub failure_class : Option ErrorCode
  pub cooldown_until : Option ℕ
  pub task_id : Option ℕ
  pub job_id : Option ℕ

abbrev pub build_degradation_event :
    EventId → ℕ → ℕ → CircuitTransition → ℕ → ℕ → Option ℕ → Option ℕ → DegradationEvent
build_degradation_event event_id domain route transition config_hash recorded_at task_id job_id =
    record {
      event_id = event_id;
      domain = domain;
      route = route;
      event_type = transition.event_type;
      recorded_at = recorded_at;
      config_hash = config_hash;
      failure_class = transition.failure_class;
      cooldown_until = transition.cooldown_until;
      task_id = task_id;
      job_id = job_id;
    }

pub get-put_self :
    (key : ℕ) (c : RouteCircuit) (cs : List (ℕ × RouteCircuit))
    → lookup key (insert key c cs) ≡ some c
get-put_self key c [] = ground arith
get-put_self key c (e ∷ cs) = ground (arith, get-put_self key c cs)

pub get-put_ne :
    (j key : ℕ) (c : RouteCircuit) (cs : List (ℕ × RouteCircuit))
    → j ≢ key
    → lookup j (insert key c cs) ≡ lookup j cs
get-put_ne j key c [] h = ground arith
get-put_ne j key c (e ∷ cs) h = ground (arith, get-put_ne j key c cs h)
