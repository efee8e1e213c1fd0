-- ===== src/Retries/Circuit.antt =====
-- control/retries/circuit_breaker.py: the circuit of one route. Times are microseconds. The failure
-- rate is compared as a fraction: the threshold of `config` is in hundredths.
pub mod Open
pub mod Probe
use trail_signal_os.Prelude.{
  ℕ, zero, suc, ◌+◌, ◌*◌, ◌-◌, ◌<◌, Bool, true, false, ◌&&◌, ◌||◌, not, Option, none, some, List,
  [], ◌∷◌, ◌++◌, ◌==◌, ltb, leb, if◌then◌else◌, length, count_where,
}
use trail_signal_os.Retries.Classifier.{ErrorCode}

pub data CircuitState : Type 0 where
  closed open_state half_open : CircuitState

-- `CircuitConfig`. The tuple of cooldowns, in seconds, has a first step.
pub record CircuitConfig : Type 0 where
  pub consecutive_threshold : ℕ
  pub failure_rate_threshold : ℕ
  pub window_size : ℕ
  pub first_cooldown : ℕ
  pub later_cooldowns : List ℕ

-- The defaults of settings.py.
abbrev pub default_config : CircuitConfig
default_config = record {
  consecutive_threshold = 10;
  failure_rate_threshold = 50;
  window_size = 20;
  first_cooldown = 300;
  later_cooldowns = 900 ∷ 1800 ∷ [];
}

pub record RouteCircuit : Type 0 where
  pub route_key : ℕ
  pub config : CircuitConfig
  pub state : CircuitState
  pub consecutive_failures : ℕ
  pub recent_results : List Bool
  pub open_count : ℕ
  pub cooldown_until : Option ℕ
  pub half_open_probe_allowed : Bool

pub data EventType : Type 0 where
  circuit_open probe_allowed circuit_close : EventType

pub record CircuitTransition : Type 0 where
  pub route_key : ℕ
  pub previous_state : CircuitState
  pub new_state : CircuitState
  pub event_type : EventType
  pub cooldown_until : Option ℕ
  pub failure_class : Option ErrorCode

-- `deque.append` on a deque with `maxlen`: the oldest entry leaves a full one.
abbrev pub push : ℕ → List Bool → Bool → List Bool
push zero window b = []
push (suc n) [] b = b ∷ []
push (suc n) (x ∷ xs) b = if ltb (length (x ∷ xs)) (suc n) then (x ∷ xs) ++ b ∷ [] else xs ++ b ∷ []

-- `steps[min(index, len(steps) - 1)]`
abbrev pub step_at : ℕ → ℕ → List ℕ → ℕ
step_at zero first rest = first
step_at (suc n) first [] = first
step_at (suc n) first (second ∷ rest) = step_at n second rest

-- A new circuit, as `CircuitRegistry.get` makes one.
abbrev pub fresh : ℕ → CircuitConfig → RouteCircuit
fresh route_key config = record {
  route_key = route_key;
  config = config;
  state = closed;
  consecutive_failures = 0;
  recent_results = [];
  open_count = 0;
  cooldown_until = none;
  half_open_probe_allowed = false;
}

-- The route with a schedule of its own, `youtube:ytdlp`, is the number 0.
abbrev pub ytdlp_route : ℕ
ytdlp_route = 0

unfoldable pub cooldown_duration_seconds : RouteCircuit → ℕ
cooldown_duration_seconds c =
    if c.route_key == ytdlp_route
    then step_at c.open_count 43200 (86400 ∷ 172800 ∷ [])
    else step_at c.open_count c.config.first_cooldown c.config.later_cooldowns

abbrev pub failures : List Bool → ℕ
failures = count_where not

-- The test of `_maybe_open`: `failures / len > threshold`, of an empty window 0.0.
abbrev pub should_open : RouteCircuit → Bool
should_open c =
    leb c.config.consecutive_threshold c.consecutive_failures
    || (leb c.config.window_size (length c.recent_results)
        && ltb (c.config.failure_rate_threshold * length c.recent_results)
            (100 * failures c.recent_results))

abbrev pub counted : RouteCircuit → RouteCircuit
counted c = record c { state = open_state; open_count = c.open_count + 1 }

abbrev pub opened : ℕ → RouteCircuit → RouteCircuit
opened now c = record c {
  cooldown_until = some (now + cooldown_duration_seconds c * 1000000);
  half_open_probe_allowed = false;
}

unfoldable pub maybe_open :
    ℕ → Option ErrorCode → RouteCircuit → Option CircuitTransition × RouteCircuit
unfolding cooldown_duration_seconds
maybe_open now failure_class c =
    let c' = opened now (counted c) in
    if should_open c
    then (
      some (record {
        route_key = c.route_key;
        previous_state = c.state;
        new_state = open_state;
        event_type = circuit_open;
        cooldown_until = c'.cooldown_until;
        failure_class = failure_class;
      }),
      c',
    )
    else (none, c)

abbrev half_opened : RouteCircuit → Option CircuitTransition × RouteCircuit
half_opened c = (
  some (record {
    route_key = c.route_key;
    previous_state = c.state;
    new_state = half_open;
    event_type = probe_allowed;
    cooldown_until = none;
    failure_class = none;
  }),
  record c { state = half_open; half_open_probe_allowed = true },
)

refresh_open : ℕ → Option ℕ → RouteCircuit → Option CircuitTransition × RouteCircuit
refresh_open now none c = (none, c)
refresh_open now (some until) c = if ltb now until then (none, c) else half_opened c

refresh_by : CircuitState → ℕ → RouteCircuit → Option CircuitTransition × RouteCircuit
unfolding refresh_open
refresh_by open_state now c = refresh_open now c.cooldown_until c
refresh_by closed now c = (none, c)
refresh_by half_open now c = (none, c)

unfoldable pub refresh_state : ℕ → RouteCircuit → Option CircuitTransition × RouteCircuit
unfolding refresh_by
refresh_state now c = refresh_by c.state now c

abbrev admits : CircuitState → Bool → Bool
admits closed probe = true
admits half_open probe = probe
admits open_state probe = false

unfoldable pub allow_request : ℕ → RouteCircuit → Bool × RouteCircuit
unfolding refresh_state
allow_request now c =
    let c' = (refresh_state now c).1 in (admits c'.state c'.half_open_probe_allowed, c')

abbrev pub note_result : Bool → RouteCircuit → RouteCircuit
note_result ok c = record c { recent_results = push c.config.window_size c.recent_results ok }

unfoldable pub failure_by :
    CircuitState → ℕ → Option ErrorCode → RouteCircuit → Option CircuitTransition × RouteCircuit
unfolding maybe_open
failure_by open_state now failure_class c = (none, note_result false c)
failure_by half_open now failure_class c = maybe_open now failure_class (
    note_result false (record c {
      half_open_probe_allowed = false;
      consecutive_failures = c.consecutive_failures + 1;
    }))
failure_by closed now failure_class c =
    maybe_open now failure_class
      (note_result false (record c { consecutive_failures = c.consecutive_failures + 1 }))

unfoldable pub record_failure :
    ℕ → Option ErrorCode → RouteCircuit → Option CircuitTransition × RouteCircuit
unfolding refresh_state failure_by
record_failure now failure_class c =
    let c' = (refresh_state now c).1 in failure_by c'.state now failure_class c'

success_by : CircuitState → RouteCircuit → Option CircuitTransition × RouteCircuit
success_by half_open c = (
  some (record {
    route_key = c.route_key;
    previous_state = c.state;
    new_state = closed;
    event_type = circuit_close;
    cooldown_until = none;
    failure_class = none;
  }),
  record c {
    state = closed;
    consecutive_failures = 0;
    cooldown_until = none;
    half_open_probe_allowed = false;
    open_count = 0;
  },
)
success_by closed c = (none, record c { consecutive_failures = 0 })
success_by open_state c = (none, record c { consecutive_failures = 0 })

unfoldable pub record_success : ℕ → RouteCircuit → Option CircuitTransition × RouteCircuit
unfolding success_by
record_success now c = let c' = note_result true c in success_by c'.state c'
