-- ===== src/Tests/Circuits.antt =====
-- Circuits of the default configuration, and classifications.
use trail_signal_os.Prelude.{ℕ, ◌*◌, ◌≤◌, ◌≡◌, refl, true, false, none, some, [], ◌∷◌, arith}
use trail_signal_os.Store.Lanes.{Lane}
use trail_signal_os.Guards.{ok}
use trail_signal_os.Retries.Classifier.{network_timeout}
use trail_signal_os.Retries.Backoff.{lane_base_delay, lane_max_delay, compute_backoff_seconds}
use trail_signal_os.Retries.Backoff.Bounds.{backoff_bounds}
use trail_signal_os.Retries.Circuit.{
  RouteCircuit, CircuitState, default_config, fresh, allow_request, record_failure, record_success,
}
use trail_signal_os.Retries.Circuit.Open.{
  IsSound, ask, fail, succeed, call_all, call_all-IsSound, fresh-IsSound, IsShut, fail_all,
  consecutive_failures_open,
}
use trail_signal_os.Retries.Circuit.Probe.{late_success_sticks}

abbrev new_circuit : RouteCircuit
new_circuit = fresh 5 default_config

-- Nine failures in a row.
abbrev worn : RouteCircuit
worn = record new_circuit { consecutive_failures = 9 }

abbrev tripped : RouteCircuit
tripped = record new_circuit {
  state = CircuitState.open_state;
  open_count = 1;
  consecutive_failures = 10;
  cooldown_until = some 900;
}

abbrev probing : RouteCircuit
probing = record new_circuit {
  state = CircuitState.half_open;
  open_count = 1;
  cooldown_until = some 900;
  half_open_probe_allowed = true;
}

call_all-IsSound_example : IsSound (call_all (fail 1 none ∷ ask 2 ∷ succeed 3 ∷ []) new_circuit)
call_all-IsSound_example =
    call_all-IsSound (fail 1 none ∷ ask 2 ∷ succeed 3 ∷ []) new_circuit
      (fresh-IsSound 5 default_config)

-- The first failure opens the circuit, and the second comes after the cooldown.
consecutive_failures_open_example :
    IsShut 900000000 (fail_all ((100, none) ∷ []) 900000000 none worn)
consecutive_failures_open_example =
    consecutive_failures_open ((100, none) ∷ []) 900000000 none worn refl
      (record { first = omega arith; later = (omega arith, (omega arith, tt)) }) (omega arith)
      (omega arith)

late_success_sticks_example :
    let c' = (record_failure 901 none (record_success 500 tripped).1).1 in
    (c'.state ≡ CircuitState.half_open) × (allow_request 1000000 c' ≡ (false, c'))
late_success_sticks_example =
    late_success_sticks 500 901 1000000 900 none tripped refl refl (omega arith) (omega arith)
      (omega arith)

backoff_bounds_example :
    (delay : ℕ) × (compute_backoff_seconds 2 Lane.http network_timeout none 1000000 ≡ ok delay)
    × (lane_base_delay Lane.http * 750000 ≤ delay)
    × (delay ≤ lane_max_delay Lane.http * 1250000)
backoff_bounds_example =
    backoff_bounds 2 Lane.http network_timeout none 1000000 (omega arith) (omega arith)
      (omega arith) refl
