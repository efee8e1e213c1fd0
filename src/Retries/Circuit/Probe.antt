-- ===== src/Retries/Circuit/Probe.antt =====
-- The half-open state: who is let through, and what the result of a probe does.
use trail_signal_os.Prelude.{
  ℕ, suc, ◌+◌, ◌*◌, ◌≡◌, ◌≢◌, refl, true, false, Option, some, arith, ◌==◌, ltb, if◌then◌else◌,
  zero, ap, [], ◌∷◌, List, Bool, All, length-append, ◌≤◌, ◌<◌, length,
}
use trail_signal_os.Retries.Classifier.{ErrorCode}
use trail_signal_os.Retries.Circuit.{
  closed, open_state, half_open, RouteCircuit, CircuitTransition, default_config, ytdlp_route,
  should_open, maybe_open, cooldown_duration_seconds, note_result, allow_request, record_failure,
  record_success, counted, step_at, push,
}

-- An open circuit lets no request through before its cooldown is over, and stays as it is; from
-- then on it is half open and lets a request through.
pub open_cools_down :
    (now until : ℕ) (c : RouteCircuit)
    → c.state ≡ open_state
    → c.cooldown_until ≡ some until
    → allow_request now c ≡ (
        if ltb now until
        then (false, c)
        else (true, record c { state = half_open; half_open_probe_allowed = true }))
unfolding allow_request
open_cools_down now until c e e' = ground arith

half_open_admits :
    (now : ℕ) (c : RouteCircuit)
    → c.state ≡ half_open
    → c.half_open_probe_allowed ≡ true
    → allow_request now c ≡ (true, c)
unfolding allow_request
half_open_admits now c e p = ground arith

-- Requests at these times, with nothing recorded in between.
abbrev pub allow_all : List ℕ → RouteCircuit → List Bool × RouteCircuit
allow_all [] c = ([], c)
allow_all (now ∷ times) c =
    let (allowed, asked) = allow_request now c in
    let (rest, after) = allow_all times asked in (allowed ∷ rest, after)

half_open_admits_rest :
    (times : List ℕ) (c : RouteCircuit)
    → c.state ≡ half_open
    → c.half_open_probe_allowed ≡ true
    → All (λ b. b ≡ true) (allow_all times c).0
half_open_admits_rest [] c e p = tt
half_open_admits_rest (now ∷ times) c e p =
    rw (half_open_admits now c e p) (refl, half_open_admits_rest times c e p)

-- An open circuit whose cooldown is over lets every request through, however many there are, until
-- a result is recorded: asking does not use the probe up.
pub half_open_keeps_probe :
    (now until : ℕ) (times : List ℕ) (c : RouteCircuit)
    → c.state ≡ open_state
    → c.cooldown_until ≡ some until
    → until ≤ now
    → All (λ b. b ≡ true) (allow_all (now ∷ times) c).0
half_open_keeps_probe now until times c e e' h =
    let over : ltb now until ≡ false = ground arith in
    rw (open_cools_down now until c e e', over) (refl, half_open_admits_rest times _ refl refl)

failed_probe :
    (now : ℕ) (f : Option ErrorCode) (c : RouteCircuit)
    → c.state ≡ half_open
    → should_open
        (note_result false (record c { consecutive_failures = c.consecutive_failures + 1 }))
      ≡ false
    → (record_failure now f c).1
      ≡ note_result false (record c {
        half_open_probe_allowed = false;
        consecutive_failures = c.consecutive_failures + 1;
      })
unfolding record_failure maybe_open
failed_probe now f c e h = ground arith

-- A probe that fails without meeting the test for opening leaves the circuit half open with no
-- probe allowed, and from there no request is let through, however long one waits: asking changes
-- nothing.
pub failed_probe_sticks :
    (now later : ℕ) (f : Option ErrorCode) (c : RouteCircuit)
    → c.state ≡ half_open
    → should_open
        (note_result false (record c { consecutive_failures = c.consecutive_failures + 1 }))
      ≡ false
    → let c' = (record_failure now f c).1 in
      (c'.state ≡ half_open) × (allow_request later c' ≡ (false, c'))
unfolding allow_request
failed_probe_sticks now later f c e h = rw (failed_probe now f c e h) (ground arith)

-- A probe that succeeds closes the circuit, forgets its failures and its openings, and the next
-- request is let through at any time.
pub probe_success_closes :
    (now later : ℕ) (c : RouteCircuit)
    → c.state ≡ half_open
    → let c' = (record_success now c).1 in
      (c'.state ≡ closed)
      × (c'.consecutive_failures ≡ 0)
      × (c'.open_count ≡ 0)
      × (allow_request later c' ≡ (true, c'))
unfolding record_success allow_request
probe_success_closes now later c e = ground arith

step_default : (n : ℕ) → step_at (n + 1) 300 (900 ∷ 1800 ∷ []) ≡ (if n == 0 then 900 else 1800)
step_default zero = refl
step_default (suc zero) = refl
step_default (suc (suc n)) = ground arith

default_cooldown :
    (c : RouteCircuit)
    → c.config ≡ default_config
    → c.route_key ≢ ytdlp_route
    → cooldown_duration_seconds (counted c) ≡ (if c.open_count == 0 then 900 else 1800)
unfolding cooldown_duration_seconds
default_cooldown c e ne =
    ground (
      arith,
      step_default c.open_count,
      ap (λ k. k.first_cooldown) e,
      ap (λ k. k.later_cooldowns) e,
    )

-- With the default schedule of 300, 900 and 1800 seconds, on any route but the one with a schedule
-- of its own, a circuit that opens for the first time stays open for 900 seconds, and for 1800 at
-- every further opening: never for 300.
pub default_schedule :
    (now : ℕ) (f : Option ErrorCode) (c : RouteCircuit) {tr : CircuitTransition}
    → c.config ≡ default_config
    → c.route_key ≢ ytdlp_route
    → (maybe_open now f c).0 ≡ some tr
    → tr.cooldown_until ≡ some (now + (if c.open_count == 0 then 900 else 1800) * 1000000)
unfolding maybe_open
default_schedule now f c {tr} e ne o = ground (arith, default_cooldown c e ne)

length-push :
    (n : ℕ) (window : List Bool) (b : Bool) → length (push n window b) ≤ suc (length window)
length-push zero window b = omega arith
length-push (suc n) [] b = omega arith
length-push (suc n) (x ∷ xs) b = ground (arith, length-append xs (b ∷ []))

-- The circuit after the late success and the end of its cooldown.
abbrev lapsed : RouteCircuit → RouteCircuit
lapsed c = record (note_result true c) {
  consecutive_failures = 0;
  state = half_open;
  half_open_probe_allowed = true;
}

lapsed_fails :
    (late now until : ℕ) (f : Option ErrorCode) (c : RouteCircuit)
    → c.state ≡ open_state
    → c.cooldown_until ≡ some until
    → until ≤ now
    → (record_failure now f (record_success late c).1).1 ≡ (record_failure now f (lapsed c)).1
unfolding record_failure record_success
lapsed_fails late now until f c e e' h = ground arith

lapsed_quiet :
    (c : RouteCircuit)
    → length c.recent_results + 2 < c.config.window_size
    → 1 < c.config.consecutive_threshold
    → should_open (note_result false (record (lapsed c) { consecutive_failures = 1 })) ≡ false
lapsed_quiet c small many =
    let first = length-push c.config.window_size c.recent_results true in
    let second =
      length-push c.config.window_size (push c.config.window_size c.recent_results true) false in
    ground (arith, first, second)

-- A success that is reported late, while the circuit is open, zeroes its failures: the first
-- failure after the cooldown then leaves the circuit half open with no probe allowed, and no
-- request is let through at any time, if the window has room for more than two results and the
-- consecutive threshold is not one.
pub late_success_sticks :
    (late now later until : ℕ) (f : Option ErrorCode) (c : RouteCircuit)
    → c.state ≡ open_state
    → c.cooldown_until ≡ some until
    → until ≤ now
    → length c.recent_results + 2 < c.config.window_size
    → 1 < c.config.consecutive_threshold
    → let c' = (record_failure now f (record_success late c).1).1 in
      (c'.state ≡ half_open) × (allow_request later c' ≡ (false, c'))
late_success_sticks late now later until f c e e' h small many =
    rw (lapsed_fails late now until f c e e' h)
      (failed_probe_sticks now later f (lapsed c) refl (lapsed_quiet c small many))
