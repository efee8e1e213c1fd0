-- ===== src/Retries/Circuit/Open.antt =====
-- When a circuit opens, how long it stays open, and what holds of it at all times.
use trail_signal_os.Prelude.{
  ℕ, zero, suc, ◌+◌, ◌*◌, ◌≤◌, ◌<◌, ◌≡◌, ◌≢◌, refl, ◌∙◌, Bool, true, false, Option, none, some,
  List, [], ◌∷◌, arith, ◌==◌, ◌⊎◌, inl, inr, length, length-append, Bool-cases, All, ◌++◌, ◌&&◌,
  not, leb, ltb, count_where,
}
use mathlib.Core.Path.{subst, sym}
use trail_signal_os.Retries.Classifier.{ErrorCode}
use trail_signal_os.Retries.Circuit.{
  CircuitState, closed, open_state, half_open, CircuitConfig, RouteCircuit, fresh, push, step_at,
  ytdlp_route, cooldown_duration_seconds, should_open, maybe_open, refresh_state, allow_request,
  record_failure, record_success, note_result, failure_by, counted,
}

-- What the methods keep true of a circuit.
pub record IsSound (c : RouteCircuit) : Type 0 where
  pub window_bounded : length c.recent_results ≤ c.config.window_size
  pub open_cools : c.state ≡ open_state → c.cooldown_until ≢ none
  pub open_counted : c.state ≢ closed → 0 < c.open_count
  pub probe_half_open : c.half_open_probe_allowed ≡ true → c.state ≡ half_open

push-bounded :
    (n : ℕ) (window : List Bool) (b : Bool) → length window ≤ n → length (push n window b) ≤ n
push-bounded zero window b h = omega arith
push-bounded (suc n) [] b h = omega arith
push-bounded (suc n) (x ∷ xs) b h = ground (arith, length-append xs (b ∷ []))

-- A call on a circuit, with its time.
pub data Call : Type 0 where
  ask : ℕ → Call
  fail : ℕ → Option ErrorCode → Call
  succeed : ℕ → Call

unfoldable pub call : Call → RouteCircuit → RouteCircuit
call (ask now) c = (allow_request now c).1
call (fail now failure_class) c = (record_failure now failure_class c).1
call (succeed now) c = (record_success now c).1

unfoldable pub call_all : List Call → RouteCircuit → RouteCircuit
unfolding call
call_all [] c = c
call_all (k ∷ ks) c = call_all ks (call k c)

refresh-IsSound : (now : ℕ) (c : RouteCircuit) → IsSound c → IsSound (refresh_state now c).1
unfolding refresh_state
refresh-IsSound now c h = ground arith

maybe_open-IsSound :
    (now : ℕ) (f : Option ErrorCode) (c : RouteCircuit) → IsSound c → IsSound (maybe_open now f c).1
unfolding maybe_open
maybe_open-IsSound now f c h = ground arith

failed-IsSound :
    (c : RouteCircuit) (probe : Bool) (n : ℕ)
    → IsSound c
    → (probe ≡ true → c.half_open_probe_allowed ≡ true)
    → IsSound
        (note_result false (record c { half_open_probe_allowed = probe; consecutive_failures = n }))
failed-IsSound c probe n h keep =
    let bounded = push-bounded c.config.window_size c.recent_results false h.window_bounded in
    ground (arith, keep)

failure-IsSound :
    (s : CircuitState) (now : ℕ) (f : Option ErrorCode) (c : RouteCircuit)
    → c.state ≡ s
    → IsSound c
    → IsSound (failure_by s now f c).1
unfolding failure_by
failure-IsSound open_state now f c e h =
    let bounded = push-bounded c.config.window_size c.recent_results false h.window_bounded in
    ground arith
failure-IsSound half_open now f c e h =
    maybe_open-IsSound now f _ (failed-IsSound c false (c.consecutive_failures + 1) h (λ p. cc))
failure-IsSound closed now f c e h =
    maybe_open-IsSound now f _
      (failed-IsSound c c.half_open_probe_allowed (c.consecutive_failures + 1) h (λ p. p))

success-IsSound : (now : ℕ) (c : RouteCircuit) → IsSound c → IsSound (record_success now c).1
unfolding record_success
success-IsSound now c h =
    let bounded = push-bounded c.config.window_size c.recent_results true h.window_bounded in
    ground arith

call-IsSound : (k : Call) (c : RouteCircuit) → IsSound c → IsSound (call k c)
unfolding call allow_request record_failure
call-IsSound (ask now) c h = refresh-IsSound now c h
call-IsSound (fail now f) c h =
    failure-IsSound (refresh_state now c).1.state now f (refresh_state now c).1 refl
      (refresh-IsSound now c h)
call-IsSound (succeed now) c h = success-IsSound now c h

-- Whatever calls a circuit gets, from any sound state, its window stays within its size, an open
-- circuit has a time to end and was counted, and a probe is allowed only half open.
pub call_all-IsSound : (ks : List Call) (c : RouteCircuit) → IsSound c → IsSound (call_all ks c)
unfolding call_all
call_all-IsSound [] c h = h
call_all-IsSound (k ∷ ks) c h = call_all-IsSound ks (call k c) (call-IsSound k c h)

pub fresh-IsSound : (route : ℕ) (config : CircuitConfig) → IsSound (fresh route config)
fresh-IsSound route config = ground arith

-- Every cooldown of a configuration lasts.
pub record IsPositive (config : CircuitConfig) : Type 0 where
  pub first : 0 < config.first_cooldown
  pub later : All (λ s. 0 < s) config.later_cooldowns

step_at_pos : (n a : ℕ) (rest : List ℕ) → 0 < a → All (λ s. 0 < s) rest → 0 < step_at n a rest
step_at_pos zero a rest h hs = h
step_at_pos (suc n) a [] h hs = h
step_at_pos (suc n) a (b ∷ rest) h hs = step_at_pos n b rest hs.0 hs.1

cooldown_pos : (c : RouteCircuit) → IsPositive c.config → 0 < cooldown_duration_seconds c
unfolding cooldown_duration_seconds
cooldown_pos c h = elim (Bool-cases (c.route_key == ytdlp_route)) [
  | inl e ↦ rw e (step_at_pos c.open_count 43200 (86400 ∷ 172800 ∷ []) (omega arith) (omega arith))
  | inr e ↦
      rw e
        (step_at_pos c.open_count c.config.first_cooldown c.config.later_cooldowns h.first h.later)
]

-- Open, and not yet due to half open at this time.
abbrev pub IsShut : ℕ → RouteCircuit → Type 0
IsShut now c =
    (c.state ≡ open_state) × ((until : ℕ) × (c.cooldown_until ≡ some until) × (now < until))

failures-append_last : (w : List Bool) → count_where not (w ++ false ∷ []) ≡ count_where not w + 1
failures-append_last [] = refl
failures-append_last (x ∷ w) = ground (arith, failures-append_last w)

-- The test of the window, on a window that takes one failure more.
window_trips :
    (size threshold : ℕ) (w : List Bool)
    → length w ≤ size
    → (leb size (length w) && ltb (threshold * length w) (100 * count_where not w)) ≡ true
    → (leb size (length (push size w false))
        && ltb (threshold * length (push size w false)) (100 * count_where not (push size w false)))
      ≡ true
window_trips zero threshold [] fits h = absurd (ground arith)
window_trips (suc n) threshold [] fits h = absurd (ground arith)
window_trips zero threshold (x ∷ w) fits h = absurd (omega arith)
window_trips (suc n) threshold (x ∷ w) fits h =
    let full : length w ≡ n = ground arith in
    let is_full : ltb (suc (length w)) (suc n) ≡ false = ground arith in
    let same : length (w ++ false ∷ []) ≡ suc (length w) =
      omega (arith, length-append w (false ∷ [])) in
    rw (is_full, same) (ground (arith, failures-append_last w))

-- A circuit that a further failure would open.
Trips_fail :
    (n : ℕ) (probe : Bool) (s : CircuitState) (c : RouteCircuit)
    → length c.recent_results ≤ c.config.window_size
    → c.consecutive_failures ≤ n
    → should_open c ≡ true
    → should_open (
        note_result false
          (record c { state = s; half_open_probe_allowed = probe; consecutive_failures = n }))
      ≡ true
Trips_fail n probe s c fits more h =
    elim (Bool-cases (leb c.config.consecutive_threshold c.consecutive_failures)) [
      | inl many ↦ ground arith
      | inr few ↦
          let window =
            window_trips c.config.window_size c.config.failure_rate_threshold c.recent_results fits
              (ground arith) in
          ground (arith, window)
    ]

-- Open at this time, and to be opened again by a failure after the cooldown.
abbrev IsTripped : ℕ → RouteCircuit → Type 0
IsTripped now c =
    IsShut now c
    × (should_open c ≡ true)
    × (length c.recent_results ≤ c.config.window_size)
    × IsPositive c.config

maybe_open-IsTripped :
    (now : ℕ) (f : Option ErrorCode) (c : RouteCircuit)
    → IsPositive c.config
    → length c.recent_results ≤ c.config.window_size
    → should_open c ≡ true
    → IsTripped now (maybe_open now f c).1
unfolding maybe_open
maybe_open-IsTripped now f c h fits e =
    let lasts = cooldown_pos (counted c) h in
    rw e (
      (refl, (now + cooldown_duration_seconds (counted c) * 1000000, refl, omega (arith, lasts))),
      e,
      fits,
      h,
    )

fail-IsTripped :
    (before now : ℕ) (f : Option ErrorCode) (c : RouteCircuit)
    → IsTripped before c
    → IsTripped now (call (fail now f) c)
unfolding call record_failure
fail-IsTripped before now f c ((e, (until, e', lt)), trips, fits, h) =
    let bounded = push-bounded c.config.window_size c.recent_results false fits in
    elim (Bool-cases (ltb now until)) [
      | inl early ↦
          let same : (record_failure now f c).1 ≡ note_result false c = ground arith in
          subst (IsTripped now) (sym same) (
            (e, (until, e', ground arith)),
            Trips_fail c.consecutive_failures c.half_open_probe_allowed c.state c fits (omega arith)
                trips,
            bounded,
            h,
          )
      | inr due ↦
          let probed = note_result false (record c {
            state = half_open;
            half_open_probe_allowed = false;
            consecutive_failures = c.consecutive_failures + 1;
          }) in
          let same : (record_failure now f c).1 ≡ (maybe_open now f probed).1 = ground arith in
          subst (IsTripped now) (sym same) (
            maybe_open-IsTripped now f probed h bounded
              (Trips_fail (c.consecutive_failures + 1) false half_open c fits (omega arith) trips))
    ]

abbrev tally : RouteCircuit → RouteCircuit
tally c = note_result false (record c { consecutive_failures = c.consecutive_failures + 1 })

closed-fail :
    (now : ℕ) (f : Option ErrorCode) (c : RouteCircuit)
    → c.state ≡ closed
    → call (fail now f) c ≡ (maybe_open now f (tally c)).1
unfolding call record_failure
closed-fail now f c e = ground arith

maybe_open-same :
    (now : ℕ) (f : Option ErrorCode) (c : RouteCircuit)
    → should_open c ≡ false
    → (maybe_open now f c).1 ≡ c
unfolding maybe_open
maybe_open-same now f c e = rw e refl

-- One failure on a closed circuit opens it, or is counted.
fail_closed :
    (now : ℕ) (f : Option ErrorCode) (c : RouteCircuit)
    → c.state ≡ closed
    → IsPositive c.config
    → length c.recent_results ≤ c.config.window_size
    → IsTripped now (call (fail now f) c)
      ⊎ ((call (fail now f) c ≡ tally c)
          × (c.consecutive_failures + 1 < c.config.consecutive_threshold))
fail_closed now f c e h fits =
    let bounded = push-bounded c.config.window_size c.recent_results false fits in
    elim (Bool-cases (should_open (tally c))) [
      | inl o ↦ inl (rw (closed-fail now f c e) (maybe_open-IsTripped now f (tally c) h bounded o))
      | inr o ↦ inr (closed-fail now f c e ∙ maybe_open-same now f (tally c) o, ground arith)
    ]

-- Failures one after the other, each with its time and class, and the last one.
abbrev pub fail_all :
    List (ℕ × Option ErrorCode) → ℕ → Option ErrorCode → RouteCircuit → RouteCircuit
fail_all [] now f c = call (fail now f) c
fail_all ((at, g) ∷ fs) now f c = fail_all fs now f (call (fail at g) c)

stays-IsTripped :
    (fs : List (ℕ × Option ErrorCode)) (before now : ℕ) (f : Option ErrorCode) (c : RouteCircuit)
    → IsTripped before c
    → IsTripped now (fail_all fs now f c)
stays-IsTripped [] before now f c h = fail-IsTripped before now f c h
stays-IsTripped ((at, g) ∷ fs) before now f c h =
    stays-IsTripped fs at now f (call (fail at g) c) (fail-IsTripped before at g c h)

-- With positive cooldowns and a window within its size, a closed circuit that takes failures one
-- after the other, at any times, and as many as the consecutive threshold still wants, is open right
-- after the last of them with a cooldown that is not over, whatever is in its window. That is so
-- also where it opened before, by its window or its count, and a cooldown ended in between.
pub consecutive_failures_open :
    (fs : List (ℕ × Option ErrorCode)) (now : ℕ) (f : Option ErrorCode) (c : RouteCircuit)
    → c.state ≡ closed
    → IsPositive c.config
    → length c.recent_results ≤ c.config.window_size
    → c.config.consecutive_threshold ≤ c.consecutive_failures + suc (length fs)
    → IsShut now (fail_all fs now f c)
consecutive_failures_open [] now f c e h fits enough = elim (fail_closed now f c e h fits) [
  | inl tripped ↦ tripped.0
  | inr (same, few) ↦ absurd (omega arith)
]
consecutive_failures_open ((at, g) ∷ fs) now f c e h fits enough =
    elim (fail_closed at g c e h fits) [
      | inl tripped ↦ (stays-IsTripped fs at now f (call (fail at g) c) tripped).0
      | inr (same, few) ↦
          subst (λ x. IsShut now (fail_all fs now f x)) (sym same)
            (consecutive_failures_open fs now f (tally c) e h
              (push-bounded c.config.window_size c.recent_results false fits) (omega arith))
    ]
