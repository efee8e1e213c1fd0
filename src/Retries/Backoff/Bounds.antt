-- ===== src/Retries/Backoff/Bounds.antt =====
-- How long a backoff can be, and that it grows with the attempts.
use trail_signal_os.Prelude.{
  ℕ, ◌-◌, ◌*◌, ◌^◌, ◌≤◌, ◌≡◌, refl, min, false, Option, none, some, arith, ℤ, pos_part, Bool-cases,
  inl, inr,
}
use native.Mathlib.Nat.{one-le-pow, pow-le-pow_right}
use trail_signal_os.Store.Lanes.{Lane}
use trail_signal_os.Guards.{ok}
use trail_signal_os.Retries.Classifier.{ErrorCode}
use trail_signal_os.Retries.Backoff.{
  lane_max_delay, lane_base_delay, is_http_429, raw_delay, compute_backoff_seconds,
}

base-le-max : (lane : Lane) → lane_base_delay lane ≤ lane_max_delay lane
base-le-max lane = ground arith

-- Within the range of a float, the delay before the jitter lies between the base and the ceiling of the lane.
pub raw_delay_bounds :
    (attempt : ℕ) (lane : Lane)
    → attempt ≤ 1024
    → (raw : ℕ) × (raw_delay attempt lane ≡ ok raw)
      × (lane_base_delay lane ≤ raw)
      × (raw ≤ lane_max_delay lane)
unfolding raw_delay
raw_delay_bounds attempt lane h = (
  min (lane_max_delay lane) (lane_base_delay lane * 2 ^ (attempt - 1)),
  ground arith,
  grind (arith, base-le-max lane, one-le-pow (attempt - 1) 2 (omega arith)),
  omega arith,
)

-- For an attempt of at most 1024, a jitter of 0.75 to 1.25 and any failure but HTTP_429, a delay
-- is computed: at least three quarters of the base delay of the lane and at most five quarters of
-- its ceiling.
pub backoff_bounds :
    (attempt : ℕ) (lane : Lane) (failure_class : ErrorCode) (retry_after : Option ℤ) (jitter : ℕ)
    → attempt ≤ 1024
    → 750000 ≤ jitter
    → jitter ≤ 1250000
    → is_http_429 failure_class ≡ false
    → (delay : ℕ) × (compute_backoff_seconds attempt lane failure_class retry_after jitter
        ≡ ok delay)
      × (lane_base_delay lane * 750000 ≤ delay)
      × (delay ≤ lane_max_delay lane * 1250000)
unfolding compute_backoff_seconds
backoff_bounds attempt lane failure_class none jitter h lo hi other =
    let (raw, e, base, top) = raw_delay_bounds attempt lane h in
    (raw * jitter, rw e refl, grind arith, grind arith)
backoff_bounds attempt lane failure_class (some r) jitter h lo hi other =
    let (raw, e, base, top) = raw_delay_bounds attempt lane h in
    (raw * jitter, rw other (rw e refl), grind arith, grind arith)

-- Before the jitter, of two attempts that have a delay, the later never waits less.
pub raw_delay_mono :
    (a b : ℕ) (lane : Lane) {ra rb : ℕ}
    → a ≤ b
    → raw_delay a lane ≡ ok ra
    → raw_delay b lane ≡ ok rb
    → ra ≤ rb
unfolding raw_delay
raw_delay_mono a b lane {ra} {rb} h ea eb =
    let grows : 2 ^ (a - 1) ≤ 2 ^ (b - 1) = pow-le-pow_right (omega arith) (omega arith) in
    let grows' : lane_base_delay lane * 2 ^ (a - 1) ≤ lane_base_delay lane * 2 ^ (b - 1) =
      grind arith in
    ground arith

-- A backoff is found for every failure of an attempt up to 1024.
pub compute_backoff_returns :
    (attempt : ℕ) (lane : Lane) (failure_class : ErrorCode) (retry_after : Option ℤ) (jitter : ℕ)
    → attempt ≤ 1024
    → (delay : ℕ) × (compute_backoff_seconds attempt lane failure_class retry_after jitter
        ≡ ok delay)
unfolding compute_backoff_seconds
compute_backoff_returns attempt lane failure_class none jitter h =
    let (raw, e, _, _) = raw_delay_bounds attempt lane h in (raw * jitter, rw e refl)
compute_backoff_returns attempt lane failure_class (some r) jitter h =
    elim (Bool-cases (is_http_429 failure_class)) [
      | inl e ↦ (pos_part r, rw e refl)
      | inr e ↦
          let (raw, e', _, _) = raw_delay_bounds attempt lane h in (raw * jitter, rw e (rw e' refl))
    ]
