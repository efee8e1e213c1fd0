-- ===== src/Retries/Backoff.antt =====
-- control/retries/backoff.py, with the tables of settings.py. A delay is a number of microseconds,
-- the resolution of a `timedelta`. All bases and ceilings are whole seconds, so the product of a
-- delay in seconds and a jitter in millionths is a whole number of microseconds. `jitter` is what
-- `uniform(0.75, 1.25)` returned, in millionths.
pub mod Bounds
use trail_signal_os.Prelude.{
  ℕ, ◌+◌, ◌-◌, ◌*◌, ◌^◌, min, Bool, true, false, ◌&&◌, Option, none, some, ◌==◌, ltb, if◌then◌else◌,
  ℤ, pos_part,
}
use trail_signal_os.Store.Lanes.{
  Lane, Lane.http, Lane.browser, Lane.search as search_lane, Lane.media, Lane.extract, Lane.enrich,
  Lane.index,
}
use trail_signal_os.Guards.{Result, ok, err, overflow_error}
use trail_signal_os.Retries.Classifier.{ErrorCode, http_code}

-- `LANE_MAX_DELAYS`, in seconds.
abbrev pub lane_max_delay : Lane → ℕ
lane_max_delay http = 32
lane_max_delay browser = 45
lane_max_delay search_lane = 32
lane_max_delay media = 32
lane_max_delay extract = 30
lane_max_delay enrich = 30
lane_max_delay index = 30
lane_max_delay _ = 32

-- `LANE_BASE_DELAYS`, in seconds.
abbrev pub lane_base_delay : Lane → ℕ
lane_base_delay http = 2
lane_base_delay browser = 5
lane_base_delay search_lane = 2
lane_base_delay media = 2
lane_base_delay extract = 1
lane_base_delay enrich = 1
lane_base_delay index = 1
lane_base_delay _ = 2

-- `failure_class == "HTTP_429"`
abbrev pub is_http_429 : ErrorCode → Bool
is_http_429 (http_code n) = n == 429
is_http_429 _ = false

-- The delay before the jitter, in seconds. A power of two beyond the range of a float raises.
unfoldable pub raw_delay : ℕ → Lane → Result ℕ
raw_delay attempt lane =
    let exponent = attempt - 1 in
    if ltb 1023 exponent
    then err overflow_error
    else ok (min (lane_max_delay lane) (lane_base_delay lane * 2 ^ exponent))

abbrev pub times_jitter : ℕ → Result ℕ → Result ℕ
times_jitter jitter (ok raw) = ok (raw * jitter)
times_jitter jitter (err e) = err e

-- `retry_after` is the header's delay in microseconds.
unfoldable pub compute_backoff_seconds : ℕ → Lane → ErrorCode → Option ℤ → ℕ → Result ℕ
compute_backoff_seconds attempt lane failure_class none jitter =
    times_jitter jitter (raw_delay attempt lane)
compute_backoff_seconds attempt lane failure_class (some retry_after) jitter =
    if is_http_429 failure_class
    then ok (pos_part retry_after)
    else times_jitter jitter (raw_delay attempt lane)

abbrev pub retry_at_from_delay : ℕ → ℕ → ℕ
retry_at_from_delay now delay = now + delay
