-- ===== src/Scheduler/Backpressure.antt =====
-- control/scheduler/backpressure.py. The watermarks of config/phases.yaml are an argument; a mark
-- that the file lacks is 0, as the code's `get` has it.
pub mod Hysteresis
use trail_signal_os.Prelude.{
  ℕ, Bool, true, false, ◌&&◌, ◌||◌, Option, none, some, List, [], ◌∷◌, leb, if◌then◌else◌,
  count_where, any, all, not,
}
use trail_signal_os.Store.{Task, Db}
use trail_signal_os.Store.Lanes.{
  Lane, Lane.http, Lane.browser, Lane.search as search_lane, Lane.media, Lane.extract, Lane.enrich,
  Lane.index, lane_eq,
}
use trail_signal_os.Store.States.{TaskState}
use trail_signal_os.Scheduler.Reasons.{
  Reason, downstream_backpressure_paused, downstream_at_high_watermark,
  downstream_below_high_watermark,
}

-- `FETCH_LANES`
abbrev pub is_fetch_lane : Lane → Bool
is_fetch_lane search_lane = true
is_fetch_lane http = true
is_fetch_lane browser = true
is_fetch_lane media = true
is_fetch_lane _ = false

pub data BacklogKey : Type 0 where
  extract_backlog enrich_backlog index_backlog : BacklogKey

-- The keys of `DOWNSTREAM_BACKLOG_LANES`, and the lane of each.
abbrev pub backlog_keys : List BacklogKey
backlog_keys = extract_backlog ∷ enrich_backlog ∷ index_backlog ∷ []

abbrev pub backlog_lane : BacklogKey → Lane
backlog_lane extract_backlog = extract
backlog_lane enrich_backlog = enrich
backlog_lane index_backlog = index

pub record Watermarks : Type 0 where
  pub high : BacklogKey → ℕ
  pub low : BacklogKey → ℕ

-- Membership in `BACKLOG_STATES`.
abbrev pub is_backlog : TaskState → Bool
is_backlog TaskState.ready = true
is_backlog TaskState.leased = true
is_backlog TaskState.running = true
is_backlog TaskState.retry_wait = true
is_backlog TaskState.pending = true
is_backlog _ = false

pub record BackpressureGate : Type 0 where
  pub fetch_paused : Bool

abbrev pub at_high : (BacklogKey → ℕ) → Watermarks → BacklogKey → Bool
at_high backlogs marks key = leb (marks.high key) (backlogs key)

abbrev pub at_low : (BacklogKey → ℕ) → Watermarks → BacklogKey → Bool
at_low backlogs marks key = leb (backlogs key) (marks.low key)

-- `BackpressureGate.update`
unfoldable pub update_gate : (BacklogKey → ℕ) → Watermarks → BackpressureGate → BackpressureGate
update_gate backlogs marks gate =
    if any (at_high backlogs marks) backlog_keys
    then record { fetch_paused = true }
    else if gate.fetch_paused && all (at_low backlogs marks) backlog_keys
    then record { fetch_paused = false }
    else gate

pub record BackpressureState : Type 0 where
  pub paused : Bool
  pub reason : Reason
  pub backlogs : BacklogKey → ℕ
  pub watermarks : Watermarks

abbrev pub lane_backlog : Db → Lane → ℕ
lane_backlog db lane =
    count_where (λ (t : Task). lane_eq t.lane lane && is_backlog t.state) db.tasks

abbrev pub backlogs_of : Db → BacklogKey → ℕ
backlogs_of db key = lane_backlog db (backlog_lane key)

abbrev gate_state : (BacklogKey → ℕ) → Watermarks → BackpressureGate → BackpressureState
gate_state backlogs marks gate = record {
  paused = gate.fetch_paused;
  reason =
      if gate.fetch_paused then downstream_backpressure_paused else downstream_below_high_watermark;
  backlogs = backlogs;
  watermarks = marks;
}

-- The gate is changed in place, so it comes back with the state.
unfoldable pub measure_backpressure :
    Watermarks → Option BackpressureGate → Db → BackpressureState × Option BackpressureGate
unfolding update_gate
measure_backpressure marks (some gate) db =
    let gate' = update_gate (backlogs_of db) marks gate in
    (gate_state (backlogs_of db) marks gate', some gate')
measure_backpressure marks none db =
    let paused = any (at_high (backlogs_of db) marks) backlog_keys in
    (
      record {
        paused = paused;
        reason = if paused then downstream_at_high_watermark else downstream_below_high_watermark;
        backlogs = backlogs_of db;
        watermarks = marks;
      },
      none,
    )

abbrev state_or_measure :
    Option BackpressureState
    → Watermarks
    → Option BackpressureGate
    → Db
    → BackpressureState × Option BackpressureGate
state_or_measure (some state) marks gate db = (state, gate)
state_or_measure none marks gate db = measure_backpressure marks gate db

unfoldable pub fetch_admission_allowed :
    Watermarks
    → Lane
    → Option BackpressureState
    → Option BackpressureGate
    → Db
    → Bool × Option BackpressureGate
unfolding measure_backpressure
fetch_admission_allowed marks lane backpressure gate db =
    if is_fetch_lane lane
    then (let (state, gate') = state_or_measure backpressure marks gate db in
        (not state.paused, gate'))
    else (true, gate)
