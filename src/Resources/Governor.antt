-- ===== src/Resources/Governor.antt =====
-- control/resources/governor.py. The memory that the host reports is an argument.
pub mod Laws
use trail_signal_os.Prelude.{
  ℕ, Bool, true, false, ◌&&◌, ◌||◌, not, Option, none, some, if◌then◌else◌,
}
use trail_signal_os.Store.{Db, Task, find_task}
use trail_signal_os.Store.Lanes.{Lane}
use trail_signal_os.Guards.{Result, ok, err}
use trail_signal_os.Scheduler.Reasons.{Reason, Phase, task_not_found, lane_disabled, governor_admit}
use trail_signal_os.Scheduler.Backpressure.{
  BackpressureGate, BackpressureState, Watermarks, measure_backpressure, is_fetch_lane,
}
use trail_signal_os.Scheduler.Admit.{
  Config, AdmissionResult, Admission, admit_task, denied, gate_or_new,
}
use trail_signal_os.Resources.Phases.{
  PhaseName, PhaseProfile, load_phase_profile, lane_enabled_for_phase,
}
use trail_signal_os.Resources.Pressure.{
  PressureLevel, PressureActions, Thresholds, classify_pressure, pressure_actions,
  lane_allowed_under_pressure,
}

-- What the governor loads.
pub record Resources : Type 0 where
  pub profiles : Phase → PhaseProfile
  pub thresholds : Thresholds

pub record GovernorState : Type 0 where
  pub phase : Phase
  pub profile : PhaseProfile
  pub memory : ℕ
  pub pressure : PressureLevel
  pub actions : PressureActions
  pub backpressure : BackpressureState
  pub fetch_paused : Bool

abbrev pub combined_fetch_paused : GovernorState → Bool
combined_fetch_paused g = g.fetch_paused || not g.actions.allow_fetch_lanes

-- The state of a tick, from what it has read.
abbrev pub governor_state : Thresholds → PhaseProfile → ℕ → BackpressureState → GovernorState
governor_state thresholds profile memory backpressure =
    let pressure = classify_pressure thresholds memory in
    let actions = pressure_actions pressure profile in
    record {
      phase = profile.phase;
      profile = profile;
      memory = memory;
      pressure = pressure;
      actions = actions;
      backpressure = backpressure;
      fetch_paused = backpressure.paused || not actions.allow_fetch_lanes;
    }

-- The gate comes back with the state, as in `measure_backpressure`.
unfoldable pub evaluate_governor :
    Resources
    → Watermarks
    → PhaseName
    → ℕ
    → Option BackpressureGate
    → Db
    → Result GovernorState × Option BackpressureGate
evaluate_governor resources marks phase memory gate db =
    go (load_phase_profile resources.profiles phase)
  where
    go : Result PhaseProfile → Result GovernorState × Option BackpressureGate
    go (err e) = (err e, gate)
    go (ok profile) =
        let (backpressure, gate') = measure_backpressure marks (some (gate_or_new gate)) db in
        (ok (governor_state resources.thresholds profile memory backpressure), gate')

unfoldable pub lane_admission_allowed : Lane → GovernorState → Bool × Reason
lane_admission_allowed lane g =
    let (pressure_ok, pressure_reason) = lane_allowed_under_pressure lane g.actions in
    if not (lane_enabled_for_phase lane g.profile)
    then (false, lane_disabled g.phase)
    else if not pressure_ok
    then (false, pressure_reason)
    else if is_fetch_lane lane && combined_fetch_paused g
    then (if not g.actions.allow_fetch_lanes
        then (false, g.actions.reason)
        else (false, g.backpressure.reason))
    else (true, governor_admit)

-- From the evaluation on.
abbrev pub admit_governed :
    Config
    → ℕ
    → ℕ
    → Result GovernorState
    → Option BackpressureGate
    → Db
    → Result AdmissionResult × Admission
admit_governed config now task_id (err e) gate db = (err e, record { db = db; gate = gate })
admit_governed config now task_id (ok g) gate db = go (find_task db task_id)
  where
    go : Option Task → Result AdmissionResult × Admission
    go none = (ok (denied task_id task_not_found), record { db = db; gate = gate })
    go (some t) =
        let (allowed, reason) = lane_admission_allowed t.lane g in
        let result = admit_task config now task_id (some g.backpressure) gate db in
        if allowed then result else (ok (denied task_id reason), record { db = db; gate = gate })

unfoldable pub admit_task_with_governor :
    Resources
    → Config
    → ℕ
    → ℕ
    → PhaseName
    → ℕ
    → Option BackpressureGate
    → Db
    → Result AdmissionResult × Admission
admit_task_with_governor resources config now task_id phase memory gate db =
    let (governor, gate') =
      evaluate_governor resources config.watermarks phase memory (some (gate_or_new gate)) db in
    admit_governed config now task_id governor gate' db
