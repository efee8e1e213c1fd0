-- ===== src/Resources/Pressure.antt =====
-- control/resources/pressure_policy.py, and `classify_pressure` of host_metrics.py. Shares of
-- memory are numbers in one unit, since the code only compares them.
use trail_signal_os.Prelude.{ℕ, Bool, true, false, not, ◌&&◌, min, ◌==◌, leb, if◌then◌else◌}
use trail_signal_os.Store.Lanes.{Lane, Lane.browser, Lane.extract, Lane.enrich}
use trail_signal_os.Scheduler.Reasons.{
  Reason, pressure_green, pressure_orange_throttle, pressure_red_pause, pressure_orange_no_browser,
  pressure_orange_no_llm, pressure_fetch_allowed, pressure_lane_allowed,
}
use trail_signal_os.Scheduler.Backpressure.{is_fetch_lane}
use trail_signal_os.Resources.Phases.{PhaseProfile}

pub data PressureLevel : Type 0 where
  green orange red : PressureLevel

-- `memory_governor` of config/phases.yaml
pub record Thresholds : Type 0 where
  pub green_below_pct : ℕ
  pub orange_below_pct : ℕ

abbrev pub default_thresholds : Thresholds
default_thresholds = record { green_below_pct = 70; orange_below_pct = 85 }

unfoldable pub classify_pressure : Thresholds → ℕ → PressureLevel
classify_pressure marks vm_used_pct =
    if leb marks.orange_below_pct vm_used_pct
    then red
    else if leb marks.green_below_pct vm_used_pct
    then orange
    else green

pub record PressureActions : Type 0 where
  pub allow_browser : Bool
  pub allow_llm_admission : Bool
  pub allow_fetch_lanes : Bool
  pub parser_processes : ℕ
  pub pressure : PressureLevel
  pub reason : Reason

abbrev pub pressure_actions : PressureLevel → PhaseProfile → PressureActions
pressure_actions green profile = record {
  allow_browser = profile.browser_enabled;
  allow_llm_admission = profile.local_llm_enabled;
  allow_fetch_lanes = true;
  parser_processes = profile.parser_processes;
  pressure = green;
  reason = pressure_green;
}
pressure_actions orange profile = record {
  allow_browser = false;
  allow_llm_admission = false;
  allow_fetch_lanes = true;
  parser_processes = min profile.parser_processes 1;
  pressure = orange;
  reason = pressure_orange_throttle;
}
pressure_actions red profile = record {
  allow_browser = false;
  allow_llm_admission = false;
  allow_fetch_lanes = false;
  parser_processes = 0;
  pressure = red;
  reason = pressure_red_pause;
}

abbrev is_browser : Lane → Bool
is_browser browser = true
is_browser _ = false

abbrev is_enrich : Lane → Bool
is_enrich enrich = true
is_enrich _ = false

abbrev is_extract : Lane → Bool
is_extract extract = true
is_extract _ = false

abbrev fetch_allowed : Lane → PressureActions → Bool × Reason
fetch_allowed lane actions =
    if not actions.allow_fetch_lanes
    then (false, actions.reason)
    else if is_browser lane && not actions.allow_browser
    then (false, pressure_orange_no_browser)
    else (true, pressure_fetch_allowed)

unfoldable pub lane_allowed_under_pressure : Lane → PressureActions → Bool × Reason
lane_allowed_under_pressure lane actions =
    if is_fetch_lane lane
    then fetch_allowed lane actions
    else if is_enrich lane && not actions.allow_llm_admission
    then (false, pressure_orange_no_llm)
    else if is_extract lane && actions.parser_processes == 0
    then (false, actions.reason)
    else (true, pressure_lane_allowed)
