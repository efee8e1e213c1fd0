-- ===== src/Scheduler/Reasons.antt =====
-- The texts that admission gives as its reasons, in control/scheduler and control/resources.
use trail_signal_os.Store.States.{TaskState}

-- The phases of control/resources/phase_gating.py.
pub data Phase : Type 0 where
  acquire enrich_phase index_phase : Phase

-- `state_of s` is `f"state_{s.lower()}"`, `lane_disabled p` is `f"phase_{p.lower()}_lane_disabled"`.
pub data Reason : Type 0 where
  task_not_found dependencies_unsatisfied backpressure_paused state_changed admitted : Reason
  lane_not_budgeted budget_exhausted within_budget : Reason
  lane_not_concurrency_gated max_in_flight_exceeded within_max_in_flight : Reason
  downstream_backpressure_paused downstream_at_high_watermark : Reason
  downstream_below_high_watermark : Reason
  pressure_green pressure_orange_throttle pressure_red_pause : Reason
  pressure_orange_no_browser pressure_orange_no_llm : Reason
  pressure_fetch_allowed pressure_lane_allowed governor_admit : Reason
  state_of : TaskState → Reason
  lane_disabled : Phase → Reason
