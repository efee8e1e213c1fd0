-- ===== src/Tests/Governing.antt =====
-- The governor under the pressure of a host.
use trail_signal_os.Prelude.{◌≡◌, true, false, none, some, ◌⊎◌}
use trail_signal_os.Store.{Task, find_task}
use trail_signal_os.Guards.{ok}
use trail_signal_os.Scheduler.Reasons.{acquire}
use trail_signal_os.Scheduler.Admit.{admit_task, gate_or_new}
use trail_signal_os.Scheduler.Admit.Gates.{was_admitted}
use trail_signal_os.Resources.Phases.{known, default_profiles, lane_enabled_for_phase}
use trail_signal_os.Resources.Pressure.{default_thresholds, lane_allowed_under_pressure}
use trail_signal_os.Resources.Governor.{
  Resources, GovernorState, evaluate_governor, admit_task_with_governor,
}
use trail_signal_os.Resources.Governor.Laws.{governor_restricts}
use trail_signal_os.Scheduler.Backpressure.{is_fetch_lane}
use trail_signal_os.Tests.Data.{pending_db, default_config}

abbrev resources : Resources
resources = record { profiles = default_profiles; thresholds = default_thresholds }

governor_restricts_example :
    let governed =
      admit_task_with_governor resources default_config 50 1 (known acquire) 60 none pending_db in
    let (evaluated, gate') =
      evaluate_governor resources default_config.watermarks
        (known acquire)
        60
        (some (gate_or_new none))
        pending_db in
    ((was_admitted governed.0 ≡ false) × (governed.1.db ≡ pending_db))
    ⊎ ((g : GovernorState) × (t : Task) × (was_admitted governed.0 ≡ true)
        × (evaluated ≡ ok g)
        × (find_task pending_db 1 ≡ some t)
        × (lane_enabled_for_phase t.lane g.profile ≡ true)
        × ((lane_allowed_under_pressure t.lane g.actions).0 ≡ true)
        × (is_fetch_lane t.lane ≡ true
            → (g.fetch_paused ≡ false) × (g.actions.allow_fetch_lanes ≡ true))
        × (governed ≡ admit_task default_config 50 1 (some g.backpressure) gate' pending_db))
governor_restricts_example =
    governor_restricts resources default_config 50 1 (known acquire) 60 none pending_db
