-- ===== src/Resources/Governor/Laws.antt =====
-- What the governor allows.
use trail_signal_os.Prelude.{
  ℕ, ◌≤◌, ◌≡◌, refl, ap, ◌∙◌, true, false, Option, some, arith, Bool-cases, Option-cases, inl, inr,
  ◌⊎◌,
}
use trail_signal_os.Store.{Db, Task, find_task}
use trail_signal_os.Store.Lanes.{Lane}
use trail_signal_os.Guards.{ok, Result-cases}
use trail_signal_os.Scheduler.Backpressure.{BackpressureGate, BackpressureState, is_fetch_lane}
use trail_signal_os.Scheduler.Admit.{Config, admit_task, gate_or_new}
use trail_signal_os.Scheduler.Admit.Gates.{was_admitted, denied_changes_nothing}
use trail_signal_os.Resources.Phases.{PhaseName, PhaseProfile, lane_enabled_for_phase}
use trail_signal_os.Resources.Pressure.{Thresholds, classify_pressure, lane_allowed_under_pressure}
use trail_signal_os.Resources.Governor.{
  Resources, GovernorState, governor_state, evaluate_governor, lane_admission_allowed,
  admit_task_with_governor,
}

-- More memory in use never lets a lane run that less memory in use would stop: what is allowed at
-- one share is allowed at every lower one, in the same phase and under the same backpressure.
pub allowed_below :
    (marks : Thresholds) (profile : PhaseProfile) (backpressure : BackpressureState) (lane : Lane)
    (less more : ℕ)
    → less ≤ more
    → (lane_admission_allowed lane (governor_state marks profile more backpressure)).0 ≡ true
    → (lane_admission_allowed lane (governor_state marks profile less backpressure)).0 ≡ true
unfolding lane_admission_allowed lane_allowed_under_pressure classify_pressure
allowed_below marks profile backpressure lane less more h allowed = ground arith

-- What an allowed lane has passed.
lane_allowed :
    (lane : Lane) (g : GovernorState)
    → (lane_admission_allowed lane g).0 ≡ true
    → (lane_enabled_for_phase lane g.profile ≡ true)
      × ((lane_allowed_under_pressure lane g.actions).0 ≡ true)
      × (is_fetch_lane lane ≡ true
          → (g.fetch_paused ≡ false) × (g.actions.allow_fetch_lanes ≡ true))
unfolding lane_admission_allowed
lane_allowed lane g h = (ground arith, ground arith, λ fetches. (ground arith, ground arith))

-- A call under the governor that does not admit, whether the governor or `admit_task` denies or
-- raises, leaves the database as it was. A call that admits is the call of `admit_task` on a row
-- whose lane the phase enables and the memory pressure allows, and for a lane that fetches while
-- neither the pressure nor the backpressure has paused fetching.
pub governor_restricts :
    (resources : Resources) (config : Config) (now id : ℕ) (phase : PhaseName) (memory : ℕ)
    (gate : Option BackpressureGate) (db : Db)
    → let governed = admit_task_with_governor resources config now id phase memory gate db in
      let (evaluated, gate') =
        evaluate_governor resources config.watermarks phase memory (some (gate_or_new gate)) db in
      ((was_admitted governed.0 ≡ false) × (governed.1.db ≡ db))
      ⊎ ((g : GovernorState) × (t : Task) × (was_admitted governed.0 ≡ true)
          × (evaluated ≡ ok g)
          × (find_task db id ≡ some t)
          × (lane_enabled_for_phase t.lane g.profile ≡ true)
          × ((lane_allowed_under_pressure t.lane g.actions).0 ≡ true)
          × (is_fetch_lane t.lane ≡ true
              → (g.fetch_paused ≡ false) × (g.actions.allow_fetch_lanes ≡ true))
          × (governed ≡ admit_task config now id (some g.backpressure) gate' db))
unfolding admit_task_with_governor
governor_restricts resources config now id phase memory gate db =
    let (evaluated, gate') =
      evaluate_governor resources config.watermarks phase memory (some (gate_or_new gate)) db in
    elim (Result-cases evaluated) [
      | inr (x, e) ↦ inl (rw e (refl, refl))
      | inl (g, e) ↦ elim (Option-cases (find_task db id)) [
        | inl missing ↦ inl (rw (e, missing) (refl, refl))
        | inr (t, found) ↦ elim (Bool-cases (lane_admission_allowed t.lane g).0) [
          | inl allowed ↦
              let same : admit_task_with_governor resources config now id phase memory gate db
                  ≡ admit_task config now id (some g.backpressure) gate' db =
                rw (e, found, allowed) refl in
              let (enabled, calm, fetching) = lane_allowed t.lane g allowed in
              elim (Bool-cases
                (was_admitted (admit_task config now id (some g.backpressure) gate' db).0)) [
                  | inl given ↦ inr (
                    g,
                    t,
                    ap (λ x. was_admitted x.0) same ∙ given,
                    e,
                    found,
                    enabled,
                    calm,
                    fetching,
                    same,
                  )
                  | inr denied ↦ inl (
                    ap (λ x. was_admitted x.0) same ∙ denied,
                    ap (λ x. x.1.db) same
                        ∙ denied_changes_nothing config now id (some g.backpressure) gate' db
                            denied,
                  )
                ]
          | inr stopped ↦ inl (rw (e, found, stopped) (refl, refl))
        ]
      ]
    ]
