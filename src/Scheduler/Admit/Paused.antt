-- ===== src/Scheduler/Admit/Paused.antt =====
-- A tick while the downstream lanes are behind.
use trail_signal_os.Prelude.{
  ℕ, ◌≡◌, refl, ◌∙◌, sym, true, Option, some, List, [], ◌∷◌, ==→eq, arith, Bool-cases, inl, inr,
  any, length,
}
use mathlib.Core.Path.{subst}
use trail_signal_os.Store.{Task, Db, find_task}
use trail_signal_os.Store.Lanes.{Lane, lane_code, lane_eq, eq_of_code}
use trail_signal_os.Store.States.{is_admissible}
use trail_signal_os.Store.Rows.{HasUniqueIds, find-has_id}
use trail_signal_os.Store.Counts.{count_where-update_key}
use trail_signal_os.Guards.{Result, Result-cases}
use trail_signal_os.Scheduler.Backpressure.{
  BackpressureGate, BackpressureState, Watermarks, measure_backpressure, is_fetch_lane, at_high,
  backlogs_of, backlog_keys,
}
use trail_signal_os.Scheduler.Concurrency.{count_lane_in_flight, flies}
use trail_signal_os.Scheduler.Fairness.{AdmissionCandidate}
use trail_signal_os.Scheduler.Fairness.Batch.{IsPositive, select_fair_batch_lem}
use trail_signal_os.Scheduler.Dependencies.{fetch_admission_candidates}
use trail_signal_os.Scheduler.Admit.{
  Config, Admission, AdmissionTickResult, make_ready, next_attempt, admit_task, admit_each, noted,
  run_admission_tick, gate_or_new,
}
use trail_signal_os.Scheduler.Admit.Tick.{admit_cases, admit-HasUniqueIds, other_lane}

-- A paused fetch lane gets no task.
admit_paused :
    (config : Config) (now id : ℕ) (state : BackpressureState) (gate : Option BackpressureGate)
    (db : Db) (lane : Lane)
    → HasUniqueIds db.tasks
    → state.paused ≡ true
    → is_fetch_lane lane ≡ true
    → count_lane_in_flight lane (admit_task config now id (some state) gate db).1.db
      ≡ count_lane_in_flight lane db
admit_paused config now id state gate db lane u p f =
    elim (admit_cases config now id state gate db u) [
      | inl same ↦ rw same refl
      | inr (t, name, e, passed, written) ↦ elim (Bool-cases (lane_eq t.lane lane)) [
        | inl own ↦
            let same_lane =
              eq_of_code t.lane lane (==→eq (lane_code t.lane) (lane_code lane) own) in
            let open_gate = passed.not_paused (rw same_lane f) in absurd (ground arith)
        | inr other ↦
            let here : find_task db t.task_id ≡ some t =
              subst (λ (j : ℕ). find_task db j ≡ some t) (sym (find-has_id id db.tasks {t = t} e))
                e in
            rw written (
              other_lane (make_ready now (next_attempt t)) t lane refl other (
                count_where-update_key (flies lane) (λ (s : Task). is_admissible s.state)
                  (make_ready now (next_attempt t)) t.task_id db.tasks {t = t} u here))
      ]
    ]

each_paused :
    (config : Config) (now : ℕ) (state : BackpressureState) (lane : Lane)
    (cs : List AdmissionCandidate) (tick : AdmissionTickResult) (s : Admission)
    → HasUniqueIds s.db.tasks
    → state.paused ≡ true
    → is_fetch_lane lane ≡ true
    → count_lane_in_flight lane (admit_each config now state cs tick s).1.db
      ≡ count_lane_in_flight lane s.db
unfolding admit_each
each_paused config now state lane [] tick s u p f = refl
each_paused config now state lane (c ∷ cs) tick s u p f =
    let kept = admit_paused config now c.task_id state s.gate s.db lane u p f in
    let unique = admit-HasUniqueIds config now c.task_id state s.gate s.db u in
    elim (Result-cases (admit_task config now c.task_id (some state) s.gate s.db).0) [
      | inl (r, e) ↦
          rw (e, admit_each)
            (each_paused config now state lane cs (noted r tick) _ unique p f ∙ kept)
      | inr (x, e) ↦ rw (e, admit_each) kept
    ]

-- A backlog at its high mark pauses the gate that is measured with it.
measured_paused :
    (marks : Watermarks) (gate : BackpressureGate) (db : Db)
    → any (at_high (backlogs_of db) marks) backlog_keys ≡ true
    → (measure_backpressure marks (some gate) db).0.paused ≡ true
unfolding measure_backpressure
measured_paused marks gate db h = rw h refl

-- Where keys are unique, a tick under positive weights that finds any downstream backlog at its
-- high mark returns and puts no task of a fetch lane in flight: the lane has as many in flight
-- after it as before.
pub behind_fetches_nothing :
    (config : Config) (now batch_limit : ℕ) (only : Option Lane) (gate : Option BackpressureGate)
    (db : Db) (lane : Lane)
    → IsPositive config.weights
    → HasUniqueIds db.tasks
    → any (at_high (backlogs_of db) config.watermarks) backlog_keys ≡ true
    → is_fetch_lane lane ≡ true
    → (result : Result AdmissionTickResult) × (after : Admission) × (run_admission_tick config now
          batch_limit only gate db
        ≡ some (result, after))
      × (count_lane_in_flight lane after.db ≡ count_lane_in_flight lane db)
unfolding run_admission_tick
behind_fetches_nothing config now batch_limit only gate db lane pw u h f =
    let (selected, e, _, _, _) =
      select_fair_batch_lem config.weights batch_limit (fetch_admission_candidates now only db)
        pw in
    let (state, gate') = measure_backpressure config.watermarks (some (gate_or_new gate)) db in
    let start : AdmissionTickResult = record {
      examined = length selected;
      admitted = [];
      denied = [];
    } in
    let (result, after) =
      admit_each config now state selected start (record { db = db; gate = gate' }) in
    (
      result,
      after,
      rw e refl,
      each_paused config now state lane selected start (record { db = db; gate = gate' }) u
          (measured_paused config.watermarks (gate_or_new gate) db h) f,
    )
