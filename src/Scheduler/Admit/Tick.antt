-- ===== src/Scheduler/Admit/Tick.antt =====
-- The limits that admission keeps, task by task and over a whole tick.
use trail_signal_os.Prelude.{
  ℕ, ◌+◌, ◌≤◌, ◌<◌, ◌≡◌, ◌≢◌, refl, sym, Bool, false, Option, none, some, List, [], ◌∷◌, ==→eq,
  arith, Bool-cases, Option-cases, inl, inr, ◌⊎◌, length,
}
use mathlib.Core.Path.{subst}
use trail_signal_os.Store.{Task, Db, StreamName, find_task}
use trail_signal_os.Store.Lanes.{Lane, lane_code, lane_eq, eq_of_code}
use trail_signal_os.Store.States.{is_admissible}
use trail_signal_os.Store.Rows.{HasUniqueIds, updated, update-HasUniqueIds, find-has_id}
use trail_signal_os.Store.Counts.{one, count_where-update_key}
use trail_signal_os.Guards.{Result, Result-cases}
use trail_signal_os.Scheduler.Backpressure.{
  BackpressureGate, BackpressureState, measure_backpressure,
}
use trail_signal_os.Scheduler.Concurrency.{LimitKey, lane_limit_key, count_lane_in_flight, flies}
use trail_signal_os.Scheduler.Fairness.{AdmissionCandidate}
use trail_signal_os.Scheduler.Fairness.Batch.{IsPositive, select_fair_batch_lem}
use trail_signal_os.Scheduler.Dependencies.{fetch_admission_candidates}
use trail_signal_os.Scheduler.Admit.{
  Config, Admission, AdmissionTickResult, make_ready, can_admit, next_attempt, admit_task,
  admit_each, noted, run_admission_tick, gate_or_new,
}
use trail_signal_os.Scheduler.Admit.Gates.{
  was_admitted, denied_changes_nothing, admitted-Passed, Passed,
}
use trail_signal_os.Scheduler.Admit.Outbox.{promoted, admission_promotes}

one_most : (b : Bool) → one b ≤ 1
one_most b = elim (Bool-cases b) [ inl y ↦ ground arith | inr n ↦ ground arith ]

-- Nobody is admitted who is not there.
missing_denied :
    (config : Config) (now id : ℕ) (state : BackpressureState) (gate : Option BackpressureGate)
    (db : Db)
    → find_task db id ≡ none
    → was_admitted (admit_task config now id (some state) gate db).0 ≡ false
unfolding admit_task
missing_denied config now id state gate db e = ground arith

-- A change of a row in another lane.
pub other_lane :
    (f : Task → Task) (t : Task) (lane : Lane) {n m : ℕ}
    → (f t).lane ≡ t.lane
    → lane_eq t.lane lane ≡ false
    → m + one (flies lane t)
      ≡ n + one (flies lane (updated (λ (s : Task). is_admissible s.state) f t))
    → m ≡ n
other_lane f t lane {n} {m} keep other counted = ground (arith, keep, counted)

-- One more task in flight fits, if there is room for it in its lane.
lane_room :
    (f : Task → Task) (t : Task) (lane : Lane) {n m limit : ℕ}
    → (f t).lane ≡ t.lane
    → (t.lane ≡ lane → n < limit)
    → m + one (flies lane t)
      ≡ n + one (flies lane (updated (λ (s : Task). is_admissible s.state) f t))
    → n ≤ limit
    → m ≤ limit
lane_room f t lane {n} {m} {limit} keep room counted h = elim (Bool-cases (lane_eq t.lane lane)) [
  | inl own ↦
      let free = room (eq_of_code t.lane lane (==→eq (lane_code t.lane) (lane_code lane) own)) in
      let most = one_most (flies lane (updated (λ (s : Task). is_admissible s.state) f t)) in
      omega arith
  | inr other ↦ omega (arith, other_lane f t lane {n = n} {m = m} keep other counted)
]

module _ (config : Config) (now id : ℕ) (state : BackpressureState) (gate : Option BackpressureGate)
    (db : Db) (u : HasUniqueIds db.tasks) where
  -- A call leaves the database, or promotes a row that has passed the gates.
  pub admit_cases :
      ((admit_task config now id (some state) gate db).1.db ≡ db)
      ⊎ ((t : Task) × (name : StreamName) × (find_task db id ≡ some t)
          × Passed config state db t
          × ((admit_task config now id (some state) gate db).1.db
              ≡ promoted now t.task_id t name db))
  admit_cases = elim (Bool-cases (was_admitted (admit_task config now id (some state) gate db).0)) [
    | inr no_entry ↦ inl (denied_changes_nothing config now id (some state) gate db no_entry)
    | inl entry ↦ elim (Option-cases (find_task db id)) [
      | inl missing ↦
          absurd (let not_in = missing_denied config now id state gate db missing in ground arith)
      | inr (t, e) ↦
          let (name, _, _, written, _) =
            admission_promotes config now id state gate db {t = t} u e entry in
          inr (t, name, e, admitted-Passed config now id state gate db {t = t} e entry, written)
    ]
  ]

  pub admit-HasUniqueIds : HasUniqueIds (admit_task config now id (some state) gate db).1.db.tasks
  admit-HasUniqueIds = elim admit_cases [
    | inl same ↦ rw same u
    | inr (t, name, e, passed, written) ↦ rw written (
        update-HasUniqueIds (can_admit t.task_id) (make_ready now (next_attempt t)) db.tasks
          (λ s. refl) u)
  ]

  -- The tasks of a lane in flight stay within the limit of the lane.
  pub admit_keeps_limit :
      (lane : Lane) (key : LimitKey)
      → lane_limit_key lane ≡ some key
      → config.limits key ≢ 0
      → count_lane_in_flight lane db ≤ config.limits key
      → count_lane_in_flight lane (admit_task config now id (some state) gate db).1.db
        ≤ config.limits key
  admit_keeps_limit lane key k n h = elim admit_cases [
    | inl same ↦ rw same h
    | inr (t, name, e, passed, written) ↦
        let here : find_task db t.task_id ≡ some t =
          subst (λ (j : ℕ). find_task db j ≡ some t) (sym (find-has_id id db.tasks {t = t} e)) e in
        let counted =
          count_where-update_key (flies lane) (λ (s : Task). is_admissible s.state)
            (make_ready now (next_attempt t)) t.task_id db.tasks {t = t} u here in
        rw written (
          lane_room (make_ready now (next_attempt t)) t lane refl
            (λ same_lane.
              subst (λ (l : Lane). count_lane_in_flight l db < config.limits key) same_lane
                (passed.within_limits key (rw same_lane k) n))
            counted h)
  ]

-- So they do over the loop of a tick, whatever it admits and wherever an exception ends it.
each_keeps_limit :
    (config : Config) (now : ℕ) (state : BackpressureState) (lane : Lane) (key : LimitKey)
    (cs : List AdmissionCandidate) (tick : AdmissionTickResult) (s : Admission)
    → lane_limit_key lane ≡ some key
    → config.limits key ≢ 0
    → HasUniqueIds s.db.tasks
    → count_lane_in_flight lane s.db ≤ config.limits key
    → count_lane_in_flight lane (admit_each config now state cs tick s).1.db ≤ config.limits key
unfolding admit_each
each_keeps_limit config now state lane key [] tick s k n u h = h
each_keeps_limit config now state lane key (c ∷ cs) tick s k n u h =
    let kept = admit_keeps_limit config now c.task_id state s.gate s.db u lane key k n h in
    let unique = admit-HasUniqueIds config now c.task_id state s.gate s.db u in
    elim (Result-cases (admit_task config now c.task_id (some state) s.gate s.db).0) [
      | inl (r, e) ↦
          rw (e, admit_each)
            (each_keeps_limit config now state lane key cs (noted r tick) _ k n unique kept)
      | inr (x, e) ↦ rw (e, admit_each) kept
    ]

-- Where keys are unique, a tick under positive weights returns, and a lane with a limit that is
-- not 0, whose tasks in flight were within it before, is within it after, whatever the tick admits
-- and even if an exception ends it.
pub tick_keeps_limit :
    (config : Config) (now batch_limit : ℕ) (only : Option Lane) (gate : Option BackpressureGate)
    (db : Db) (lane : Lane) (key : LimitKey)
    → IsPositive config.weights
    → HasUniqueIds db.tasks
    → lane_limit_key lane ≡ some key
    → config.limits key ≢ 0
    → count_lane_in_flight lane db ≤ config.limits key
    → (result : Result AdmissionTickResult) × (after : Admission) × (run_admission_tick config now
          batch_limit only gate db
        ≡ some (result, after))
      × (count_lane_in_flight lane after.db ≤ config.limits key)
unfolding run_admission_tick
tick_keeps_limit config now batch_limit only gate db lane key pw u k n h =
    let (selected, e, _, _, _) =
      select_fair_batch_lem config.weights batch_limit (fetch_admission_candidates now only db)
        pw in
    let (state, gate') = measure_backpressure config.watermarks (some (gate_or_new gate)) db in
    let start : AdmissionTickResult = record {
      examined = length selected;
      admitted = [];
      denied = [];
    } in
    let (result, after) =
      admit_each config now state selected start (record { db = db; gate = gate' }) in
    (
      result,
      after,
      rw e refl,
      each_keeps_limit config now state lane key selected start (record { db = db; gate = gate' }) k
          n u h,
    )
