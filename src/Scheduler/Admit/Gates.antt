-- ===== src/Scheduler/Admit/Gates.antt =====
-- The gates of admission: what a task that is admitted has passed, and what a denial leaves.
use trail_signal_os.Prelude.{
  ℕ, ◌<◌, ◌≡◌, ◌≢◌, refl, ap, ◌∙◌, sym, Bool, true, false, Option, some, arith,
}
use trail_signal_os.Store.{Task, Db, find_task, find_job}
use trail_signal_os.Store.States.{TaskState, is_admissible}
use trail_signal_os.Guards.{Result, ok, err}
use trail_signal_os.Scheduler.Budgets.{
  BudgetCheckResult, lane_budget_field, budget_limit, count_lane_spend, check_lane_budget,
}
use trail_signal_os.Scheduler.Concurrency.{
  Limits, LimitKey, lane_limit_key, count_lane_in_flight, check_lane_concurrency,
}
use trail_signal_os.Scheduler.Backpressure.{
  BackpressureGate, BackpressureState, is_fetch_lane, fetch_admission_allowed,
}
use trail_signal_os.Scheduler.Dependencies.{dependencies_satisfied}
use trail_signal_os.Scheduler.Admit.{
  Config, AdmissionResult, admit_row, admit_task, after_budget, keeping,
}
use trail_signal_os.Store.Lanes.{Lane}
use trail_signal_os.Store.{BudgetField}

abbrev pub was_admitted : Result AdmissionResult → Bool
was_admitted (ok r) = r.admitted
was_admitted (err e) = false

-- A call that does not admit, by a denial or by an exception, leaves the database as it was.
pub denied_changes_nothing :
    (config : Config) (now id : ℕ) (state : Option BackpressureState)
    (gate : Option BackpressureGate) (db : Db)
    → was_admitted (admit_task config now id state gate db).0 ≡ false
    → (admit_task config now id state gate db).1.db ≡ db
unfolding admit_task
denied_changes_nothing config now id state gate db h = ground arith

-- What holds of a task that is admitted, before it is.
pub record Passed (config : Config) (state : BackpressureState) (db : Db) (t : Task) : Type 0 where
  pub was_waiting : is_admissible t.state ≡ true
  pub has_dependencies : t.state ≡ TaskState.pending → dependencies_satisfied db t.task_id ≡ true
  pub not_paused : is_fetch_lane t.lane ≡ true → state.paused ≡ false
  pub within_budget :
      (field : BudgetField) (limit : ℕ)
      → lane_budget_field t.lane ≡ some field
      → budget_limit (find_job db t.job_id) field ≡ ok limit
      → count_lane_spend t.job_id t.lane db < limit
  pub within_limits :
      (key : LimitKey)
      → lane_limit_key t.lane ≡ some key
      → config.limits key ≢ 0
      → count_lane_in_flight t.lane db < config.limits key

budget_allowed :
    (job_id : ℕ) (lane : Lane) (db : Db) {c : BudgetCheckResult} (field : BudgetField) (limit : ℕ)
    → check_lane_budget job_id lane db ≡ ok c
    → c.allowed ≡ true
    → lane_budget_field lane ≡ some field
    → budget_limit (find_job db job_id) field ≡ ok limit
    → count_lane_spend job_id lane db < limit
unfolding check_lane_budget
budget_allowed job_id lane db {c} field limit e a f l = ground arith

concurrency_allowed :
    (limits : Limits) (lane : Lane) (db : Db) (key : LimitKey)
    → (check_lane_concurrency limits lane db).allowed ≡ true
    → lane_limit_key lane ≡ some key
    → limits key ≢ 0
    → count_lane_in_flight lane db < limits key
unfolding check_lane_concurrency
concurrency_allowed limits lane db key a k n = ground arith

-- An exception or a denial of the budget check admits nothing.
pub after_budget-admitted :
    (config : Config) (now : ℕ) (t : Task) (b : Result BudgetCheckResult) (db : Db)
    → was_admitted (after_budget config now t b db).0 ≡ true
    → (c : BudgetCheckResult) × (b ≡ ok c)
      × (c.allowed ≡ true)
      × ((check_lane_concurrency config.limits t.lane db).allowed ≡ true)
after_budget-admitted config now t (err e) db h = absurd (ground arith)
after_budget-admitted config now t (ok c) db h = (c, refl, ground arith, ground arith)

pub row_admitted :
    (config : Config) (now : ℕ) (t : Task) (state : BackpressureState)
    (gate : Option BackpressureGate) (db : Db)
    → was_admitted (admit_row config now t (some state) gate db).0 ≡ true
    → (is_admissible t.state ≡ true)
      × (t.state ≡ TaskState.pending → dependencies_satisfied db t.task_id ≡ true)
      × (is_fetch_lane t.lane ≡ true → state.paused ≡ false)
      × (admit_row config now t (some state) gate db
          ≡ keeping gate (after_budget config now t (check_lane_budget t.job_id t.lane db) db))
unfolding admit_row fetch_admission_allowed
row_admitted config now t state gate db h =
    (ground arith, λ p. ground arith, λ f. ground arith, ground arith)

-- A task that is admitted was PENDING or RETRY_WAIT, has its dependencies if it was PENDING, is in
-- no paused fetch lane, and found its job below its budget and its lane below its limit, where
-- they have one.
pub admitted-Passed :
    (config : Config) (now id : ℕ) (state : BackpressureState) (gate : Option BackpressureGate)
    (db : Db) {t : Task}
    → find_task db id ≡ some t
    → was_admitted (admit_task config now id (some state) gate db).0 ≡ true
    → Passed config state db t
unfolding admit_task
admitted-Passed config now id state gate db {t} e h =
    let admitted : was_admitted (admit_row config now t (some state) gate db).0 ≡ true =
      ground arith in
    let (waits, deps, lanes, same) = row_admitted config now t state gate db admitted in
    let (c, checked, allowed, slot) =
      after_budget-admitted config now t (check_lane_budget t.job_id t.lane db) db
        (ap (λ x. was_admitted x.0) (sym same) ∙ admitted) in
    record {
      was_waiting = waits;
      has_dependencies = deps;
      not_paused = lanes;
      within_budget = λ field limit f l.
          budget_allowed t.job_id t.lane db {c = c} field limit checked allowed f l;
      within_limits = λ key k n. concurrency_allowed config.limits t.lane db key slot k n;
    }
