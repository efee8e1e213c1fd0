-- ===== src/Scheduler/Dependencies.antt =====
-- control/scheduler/dependencies.py: the tasks that a tick considers.
use trail_signal_os.Prelude.{
  ℕ, Bool, true, ◌&&◌, ◌||◌, not, Option, none, some, List, ◌==◌, ltb, leb, any, select, sort, map,
  is_due, is_null,
}
use trail_signal_os.Store.{Task, Dependency, Db}
use trail_signal_os.Store.Lanes.{Lane, lane_eq}
use trail_signal_os.Store.States.{is_pending, is_retry_wait, is_succeeded}
use trail_signal_os.Scheduler.Fairness.{AdmissionCandidate}

-- `JOIN tasks dep ON dep.task_id = d.depends_on_task_id WHERE d.task_id = %s AND dep.state <> 'SUCCEEDED'`
abbrev pub blocks : ℕ → List Task → Dependency → Bool
blocks task_id tasks d =
    d.task_id == task_id
    && any (λ (dep : Task). dep.task_id == d.depends_on_task_id && not (is_succeeded dep.state))
        tasks

-- `NOT EXISTS (…)`; the same query stands in `_dependencies_satisfied` of admit.py.
unfoldable pub dependencies_satisfied : Db → ℕ → Bool
dependencies_satisfied db task_id = not (any (blocks task_id db.tasks) db.dependencies)

-- The WHERE clause, with the clause for a lane where one is given.
abbrev in_lane : Option Lane → Task → Bool
in_lane none t = true
in_lane (some lane) t = lane_eq t.lane lane

abbrev pub is_candidate : ℕ → Option Lane → Db → Task → Bool
is_candidate now lane db t =
    ((is_pending t.state
        && ((is_null t.not_before || is_due t.not_before now)
            && dependencies_satisfied db t.task_id))
      || (is_retry_wait t.state && is_due t.retry_at now))
    && in_lane lane t

-- `ORDER BY t.priority ASC, t.created_at ASC, t.task_id ASC`
abbrev pub admission_order : Task → Task → Bool
admission_order a b =
    ltb a.priority b.priority
    || (a.priority == b.priority
        && (ltb a.created_at b.created_at
            || (a.created_at == b.created_at && leb a.task_id b.task_id)))

abbrev pub candidate_of : Task → AdmissionCandidate
candidate_of t = record {
  task_id = t.task_id;
  job_id = t.job_id;
  lane = t.lane;
  priority = t.priority;
  created_at = t.created_at;
}

unfoldable pub fetch_admission_candidates : ℕ → Option Lane → Db → List AdmissionCandidate
unfolding dependencies_satisfied
fetch_admission_candidates now lane db =
    map candidate_of (sort admission_order (select (is_candidate now lane db) db.tasks))
