-- ===== src/Api/DeadLetters.antt =====
-- control/api/routes_dead_letters.py
pub mod Generations
use trail_signal_os.Prelude.{
  ℕ, Bool, true, false, Option, none, some, List, if◌then◌else◌, select, update, sort, map, leb,
}
use trail_signal_os.Store.{Task, Db, find_task, has_id}
use trail_signal_os.Store.Lanes.{Lane}
use trail_signal_os.Store.States.{TaskState}
use trail_signal_os.Guards.{Result, ok, err, http_error}

abbrev pub is_dead_letter : TaskState → Bool
is_dead_letter TaskState.dead_letter = true
is_dead_letter _ = false

pub record DeadLetterItem : Type 0 where
  pub task_id : ℕ
  pub job_id : ℕ
  pub lane : Lane
  pub attempt : ℕ
  pub completed_at : Option ℕ
  pub updated_at : ℕ

-- `ORDER BY updated_at DESC`
unfoldable pub list_dead_letters : Db → List DeadLetterItem
list_dead_letters db =
    map
      (λ (t : Task). record {
        task_id = t.task_id;
        job_id = t.job_id;
        lane = t.lane;
        attempt = t.attempt;
        completed_at = t.completed_at;
        updated_at = t.updated_at;
      })
      (sort (λ (s : Task) (t : Task). leb t.updated_at s.updated_at)
        (select (λ (t : Task). is_dead_letter t.state) db.tasks))

-- The SET clause.
abbrev pub requeue : ℕ → Task → Task
requeue now t = record t {
  state = TaskState.ready;
  completed_at = none;
  lease_owner = none;
  lease_generation = 0;
  lease_expires_at = none;
  last_heartbeat_at = none;
  updated_at = now;
}

abbrev requeue_row : ℕ → ℕ → Option Task → Db → Result ℕ × Db
requeue_row now task_id none db = (err (http_error 404), db)
requeue_row now task_id (some t) db =
    if is_dead_letter t.state
    then (ok task_id, record db { tasks = update (has_id task_id) (requeue now) db.tasks })
    else (err (http_error 409), db)

unfoldable pub requeue_dead_letter : ℕ → ℕ → Bool → Db → Result ℕ × Db
requeue_dead_letter now task_id confirm db =
    if confirm
    then requeue_row now task_id (find_task db task_id) db
    else (err (http_error 400), db)
