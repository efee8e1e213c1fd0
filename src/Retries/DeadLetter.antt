-- ===== src/Retries/DeadLetter.antt =====
-- control/retries/dead_letter.py, and `_set_terminal_state` of handle.py.
use trail_signal_os.Prelude.{ℕ, Option, none, some, ◌==◌, if◌then◌else◌, update, count_where}
use trail_signal_os.Store.{Task, Db, has_id, find_task}
use trail_signal_os.Store.States.{TaskState}
use trail_signal_os.Guards.{Result, ok, err, lookup_error}
use trail_signal_os.Retries.Classifier.{ErrorCode}

abbrev pub terminate : ℕ → TaskState → Task → Task
terminate now state t = record t { state = state; completed_at = some now; updated_at = now }

abbrev pub set_terminal_state : ℕ → ℕ → TaskState → Db → Db
set_terminal_state now task_id state db = record db {
  tasks = update (has_id task_id) (terminate now state) db.tasks;
}

pub record DeadLetterResult : Type 0 where
  pub task_id : ℕ
  pub previous_state : TaskState
  pub failure_class : ErrorCode

dead_letter_row : ℕ → ℕ → ErrorCode → Option Task → Db → Result DeadLetterResult × Db
dead_letter_row now task_id failure_class none db = (err lookup_error, db)
dead_letter_row now task_id failure_class (some before) db = (
  (if count_where (has_id task_id) db.tasks == 1
      then ok (record {
        task_id = task_id;
        previous_state = before.state;
        failure_class = failure_class;
      })
      else err lookup_error),
  set_terminal_state now task_id TaskState.dead_letter db,
)

unfoldable pub send_to_dead_letter : ℕ → ℕ → ErrorCode → Db → Result DeadLetterResult × Db
unfolding dead_letter_row
send_to_dead_letter now task_id failure_class db =
    dead_letter_row now task_id failure_class (find_task db task_id) db
