-- ===== src/Leases/Fencing.antt =====
-- control/leases/fencing.py. `extra_sets` maps column names to values; the columns that the model
-- names are those of scheduling and leases that no other argument sets.
pub mod Columns
use trail_signal_os.Prelude.{
  ℕ, Bool, true, not, any, ◌&&◌, ◌||◌, Option, none, some, List, [], ◌∷◌, ◌==◌, if◌then◌else◌,
  is_eq, count_where, update,
}
use trail_signal_os.Store.{Task, Db, has_id}
use trail_signal_os.Store.States.{TaskState, is_terminal}
use trail_signal_os.Guards.{Result, err, integrity_error, guard2_require_fenced_update}

pub data Assignment : Type 0 where
  set_attempt set_lease_generation : ℕ → Assignment
  set_not_before set_retry_at set_lease_owner : Option ℕ → Assignment
  set_lease_expires_at set_last_heartbeat_at : Option ℕ → Assignment

abbrev pub assign : Assignment → Task → Task
assign (set_attempt n) t = record t { attempt = n }
assign (set_lease_generation n) t = record t { lease_generation = n }
assign (set_not_before o) t = record t { not_before = o }
assign (set_retry_at o) t = record t { retry_at = o }
assign (set_lease_owner o) t = record t { lease_owner = o }
assign (set_lease_expires_at o) t = record t { lease_expires_at = o }
assign (set_last_heartbeat_at o) t = record t { last_heartbeat_at = o }

abbrev pub assign_all : List Assignment → Task → Task
assign_all [] t = t
assign_all (a ∷ as') t = assign_all as' (assign a t)

-- `if result_artifact_id is not None`
abbrev pub with_result : Option ℕ → Task → Task
with_result none t = t
with_result (some id) t = record t { result_artifact_id = some id }

-- The SET clause, part by part as the statement is put together.
unfoldable pub fenced_write : ℕ → TaskState → Option ℕ → List Assignment → Task → Task
fenced_write now new_state result extra t =
    let s = with_result result (record t { state = new_state; updated_at = now }) in
    assign_all extra (if is_terminal new_state then record s { completed_at = some now } else s)

-- The WHERE clause.
abbrev pub is_fenced : ℕ → ℕ → ℕ → Task → Bool
is_fenced task_id worker_id generation t =
    has_id task_id t && (is_eq t.lease_owner worker_id && t.lease_generation == generation)

-- The foreign key of `result_artifact_id`, of a value that the statement sets.
abbrev pub is_known : List ℕ → Option ℕ → Bool
is_known artifacts none = true
is_known artifacts (some id) = any (λ (a : ℕ). a == id) artifacts

-- What the constraints of the table forbid of a row that the statement writes: the foreign key, and
-- `CHECK (attempt >= 1)`.
abbrev pub violates : List ℕ → Option ℕ → Task → Bool
violates artifacts result row = not (is_known artifacts result) || row.attempt == 0

-- A violated constraint raises and rolls the statement back. The statement has run when the guard
-- raises; the database comes back in all cases.
unfoldable pub update_task_fenced :
    ℕ → ℕ → ℕ → ℕ → TaskState → Option ℕ → List Assignment → Db → Result (Unit {0}) × Db
update_task_fenced now task_id worker_id generation new_state result extra db =
    let rows_updated = count_where (is_fenced task_id worker_id generation) db.tasks in
    let write = fenced_write now new_state result extra in
    if any
      (λ (t : Task).
        is_fenced task_id worker_id generation t && violates db.artifacts result (write t))
      db.tasks
    then (err integrity_error, db)
    else (
      guard2_require_fenced_update rows_updated worker_id worker_id,
      record db { tasks = update (is_fenced task_id worker_id generation) write db.tasks },
    )
