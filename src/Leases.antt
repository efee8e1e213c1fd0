-- ===== src/Leases.antt =====
-- control/leases: acquire.py, heartbeat.py, reaper.py and fencing.py. `now` is the NOW() of the
-- transaction. A statement that updates by the primary key changes the rows with that key.

pub mod Reaper
pub mod Fencing
pub mod Exclusion
pub mod Recovery
pub mod Renewal
pub mod Handover
use trail_signal_os.Prelude.{
  ℕ, suc, ◌+◌, Bool, true, false, ◌&&◌, ◌||◌, Option, none, some, List, [], ◌∷◌, ◌==◌,
  if◌then◌else◌, is_before, is_from, is_eq, is_null, length, first, select, update, take, any, sort,
  leb, map, not,
}
use trail_signal_os.Store.{Task, Db, has_id}
use trail_signal_os.Store.States.{
  TaskState, is_ready, is_held, is_terminal, TaskState.ready as ready_state,
  TaskState.leased as leased_state,
}
use mathlib.Core.Option

pub record LeaseAcquireResult : Type 0 where
  pub task_id : ℕ
  pub worker_id : ℕ
  pub lease_generation : ℕ
  pub lease_expires_at : Option ℕ

-- The WHERE clause of `acquire_lease`.
abbrev pub can_acquire : ℕ → ℕ → Task → Bool
can_acquire now task_id t =
    has_id task_id t && (is_ready t.state || (is_held t.state && is_before t.lease_expires_at now))

-- Its SET clause.
abbrev pub take_lease : ℕ → ℕ → ℕ → Task → Task
take_lease now worker_id duration t = record t {
  state = leased_state;
  lease_owner = some worker_id;
  lease_generation = t.lease_generation + 1;
  lease_expires_at = some (now + duration);
  last_heartbeat_at = some now;
  updated_at = now;
}

abbrev pub acquired : ℕ → ℕ → Task → LeaseAcquireResult
acquired task_id worker_id t = record {
  task_id = task_id;
  worker_id = worker_id;
  lease_generation = t.lease_generation;
  lease_expires_at = t.lease_expires_at;
}

unfoldable pub acquire_lease : ℕ → ℕ → ℕ → ℕ → Db → Option LeaseAcquireResult × Db
acquire_lease now task_id worker_id duration db =
    let updated = select (can_acquire now task_id) db.tasks in
    let returned = first (map (take_lease now worker_id duration) updated) in
    (
      Option.map (acquired task_id worker_id) returned,
      record db {
        tasks = update (can_acquire now task_id) (take_lease now worker_id duration) db.tasks;
      },
    )

pub record HeartbeatResult : Type 0 where
  pub task_id : ℕ
  pub worker_id : ℕ
  pub lease_generation : ℕ
  pub lease_expires_at : Option ℕ

-- The WHERE clause of `heartbeat`.
abbrev pub can_heartbeat : ℕ → ℕ → ℕ → ℕ → Task → Bool
can_heartbeat now task_id worker_id generation t =
    has_id task_id t
    && (is_eq t.lease_owner worker_id
        && (t.lease_generation == generation
            && (is_held t.state && is_from t.lease_expires_at now)))

abbrev pub extend_lease : ℕ → ℕ → Task → Task
extend_lease now duration t = record t {
  lease_expires_at = some (now + duration);
  last_heartbeat_at = some now;
  updated_at = now;
}

unfoldable pub heartbeat : ℕ → ℕ → ℕ → ℕ → ℕ → Db → Option HeartbeatResult × Db
heartbeat now task_id worker_id generation duration db =
    let updated = select (can_heartbeat now task_id worker_id generation) db.tasks in
    let returned = first (map (extend_lease now duration) updated) in
    (
      Option.map
          (λ t. record {
            task_id = task_id;
            worker_id = worker_id;
            lease_generation = generation;
            lease_expires_at = t.lease_expires_at;
          })
          returned,
      record db {
        tasks =
            update (can_heartbeat now task_id worker_id generation) (extend_lease now duration)
              db.tasks;
      },
    )
