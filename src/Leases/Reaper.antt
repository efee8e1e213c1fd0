-- ===== src/Leases/Reaper.antt =====
-- control/leases/reaper.py. The order of the rows that RETURNING gives is the table's.
use trail_signal_os.Prelude.{
  ℕ, Bool, true, false, ◌&&◌, Option, none, some, List, ◌==◌, is_before, select, update, take, any,
  sort, leb, map,
}
use trail_signal_os.Store.{Task, Db}
use trail_signal_os.Store.States.{is_held, TaskState.ready as ready_state}

-- The WHERE clause of the inner SELECT.
abbrev pub is_expired : ℕ → Task → Bool
is_expired now t = is_held t.state && is_before t.lease_expires_at now

-- `ORDER BY lease_expires_at`, of rows where it is not NULL.
abbrev pub expires_first : Task → Task → Bool
expires_first s t = go s.lease_expires_at t.lease_expires_at
  where
    go : Option ℕ → Option ℕ → Bool
    go (some a) (some b) = leb a b
    go (some a) none = true
    go none o = false

abbrev pub contains_id : List ℕ → Task → Bool
contains_id ids t = any (λ (id : ℕ). t.task_id == id) ids

-- The identifiers that the WITH clause selects.
abbrev pub expired_ids : ℕ → ℕ → List Task → List ℕ
expired_ids now limit tasks =
    map (λ (t : Task). t.task_id) (take limit (sort expires_first (select (is_expired now) tasks)))

-- The SET clause.
abbrev pub release : ℕ → Task → Task
release now t = record t {
  state = ready_state;
  lease_owner = none;
  lease_expires_at = none;
  last_heartbeat_at = none;
  updated_at = now;
}

unfoldable pub reclaim_expired_leases : ℕ → ℕ → Db → List ℕ × Db
reclaim_expired_leases now limit db =
    let ids = expired_ids now limit db.tasks in
    (
      map (λ (t : Task). t.task_id) (select (contains_id ids) db.tasks),
      record db { tasks = update (contains_id ids) (release now) db.tasks },
    )
