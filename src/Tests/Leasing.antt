-- ===== src/Tests/Leasing.antt =====
-- Two workers and the rows of `Data`.
use trail_signal_os.Prelude.{◌≡◌, refl, none, some, [], ◌⊎◌, inr, arith}
use trail_signal_os.Store.{find_task}
use trail_signal_os.Store.States.{TaskState}
use trail_signal_os.Guards.{ok, err, stale_lease, integrity_error}
use trail_signal_os.Leases.Handover.{handover_fences_lost_worker}
use trail_signal_os.Leases.{LeaseAcquireResult, acquire_lease, heartbeat}
use trail_signal_os.Leases.Fencing.{update_task_fenced, is_known}
use trail_signal_os.Leases.Reaper.{reclaim_expired_leases}
use trail_signal_os.Leases.Exclusion.{
  acquire_excludes, acquire_fences, update_task_fenced_cases, written_row,
}
use trail_signal_os.Leases.Recovery.{Reclaims, reclaim_all}
use trail_signal_os.Leases.Renewal.{heartbeat_extends}
use trail_signal_os.Store.{Task, Db}
use trail_signal_os.Tests.Data.{ready_db, leased_db, leased_row}
use trail_signal_os.Prelude.{ℕ, ◌≤◌, ◌≢◌, some, true, false}

-- The database after worker 8 took task 1 at 100 for 60.
abbrev taken : Db
taken = (acquire_lease 100 1 8 60 ready_db).1

acquire_excludes_example : acquire_lease 160 1 9 50 taken ≡ (none, taken)
unfolding acquire_lease
acquire_excludes_example =
    acquire_excludes 100 1 8 60 ready_db 160 9 50 (refl, (refl, tt)) refl (omega arith)

acquire_fences_example :
    update_task_fenced 110 1 8 3 TaskState.succeeded none [] taken ≡ (err stale_lease, taken)
unfolding acquire_lease
acquire_fences_example =
    acquire_fences 100 1 8 60 ready_db 110 8 3 TaskState.succeeded none [] (refl, (refl, tt)) refl
      (inr (ground arith))

update_task_fenced_cases_example :
    let (result, db') = update_task_fenced 50 1 8 3 TaskState.succeeded none [] leased_db in
    ((t : Task) × (find_task leased_db 1 ≡ some t)
      × (t.lease_owner ≡ some 8)
      × (t.lease_generation ≡ 3)
      × (((is_known [] none ≡ true)
            × (1 ≤ (written_row 50 TaskState.succeeded none [] t).attempt)
            × (result ≡ ok tt)
            × (find_task db' 1 ≡ some (written_row 50 TaskState.succeeded none [] t))
            × ((j : ℕ) → j ≢ 1 → find_task db' j ≡ find_task leased_db j))
          ⊎ (((is_known [] none ≡ false)
                ⊎ ((written_row 50 TaskState.succeeded none [] t).attempt ≡ 0))
              × (result ≡ err integrity_error)
              × (db' ≡ leased_db))))
    ⊎ (((t : Task)
          → find_task leased_db 1 ≡ some t
          → ¬ ((t.lease_owner ≡ some 8) × (t.lease_generation ≡ 3)))
        × (result ≡ err stale_lease)
        × (db' ≡ leased_db))
update_task_fenced_cases_example =
    update_task_fenced_cases 50 1 8 3 TaskState.succeeded none [] leased_db (refl, (refl, tt))

reclaim_all_example :
    let (ids, after) = reclaim_expired_leases 150 10 leased_db in
    Reclaims 150 (leased_row 1 8 100) ids (find_task after 1)
reclaim_all_example = reclaim_all 150 10 leased_db 1 (refl, (refl, tt)) (omega arith) refl

heartbeat_extends_example :
    let (result, db') = heartbeat 150 1 8 4 60 taken in
    (result
      ≡ some (record {
        task_id = 1;
        worker_id = 8;
        lease_generation = 4;
        lease_expires_at = some 210;
      }))
    × (acquire_lease 210 1 9 50 db' ≡ (none, db'))
unfolding acquire_lease
heartbeat_extends_example =
    heartbeat_extends 100 1 8 60 ready_db 150 60 210 9 50 (refl, (refl, tt)) refl (omega arith)
      (omega arith)

-- What the reaper leaves at 200, and what worker 9 makes of it.
abbrev reaped : Db
reaped = (reclaim_expired_leases 200 10 taken).1

handover_fences_lost_worker_example :
    let (given, db') = acquire_lease 210 1 9 50 reaped in
    (r' : LeaseAcquireResult) × (given ≡ some r')
    × (r'.lease_generation ≡ 5)
    × (update_task_fenced 220 1 8 4 TaskState.succeeded none [] db' ≡ (err stale_lease, db'))
unfolding acquire_lease
handover_fences_lost_worker_example =
    handover_fences_lost_worker 100 1 8 60 ready_db 200 10 210 9 50 220 8 TaskState.succeeded none
      [] (refl, (refl, tt)) refl (omega arith) (omega arith)
