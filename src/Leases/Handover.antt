-- ===== src/Leases/Handover.antt =====
-- A task whose worker is lost, from one worker to the next.
use trail_signal_os.Prelude.{
  ℕ, ◌+◌, ◌≤◌, ◌<◌, ◌≡◌, refl, ap, ◌∙◌, true, Option, some, List, inr, arith, count_where,
}
use trail_signal_os.Store.{Task, Db, find_task}
use trail_signal_os.Store.States.{TaskState}
use trail_signal_os.Store.Rows.{HasUniqueIds, update-HasUniqueIds}
use trail_signal_os.Guards.{err, stale_lease}
use trail_signal_os.Leases.{LeaseAcquireResult, acquire_lease, take_lease, acquired}
use trail_signal_os.Leases.Reaper.{
  is_expired, release, contains_id, expired_ids, reclaim_expired_leases,
}
use trail_signal_os.Leases.Fencing.{Assignment, update_task_fenced}
use trail_signal_os.Leases.Exclusion.{
  acquirable, acquire_lease-result, acquired_row, acquire_lease-HasUniqueIds, acquire_fences,
}
use trail_signal_os.Leases.Recovery.{reclaim_tested}

reclaim-HasUniqueIds :
    (now limit : ℕ) (db : Db)
    → HasUniqueIds db.tasks
    → HasUniqueIds (reclaim_expired_leases now limit db).1.tasks
unfolding reclaim_expired_leases
reclaim-HasUniqueIds now limit db u =
    update-HasUniqueIds (contains_id (expired_ids now limit db.tasks)) (release now) db.tasks
      (λ s. refl) u

-- A call for a free row gives its lease, at the generation after the row's.
acquire_free :
    (now id w d : ℕ) (db : Db) {t : Task}
    → HasUniqueIds db.tasks
    → find_task db id ≡ some t
    → acquirable now t ≡ true
    → (acquire_lease now id w d db).0 ≡ some (acquired id w (take_lease now w d t))
acquire_free now id w d db u e free = acquire_lease-result now id w d db u ∙ rw (e, free) refl

-- Where keys are unique, if a worker lets its lease run out and a pass of the reaper takes all the
-- expired leases, the next call of any worker is given the lease, at the next generation, and a
-- fenced write at the generation of the lost lease, by anybody, is refused and changes nothing.
pub handover_fences_lost_worker :
    (now id w d : ℕ) (db : Db) {r : LeaseAcquireResult} (reap limit later w' d' : ℕ) (at writer : ℕ)
    (st : TaskState) (res : Option ℕ) (ex : List Assignment)
    → HasUniqueIds db.tasks
    → (acquire_lease now id w d db).0 ≡ some r
    → now + d < reap
    → count_where (is_expired reap) (acquire_lease now id w d db).1.tasks ≤ limit
    → let reaped = (reclaim_expired_leases reap limit (acquire_lease now id w d db).1).1 in
      let (given, db') = acquire_lease later id w' d' reaped in
      (r' : LeaseAcquireResult) × (given ≡ some r')
      × (r'.lease_generation ≡ r.lease_generation + 1)
      × (update_task_fenced at id writer r.lease_generation st res ex db' ≡ (err stale_lease, db'))
handover_fences_lost_worker now id w d db {r} reap limit later w' d' at writer st res ex u e lost
      fits =
    let (t, _, _, same, row) = acquired_row now id w d db u e in
    let held = (acquire_lease now id w d db).1 in
    let unique = acquire_lease-HasUniqueIds now id w d db u in
    let reaped = (reclaim_expired_leases reap limit held).1 in
    let generation : r.lease_generation ≡ t.lease_generation + 1 =
      ap (λ x. x.lease_generation) same in
    let freed : find_task reaped id ≡ some (release reap (take_lease now w d t)) =
      reclaim_tested reap limit held id unique fits ∙ (rw row (ground arith)) in
    let unique' = reclaim-HasUniqueIds reap limit held unique in
    let given =
      acquire_free later id w' d' reaped {t = release reap (take_lease now w d t)} unique' freed
        refl in
    (
      acquired id w' (take_lease later w' d' (release reap (take_lease now w d t))),
      given,
      omega (arith, generation),
      acquire_fences later id w' d' reaped at writer r.lease_generation st res ex unique' given
          (inr (ground (arith, generation))),
    )
