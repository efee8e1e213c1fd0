-- ===== src/Api/DeadLetters/Generations.antt =====
-- control/api/routes_dead_letters.py beside control/leases: the generation of a requeued task.
use trail_signal_os.Prelude.{ℕ, ◌≤◌, ◌≡◌, refl, ◌∙◌, true, false, Option, some, [], arith}
use trail_signal_os.Store.{Task, Db, find_task, has_id}
use trail_signal_os.Store.States.{TaskState}
use trail_signal_os.Store.Rows.{HasUniqueIds, update-HasUniqueIds, find-update_id}
use trail_signal_os.Guards.{ok}
use trail_signal_os.Leases.{acquire_lease, take_lease, acquired}
use trail_signal_os.Leases.Fencing.{is_known, violates, update_task_fenced}
use trail_signal_os.Leases.Exclusion.{
  acquire_lease-result, acquired_row, acquire_lease-HasUniqueIds, written_row,
  update_task_fenced_held,
}
use trail_signal_os.Api.DeadLetters.{requeue, requeue_dead_letter}

-- A confirmed requeue of a dead letter.
requeued :
    (now id : ℕ) (db : Db) {t : Task}
    → HasUniqueIds db.tasks
    → find_task db id ≡ some t
    → t.state ≡ TaskState.dead_letter
    → let (r, after) = requeue_dead_letter now id true db in
      (r ≡ ok id) × (find_task after id ≡ some (requeue now t)) × HasUniqueIds after.tasks
unfolding requeue_dead_letter
requeued now id db {t} u e dead =
    rw (e, dead)
      (
        refl,
        find-update_id id (requeue now) db.tasks {t = t} (λ s. refl) e,
        update-HasUniqueIds (has_id id) (requeue now) db.tasks (λ s. refl) u,
      )

requeued_artifacts :
    (now id later w d : ℕ) (db : Db)
    → (acquire_lease later id w d (requeue_dead_letter now id true db).1).1.artifacts ≡ db.artifacts
unfolding acquire_lease requeue_dead_letter
requeued_artifacts now id later w d db = ground arith

-- A requeued dead letter starts again at generation 0. Where keys are unique, the next lease, of
-- whichever worker, has generation 1, whatever generations the task had before; and a fenced write
-- of this worker at generation 1 is accepted, also one that it prepared under its first lease, if it
-- sets only a state and a result that is none or a known artifact, and the attempt of the row is at least
-- 1.
pub requeue_reuses_generation :
    (now id later w d at : ℕ) (st : TaskState) (res : Option ℕ) (db : Db) {t : Task}
    → HasUniqueIds db.tasks
    → find_task db id ≡ some t
    → t.state ≡ TaskState.dead_letter
    → is_known db.artifacts res ≡ true
    → 1 ≤ t.attempt
    → let (given, held) = acquire_lease later id w d (requeue_dead_letter now id true db).1 in
      (given ≡ some (acquired id w (take_lease later w d (requeue now t))))
      × ((take_lease later w d (requeue now t)).lease_generation ≡ 1)
      × ((update_task_fenced at id w 1 st res [] held).0 ≡ ok tt)
requeue_reuses_generation now id later w d at st res db {t} u e dead known pos =
    let (_, row, unique) = requeued now id db {t = t} u e dead in
    let after = (requeue_dead_letter now id true db).1 in
    let given = acquire_lease-result later id w d after unique ∙ rw row refl in
    let (s, found, _, same, kept) = acquired_row later id w d after unique given in
    let same_known : (acquire_lease later id w d after).1.artifacts ≡ db.artifacts =
      requeued_artifacts now id later w d db in
    let start : s.lease_generation ≡ 0 = ground (arith, row, found) in
    let same_attempt : s.attempt ≡ t.attempt = ground (arith, row, found) in
    let good : violates db.artifacts res (written_row at st res [] (take_lease later w d s))
        ≡ false =
      ground (arith, known, pos, same_attempt) in
    (
      given,
      refl,
      (update_task_fenced_held at id w 1 st res [] (acquire_lease later id w d after).1
          {t = take_lease later w d s} (acquire_lease-HasUniqueIds later id w d after unique) kept
          (ground (arith, start)) (rw same_known good)).0,
    )
