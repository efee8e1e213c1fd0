-- ===== src/Leases/Renewal.antt =====
-- A lease that its worker keeps alive.
use trail_signal_os.Prelude.{
  ℕ, ◌+◌, ◌≤◌, ◌≡◌, refl, ap, ◌∙◌, Bool, true, ◌&&◌, none, some, ◌==◌, arith, is_eq, is_from,
}
use trail_signal_os.Store.{Task, Db, find_task}
use trail_signal_os.Store.States.{is_held}
use trail_signal_os.Store.Rows.{
  HasUniqueIds, update-HasUniqueIds, first-select_key, first-map, find-update_self,
}
use trail_signal_os.Leases.{
  LeaseAcquireResult, take_lease, acquire_lease, can_heartbeat, extend_lease, heartbeat,
}
use trail_signal_os.Leases.Exclusion.{
  acquired_row, acquire_lease-HasUniqueIds, acquire_lease_refused,
}

abbrev renewable : ℕ → ℕ → ℕ → Task → Bool
renewable now w g t =
    is_eq t.lease_owner w
    && (t.lease_generation == g && (is_held t.state && is_from t.lease_expires_at now))

heartbeat_row :
    (now id w g d : ℕ) (db : Db) {t : Task}
    → HasUniqueIds db.tasks
    → find_task db id ≡ some t
    → renewable now w g t ≡ true
    → let (result, db') = heartbeat now id w g d db in
      (result
        ≡ some (record {
          task_id = id;
          worker_id = w;
          lease_generation = g;
          lease_expires_at = some (now + d);
        }))
      × (find_task db' id ≡ some (extend_lease now d t))
      × HasUniqueIds db'.tasks
unfolding heartbeat
heartbeat_row now id w g d db {t} u e h = (
  rw first-map (rw (first-select_key id (renewable now w g) db.tasks u) (rw (e, h) refl)),
  find-update_self id (renewable now w g) (extend_lease now d) db.tasks {t = t} (λ s. refl) e
      ∙ rw h refl,
  update-HasUniqueIds (can_heartbeat now id w g) (extend_lease now d) db.tasks (λ s. refl) u,
)

-- Where keys are unique, a worker that has been given a lease and reports before it has expired,
-- at the generation that it was given, is heard: the lease gets a new end, and up to that end a
-- call of `acquire_lease` for the task gives nothing and changes nothing.
pub heartbeat_extends :
    (now id w d : ℕ) (db : Db) {r : LeaseAcquireResult} (beat d' later w' d'' : ℕ)
    → HasUniqueIds db.tasks
    → (acquire_lease now id w d db).0 ≡ some r
    → beat ≤ now + d
    → later ≤ beat + d'
    → let (result, db') =
        heartbeat beat id w r.lease_generation d' (acquire_lease now id w d db).1 in
      (result
        ≡ some (record {
          task_id = id;
          worker_id = w;
          lease_generation = r.lease_generation;
          lease_expires_at = some (beat + d');
        }))
      × (acquire_lease later id w' d'' db' ≡ (none, db'))
heartbeat_extends now id w d db {r} beat d' later w' d'' u e in_time before_end =
    let (t, _, _, same, row) = acquired_row now id w d db u e in
    let generation : r.lease_generation ≡ t.lease_generation + 1 =
      ap (λ x. x.lease_generation) same in
    let unique = acquire_lease-HasUniqueIds now id w d db u in
    let (heard, after, unique') =
      heartbeat_row beat id w r.lease_generation d' (acquire_lease now id w d db).1
        {t = take_lease now w d t} unique row (ground arith) in
    (
      heard,
      acquire_lease_refused later id w' d''
          (heartbeat beat id w r.lease_generation d' (acquire_lease now id w d db).1).1 unique'
          (rw after (ground arith)),
    )
