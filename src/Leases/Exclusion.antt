-- ===== src/Leases/Exclusion.antt =====
-- What a lease promises: one holder at a time, and no write from a holder that has lost it.
use trail_signal_os.Prelude.{
  ℕ, ◌+◌, ◌≤◌, ◌≡◌, ◌≢◌, refl, ap, ◌∙◌, inl, inr, ◌⊎◌, Bool, true, false, any, Bool-cases, ◌&&◌,
  ◌||◌, Option, none, some, List, [], ◌∷◌, arith, ◌==◌, count_where, update, keep_if, keep_if-some,
  is_before, is_eq, Option-cases,
}
use mathlib.Core.Option
use trail_signal_os.Store.{Task, Db, find_task}
use trail_signal_os.Store.States.{TaskState, is_ready, is_held}
use trail_signal_os.Store.Rows.{
  HasUniqueIds, KeepsId, any-selected, any-unselected, find-update_self, find-update_ne,
  first-select_key, count_where_key, update_none, first-map, update-HasUniqueIds,
}
use trail_signal_os.Guards.{ok, err, stale_lease, integrity_error, guard2_require_fenced_update}
use trail_signal_os.Leases.{LeaseAcquireResult, can_acquire, take_lease, acquired, acquire_lease}
use trail_signal_os.Leases.Fencing.{
  Assignment, assign, assign_all, fenced_write, is_fenced, is_known, violates, update_task_fenced,
}
use trail_signal_os.Leases.Fencing.Columns.{columns, assign_all-columns}

abbrev pub acquirable : ℕ → Task → Bool
acquirable now t = is_ready t.state || (is_held t.state && is_before t.lease_expires_at now)

-- The result of `acquire_lease` read off the row.
pub acquire_lease-result :
    (now id w d : ℕ) (db : Db)
    → HasUniqueIds db.tasks
    → (acquire_lease now id w d db).0
      ≡ Option.map
          (acquired id w)
          (Option.map (take_lease now w d) (keep_if (acquirable now) (find_task db id)))
unfolding acquire_lease
acquire_lease-result now id w d db u =
    rw first-map (rw (first-select_key id (acquirable now) db.tasks u))

-- If a call returns a lease, the task was found and free.
pub acquired_row :
    (now id w d : ℕ) (db : Db) {r : LeaseAcquireResult}
    → HasUniqueIds db.tasks
    → (acquire_lease now id w d db).0 ≡ some r
    → (t : Task) × (find_task db id ≡ some t)
      × (acquirable now t ≡ true)
      × (r ≡ acquired id w (take_lease now w d t))
      × (find_task (acquire_lease now id w d db).1 id ≡ some (take_lease now w d t))
unfolding acquire_lease
acquired_row now id w d db {r} u e = elim (Option-cases (find_task db id)) [
  | inl missing ↦ absurd (ground (arith, acquire_lease-result now id w d db u))
  | inr (t, found) ↦ (
    t,
    found,
    ground (arith, acquire_lease-result now id w d db u),
    ground (arith, acquire_lease-result now id w d db u),
    ground (
      arith,
      acquire_lease-result now id w d db u,
      find-update_self id (acquirable now) (take_lease now w d) db.tasks {t = t} (λ s. refl) found,
    ),
  )
]

pub acquire_lease-HasUniqueIds :
    (now id w d : ℕ) (db : Db)
    → HasUniqueIds db.tasks
    → HasUniqueIds (acquire_lease now id w d db).1.tasks
unfolding acquire_lease
acquire_lease-HasUniqueIds now id w d db u =
    update-HasUniqueIds (can_acquire now id) (take_lease now w d) db.tasks (λ s. refl) u

-- A call that finds no free row gives nothing and writes nothing.
pub acquire_lease_refused :
    (now id w d : ℕ) (db : Db)
    → HasUniqueIds db.tasks
    → keep_if (acquirable now) (find_task db id) ≡ none
    → acquire_lease now id w d db ≡ (none, db)
unfolding acquire_lease
acquire_lease_refused now id w d db u e =
    let same : update (can_acquire now id) (take_lease now w d) db.tasks ≡ db.tasks =
      update_none (can_acquire now id) (take_lease now w d) db.tasks
        (count_where_key id (acquirable now) db.tasks u ∙ (rw e refl)) in
    let nothing = acquire_lease-result now id w d db u in
    rw same (rw first-map (rw (first-select_key id (acquirable now) db.tasks u) (rw e refl)))

-- Mutual exclusion: where keys are unique, once a worker has been given the lease of a task, a
-- call of `acquire_lease` for this task by any worker, up to the end of the lease, gives nothing
-- and changes nothing.
pub acquire_excludes :
    (now id w d : ℕ) (db : Db) {r : LeaseAcquireResult} (later w' d' : ℕ)
    → HasUniqueIds db.tasks
    → (acquire_lease now id w d db).0 ≡ some r
    → later ≤ now + d
    → let db' = (acquire_lease now id w d db).1 in acquire_lease later id w' d' db' ≡ (none, db')
acquire_excludes now id w d db later w' d' u e h =
    let (t, _, _, _, row) = acquired_row now id w d db u e in
    acquire_lease_refused later id w' d' (acquire_lease now id w d db).1
      (acquire_lease-HasUniqueIds now id w d db u) (rw row (ground arith))

abbrev pub holds : ℕ → ℕ → Task → Bool
holds w g t = is_eq t.lease_owner w && t.lease_generation == g

pub update_task_fenced_stale :
    (now id w g : ℕ) (st : TaskState) (res : Option ℕ) (ex : List Assignment) (db : Db)
    → HasUniqueIds db.tasks
    → keep_if (holds w g) (find_task db id) ≡ none
    → update_task_fenced now id w g st res ex db ≡ (err stale_lease, db)
unfolding update_task_fenced guard2_require_fenced_update
update_task_fenced_stale now id w g st res ex db u e =
    let none_updated : count_where (is_fenced id w g) db.tasks ≡ 0 =
      count_where_key id (holds w g) db.tasks u ∙ (rw e refl) in
    let unchecked =
      any-unselected (is_fenced id w g)
        (λ (t : Task). violates db.artifacts res (fenced_write now st res ex t)) db.tasks
        none_updated in
    rw
      (unchecked, update_none (is_fenced id w g) (fenced_write now st res ex) db.tasks none_updated)
      (rw none_updated (ground arith))

assign-keeps_id : (a : Assignment) (t : Task) → (assign a t).task_id ≡ t.task_id
assign-keeps_id a t = ground arith

assign_all-keeps_id : (ex : List Assignment) (t : Task) → (assign_all ex t).task_id ≡ t.task_id
assign_all-keeps_id [] t = refl
assign_all-keeps_id (a ∷ ex) t = assign_all-keeps_id ex (assign a t) ∙ assign-keeps_id a t

pub fenced_write-KeepsId :
    (now : ℕ) (st : TaskState) (res : Option ℕ) (ex : List Assignment)
    → KeepsId (fenced_write now st res ex)
unfolding fenced_write
fenced_write-KeepsId now st res ex t = assign_all-keeps_id ex _ ∙ ground arith

-- When a task that gets a state is complete.
abbrev pub completion : TaskState → ℕ → Option ℕ → Option ℕ
completion TaskState.succeeded now before = some now
completion TaskState.failed now before = some now
completion TaskState.blocked now before = some now
completion TaskState.dead_letter now before = some now
completion _ now before = before

abbrev pub replaced : Option ℕ → Option ℕ → Option ℕ
replaced none before = before
replaced (some id) before = some id

-- The row that a fenced write promises: the new state, the time, the result and the completion, and
-- in each column of the extra assignments the last value that they give it.
abbrev pub written_row : ℕ → TaskState → Option ℕ → List Assignment → Task → Task
written_row now st res ex t = columns ex (record t {
  state = st;
  updated_at = now;
  completed_at = completion st now t.completed_at;
  result_artifact_id = replaced res t.result_artifact_id;
})

pub fenced_write_lem :
    (now : ℕ) (st : TaskState) (res : Option ℕ) (ex : List Assignment) (t : Task)
    → fenced_write now st res ex t ≡ written_row now st res ex t
unfolding fenced_write
fenced_write_lem now st none ex t = ap (assign_all ex) (ground arith) ∙ assign_all-columns ex _
fenced_write_lem now st (some id) ex t = ap (assign_all ex) (ground arith) ∙ assign_all-columns ex _

-- The database after a fenced write of a row that its worker holds.
module _ (now id w g : ℕ) (st : TaskState) (res : Option ℕ) (ex : List Assignment) (db : Db)
    {t : Task} (u : HasUniqueIds db.tasks) (found : find_task db id ≡ some t)
    (held : holds w g t ≡ true) where
  checked :
      any
        (λ (s : Task).
          is_fenced id w g s && violates db.artifacts res (fenced_write now st res ex s))
        db.tasks
      ≡ violates db.artifacts res (written_row now st res ex t)
  checked =
      any-selected id (holds w g)
        (λ (s : Task). violates db.artifacts res (fenced_write now st res ex s)) db.tasks {t = t} u
        found
      ∙ (rw held (ap (violates db.artifacts res) (fenced_write_lem now st res ex t)))

  -- A constraint refuses the row.
  update_task_fenced_refused :
      violates db.artifacts res (written_row now st res ex t) ≡ true
      → update_task_fenced now id w g st res ex db ≡ (err integrity_error, db)
  unfolding update_task_fenced
  update_task_fenced_refused bad = rw (checked ∙ bad) refl

  -- The row is written, and no other.
  pub update_task_fenced_held :
      violates db.artifacts res (written_row now st res ex t) ≡ false
      → let (result, db') = update_task_fenced now id w g st res ex db in
        (result ≡ ok tt)
        × (find_task db' id ≡ some (written_row now st res ex t))
        × ((j : ℕ) → j ≢ id → find_task db' j ≡ find_task db j)
  unfolding update_task_fenced guard2_require_fenced_update
  update_task_fenced_held good =
      let one : count_where (is_fenced id w g) db.tasks ≡ 1 =
        count_where_key id (holds w g) db.tasks u ∙ (rw found (rw held refl)) in
      (
        rw (checked ∙ good) (rw one (ground arith)),
        rw (checked ∙ good) (
            find-update_self id (holds w g) (fenced_write now st res ex) db.tasks {t = t}
              (fenced_write-KeepsId now st res ex) found
            ∙ rw held (ap some (fenced_write_lem now st res ex t))),
        (λ j other. rw (checked ∙ good) (
            find-update_ne j id (holds w g) (fenced_write now st res ex) db.tasks
              (fenced_write-KeepsId now st res ex) other)),
      )

violated :
    (artifacts : List ℕ) (res : Option ℕ) (s : Task)
    → violates artifacts res s ≡ true
    → (is_known artifacts res ≡ false) ⊎ (s.attempt ≡ 0)
violated artifacts res s h = elim (Bool-cases (is_known artifacts res)) [
  | inl known ↦ inr (ground arith)
  | inr unknown ↦ inl unknown
]

unviolated :
    (artifacts : List ℕ) (res : Option ℕ) (s : Task)
    → violates artifacts res s ≡ false
    → (is_known artifacts res ≡ true) × (1 ≤ s.attempt)
unviolated artifacts res s h = (ground arith, ground arith)

-- Where keys are unique, a fenced write does one of three things. Where the row is held by this
-- worker at this generation, it writes the promised row and no other, if the result is none or a
-- known artifact and the attempt stays at least 1, and raises otherwise; where the row is not held
-- so, it raises as stale. Whenever it raises, the database is as it was.
pub update_task_fenced_cases :
    (now id w g : ℕ) (st : TaskState) (res : Option ℕ) (ex : List Assignment) (db : Db)
    → HasUniqueIds db.tasks
    → let (result, db') = update_task_fenced now id w g st res ex db in
      ((t : Task) × (find_task db id ≡ some t)
        × (t.lease_owner ≡ some w)
        × (t.lease_generation ≡ g)
        × (((is_known db.artifacts res ≡ true)
              × (1 ≤ (written_row now st res ex t).attempt)
              × (result ≡ ok tt)
              × (find_task db' id ≡ some (written_row now st res ex t))
              × ((j : ℕ) → j ≢ id → find_task db' j ≡ find_task db j))
            ⊎ (((is_known db.artifacts res ≡ false) ⊎ ((written_row now st res ex t).attempt ≡ 0))
                × (result ≡ err integrity_error)
                × (db' ≡ db))))
      ⊎ (((t : Task)
            → find_task db id ≡ some t
            → ¬ ((t.lease_owner ≡ some w) × (t.lease_generation ≡ g)))
          × (result ≡ err stale_lease)
          × (db' ≡ db))
update_task_fenced_cases now id w g st res ex db u =
    elim (Option-cases (keep_if (holds w g) (find_task db id))) [
      | inl lost ↦
          let e = update_task_fenced_stale now id w g st res ex db u lost in
          inr (
            (λ t found both. let b0 = both.0 in let b1 = both.1 in absurd (ground arith)),
            ap (λ x. x.0) e,
            ap (λ x. x.1) e,
          )
      | inr (t, kept) ↦
          let (found, held) = keep_if-some (holds w g) (find_task db id) {a = t} kept in
          let s = written_row now st res ex t in
          inl (
            t,
            found,
            ground arith,
            ground arith,
            elim (Bool-cases (violates db.artifacts res s)) [
              | inl bad ↦
                  let e =
                    update_task_fenced_refused now id w g st res ex db {t = t} u found held bad in
                  inr (violated db.artifacts res s bad, ap (λ x. x.0) e, ap (λ x. x.1) e)
              | inr good ↦
                  let (known, pos) = unviolated db.artifacts res s good in
                  let (returns, row, rest) =
                    update_task_fenced_held now id w g st res ex db {t = t} u found held good in
                  inl (known, pos, returns, row, rest)
            ],
          )
    ]

-- Fencing: where keys are unique, when a worker has been given the lease, a fenced write by any
-- other worker, or at any generation but the new one, is refused and changes nothing.
pub acquire_fences :
    (now id w d : ℕ) (db : Db) {r : LeaseAcquireResult} (later w' g : ℕ) (st : TaskState)
    (res : Option ℕ) (ex : List Assignment)
    → HasUniqueIds db.tasks
    → (acquire_lease now id w d db).0 ≡ some r
    → (w' ≢ w) ⊎ (g ≢ r.lease_generation)
    → let db' = (acquire_lease now id w d db).1 in
      update_task_fenced later id w' g st res ex db' ≡ (err stale_lease, db')
acquire_fences now id w d db {r} later w' g st res ex u e other =
    let (t, _, _, same, row) = acquired_row now id w d db u e in
    let generation : r.lease_generation ≡ t.lease_generation + 1 =
      ap (λ x. x.lease_generation) same in
    update_task_fenced_stale later id w' g st res ex (acquire_lease now id w d db).1
      (acquire_lease-HasUniqueIds now id w d db u) (rw row (ground arith))
