-- ===== src/Leases/Recovery.antt =====
-- What a pass of the reaper does to the tasks table.
use trail_signal_os.Prelude.{
  inl, inr, ◌⊎◌, sym, length, Option-cases, ℕ, ◌≤◌, ◌<◌, ◌≡◌, refl, ap, ◌∙◌, true, false, none,
  Option, some, List, is_before, arith, ◌==◌, if◌then◌else◌, first, select, count_where, any, take,
  sort, any-sort, any-select, any-take, any-map, take_all, length-sort, length-select, Bool-cases,
}
use mathlib.Core.Option
use trail_signal_os.Store.States.{TaskState, is_held}
use trail_signal_os.Store.{Task, Db, has_id, find_task}
use trail_signal_os.Store.Rows.{HasUniqueIds, find-update, any-key, updated}
use trail_signal_os.Leases.Reaper.{
  is_expired, expires_first, contains_id, expired_ids, release, reclaim_expired_leases,
}

module _ (now limit : ℕ) (ts : List Task) (t : Task) (j : ℕ) (u : HasUniqueIds ts)
    (found : first (select (has_id j) ts) ≡ some t) where
  selected-eq_expired :
      any (λ (s : Task). t.task_id == s.task_id) (select (is_expired now) ts) ≡ is_expired now t
  selected-eq_expired =
      any-select (λ (s : Task). t.task_id == s.task_id) (is_expired now) ts
      ∙ any-key (is_expired now) ts t j u found

  -- The selected identifiers are those of expired rows.
  pub contains-expired : contains_id (expired_ids now limit ts) t ≡ true → is_expired now t ≡ true
  contains-expired h =
      let named = λ (s : Task). t.task_id == s.task_id in
      let rows = sort expires_first (select (is_expired now) ts) in
      let taken : any named (take limit rows) ≡ true = rw any-map at h in
      sym selected-eq_expired
      ∙ (sym (any-sort named expires_first (select (is_expired now) ts))
          ∙ any-take named limit rows taken)

  -- All of them, under a limit that is large enough.
  pub contains_all :
      count_where (is_expired now) ts ≤ limit
      → contains_id (expired_ids now limit ts) t ≡ is_expired now t
  contains_all h =
      let named = λ (s : Task). t.task_id == s.task_id in
      let rows = sort expires_first (select (is_expired now) ts) in
      let fits : length rows ≤ limit = omega (
        arith,
        length-sort expires_first (select (is_expired now) ts),
        length-select (is_expired now) ts,
      ) in
      any-map (λ (id : ℕ). t.task_id == id) (λ (s : Task). s.task_id) (take limit rows)
      ∙ (rw (take_all limit rows fits)
          (any-sort named expires_first (select (is_expired now) ts) ∙ selected-eq_expired))

-- Where keys are unique, a pass of the reaper touches only rows whose lease has expired: these
-- become READY with no owner, at the same generation, and every other row is as it was.
pub reclaim_only_expired :
    (now limit : ℕ) (db : Db) (j : ℕ) {t : Task}
    → HasUniqueIds db.tasks
    → find_task db j ≡ some t
    → let db' = (reclaim_expired_leases now limit db).1 in
      ((is_expired now t ≡ true) × (find_task db' j ≡ some (release now t)))
      ⊎ (find_task db' j ≡ some t)
unfolding reclaim_expired_leases
reclaim_only_expired now limit db j {t} u e =
    let ids = expired_ids now limit db.tasks in
    let row =
      find-update j (contains_id ids) (release now) db.tasks (λ s. refl)
      ∙ ap (Option.map (updated (contains_id ids) (release now))) e in
    elim (Bool-cases (contains_id ids t)) [
      | inl taken ↦ inl (contains-expired now limit db.tasks t j u e taken, row ∙ (rw taken refl))
      | inr left ↦ inr (row ∙ (rw left refl))
    ]

-- With a limit of at least the number of expired leases, a pass updates exactly those.
pub reclaim_tested :
    (now limit : ℕ) (db : Db) (j : ℕ)
    → HasUniqueIds db.tasks
    → count_where (is_expired now) db.tasks ≤ limit
    → find_task (reclaim_expired_leases now limit db).1 j
      ≡ Option.map (λ (t : Task). if is_expired now t then release now t else t) (find_task db j)
unfolding reclaim_expired_leases
reclaim_tested now limit db j u h =
    let ids = expired_ids now limit db.tasks in
    find-update j (contains_id ids) (release now) db.tasks (λ s. refl)
    ∙ elim (Option-cases (find_task db j)) [
      | inl missing ↦ rw missing refl
      | inr (t, e) ↦ rw e (rw (contains_all now limit db.tasks t j u e h) refl)
    ]

-- The identifiers that it returns are theirs.
returned_tested :
    (now limit : ℕ) (db : Db) (j : ℕ) {t : Task}
    → HasUniqueIds db.tasks
    → count_where (is_expired now) db.tasks ≤ limit
    → find_task db j ≡ some t
    → any (λ (id : ℕ). t.task_id == id) (reclaim_expired_leases now limit db).0 ≡ is_expired now t
unfolding reclaim_expired_leases
returned_tested now limit db j {t} u h found =
    let ids = expired_ids now limit db.tasks in
    any-map (λ (id : ℕ). t.task_id == id) (λ (s : Task). s.task_id)
      (select (contains_id ids) db.tasks)
    ∙ (any-select (λ (s : Task). t.task_id == s.task_id) (contains_id ids) db.tasks
        ∙ (any-key (contains_id ids) db.tasks t j u found
            ∙ contains_all now limit db.tasks t j u found h))

-- A task that is leased or running, with a lease that has ended before this time.
abbrev pub IsOverdue : ℕ → Task → Type 0
IsOverdue now t =
    ((t.state ≡ TaskState.leased) ⊎ (t.state ≡ TaskState.running))
    × ((end : ℕ) × (t.lease_expires_at ≡ some end) × (end < now))

expired-held : (s : TaskState) → is_held s ≡ true → (s ≡ TaskState.leased) ⊎ (s ≡ TaskState.running)
expired-held TaskState.leased h = inl refl
expired-held TaskState.running h = inr refl
expired-held TaskState.pending h = cc
expired-held TaskState.ready h = cc
expired-held TaskState.succeeded h = cc
expired-held TaskState.retry_wait h = cc
expired-held TaskState.blocked h = cc
expired-held TaskState.failed h = cc
expired-held TaskState.dead_letter h = cc

expired-before :
    (o : Option ℕ) (now : ℕ) → is_before o now ≡ true → (end : ℕ) × (o ≡ some end) × (end < now)
expired-before none now h = cc
expired-before (some e) now h = (e, refl, ground arith)

expired-IsOverdue : (now : ℕ) (t : Task) → is_expired now t ≡ true → IsOverdue now t
expired-IsOverdue now t h =
    (expired-held t.state (ground arith), expired-before t.lease_expires_at now (ground arith))

IsOverdue-expired : (now : ℕ) (t : Task) → IsOverdue now t → is_expired now t ≡ true
IsOverdue-expired now t (inl s, (end, e, lt)) = ground arith
IsOverdue-expired now t (inr s, (end, e, lt)) = ground arith

-- What a pass of the reaper makes of a row.
abbrev pub Reclaims : ℕ → Task → List ℕ → Option Task → Type 0
Reclaims now t ids after =
    (IsOverdue now t
      × (any (λ (id : ℕ). t.task_id == id) ids ≡ true)
      × (after
          ≡ some (record t {
            state = TaskState.ready;
            lease_owner = none;
            lease_expires_at = none;
            last_heartbeat_at = none;
            updated_at = now;
          })))
    ⊎ ((¬ (IsOverdue now t)) × (any (λ (id : ℕ). t.task_id == id) ids ≡ false) × (after ≡ some t))

-- Where keys are unique, with a limit of at least the number of expired leases, a pass makes every
-- row that is leased or running, with a lease that has ended, READY again: without an owner, an end
-- of a lease and a heartbeat, at the same generation and attempt; and it returns the identifier of
-- the task. Every other row is as it was, and its identifier is not returned.
pub reclaim_all :
    (now limit : ℕ) (db : Db) (j : ℕ) {t : Task}
    → HasUniqueIds db.tasks
    → count_where (is_expired now) db.tasks ≤ limit
    → find_task db j ≡ some t
    → let (ids, after) = reclaim_expired_leases now limit db in
      Reclaims now t ids (find_task after j)
reclaim_all now limit db j {t} u h found =
    let row = reclaim_tested now limit db j u h in
    let named = returned_tested now limit db j {t = t} u h found in
    elim (Bool-cases (is_expired now t)) [
      | inl late ↦ inl (expired-IsOverdue now t late, named ∙ late, row ∙ (rw (found, late) refl))
      | inr held ↦ inr (
        (λ over. let late = IsOverdue-expired now t over in absurd (ground arith)),
        named ∙ held,
        row ∙ (rw (found, held) refl),
      )
    ]
