-- ===== src/Dispatcher/Enqueue/Atomic.antt =====
-- A row and its event come together or not at all.
use trail_signal_os.Prelude.{
  ℕ, ◌≡◌, ◌≢◌, refl, true, false, none, some, List, [], ◌∷◌, ◌++◌, arith, first, select, any,
  Bool-cases, inl, inr, ◌⊎◌,
}
use trail_signal_os.Store.{Task, Db, OutboxEvent, has_id, find_task}
use trail_signal_os.Store.States.{TaskState}
use trail_signal_os.Store.Rows.{HasUniqueIds}
use trail_signal_os.Guards.{Error, integrity_error, ok, err, Result-cases}
use trail_signal_os.Dispatcher.Streams.{StreamsConfig, resolve_stream_name}
use trail_signal_os.Dispatcher.Enqueue.{
  ReadyTask, OutboxEnqueueResult, ready_row, is_refused, enqueue_result, new_event, ready_payload,
  enqueue_ready_task,
}

find-append :
    (id : ℕ) (ts : List Task) (t : Task)
    → any (has_id id) ts ≡ false
    → has_id id t ≡ true
    → first (select (has_id id) (ts ++ t ∷ [])) ≡ some t
find-append id [] t a h = ground arith
find-append id (s ∷ ts) t a h = ground (arith, find-append id ts t)

find-append_none :
    (id : ℕ) (ts : List Task) (t : Task)
    → first (select (has_id id) ts) ≡ none
    → has_id id t ≡ false
    → first (select (has_id id) (ts ++ t ∷ [])) ≡ none
find-append_none id [] t a h = ground arith
find-append_none id (s ∷ ts) t a h = ground (arith, find-append_none id ts t)

find-append_ne :
    (id : ℕ) (ts : List Task) (t : Task)
    → has_id id t ≡ false
    → first (select (has_id id) (ts ++ t ∷ [])) ≡ first (select (has_id id) ts)
find-append_ne id [] t h = ground arith
find-append_ne id (s ∷ ts) t h = ground (arith, find-append_ne id ts t)

append-HasUniqueIds :
    (ts : List Task) (t : Task)
    → HasUniqueIds ts
    → any (has_id t.task_id) ts ≡ false
    → HasUniqueIds (ts ++ t ∷ [])
append-HasUniqueIds [] t u a = (refl, tt)
append-HasUniqueIds (s ∷ ts) t u a =
    let other : has_id s.task_id t ≡ false = ground arith in
    (find-append_none s.task_id ts t u.0 other, append-HasUniqueIds ts t u.1 (ground arith))

-- Where keys are unique, either the call raises and the database is as it was, or the new row is
-- READY, without an owner and at generation 0, with the fields of the call; the keys are still
-- unique, every other row is as it was, and the outbox has one event more: unpublished, under the
-- identifier that is returned, for this task and the stream of its lane and priority, with the
-- attempt of the row.
pub enqueue_is_atomic :
    (streams : StreamsConfig) (now : ℕ) (r : ReadyTask) (db : Db)
    → HasUniqueIds db.tasks
    → let (result, db') = enqueue_ready_task streams now r db in
      ((x : Error) × (result ≡ err x) × (db' ≡ db))
      ⊎ ((done : OutboxEnqueueResult) × (e : OutboxEvent) × (result ≡ ok done)
          × (resolve_stream_name streams r.lane r.priority ≡ ok done.stream_name)
          × (find_task db' r.task_id
              ≡ some (record {
                task_id = r.task_id;
                job_id = r.job_id;
                task_kind = none;
                lane = r.lane;
                priority = r.priority;
                attempt = r.attempt;
                state = TaskState.ready;
                idempotency_key = r.idempotency_key;
                payload_ref = r.payload_ref;
                traceparent = r.traceparent;
                not_before = none;
                retry_at = none;
                lease_owner = none;
                lease_generation = 0;
                lease_expires_at = none;
                last_heartbeat_at = none;
                result_artifact_id = none;
                completed_at = none;
                provenance = r.provenance;
                created_at = now;
                updated_at = now;
              }))
          × ((j : ℕ) → j ≢ r.task_id → find_task db' j ≡ find_task db j)
          × HasUniqueIds db'.tasks
          × (db'.outbox ≡ db.outbox ++ e ∷ [])
          × (e.event_id ≡ done.event_id)
          × (e.task_id ≡ r.task_id)
          × (e.stream_name ≡ done.stream_name)
          × (e.payload ≡ done.payload)
          × (e.payload.task_id ≡ r.task_id)
          × (e.payload.job_id ≡ r.job_id)
          × (e.payload.lane ≡ r.lane)
          × (e.payload.attempt ≡ r.attempt)
          × (e.payload.idempotency_key ≡ r.idempotency_key)
          × (e.published_at ≡ none))
unfolding enqueue_ready_task
enqueue_is_atomic streams now r db u =
    elim (Result-cases (resolve_stream_name streams r.lane r.priority)) [
      | inr (x, e) ↦ inl (x, rw e refl, rw e refl)
      | inl (name, e) ↦ elim (Bool-cases (is_refused r db)) [
        | inl refused ↦ inl (integrity_error, rw (e, refused) refl, rw (e, refused) refl)
        | inr allowed ↦
            let fresh : any (has_id r.task_id) db.tasks ≡ false = ground arith in
            inr (
              enqueue_result now r name db,
              new_event now r.task_id name (ready_payload now r) db,
              rw (e, allowed) refl,
              e,
              rw (e, allowed)
                  (find-append r.task_id db.tasks (ready_row now r) fresh (ground arith)),
              (λ j other.
                  rw (e, allowed)
                    (find-append_ne j db.tasks (ready_row now r) (ground (arith, other)))),
              rw (e, allowed) (append-HasUniqueIds db.tasks (ready_row now r) u fresh),
              rw (e, allowed) refl,
              refl,
              refl,
              refl,
              refl,
              refl,
              refl,
              refl,
              refl,
              refl,
              refl,
            )
      ]
    ]
