-- ===== src/Dispatcher/Enqueue.antt =====
-- control/dispatcher/enqueue.py: a READY task and its outbox row in one transaction. What the
-- schema forbids raises, and the transaction is rolled back.
pub mod Atomic
use trail_signal_os.Prelude.{
  ℕ, ◌+◌, Bool, true, false, ◌&&◌, ◌||◌, not, Option, none, some, List, [], ◌∷◌, ◌++◌, ◌==◌, ltb,
  if◌then◌else◌, any, is_null,
}
use trail_signal_os.Store.{Task, Payload, StreamName, OutboxEvent, Db, has_id, find_job}
use trail_signal_os.Store.Lanes.{Lane}
use trail_signal_os.Store.States.{TaskState}
use trail_signal_os.Guards.{Result, ok, err, integrity_error, ◌>>=◌}
use trail_signal_os.Dispatcher.Streams.{StreamsConfig, resolve_stream_name}

-- `_stream_payload`; the same function stands in control/scheduler/admit.py.
abbrev pub stream_payload : ℕ → ℕ → Lane → ℕ → ℕ → ℕ → ℕ → Option ℕ → ℕ → Payload
stream_payload task_id job_id lane priority attempt idempotency_key payload_ref traceparent
      created_at =
    record {
      task_id = task_id;
      job_id = job_id;
      lane = lane;
      priority = priority;
      attempt = attempt;
      idempotency_key = idempotency_key;
      payload_ref = payload_ref;
      created_at = created_at;
      traceparent = traceparent;
    }

abbrev pub new_event : ℕ → ℕ → StreamName → Payload → Db → OutboxEvent
new_event now task_id stream_name payload db = record {
  event_id = db.next_event_id;
  task_id = task_id;
  stream_name = stream_name;
  payload = payload;
  published_at = none;
  created_at = now;
}

-- `INSERT INTO outbox_events … RETURNING event_id`
abbrev pub insert_outbox : ℕ → ℕ → StreamName → Payload → Db → Db
insert_outbox now task_id stream_name payload db = record db {
  outbox = db.outbox ++ new_event now task_id stream_name payload db ∷ [];
  next_event_id = db.next_event_id + 1;
}

-- The arguments of one call.
pub record ReadyTask : Type 0 where
  pub task_id : ℕ
  pub job_id : ℕ
  pub lane : Lane
  pub idempotency_key : ℕ
  pub payload_ref : ℕ
  pub provenance : ℕ
  pub priority : ℕ
  pub attempt : ℕ
  pub traceparent : Option ℕ
  pub created_at : Option ℕ

pub record OutboxEnqueueResult : Type 0 where
  pub task_id : ℕ
  pub event_id : ℕ
  pub stream_name : StreamName
  pub payload : Payload

abbrev pub ready_row : ℕ → ReadyTask → Task
ready_row now r = record {
  task_id = r.task_id;
  job_id = r.job_id;
  task_kind = none;
  lane = r.lane;
  priority = r.priority;
  attempt = r.attempt;
  state = TaskState.ready;
  idempotency_key = r.idempotency_key;
  payload_ref = r.payload_ref;
  traceparent = r.traceparent;
  not_before = none;
  retry_at = none;
  lease_owner = none;
  lease_generation = 0;
  lease_expires_at = none;
  last_heartbeat_at = none;
  result_artifact_id = none;
  completed_at = none;
  provenance = r.provenance;
  created_at = now;
  updated_at = now;
}

-- The constraints of the table: the keys, the reference to the job and the two CHECKs.
abbrev pub is_refused : ReadyTask → Db → Bool
is_refused r db =
    any (has_id r.task_id) db.tasks
    || (any (λ (t : Task). t.idempotency_key == r.idempotency_key) db.tasks
        || (is_null (find_job db r.job_id) || (ltb 3 r.priority || r.attempt == 0)))

abbrev created_or_now : Option ℕ → ℕ → ℕ
created_or_now none now = now
created_or_now (some t) now = t

abbrev pub ready_payload : ℕ → ReadyTask → Payload
ready_payload now r =
    stream_payload r.task_id r.job_id r.lane r.priority r.attempt r.idempotency_key r.payload_ref
      r.traceparent (created_or_now r.created_at now)

abbrev pub enqueue_result : ℕ → ReadyTask → StreamName → Db → OutboxEnqueueResult
enqueue_result now r stream_name db = record {
  task_id = r.task_id;
  event_id = db.next_event_id;
  stream_name = stream_name;
  payload = ready_payload now r;
}

abbrev enqueued : ℕ → ReadyTask → Db → Result StreamName → Result OutboxEnqueueResult × Db
enqueued now r db (err e) = (err e, db)
enqueued now r db (ok stream_name) = if is_refused r db then (err integrity_error, db) else (
  ok (enqueue_result now r stream_name db),
  insert_outbox now r.task_id stream_name (ready_payload now r)
      (record db { tasks = db.tasks ++ ready_row now r ∷ [] }),
)

unfoldable pub enqueue_ready_task :
    StreamsConfig → ℕ → ReadyTask → Db → Result OutboxEnqueueResult × Db
enqueue_ready_task streams now r db =
    enqueued now r db (resolve_stream_name streams r.lane r.priority)
