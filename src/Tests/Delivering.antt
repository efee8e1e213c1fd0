-- ===== src/Tests/Delivering.antt =====
-- A server that keeps its messages in one list, and an outbox with a lost message.
use trail_signal_os.Prelude.{
  ℕ, ◌≡◌, refl, Bool, true, ◌&&◌, ◌==◌, if◌then◌else◌, none, some, List, [], ◌∷◌, ◌++◌, ◌⊎◌, inl,
  inr, Bool-cases, All, arith, map, ◌≢◌,
}
use trail_signal_os.Store.{Db, Payload, StreamName, OutboxEvent, high, find_task}
use trail_signal_os.Store.Lanes.{Lane}
use trail_signal_os.Store.Rows.{HasUniqueIds}
use trail_signal_os.Store.States.{TaskState}
use trail_signal_os.Guards.{Error, ok, err}
use trail_signal_os.Dispatcher.Streams.{default_streams, tier_eq, resolve_stream_name}
use trail_signal_os.Dispatcher.Redis.{Message, Redis, IsRedis}
use trail_signal_os.Dispatcher.Publish.{
  is_unpublished, World, publish_pending_outbox, republish_missing_stream_messages,
  is_lost_candidate,
}
use trail_signal_os.Dispatcher.Publish.Completion.{publish_completes}
use trail_signal_os.Dispatcher.Publish.Delivery.{AllSent, publish_marks_sent}
use trail_signal_os.Dispatcher.Publish.Recovery.{NeverRaises, Stands, republish_restores}
use trail_signal_os.Dispatcher.Enqueue.{ReadyTask, OutboxEnqueueResult, enqueue_ready_task}
use trail_signal_os.Dispatcher.Enqueue.Atomic.{enqueue_is_atomic}
use trail_signal_os.Tests.Data.{ready_db, row}

abbrev Log : Type 0
Log = List (StreamName × Message)

abbrev name_eq : StreamName → StreamName → Bool
name_eq a b = a.prefix == b.prefix && tier_eq a.tier b.tier

abbrev read : StreamName → Log → List Message
read name [] = []
read name ((other, m) ∷ log) =
    let rest = read name log in if name_eq other name then m ∷ rest else rest

read-append :
    (name : StreamName) (s more : Log) → read name (s ++ more) ≡ read name s ++ read name more
read-append name [] more = refl
read-append name ((other, m) ∷ s) more = elim (Bool-cases (name_eq other name)) [
  | inl same ↦ rw (same, read, read-append name s more) refl
  | inr differs ↦ rw (differs, read, read-append name s more) refl
]

abbrev log_redis : Redis Log
log_redis = record { xadd = λ name m s. ok (s ++ (name, m) ∷ []); xrange = read }

name_eq_self : (name : StreamName) → name_eq name name ≡ true
name_eq_self name = ground arith

log_redis-IsRedis : IsRedis log_redis
log_redis-IsRedis = record {
  appends = λ name m s after e.
      let grown : after ≡ s ++ (name, m) ∷ [] = cc in
      rw (grown, read-append name s ((name, m) ∷ []), name_eq_self name) refl;
  keeps = λ name other m s after e.
      let grown : after ≡ s ++ (name, m) ∷ [] = cc in
      (read other ((name, m) ∷ []), rw (grown, read-append other s ((name, m) ∷ [])) refl);
}

log_redis-NeverRaises : NeverRaises log_redis
log_redis-NeverRaises = λ name m s. (s ++ (name, m) ∷ [], refl)

abbrev http_high : StreamName
http_high = record { prefix = 1; tier = high }

abbrev payload : ℕ → Payload
payload id = record {
  task_id = id;
  job_id = 7;
  lane = Lane.http;
  priority = 1;
  attempt = 1;
  idempotency_key = id;
  payload_ref = 40;
  created_at = 10;
  traceparent = none;
}

abbrev event : ℕ → OutboxEvent
event id = record {
  event_id = id;
  task_id = id;
  stream_name = http_high;
  payload = payload id;
  published_at = none;
  created_at = 10;
}

-- Event 1 was published, event 2 was not.
abbrev half_published : Db
half_published = record ready_db {
  outbox = record (event 1) { published_at = some 20 } ∷ event 2 ∷ [];
  next_event_id = 3;
  artifacts = [];
}

abbrev sent_world : World Log
sent_world = record {
  db = half_published;
  streams = (http_high, record { outbox_event_id = 1; payload = payload 1 }) ∷ [];
}

abbrev lost_world : World Log
lost_world = record { db = half_published; streams = [] }

publish_marks_sent_example :
    AllSent log_redis (publish_pending_outbox log_redis 30 100 sent_world).1
publish_marks_sent_example =
    publish_marks_sent log_redis log_redis-IsRedis 30 100 sent_world
      (((λ e. refl), ((λ e. refl), tt)), (((λ e. refl), ((λ e. refl), tt)), tt))
      ((λ e. refl), ((λ e. cc), tt))

republish_restores_example :
    (m : ℕ) × (after : World Log) × (republish_missing_stream_messages log_redis 100 lost_world
      ≡ (ok m, after))
    × All
        (λ (e : OutboxEvent).
          is_lost_candidate half_published e ≡ true → Stands log_redis after.streams e)
        half_published.outbox
republish_restores_example =
    republish_restores log_redis log_redis-IsRedis log_redis-NeverRaises 100 lost_world
      (omega arith)

publish_completes_example :
    (m : ℕ) × (after : World Log) × (publish_pending_outbox log_redis 30 100 lost_world
      ≡ (ok m, after))
    × (after.db.outbox
        ≡ map
            (λ (e : OutboxEvent).
              if is_unpublished e then record e { published_at = some 30 } else e)
            half_published.outbox)
publish_completes_example =
    publish_completes log_redis log_redis-NeverRaises 30 100 lost_world
      ((ground arith, tt), (tt, tt)) (omega arith)

abbrev request : ReadyTask
request = record {
  task_id = 3;
  job_id = 7;
  lane = Lane.http;
  idempotency_key = 3;
  payload_ref = 40;
  provenance = 0;
  priority = 1;
  attempt = 1;
  traceparent = none;
  created_at = none;
}

enqueue_is_atomic_example :
    let (result, db') = enqueue_ready_task default_streams 50 request ready_db in
    ((x : Error) × (result ≡ err x) × (db' ≡ ready_db))
    ⊎ ((done : OutboxEnqueueResult) × (e : OutboxEvent) × (result ≡ ok done)
        × (resolve_stream_name default_streams Lane.http 1 ≡ ok done.stream_name)
        × (find_task db' 3
            ≡ some (record (row 3 Lane.http TaskState.ready) {
              lease_generation = 0;
              created_at = 50;
              updated_at = 50;
            }))
        × ((j : ℕ) → j ≢ 3 → find_task db' j ≡ find_task ready_db j)
        × HasUniqueIds db'.tasks
        × (db'.outbox ≡ [] ++ e ∷ [])
        × (e.event_id ≡ done.event_id)
        × (e.task_id ≡ 3)
        × (e.stream_name ≡ done.stream_name)
        × (e.payload ≡ done.payload)
        × (e.payload.task_id ≡ 3)
        × (e.payload.job_id ≡ 7)
        × (e.payload.lane ≡ Lane.http)
        × (e.payload.attempt ≡ 1)
        × (e.payload.idempotency_key ≡ 3)
        × (e.published_at ≡ none))
enqueue_is_atomic_example = enqueue_is_atomic default_streams 50 request ready_db (refl, (refl, tt))
