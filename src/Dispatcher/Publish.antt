-- ===== src/Dispatcher/Publish.antt =====
-- control/dispatcher/publish.py and republish.py.
pub mod Delivery
pub mod Recovery
pub mod Completion
use trail_signal_os.Prelude.{
  ℕ, ◌+◌, Bool, true, false, ◌&&◌, ◌||◌, not, Option, none, some, List, [], ◌∷◌, ◌==◌, ltb, leb,
  if◌then◌else◌, first, select, update, take, sort, any, is_null,
}
use trail_signal_os.Store.{Db, Task, OutboxEvent, Payload, StreamName, has_id}
use trail_signal_os.Store.States.{TaskState, is_ready}
use trail_signal_os.Guards.{Result, ok, err}
use trail_signal_os.Dispatcher.Redis.{Message, Redis}

-- What a call changes: the database and the server.
pub record World (S : Type 0) : Type 0 where
  pub db : Db
  pub streams : S

abbrev pub has_event : ℕ → OutboxEvent → Bool
has_event id e = e.event_id == id

abbrev pub is_unpublished : OutboxEvent → Bool
is_unpublished e = is_null e.published_at

-- `ORDER BY created_at, event_id`
abbrev pub outbox_order : OutboxEvent → OutboxEvent → Bool
outbox_order a b =
    ltb a.created_at b.created_at || (a.created_at == b.created_at && leb a.event_id b.event_id)

-- `_redis_fields`
abbrev pub redis_fields : Payload → ℕ → Message
redis_fields payload event_id = record { outbox_event_id = event_id; payload = payload }

abbrev pub publish_now : ℕ → OutboxEvent → OutboxEvent
publish_now now e = record e { published_at = some now }

abbrev pub to_mark : ℕ → OutboxEvent → Bool
to_mark id e = has_event id e && is_unpublished e

-- `_mark_published`
abbrev pub mark_published : ℕ → ℕ → Db → Bool × Db
mark_published now id db = (
  not (is_null (first (select (to_mark id) db.outbox))),
  record db { outbox = update (to_mark id) (publish_now now) db.outbox },
)

-- `stream_contains_event`
abbrev pub contains_event : List Message → ℕ → Bool
contains_event messages id = any (λ (m : Message). m.outbox_event_id == id) messages

abbrev pub pending_rows : ℕ → Db → List OutboxEvent
pending_rows batch_size db = take batch_size (sort outbox_order (select is_unpublished db.outbox))

-- `JOIN tasks t …` with `t.state = 'READY'` and `published_at IS NOT NULL`
abbrev pub is_lost_candidate : Db → OutboxEvent → Bool
is_lost_candidate db e =
    not (is_unpublished e) && any (λ (t : Task). has_id e.task_id t && is_ready t.state) db.tasks

abbrev pub lost_candidates : ℕ → Db → List OutboxEvent
lost_candidates batch_size db =
    take batch_size (sort outbox_order (select (is_lost_candidate db) db.outbox))

module _ {S : Type 0} (redis : Redis S) where
  abbrev pub marked : ℕ → ℕ → Result S → World S → Result Bool × World S
  marked now id (err e) w = (err e, w)
  marked now id (ok streams) w =
      let (found, db) = mark_published now id w.db in
      (ok found, record { db = db; streams = streams })

  abbrev pub publish_row :
      ℕ → ℕ → StreamName → Payload → Option OutboxEvent → World S → Result Bool × World S
  publish_row now id name payload none w = (ok false, w)
  publish_row now id name payload (some row) w =
      if not (is_unpublished row)
      then (ok false, w)
      else marked now id (redis.xadd name (redis_fields payload id) w.streams) w

  unfoldable pub publish_outbox_event :
      ℕ → ℕ → StreamName → Payload → World S → Result Bool × World S
  publish_outbox_event now id name payload w =
      publish_row now id name payload (first (select (has_event id) w.db.outbox)) w

  -- The loop over the rows; an exception ends it.
  unfoldable pub publish_each : ℕ → List OutboxEvent → ℕ → World S → Result ℕ × World S
  publish_each now [] published w = (ok published, w)
  publish_each now (row ∷ rows) published w =
      let (result, after) = publish_outbox_event now row.event_id row.stream_name row.payload w in
      elim result [
        | err e ↦ (err e, after)
        | ok sent ↦ publish_each now rows (if sent then published + 1 else published) after
      ]

  unfoldable pub publish_pending_outbox : ℕ → ℕ → World S → Result ℕ × World S
  publish_pending_outbox now batch_size w = publish_each now (pending_rows batch_size w.db) 0 w

  unfoldable pub republish_each : List OutboxEvent → ℕ → S → Result ℕ × S
  republish_each [] republished s = (ok republished, s)
  republish_each (row ∷ rows) republished s =
      let skipped = republish_each rows republished s in
      if contains_event (redis.xrange row.stream_name s) row.event_id
      then skipped
      else elim (redis.xadd row.stream_name (redis_fields row.payload row.event_id) s) [
        | err e ↦ (err e, s)
        | ok after ↦ republish_each rows (republished + 1) after
      ]

  -- The database is only read.
  unfoldable pub republish_missing_stream_messages : ℕ → World S → Result ℕ × World S
  republish_missing_stream_messages batch_size w =
      let (result, streams) = republish_each (lost_candidates batch_size w.db) 0 w.streams in
      (result, record w { streams = streams })
