-- ===== src/Dispatcher/Publish/Delivery.antt =====
-- At-least-once delivery: what the marks of the outbox say of the streams.
use trail_signal_os.Prelude.{
  ℕ, ◌+◌, ◌≡◌, true, false, List, [], ◌∷◌, ◌++◌, if◌then◌else◌, arith, Bool-cases, Option-cases,
  inl, inr, first, select, update, All, All-select, All-sort, All-take, All-update, All-map_to,
}
use trail_signal_os.Store.{OutboxEvent, StreamName}
use trail_signal_os.Guards.{ok, Result-cases}
use trail_signal_os.Dispatcher.Redis.{Message, Redis, IsRedis}
use trail_signal_os.Dispatcher.Publish.{
  World, has_event, is_unpublished, outbox_order, redis_fields, publish_now, to_mark,
  contains_event, publish_outbox_event, publish_each, pending_rows, publish_pending_outbox,
}

-- Rows with the identifier of an event have its stream, as a key makes sure.
abbrev pub AreOf : List OutboxEvent → OutboxEvent → Type 0
AreOf outbox row =
    All (λ (e : OutboxEvent). e.event_id ≡ row.event_id → e.stream_name ≡ row.stream_name) outbox

abbrev pub HasOneStream : List OutboxEvent → Type 0
HasOneStream outbox = All (AreOf outbox) outbox

contains_more :
    (id : ℕ) (ms more : List Message)
    → contains_event ms id ≡ true
    → contains_event (ms ++ more) id ≡ true
contains_more id [] more h = absurd (ground arith)
contains_more id (m ∷ ms) more h = ground (arith, contains_more id ms more)

contains_last :
    (ms : List Message) (m : Message) → contains_event (ms ++ m ∷ []) m.outbox_event_id ≡ true
contains_last [] m = ground arith
contains_last (n ∷ ms) m = ground (arith, contains_last ms m)

module _ {S : Type 0} (redis : Redis S) where
  -- A row that is marked as published stands in its stream.
  abbrev pub IsSent : S → OutboxEvent → Type 0
  IsSent s e =
      is_unpublished e ≡ false → contains_event (redis.xrange e.stream_name s) e.event_id ≡ true

  abbrev pub AllSent : World S → Type 0
  AllSent w = All (IsSent w.streams) w.db.outbox

module _ {S : Type 0} (redis : Redis S) (laws : IsRedis redis) where
  module _ (name : StreamName) (m : Message) (s after : S)
      (e : redis.xadd name m s ≡ ok after) where
    pub sent_stays :
        (other : StreamName) (id : ℕ)
        → contains_event (redis.xrange other s) id ≡ true
        → contains_event (redis.xrange other after) id ≡ true
    sent_stays other id h =
        let (more, grown) = laws.keeps name other m s after e in
        rw grown (contains_more id (redis.xrange other s) more h)

    pub sent_now : contains_event (redis.xrange name after) m.outbox_event_id ≡ true
    sent_now = rw (laws.appends name m s after e) (contains_last (redis.xrange name s) m)

  -- The mark after the message.
  mark-IsSent :
      (now : ℕ) (row : OutboxEvent) (s after : S) (es : List OutboxEvent)
      → redis.xadd row.stream_name (redis_fields row.payload row.event_id) s ≡ ok after
      → AreOf es row
      → All (IsSent redis s) es
      → All (IsSent redis after) (update (to_mark row.event_id) (publish_now now) es)
  mark-IsSent now row s after [] e own sent = tt
  mark-IsSent now row s after (x ∷ xs) e own sent =
      let rest = mark-IsSent now row s after xs e own.1 sent.1 in
      elim (Bool-cases (to_mark row.event_id x)) [
        | inl marks ↦
            let same : x.event_id ≡ row.event_id = ground arith in
            let here = sent_now row.stream_name (redis_fields row.payload row.event_id) s after e in
            rw marks ((λ published. rw (own.0 same) (rw same here)), rest)
        | inr leaves ↦ rw leaves (
          (λ published.
              sent_stays row.stream_name (redis_fields row.payload row.event_id) s after e
                x.stream_name x.event_id (sent.0 published)),
          rest,
        )
      ]

  publish_event_lem :
      (now : ℕ) (row : OutboxEvent) (w : World S)
      → AreOf w.db.outbox row
      → AllSent redis w
      → let (result, after) =
          publish_outbox_event redis now row.event_id row.stream_name row.payload w in
        AllSent redis after
        × ((other : OutboxEvent) → AreOf w.db.outbox other → AreOf after.db.outbox other)
  unfolding publish_outbox_event
  publish_event_lem now row w own sent =
      elim (Option-cases (first (select (has_event row.event_id) w.db.outbox))) [
        | inl missing ↦ rw missing (sent, λ other h. h)
        | inr (found, e) ↦ elim (Bool-cases (is_unpublished found)) [
          | inr already ↦ rw (e, already) (sent, λ other h. h)
          | inl fresh ↦
              elim (Result-cases
                (redis.xadd row.stream_name (redis_fields row.payload row.event_id) w.streams)) [
                  | inr (x, refused) ↦ rw (e, fresh, refused) (sent, λ other h. h)
                  | inl (after, added) ↦
                      rw (e, fresh, added)
                        (
                          mark-IsSent now row w.streams after w.db.outbox added own sent,
                          λ other.
                              All-update
                                (λ (x : OutboxEvent).
                                  x.event_id ≡ other.event_id → x.stream_name ≡ other.stream_name)
                                (to_mark row.event_id) (publish_now now) w.db.outbox (λ x h. h),
                        )
                ]
        ]
      ]

  publish_each_sent :
      (now : ℕ) (rows : List OutboxEvent) (published : ℕ) (w : World S)
      → All (AreOf w.db.outbox) rows
      → AllSent redis w
      → AllSent redis (publish_each redis now rows published w).1
  unfolding publish_each
  publish_each_sent now [] published w own sent = sent
  publish_each_sent now (row ∷ rows) published w own sent =
      let (sent', moves) = publish_event_lem now row w own.0 sent in
      elim (Result-cases
        (publish_outbox_event redis now row.event_id row.stream_name row.payload w).0) [
          | inr (x, e) ↦ rw (e, publish_each) sent'
          | inl (n, e) ↦
              rw (e, publish_each)
                (publish_each_sent now rows (if n then published + 1 else published) _
                  (All-map_to (AreOf w.db.outbox) _ rows moves own.1) sent')
        ]

  -- With a client that keeps the laws of XADD, and one stream for each event identifier,
  -- publishing never marks a row whose message is not in its stream, even if the client raises in
  -- the middle of the batch: if every marked row stood in its stream before, every marked row does
  -- after, whatever the result.
  pub publish_marks_sent :
      (now batch_size : ℕ) (w : World S)
      → HasOneStream w.db.outbox
      → AllSent redis w
      → AllSent redis (publish_pending_outbox redis now batch_size w).1
  unfolding publish_pending_outbox
  publish_marks_sent now batch_size w one sent =
      publish_each_sent now (pending_rows batch_size w.db) 0 w
        (All-take (AreOf w.db.outbox) batch_size _ (
          All-sort (AreOf w.db.outbox) outbox_order _
            (All-select (AreOf w.db.outbox) is_unpublished w.db.outbox one)))
        sent
