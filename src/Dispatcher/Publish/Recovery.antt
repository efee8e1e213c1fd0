-- ===== src/Dispatcher/Publish/Recovery.antt =====
-- Republishing after the server lost its streams.
use trail_signal_os.Prelude.{
  ℕ, ◌+◌, ◌≤◌, ◌≡◌, refl, true, List, [], ◌∷◌, Bool-cases, inl, inr, select, sort, All,
  All-sort_back, All-select_back, length, take_all, length-sort,
}
use mathlib.Core.Path.{subst}
use trail_signal_os.Store.{OutboxEvent, StreamName}
use trail_signal_os.Guards.{ok}
use trail_signal_os.Dispatcher.Redis.{Message, Redis, IsRedis}
use trail_signal_os.Dispatcher.Publish.{
  World, outbox_order, redis_fields, contains_event, is_lost_candidate, lost_candidates,
  republish_each, republish_missing_stream_messages,
}
use trail_signal_os.Dispatcher.Publish.Delivery.{sent_stays, sent_now}

-- A client that is connected raises nothing.
abbrev pub NeverRaises : {S : Type 0} → Redis S → Type 0
NeverRaises {S} redis =
    (name : StreamName) (m : Message) (s : S) → (after : S) × (redis.xadd name m s ≡ ok after)

-- The message of a row stands in its stream.
abbrev pub Stands : {S : Type 0} → Redis S → S → OutboxEvent → Type 0
Stands redis s e = contains_event (redis.xrange e.stream_name s) e.event_id ≡ true

module _ {S : Type 0} (redis : Redis S) (laws : IsRedis redis) (never : NeverRaises redis) where
  each_restores :
      (rows : List OutboxEvent) (n : ℕ) (s : S)
      → (m : ℕ) × (after : S) × (republish_each redis rows n s ≡ (ok m, after))
        × All (Stands redis after) rows
        × ((e : OutboxEvent) → Stands redis s e → Stands redis after e)
  unfolding republish_each
  each_restores [] n s = (n, s, refl, tt, λ e h. h)
  each_restores (row ∷ rows) n s =
      elim (Bool-cases (contains_event (redis.xrange row.stream_name s) row.event_id)) [
        | inl there ↦
            let (m, after, e, all_stand, stays) = each_restores rows n s in
            (m, after, rw there e, (stays row there, all_stand), stays)
        | inr lost ↦
            let message = redis_fields row.payload row.event_id in
            let (s', added) = never row.stream_name message s in
            let (m, after, e, all_stand, stays) = each_restores rows (n + 1) s' in
            (
              m,
              after,
              rw (lost, added, republish_each) e,
              (stays row (sent_now redis laws row.stream_name message s s' added), all_stand),
              λ x h. stays x (
                  sent_stays redis laws row.stream_name message s s' added x.stream_name x.event_id
                    h),
            )
      ]

  -- Whatever streams Redis has lost, one call with a client that keeps the laws of XADD and does
  -- not raise, and a batch size that takes all the candidates, returns and leaves every published
  -- event of a READY task in its stream.
  pub republish_restores :
      (batch_size : ℕ) (w : World S)
      → length (select (is_lost_candidate w.db) w.db.outbox) ≤ batch_size
      → (m : ℕ) × (after : World S) × (republish_missing_stream_messages redis batch_size w
          ≡ (ok m, after))
        × All
            (λ (e : OutboxEvent). is_lost_candidate w.db e ≡ true → Stands redis after.streams e)
            w.db.outbox
  unfolding republish_missing_stream_messages
  republish_restores batch_size w h =
      let (m, after, e, all_stand, _) =
        each_restores (lost_candidates batch_size w.db) 0 w.streams in
      let chosen = select (is_lost_candidate w.db) w.db.outbox in
      let whole : lost_candidates batch_size w.db ≡ sort outbox_order chosen =
        take_all batch_size (sort outbox_order chosen) (rw (length-sort outbox_order chosen) h) in
      (
        m,
        record w { streams = after },
        rw e refl,
        All-select_back (Stands redis after) (is_lost_candidate w.db) w.db.outbox (
            All-sort_back (Stands redis after) outbox_order chosen
              (subst (All (Stands redis after)) whole all_stand)),
      )
