-- ===== src/Dispatcher/Publish/Completion.antt =====
-- A batch that takes every pending row.
use trail_signal_os.Prelude.{
  ℕ, ◌+◌, ◌≤◌, ◌≡◌, ◌≢◌, refl, ap, ◌∙◌, sym, Bool, true, false, none, some, List, [], ◌∷◌, ==→eq,
  if◌then◌else◌, arith, Bool-cases, Option-cases, inl, inr, ◌⊎◌, map, first, select, update, sort,
  length, take_all, length-sort, All, All-update, All-map_to, All-sort_back, All-select_back,
}
use mathlib.Core.Path.{subst}
use trail_signal_os.Store.{OutboxEvent}
use trail_signal_os.Guards.{ok}
use trail_signal_os.Dispatcher.Redis.{Redis}
use trail_signal_os.Dispatcher.Publish.{
  World, has_event, is_unpublished, outbox_order, redis_fields, publish_now, to_mark,
  mark_published, publish_outbox_event, publish_each, pending_rows, publish_pending_outbox,
}
use trail_signal_os.Dispatcher.Publish.Recovery.{NeverRaises}

-- The primary key of the outbox.
abbrev pub HasUniqueEvents : List OutboxEvent → Type 0
HasUniqueEvents [] = Unit
HasUniqueEvents (e ∷ es) =
    All (λ (f : OutboxEvent). f.event_id ≢ e.event_id) es × HasUniqueEvents es

-- No row with this identifier waits to be published.
abbrev pub IsSettled : ℕ → OutboxEvent → Type 0
IsSettled id e = e.event_id ≡ id → is_unpublished e ≡ false

missing-IsSettled :
    (id : ℕ) (es : List OutboxEvent)
    → first (select (has_event id) es) ≡ none
    → All (IsSettled id) es
missing-IsSettled id [] h = tt
missing-IsSettled id (e ∷ es) h = elim (Bool-cases (has_event id e)) [
  | inl own ↦ absurd (ground arith)
  | inr other ↦ ((λ same. absurd (ground arith)), missing-IsSettled id es (ground arith))
]

published-IsSettled :
    (id : ℕ) (es : List OutboxEvent) {found : OutboxEvent}
    → HasUniqueEvents es
    → first (select (has_event id) es) ≡ some found
    → is_unpublished found ≡ false
    → All (IsSettled id) es
published-IsSettled id [] {found} u h p = tt
published-IsSettled id (e ∷ es) {found} u h p = elim (Bool-cases (has_event id e)) [
  | inl own ↦
      let same_id = ==→eq e.event_id id own in
      let same : e ≡ found = ground arith in
      (
        (λ _. rw same p),
        All-map_to (λ (f : OutboxEvent). f.event_id ≢ e.event_id) (IsSettled id) es
            (λ f differs again. absurd (differs (again ∙ sym same_id))) u.0,
      )
  | inr other ↦ (
    (λ same. absurd (ground arith)),
    published-IsSettled id es {found = found} u.1 (ground arith) p,
  )
]

update-IsSettled :
    (now id : ℕ) (es : List OutboxEvent)
    → All (IsSettled id) (update (to_mark id) (publish_now now) es)
update-IsSettled now id [] = tt
update-IsSettled now id (e ∷ es) = elim (Bool-cases (to_mark id e)) [
  | inl marks ↦ rw marks ((λ _. refl), update-IsSettled now id es)
  | inr leaves ↦ rw leaves ((λ same. ground arith), update-IsSettled now id es)
]

update-HasUniqueEvents :
    (now id : ℕ) (es : List OutboxEvent)
    → HasUniqueEvents es
    → HasUniqueEvents (update (to_mark id) (publish_now now) es)
update-HasUniqueEvents now id [] u = tt
update-HasUniqueEvents now id (e ∷ es) u =
    let rest =
      All-update (λ (f : OutboxEvent). f.event_id ≢ e.event_id) (to_mark id) (publish_now now) es
        (λ f h. h) u.0 in
    elim (Bool-cases (to_mark id e)) [
      | inl marks ↦ rw marks (rest, update-HasUniqueEvents now id es u.1)
      | inr leaves ↦ rw leaves (rest, update-HasUniqueEvents now id es u.1)
    ]

-- Row by row, one outbox has come from another: a row is as it was, or it was pending and is now
-- marked.
abbrev Marks : ℕ → List OutboxEvent → List OutboxEvent → Type 0
Marks now [] [] = Unit
Marks now [] (f ∷ fs) = ⊥
Marks now (e ∷ es) [] = ⊥
Marks now (e ∷ es) (f ∷ fs) =
    ((f ≡ e) ⊎ ((is_unpublished e ≡ true) × (f ≡ record e { published_at = some now })))
    × Marks now es fs

Marks-refl : (now : ℕ) (es : List OutboxEvent) → Marks now es es
Marks-refl now [] = tt
Marks-refl now (e ∷ es) = (inl refl, Marks-refl now es)

Marks-update :
    (now id : ℕ) (es fs : List OutboxEvent)
    → Marks now es fs
    → Marks now es (update (to_mark id) (publish_now now) fs)
Marks-update now id [] [] h = tt
Marks-update now id [] (f ∷ fs) h = elim h [ ]
Marks-update now id (e ∷ es) [] h = elim h [ ]
Marks-update now id (e ∷ es) (f ∷ fs) (inr marked, rest) =
    let done : to_mark id f ≡ false = ground arith in
    rw done (inr marked, Marks-update now id es fs rest)
Marks-update now id (e ∷ es) (f ∷ fs) (inl same, rest) = elim (Bool-cases (to_mark id f)) [
  | inl marks ↦
      let pending : is_unpublished e ≡ true = ground arith in
      rw marks (inr (pending, ap (publish_now now) same), Marks-update now id es fs rest)
  | inr leaves ↦ rw leaves (inl same, Marks-update now id es fs rest)
]

-- When all the pending rows are settled, the outbox is the old one with each of them marked.
settled-Marks :
    (now : ℕ) (es fs : List OutboxEvent)
    → Marks now es fs
    → All (λ (e : OutboxEvent). is_unpublished e ≡ true → All (IsSettled e.event_id) fs) es
    → fs
      ≡ map
          (λ (e : OutboxEvent).
            if is_unpublished e then record e { published_at = some now } else e)
          es
settled-Marks now [] [] m h = refl
settled-Marks now [] (f ∷ fs) m h = elim m [ ]
settled-Marks now (e ∷ es) [] m h = elim m [ ]
settled-Marks now (e ∷ es) (f ∷ fs) (this, rest) h =
    let later =
      settled-Marks now es fs rest
        (All-map_to _ _ es (λ x settled pending. (settled pending).1) h.1) in
    elim this [
      | inr (pending, e') ↦ rw (pending, e', later) refl
      | inl same ↦ elim (Bool-cases (is_unpublished e)) [
        | inl pending ↦
            let done : is_unpublished f ≡ false =
              (h.0 pending).0 (ap (λ (x : OutboxEvent). x.event_id) same) in
            absurd (ground arith)
        | inr already ↦ rw (already, same, later) refl
      ]
    ]

module _ {S : Type 0} (redis : Redis S) (never : NeverRaises redis) where
  publish_settles :
      (now : ℕ) (row : OutboxEvent) (w : World S) (before : List OutboxEvent)
      → HasUniqueEvents w.db.outbox
      → Marks now before w.db.outbox
      → (b : Bool) × (after : World S) × (publish_outbox_event redis now row.event_id
            row.stream_name row.payload w
          ≡ (ok b, after))
        × All (IsSettled row.event_id) after.db.outbox
        × HasUniqueEvents after.db.outbox
        × Marks now before after.db.outbox
        × ((id : ℕ) → All (IsSettled id) w.db.outbox → All (IsSettled id) after.db.outbox)
  unfolding publish_outbox_event
  publish_settles now row w before u kept =
      elim (Option-cases (first (select (has_event row.event_id) w.db.outbox))) [
        | inl missing ↦ (
          false,
          w,
          rw missing refl,
          missing-IsSettled row.event_id w.db.outbox missing,
          u,
          kept,
          λ id h. h,
        )
        | inr (found, e) ↦ elim (Bool-cases (is_unpublished found)) [
          | inr already ↦ (
            false,
            w,
            rw (e, already) refl,
            published-IsSettled row.event_id w.db.outbox {found = found} u e already,
            u,
            kept,
            λ id h. h,
          )
          | inl fresh ↦
              let (after, added) =
                never row.stream_name (redis_fields row.payload row.event_id) w.streams in
              (
                (mark_published now row.event_id w.db).0,
                record { db = (mark_published now row.event_id w.db).1; streams = after },
                rw (e, fresh, added) refl,
                update-IsSettled now row.event_id w.db.outbox,
                update-HasUniqueEvents now row.event_id w.db.outbox u,
                Marks-update now row.event_id before w.db.outbox kept,
                λ id h.
                    All-update (IsSettled id) (to_mark row.event_id) (publish_now now) w.db.outbox
                      (λ x settled _. refl) h,
              )
        ]
      ]

  each_settles :
      (now : ℕ) (rows : List OutboxEvent) (n : ℕ) (w : World S) (before : List OutboxEvent)
      → HasUniqueEvents w.db.outbox
      → Marks now before w.db.outbox
      → (m : ℕ) × (after : World S) × (publish_each redis now rows n w ≡ (ok m, after))
        × All (λ (r : OutboxEvent). All (IsSettled r.event_id) after.db.outbox) rows
        × Marks now before after.db.outbox
        × ((id : ℕ) → All (IsSettled id) w.db.outbox → All (IsSettled id) after.db.outbox)
  unfolding publish_each
  each_settles now [] n w before u kept = (n, w, refl, tt, kept, λ id h. h)
  each_settles now (row ∷ rows) n w before u kept =
      let (b, w', e, own, u', kept', keeps) = publish_settles now row w before u kept in
      let (m, after, e', rest, marked, keeps') =
        each_settles now rows (if b then n + 1 else n) w' before u' kept' in
      (
        m,
        after,
        rw (ap (λ x. x.0) e, ap (λ x. x.1) e, publish_each) e',
        (keeps' row.event_id own, rest),
        marked,
        λ id h. keeps' id (keeps id h),
      )

  -- Where the identifiers of events are unique, one call with a client that does not raise and a
  -- batch size that takes all the pending rows returns, and the outbox is as before but for the time
  -- of publication of every event that was pending, which is the time of the call.
  pub publish_completes :
      (now batch_size : ℕ) (w : World S)
      → HasUniqueEvents w.db.outbox
      → length (select is_unpublished w.db.outbox) ≤ batch_size
      → (m : ℕ) × (after : World S) × (publish_pending_outbox redis now batch_size w
          ≡ (ok m, after))
        × (after.db.outbox
            ≡ map
                (λ (e : OutboxEvent).
                  if is_unpublished e then record e { published_at = some now } else e)
                w.db.outbox)
  unfolding publish_pending_outbox
  publish_completes now batch_size w u h =
      let (m, after, e, all_settled, marked, _) =
        each_settles now (pending_rows batch_size w.db) 0 w w.db.outbox u
          (Marks-refl now w.db.outbox) in
      let chosen = select is_unpublished w.db.outbox in
      let P : OutboxEvent → Type 0 = λ r. All (IsSettled r.event_id) after.db.outbox in
      let whole : pending_rows batch_size w.db ≡ sort outbox_order chosen =
        take_all batch_size (sort outbox_order chosen) (rw (length-sort outbox_order chosen) h) in
      (
        m,
        after,
        e,
        settled-Marks now w.db.outbox after.db.outbox marked (
            All-select_back P is_unpublished w.db.outbox
              (All-sort_back P outbox_order chosen (subst (All P) whole all_settled))),
      )
