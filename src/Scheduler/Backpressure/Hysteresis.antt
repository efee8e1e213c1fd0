-- ===== src/Scheduler/Backpressure/Hysteresis.antt =====
-- The gate over a sequence of measurements.
use trail_signal_os.Prelude.{
  ℕ, ◌≤◌, ◌<◌, ◌≡◌, refl, true, false, List, [], ◌∷◌, arith, any, all, All,
}
use trail_signal_os.Scheduler.Backpressure.{
  BackpressureGate, BacklogKey, extract_backlog, enrich_backlog, index_backlog, Watermarks, at_high,
  at_low, backlog_keys, update_gate,
}

abbrev pub update_all : Watermarks → List (BacklogKey → ℕ) → BackpressureGate → BackpressureGate
update_all marks [] gate = gate
update_all marks (b ∷ bs) gate = update_all marks bs (update_gate b marks gate)

-- Some backlog is above its low mark.
abbrev pub IsBehind : Watermarks → (BacklogKey → ℕ) → Type 0
IsBehind marks b = (key : BacklogKey) × (marks.low key < b key)

-- Every backlog is below its high mark.
abbrev pub IsBelow : Watermarks → (BacklogKey → ℕ) → Type 0
IsBelow marks b = (key : BacklogKey) → b key < marks.high key

any_high :
    (marks : Watermarks) (b : BacklogKey → ℕ) (key : BacklogKey)
    → marks.high key ≤ b key
    → any (at_high b marks) backlog_keys ≡ true
any_high marks b extract_backlog h = ground arith
any_high marks b enrich_backlog h = ground arith
any_high marks b index_backlog h = ground arith

not_low :
    (marks : Watermarks) (b : BacklogKey → ℕ) (key : BacklogKey)
    → marks.low key < b key
    → all (at_low b marks) backlog_keys ≡ false
not_low marks b extract_backlog h = ground arith
not_low marks b enrich_backlog h = ground arith
not_low marks b index_backlog h = ground arith

not_high :
    (marks : Watermarks) (b : BacklogKey → ℕ)
    → IsBelow marks b
    → any (at_high b marks) backlog_keys ≡ false
not_high marks b h = ground (arith, h extract_backlog, h enrich_backlog, h index_backlog)

all_low :
    (marks : Watermarks) (b : BacklogKey → ℕ)
    → ((key : BacklogKey) → b key ≤ marks.low key)
    → all (at_low b marks) backlog_keys ≡ true
all_low marks b h = ground (arith, h extract_backlog, h enrich_backlog, h index_backlog)

stays_paused :
    (marks : Watermarks) (bs : List (BacklogKey → ℕ)) (gate : BackpressureGate)
    → All (IsBehind marks) bs
    → gate.fetch_paused ≡ true
    → (update_all marks bs gate).fetch_paused ≡ true
unfolding update_gate
stays_paused marks [] gate h p = p
stays_paused marks (b ∷ bs) gate h p =
    stays_paused marks bs (update_gate b marks gate) h.1
      (rw (not_low marks b h.0.0 h.0.1) (ground arith))

stays_open :
    (marks : Watermarks) (bs : List (BacklogKey → ℕ)) (gate : BackpressureGate)
    → All (IsBelow marks) bs
    → gate.fetch_paused ≡ false
    → (update_all marks bs gate).fetch_paused ≡ false
unfolding update_gate
stays_open marks [] gate h p = p
stays_open marks (b ∷ bs) gate h p =
    stays_open marks bs (update_gate b marks gate) h.1 (rw (not_high marks b h.0) (ground arith))

-- A measurement with a backlog at its high mark pauses the gate, and the gate stays paused over
-- any further measurements that each have a backlog above its low mark. A measurement with every
-- backlog at most at its low mark and below its high mark opens the gate, and it stays open over
-- any further measurements below the high marks.
pub gate_has_hysteresis :
    (marks : Watermarks) (b : BacklogKey → ℕ) (bs : List (BacklogKey → ℕ)) (gate : BackpressureGate)
    → (((key : BacklogKey) × (marks.high key ≤ b key))
        → All (IsBehind marks) bs
        → (update_all marks (b ∷ bs) gate).fetch_paused ≡ true)
      × (((key : BacklogKey) → b key ≤ marks.low key)
          → IsBelow marks b
          → All (IsBelow marks) bs
          → (update_all marks (b ∷ bs) gate).fetch_paused ≡ false)
unfolding update_gate
gate_has_hysteresis marks b bs gate = (
  λ high behind.
      stays_paused marks bs (update_gate b marks gate) behind
        (rw (any_high marks b high.0 high.1) refl),
  λ low below later.
      stays_open marks bs (update_gate b marks gate) later
        (rw (not_high marks b below) (rw (all_low marks b low) (ground arith))),
)
