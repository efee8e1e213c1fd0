-- ===== src/Lineage/Trace/Ends.antt =====
-- lineage/trace.py, `trace_ancestors`: its `while` ends, on every graph.
use trail_signal_os.Prelude.{
  ℕ, zero, suc, ◌≤◌, ◌<◌, ◌≡◌, refl, ap, inl, inr, ◌⊎◌, some, List, [], ◌∷◌, Bool, count_where,
  length, arith,
}
use mathlib.Core.Option
use trail_signal_os.Lineage.Edges.{Node, LineageEdge}
use trail_signal_os.Lineage.Trace.{
  LineageDb, Queued, Walk, round, walk, start, result_of, trace_ancestors,
}
use trail_signal_os.Lineage.Trace.Walks.{work, work-round}

queue-cases :
    (qs : List Queued) → (qs ≡ []) ⊎ ((q : Queued) × (rest : List Queued) × (qs ≡ q ∷ rest))
queue-cases [] = inl refl
queue-cases (q ∷ rest) = inr (q, rest, refl)

-- A walk with enough fuel empties its queue, and keeps what each round keeps.
pub walk_keeps {κ} :
    (P : Walk → Type κ) (db : LineageDb)
    → ((q : Queued) (rest : List Queued) (w : Walk)
        → w.queue ≡ q ∷ rest
        → P w
        → P (round db q rest w))
    → (fuel : ℕ) (w : Walk) → work db w < fuel
    → P w
    → (w' : Walk) × (walk fuel db w ≡ some w') × (w'.queue ≡ []) × P w'
unfolding walk
walk_keeps P db keep zero w enough h = absurd (omega arith)
walk_keeps P db keep (suc fuel) w enough h = elim (queue-cases w.queue) [
  | inl e ↦ (w, rw e refl, e, h)
  | inr (q, rest, e) ↦
      let step : work db (round db q rest w) < work db w = work-round db q rest w e in
      let rec = walk_keeps P db keep fuel (round db q rest w) (omega arith) (keep q rest w e h) in
      (rec.0, rw e rec.1, rec.2, rec.3)
]

pub count_where-le-length :
    (p : LineageEdge → Bool) (es : List LineageEdge) → count_where p es ≤ length es
count_where-le-length p [] = omega arith
count_where-le-length p (e ∷ es) = ground (arith, count_where-le-length p es)

-- The walk of `trace_ancestors` comes to an end with an empty queue, on every graph, cycles
-- included, and an invariant of the rounds that holds at its start holds there.
pub trace_ancestors_keeps {κ} :
    (P : Walk → Type κ) (db : LineageDb) (root : Node)
    → ((q : Queued) (rest : List Queued) (w : Walk)
        → w.queue ≡ q ∷ rest
        → P w
        → P (round db q rest w))
    → P (start root)
    → (w : Walk) × (trace_ancestors db root ≡ some (result_of db root w)) × (w.queue ≡ []) × P w
unfolding trace_ancestors
trace_ancestors_keeps P db root keep h =
    let end =
      walk_keeps P db keep (suc (suc (length db.edges))) (start root)
        (omega (arith, count_where-le-length _ db.edges)) h in
    (end.0, ap (Option.map (result_of db root)) end.1, end.2, end.3)
