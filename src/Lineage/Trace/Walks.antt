-- ===== src/Lineage/Trace/Walks.antt =====
-- lineage/trace.py, `trace_ancestors`: what one round of the walk changes.
use trail_signal_os.Prelude.{
  ℕ, ◌+◌, ◌≤◌, ◌<◌, ◌≡◌, refl, Bool, false, not, inl, inr, some, List, [], ◌∷◌, count_where, length,
  length-append, Bool-cases, arith,
}
use trail_signal_os.Lineage.Edges.{Node, node_eq, LineageEdge, edges_for_child}
use trail_signal_os.Lineage.Edges.Laws.{of_child, node_eq-true, length-edges_for_child}
use trail_signal_os.Lineage.Trace.{
  LineageDb, Queued, Walk, has_node, offer, offer_all, opened, round,
}

pub visited-offer_all : (es : List LineageEdge) (w : Walk) → (offer_all es w).visited ≡ w.visited
visited-offer_all [] w = refl
visited-offer_all (e ∷ es) w = visited-offer_all es (offer e w)

pub length-offer_all :
    (es : List LineageEdge) (w : Walk) → length (offer_all es w).queue ≤ length w.queue + length es
length-offer_all [] w = omega arith
length-offer_all (e ∷ es) w = elim (Bool-cases (has_node e.parent w.visited)) [
  | inl old ↦ ground (arith, length-offer_all es (offer e w))
  | inr new ↦ ground (
    arith,
    length-offer_all es (offer e w),
    length-append w.queue (record { node = e.parent; relation = some e.relation } ∷ []),
  )
]

-- The edges whose child the walk has not visited.
abbrev pub unvisited : List Node → LineageEdge → Bool
unvisited ns e = not (has_node e.child ns)

pub unvisited-visit :
    (n : Node) (ns : List Node) (edges : List LineageEdge)
    → has_node n ns ≡ false
    → count_where (unvisited (n ∷ ns)) edges + count_where (of_child n) edges
      ≡ count_where (unvisited ns) edges
unvisited-visit n ns [] new = refl
unvisited-visit n ns (e ∷ es) new = elim (Bool-cases (node_eq e.child n)) [
  | inl same ↦
      let here = node_eq-true e.child n same in
      let fresh : has_node e.child ns ≡ false = rw here new in
      rw (same, fresh) (omega (arith, unvisited-visit n ns es new))
  | inr other ↦ rw other (ground (arith, unvisited-visit n ns es new))
]

-- What is left to do: the queue, and the edges that may still put something on it.
abbrev pub work : LineageDb → Walk → ℕ
work db w = length w.queue + count_where (unvisited w.visited) db.edges

pub work-round :
    (db : LineageDb) (q : Queued) (rest : List Queued) (w : Walk)
    → w.queue ≡ q ∷ rest
    → work db (round db q rest w) < work db w
work-round db q rest w e = elim (Bool-cases (has_node q.node w.visited)) [
  | inl old ↦ rw (old, e) (omega arith)
  | inr new ↦
      let before = opened db q (record w { queue = rest }) in
      let es = edges_for_child q.node db.edges in
      rw (new, e, visited-offer_all es before)
        (omega (
          arith,
          length-offer_all es before,
          length-edges_for_child q.node db.edges,
          unvisited-visit q.node w.visited db.edges new,
        ))
]
