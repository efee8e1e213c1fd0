-- ===== src/Lineage/Trace/Ancestors.antt =====
-- lineage/trace.py, `trace_ancestors`, beside the ancestors of a node in the graph of the edges.
use mathlib.Core.Path.{subst}
use trail_signal_os.Prelude.{
  ◌≡◌, refl, sym, inl, inr, List, [], ◌∷◌, Memᴰ, All, All-append, All-map_to, Bool-cases,
}
use trail_signal_os.Lineage.Edges.{Node, LineageEdge, same_edge, edges_for_child}
use trail_signal_os.Lineage.Edges.Laws.{node_eq-true, All-edges_for_child}
use trail_signal_os.Lineage.Trace.{
  LineageDb, Queued, Walk, has_node, put_edge, offer, offer_all, opened, round,
}

-- A node reaches itself, and the parent of every edge whose child it reaches.
pub data IsAncestor (edges : List LineageEdge) (root : Node) : Node → Type 0 where
  here : IsAncestor edges root root
  up :
      {n p : Node} (e : LineageEdge)
      → IsAncestor edges root n
      → Memᴰ e edges
      → e.child ≡ n
      → e.parent ≡ p
      → IsAncestor edges root p

-- Every visited and every queued node is an ancestor of the root, and so is the child of every
-- collected edge.
pub record IsSound (edges : List LineageEdge) (root : Node) (w : Walk) : Type 0 where
  pub seen : All (IsAncestor edges root) w.visited
  pub waiting : All (λ (q : Queued). IsAncestor edges root q.node) w.queue
  pub walked :
      All (λ (e : LineageEdge). Memᴰ e edges × IsAncestor edges root e.child) w.collected_edges

All-put_edge {κ} :
    (P : LineageEdge → Type κ) (e : LineageEdge) (fs : List LineageEdge)
    → P e
    → All P fs
    → All P (put_edge e fs)
All-put_edge P e [] h hs = (h, tt)
All-put_edge P e (f ∷ fs) h hs = elim (Bool-cases (same_edge e.child e.parent f)) [
  | inl same ↦ rw same (h, hs.1)
  | inr other ↦ rw other (hs.0, All-put_edge P e fs h hs.1)
]

module _ (edges : List LineageEdge) (root : Node) where
  offer-IsSound :
      (e : LineageEdge) (w : Walk)
      → Memᴰ e edges × IsAncestor edges root e.child
      → IsSound edges root w
      → IsSound edges root (offer e w)
  offer-IsSound e w a s =
      let walked = All-put_edge _ e w.collected_edges a s.walked in
      elim (Bool-cases (has_node e.parent w.visited)) [
        | inl old ↦ record { seen = s.seen; waiting = rw old s.waiting; walked = walked }
        | inr new ↦ record {
          seen = s.seen;
          waiting = rw new (All-append _ w.queue _ s.waiting (up e a.1 a.0 refl refl, tt));
          walked = walked;
        }
      ]

  offer_all-IsSound :
      (es : List LineageEdge) (w : Walk)
      → All (λ (e : LineageEdge). Memᴰ e edges × IsAncestor edges root e.child) es
      → IsSound edges root w
      → IsSound edges root (offer_all es w)
  offer_all-IsSound [] w a s = s
  offer_all-IsSound (e ∷ es) w a s = offer_all-IsSound es (offer e w) a.1 (offer-IsSound e w a.0 s)

pub round-IsSound :
    (db : LineageDb) (root : Node) (q : Queued) (rest : List Queued) (w : Walk)
    → w.queue ≡ q ∷ rest
    → IsSound db.edges root w
    → IsSound db.edges root (round db q rest w)
round-IsSound db root q rest w e s =
    let waiting = subst (All (λ (r : Queued). IsAncestor db.edges root r.node)) e s.waiting in
    elim (Bool-cases (has_node q.node w.visited)) [
      | inl old ↦ rw old (record { seen = s.seen; waiting = waiting.1; walked = s.walked })
      | inr new ↦ rw new (
          offer_all-IsSound db.edges root (edges_for_child q.node db.edges)
            (opened db q (record w { queue = rest }))
            (All-map_to _ (λ (f : LineageEdge). Memᴰ f db.edges × IsAncestor db.edges root f.child)
              _
              (λ f m. (
                m.0,
                subst (IsAncestor db.edges root) (sym (node_eq-true f.child q.node m.1)) waiting.0,
              ))
              (All-edges_for_child q.node db.edges))
            (record { seen = (waiting.0, s.seen); waiting = waiting.1; walked = s.walked }))
    ]
