-- ===== src/Lineage/Trace/Complete.antt =====
-- lineage/trace.py, `trace_ancestors`: nothing that the edges lead to is left out.
use trail_signal_os.Prelude.{
  ◌≤◌, ◌≡◌, refl, Bool, true, ◌||◌, inl, inr, some, List, [], ◌∷◌, ◌++◌, Memᴰ, any, count_where,
  All, All-map_to, All-pair, All-self, Bool-cases, arith,
}
use trail_signal_os.Lineage.Edges.{Node, node_eq, LineageEdge, same_edge, edges_for_child}
use trail_signal_os.Lineage.Edges.Laws.{
  of_child, node_eq-true, node_eq_self, All-edges_for_child_back,
}
use trail_signal_os.Lineage.Trace.{
  LineageDb, Queued, Walk, has_node, put_edge, offer, offer_all, opened, round, start,
}
use trail_signal_os.Lineage.Trace.Walks.{visited-offer_all}

-- A node that the walk has visited or is going to.
abbrev pub is_known : Node → Walk → Bool
is_known n w = has_node n w.visited || any (λ (q : Queued). node_eq n q.node) w.queue

any-append_last :
    (p : Queued → Bool) (xs : List Queued) (x : Queued) → any p (xs ++ x ∷ []) ≡ (any p xs || p x)
any-append_last p [] x = ground arith
any-append_last p (y ∷ ys) x = ground (arith, any-append_last p ys x)

known-offer :
    (e : LineageEdge) (n : Node) (w : Walk) → is_known n w ≡ true → is_known n (offer e w) ≡ true
known-offer e n w h = elim (Bool-cases (has_node e.parent w.visited)) [
  | inl old ↦ rw old h
  | inr new ↦ rw new (
      ground (
        arith,
        any-append_last (λ (q : Queued). node_eq n q.node) w.queue
            (record { node = e.parent; relation = some e.relation }),
      ))
]

known-offered : (e : LineageEdge) (w : Walk) → is_known e.parent (offer e w) ≡ true
known-offered e w = elim (Bool-cases (has_node e.parent w.visited)) [
  | inl old ↦ rw old refl
  | inr new ↦ rw new (
      ground (
        arith,
        node_eq_self e.parent,
        any-append_last (λ (q : Queued). node_eq e.parent q.node) w.queue
            (record { node = e.parent; relation = some e.relation }),
      ))
]

known-offer_all :
    (es : List LineageEdge) (n : Node) (w : Walk)
    → is_known n w ≡ true
    → is_known n (offer_all es w) ≡ true
known-offer_all [] n w h = h
known-offer_all (e ∷ es) n w h = known-offer_all es n (offer e w) (known-offer e n w h)

All-known :
    (es : List LineageEdge) (w : Walk)
    → All (λ (e : LineageEdge). is_known e.parent (offer_all es w) ≡ true) es
All-known [] w = tt
All-known (e ∷ es) w =
    (known-offer_all es e.parent (offer e w) (known-offered e w), All-known es (offer e w))

-- A collected edge, by its key.
abbrev pub is_collected : Node → Node → List LineageEdge → Bool
is_collected child parent es = any (same_edge child parent) es

collected-put_edge_self :
    (e : LineageEdge) (fs : List LineageEdge) → is_collected e.child e.parent (put_edge e fs) ≡ true
collected-put_edge_self e [] = ground (arith, node_eq_self e.child, node_eq_self e.parent)
collected-put_edge_self e (f ∷ fs) =
    ground (arith, node_eq_self e.child, node_eq_self e.parent, collected-put_edge_self e fs)

collected-put_edge :
    (c p : Node) (e : LineageEdge) (fs : List LineageEdge)
    → is_collected c p fs ≡ true
    → is_collected c p (put_edge e fs) ≡ true
collected-put_edge c p e [] h = cc
collected-put_edge c p e (f ∷ fs) h = elim (Bool-cases (same_edge e.child e.parent f)) [
  | inl same ↦ rw same (ground arith)
  | inr other ↦ rw other (ground (arith, collected-put_edge c p e fs))
]

collected-offer_all :
    (es : List LineageEdge) (c p : Node) (w : Walk)
    → is_collected c p w.collected_edges ≡ true
    → is_collected c p (offer_all es w).collected_edges ≡ true
collected-offer_all [] c p w h = h
collected-offer_all (e ∷ es) c p w h =
    collected-offer_all es c p (offer e w) (collected-put_edge c p e w.collected_edges h)

All-collected :
    (es : List LineageEdge) (w : Walk)
    → All
        (λ (e : LineageEdge). is_collected e.child e.parent (offer_all es w).collected_edges ≡ true)
        es
All-collected [] w = tt
All-collected (e ∷ es) w = (
  collected-offer_all es e.child e.parent (offer e w) (collected-put_edge_self e w.collected_edges),
  All-collected es (offer e w),
)

-- The root is known, the edges of every visited node are collected, and their parents are known.
pub record IsClosed (edges : List LineageEdge) (root : Node) (w : Walk) : Type 0 where
  pub from_root : is_known root w ≡ true
  pub closed :
      All
        (λ (e : LineageEdge).
          has_node e.child w.visited ≡ true
          → (is_known e.parent w ≡ true) × (is_collected e.child e.parent w.collected_edges ≡ true))
        edges

known-popped :
    (n : Node) (q : Queued) (rest : List Queued) (w : Walk)
    → w.queue ≡ q ∷ rest
    → has_node q.node w.visited ≡ true
    → is_known n w ≡ true
    → is_known n (record w { queue = rest }) ≡ true
known-popped n q rest w e old h =
    let h' : (has_node n w.visited
          || (node_eq n q.node || any (λ (x : Queued). node_eq n x.node) rest))
        ≡ true =
      rw e at h in
    elim (Bool-cases (node_eq n q.node)) [
      | inl same ↦
          let visited : has_node n w.visited ≡ true = rw (node_eq-true n q.node same) old in
          ground arith
      | inr other ↦ ground arith
    ]

known-opened :
    (db : LineageDb) (n : Node) (q : Queued) (rest : List Queued) (w : Walk)
    → w.queue ≡ q ∷ rest
    → is_known n w ≡ true
    → is_known n (opened db q (record w { queue = rest })) ≡ true
known-opened db n q rest w e h =
    let h' : (has_node n w.visited
          || (node_eq n q.node || any (λ (x : Queued). node_eq n x.node) rest))
        ≡ true =
      rw e at h in
    ground arith

pub round-IsClosed :
    (db : LineageDb) (root : Node) (q : Queued) (rest : List Queued) (w : Walk)
    → w.queue ≡ q ∷ rest
    → count_where (of_child q.node) db.edges ≤ 500
    → IsClosed db.edges root w
    → IsClosed db.edges root (round db q rest w)
round-IsClosed db root q rest w e few c = elim (Bool-cases (has_node q.node w.visited)) [
  | inl old ↦ rw old (record {
    from_root = known-popped root q rest w e old c.from_root;
    closed =
        All-map_to _ _ db.edges
          (λ f h k. let both = h k in (known-popped f.parent q rest w e old both.0, both.1))
          c.closed;
  })
  | inr new ↦
      let before = opened db q (record w { queue = rest }) in
      let es = edges_for_child q.node db.edges in
      let offered =
        All-edges_for_child_back _ q.node db.edges few
          (All-pair _ _ es (All-known es before) (All-collected es before)) in
      rw new (record {
        from_root = known-offer_all es root before (known-opened db root q rest w e c.from_root);
        closed =
            All-map_to _ _ db.edges
              (λ f h k. elim (Bool-cases (of_child q.node f)) [
                | inl own ↦ h.1 own
                | inr other ↦
                    let k' : has_node f.child before.visited ≡ true =
                      rw (visited-offer_all es before) at k in
                    let both = h.0 (ground arith) in
                    (
                      known-offer_all es f.parent before
                          (known-opened db f.parent q rest w e both.0),
                      collected-offer_all es f.child f.parent before both.1,
                    )
              ])
              (All-pair _ _ db.edges c.closed offered);
      })
]

pub start-IsClosed : (edges : List LineageEdge) (root : Node) → IsClosed edges root (start root)
start-IsClosed edges root = record {
  from_root = ground (arith, node_eq_self root);
  closed =
      All-map_to (λ e. Memᴰ e edges) _ edges (λ e m unseen. absurd (ground arith)) (All-self edges);
}
