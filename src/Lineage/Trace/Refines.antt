-- ===== src/Lineage/Trace/Refines.antt =====
-- lineage/trace.py: the trace of a node beside the graph that the table of edges describes.
use mathlib.Core.Path.{subst}
use trail_signal_os.Prelude.{
  ℕ, ◌≤◌, ◌≡◌, refl, sym, ap, ◌∙◌, Bool, true, false, ◌&&◌, ◌||◌, inl, inr, some, List, [], ◌∷◌,
  ◌++◌, Memᴰ, ◌==◌, ==→eq, any, any-sort, any-select, select, count_where, All, All-sort, All-Memᴰ,
  All-pair, All-select, All-select_test, All-self, All-map_to, Bool-cases, arith,
}
use trail_signal_os.Lineage.Edges.{query_spec, Node, node_eq, LineageEdge, edges_for_child}
use trail_signal_os.Lineage.Edges.Laws.{of_child, node_eq-true}
use trail_signal_os.Lineage.Trace.{
  LineageDb, QuerySpec, Queued, Walk, has_node, has_spec, offer, offer_all, opened, round,
  TraceNode, TraceResult, node_order, key_order, spec_order, result_of, trace_ancestors,
}
use trail_signal_os.Lineage.Trace.Walks.{visited-offer_all}
use trail_signal_os.Lineage.Trace.Ends.{trace_ancestors_keeps}
use trail_signal_os.Lineage.Trace.Ancestors.{IsAncestor, here, up, IsSound, round-IsSound}
use trail_signal_os.Lineage.Trace.Complete.{IsClosed, start-IsClosed, is_collected, round-IsClosed}

abbrev pub is_listed : Node → List TraceNode → Bool
is_listed n ts = any (λ (t : TraceNode). node_eq n t.node) ts

-- The trace holds the entry of exactly the visited nodes.
abbrev IsListed : Walk → Type 0
IsListed w = (n : Node) → is_listed n w.nodes ≡ has_node n w.visited

nodes-offer_all : (es : List LineageEdge) (w : Walk) → (offer_all es w).nodes ≡ w.nodes
nodes-offer_all [] w = refl
nodes-offer_all (e ∷ es) w = nodes-offer_all es (offer e w)

listed-append_last :
    (n : Node) (ts : List TraceNode) (t : TraceNode)
    → is_listed n (ts ++ t ∷ []) ≡ (node_eq n t.node || is_listed n ts)
listed-append_last n [] t = ground arith
listed-append_last n (s ∷ ts) t = ground (arith, listed-append_last n ts t)

round-IsListed :
    (db : LineageDb) (q : Queued) (rest : List Queued) (w : Walk)
    → IsListed w
    → IsListed (round db q rest w)
round-IsListed db q rest w h n = elim (Bool-cases (has_node q.node w.visited)) [
  | inl old ↦ rw old (h n)
  | inr new ↦
      let before = opened db q (record w { queue = rest }) in
      let es = edges_for_child q.node db.edges in
      rw (new, nodes-offer_all es before, visited-offer_all es before)
        (listed-append_last n w.nodes _ ∙ ap (λ b. node_eq n q.node || b) (h n))
]

has_node-Memᴰ :
    (P : Node → Type 0) (n : Node) (ns : List Node) → All P ns → has_node n ns ≡ true → P n
has_node-Memᴰ P n [] h k = cc
has_node-Memᴰ P n (m ∷ ns) h k = elim (Bool-cases (node_eq n m)) [
  | inl same ↦ subst P (sym (node_eq-true n m same)) h.0
  | inr other ↦ has_node-Memᴰ P n ns h.1 (ground arith)
]

-- When nothing is queued, a closed walk has visited every ancestor.
visited_ancestor :
    (edges : List LineageEdge) (root n : Node) (w : Walk)
    → w.queue ≡ []
    → IsClosed edges root w
    → IsAncestor edges root n
    → has_node n w.visited ≡ true
visited_ancestor edges root n w e c here =
    let k : (has_node root w.visited || false) ≡ true = rw e at c.from_root in ground arith
visited_ancestor edges root n w e c (up {n = m} f a here_f of_m to_n) =
    let before : has_node f.child w.visited ≡ true =
      rw of_m (visited_ancestor edges root m w e c a) in
    let k : (has_node f.parent w.visited || false) ≡ true =
      rw e at (All-Memᴰ _ c.closed here_f before).0 in
    rw (← to_n) (ground arith)

listed_spec :
    (f : ℕ → Bool) (i : ℕ) (qs : List QuerySpec)
    → any (λ (s : QuerySpec). s.query_spec_id == i && f s.query_spec_id) qs
      ≡ (any (λ (s : QuerySpec). s.query_spec_id == i) qs && f i)
listed_spec f i [] = refl
listed_spec f i (s ∷ qs) = elim (Bool-cases (s.query_spec_id == i)) [
  | inl same ↦
      let here : f s.query_spec_id ≡ f i = ap f (==→eq s.query_spec_id i same) in
      rw (same, here) (ground (arith, listed_spec f i qs))
  | inr other ↦ rw other (listed_spec f i qs)
]

leaf_lem :
    (db : LineageDb) (root : Node) (w : Walk) (i : ℕ)
    → has_node (record { kind = query_spec; id = i }) w.visited ≡ true
    → any (λ (s : QuerySpec). s.query_spec_id == i) (result_of db root w).query_spec_leaves
      ≡ has_spec db i
leaf_lem db root w i h =
    let visited = λ (j : ℕ). has_node (record { kind = query_spec; id = j }) w.visited in
    let is_i = λ (s : QuerySpec). s.query_spec_id == i in
    let is_visited = λ (s : QuerySpec). visited s.query_spec_id in
    any-sort is_i spec_order (select is_visited db.query_specs)
    ∙ (any-select is_i is_visited db.query_specs
        ∙ (listed_spec visited i db.query_specs ∙ ground (arith, h)))

leaves-IsAncestor :
    (db : LineageDb) (root : Node) (w : Walk)
    → All (IsAncestor db.edges root) w.visited
    → All
        (λ (s : QuerySpec).
          Memᴰ s db.query_specs
          × IsAncestor db.edges root (record { kind = query_spec; id = s.query_spec_id }))
        (result_of db root w).query_spec_leaves
leaves-IsAncestor db root w seen =
    let is_visited =
      λ (s : QuerySpec). has_node (record { kind = query_spec; id = s.query_spec_id }) w.visited in
    let chosen = select is_visited db.query_specs in
    All-sort _ spec_order chosen (
      All-pair _ _ chosen (All-select _ is_visited db.query_specs (All-self db.query_specs)) (
        All-map_to _ _ chosen
          (λ s visited.
            has_node-Memᴰ (IsAncestor db.edges root)
              (record { kind = query_spec; id = s.query_spec_id }) w.visited seen visited)
          (All-select_test is_visited db.query_specs)))

module _ (db : LineageDb) (root : Node) where
  -- A trace ends with a result on every graph, cycles included. Every node it lists is an ancestor of
  -- the root, and every edge it lists is in the table and leaves an ancestor of the root.
  pub trace_ancestors_sound :
      (r : TraceResult) × (trace_ancestors db root ≡ some r)
      × ((n : Node) → is_listed n r.nodes ≡ true → IsAncestor db.edges root n)
      × All (λ (e : LineageEdge). Memᴰ e db.edges × IsAncestor db.edges root e.child) r.edges
  trace_ancestors_sound =
      let (w, run, done, (sound, listed)) =
        trace_ancestors_keeps (λ w. IsSound db.edges root w × IsListed w) db root
          (λ q rest w e h. (round-IsSound db root q rest w e h.0, round-IsListed db q rest w h.1))
          (record { seen = tt; waiting = (here, tt); walked = tt }, λ n. refl) in
      (
        result_of db root w,
        run,
        (λ n h.
            has_node-Memᴰ (IsAncestor db.edges root) n w.visited sound.seen
              (sym (listed n) ∙ (sym (any-sort _ node_order w.nodes) ∙ h))),
        All-sort _ key_order w.collected_edges sound.walked,
      )

  -- Where no node has more than 500 parents, the trace lists every ancestor, every edge from an
  -- ancestor, and as its leaves rows of query specs: only of ancestors, and one of each ancestor that
  -- has a row.
  pub trace_ancestors_complete :
      ((n : Node) → count_where (of_child n) db.edges ≤ 500)
      → (r : TraceResult) × (trace_ancestors db root ≡ some r)
        × ((n : Node) → IsAncestor db.edges root n → is_listed n r.nodes ≡ true)
        × ((e : LineageEdge)
            → Memᴰ e db.edges
            → IsAncestor db.edges root e.child
            → is_collected e.child e.parent r.edges ≡ true)
        × ((i : ℕ)
            → IsAncestor db.edges root (record { kind = query_spec; id = i })
            → any (λ (s : QuerySpec). s.query_spec_id == i) r.query_spec_leaves ≡ has_spec db i)
        × All
            (λ (s : QuerySpec).
              Memᴰ s db.query_specs
              × IsAncestor db.edges root (record { kind = query_spec; id = s.query_spec_id }))
            r.query_spec_leaves
  trace_ancestors_complete few =
      let (w, run, done, (closed, sound, listed)) =
        trace_ancestors_keeps (λ w. IsClosed db.edges root w × IsSound db.edges root w × IsListed w)
          db root
          (λ q rest w e h. (
            round-IsClosed db root q rest w e (few q.node) h.0,
            round-IsSound db root q rest w e h.1,
            round-IsListed db q rest w h.2,
          ))
          (
            start-IsClosed db.edges root,
            record { seen = tt; waiting = (here, tt); walked = tt },
            λ n. refl,
          ) in
      let reached = λ (n : Node) (a : IsAncestor db.edges root n).
        visited_ancestor db.edges root n w done closed a in
      (
        result_of db root w,
        run,
        (λ n a. any-sort _ node_order w.nodes ∙ (listed n ∙ reached n a)),
        (λ e m a.
            any-sort _ key_order w.collected_edges
            ∙ (All-Memᴰ _ closed.closed m (reached e.child a)).1),
        (λ i a. leaf_lem db root w i (reached (record { kind = query_spec; id = i }) a)),
        leaves-IsAncestor db root w sound.seen,
      )
