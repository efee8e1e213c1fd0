-- ===== src/Lineage/Diff/Ancestry.antt =====
-- lineage/diff.py: the comparison of two nodes beside their ancestors.
use mathlib.Core.Path.{subst}
use trail_signal_os.Prelude.{
  ◌≤◌, ◌≡◌, refl, sym, ap, ◌∙◌, Bool, true, not, ◌&&◌, inl, inr, Bool-cases, some, List, [], ◌∷◌,
  any-map, select, count_where, ◌↔◌, arith,
}
use trail_signal_os.Lineage.Edges.{Node, node_eq}
use trail_signal_os.Lineage.Edges.Laws.{of_child, node_eq-true}
use trail_signal_os.Lineage.Trace.{LineageDb, TraceNode, TraceResult, has_node, trace_ancestors}
use trail_signal_os.Lineage.Trace.Ancestors.{IsAncestor}
use trail_signal_os.Lineage.Trace.Refines.{
  is_listed, trace_ancestors_sound, trace_ancestors_complete,
}
use trail_signal_os.Lineage.Diff.{
  LineageDiff, node_keys, nodes_without, nodes_with, diff_of, diff_lineage,
}

-- The trace of a node lists exactly its ancestors.
traced :
    (db : LineageDb) (root : Node)
    → ((n : Node) → count_where (of_child n) db.edges ≤ 500)
    → (r : TraceResult) × (trace_ancestors db root ≡ some r)
      × ((n : Node) → has_node n (node_keys r) ≡ true → IsAncestor db.edges root n)
      × ((n : Node) → IsAncestor db.edges root n → has_node n (node_keys r) ≡ true)
traced db root few =
    let (r, run, sound, _) = trace_ancestors_sound db root in
    let (s, run', complete, _, _, _) = trace_ancestors_complete db root few in
    let same : s ≡ r = ground (arith, run, run') in
    (
      r,
      run,
      (λ n h. sound n (sym (any-map (node_eq n) (λ (t : TraceNode). t.node) r.nodes) ∙ h)),
      (λ n a.
          any-map (node_eq n) (λ (t : TraceNode). t.node) r.nodes
          ∙ subst (λ (t : TraceResult). is_listed n t.nodes ≡ true) same (complete n a)),
    )

has_node-select :
    (p : Node → Bool) (n : Node) (ns : List Node)
    → has_node n (select p ns) ≡ (has_node n ns && p n)
has_node-select p n [] = refl
has_node-select p n (m ∷ ns) = elim (Bool-cases (node_eq n m)) [
  | inl same ↦
      let eq : p m ≡ p n = ap p (sym (node_eq-true n m same)) in
      ground (arith, same, eq, has_node-select p n ns)
  | inr other ↦ ground (arith, other, has_node-select p n ns)
]

module _ (n : Node) (ls rs : List Node) {A B : Type 0} (left_of : has_node n ls ≡ true → A)
    (of_left : A → has_node n ls ≡ true) (right_of : has_node n rs ≡ true → B)
    (of_right : B → has_node n rs ≡ true) where
  without_iff : (has_node n (nodes_without rs ls) ≡ true) ↔ (A × (¬ B))
  without_iff =
      let split = has_node-select (λ (m : Node). not (has_node m rs)) n ls in
      (
        (λ h. (
          left_of (ground (arith, split)),
          λ b. absurd (let there = of_right b in ground (arith, split)),
        )),
        (λ both. elim (Bool-cases (has_node n rs)) [
          | inl there ↦ absurd (both.1 (right_of there))
          | inr away ↦ split ∙ (let here = of_left both.0 in ground arith)
        ]),
      )

  with_iff : (has_node n (nodes_with rs ls) ≡ true) ↔ (A × B)
  with_iff =
      let split = has_node-select (λ (m : Node). has_node m rs) n ls in
      (
        (λ h. (left_of (ground (arith, split)), right_of (ground (arith, split)))),
        (λ both.
            split ∙ (let here = of_left both.0 in let there = of_right both.1 in ground arith)),
      )

-- Where no node has more than 500 parents, the comparison of two nodes ends with a result. Its nodes
-- only of the left are exactly the ancestors of the left node that are not ancestors of the right
-- one, its nodes only of the right the other way round, and its shared nodes the common ancestors.
pub diff_lineage_lem :
    (db : LineageDb) (left right : Node)
    → ((n : Node) → count_where (of_child n) db.edges ≤ 500)
    → (d : LineageDiff) × (diff_lineage db left right ≡ some d)
      × ((n : Node)
          → ((has_node n d.nodes_only_left ≡ true)
              ↔ (IsAncestor db.edges left n × (¬ IsAncestor db.edges right n)))
            × ((has_node n d.nodes_only_right ≡ true)
                ↔ (IsAncestor db.edges right n × (¬ IsAncestor db.edges left n)))
            × ((has_node n d.shared_nodes ≡ true)
                ↔ (IsAncestor db.edges left n × IsAncestor db.edges right n)))
unfolding diff_lineage
diff_lineage_lem db left right few =
    let (l, run, sound, complete) = traced db left few in
    let (r, run', sound', complete') = traced db right few in
    (
      diff_of left right l r,
      rw (run, run') refl,
      λ n. (
        without_iff n (node_keys l) (node_keys r) (sound n) (complete n) (sound' n) (complete' n),
        without_iff n (node_keys r) (node_keys l) (sound' n) (complete' n) (sound n) (complete n),
        with_iff n (node_keys l) (node_keys r) (sound n) (complete n) (sound' n) (complete' n),
      ),
    )
