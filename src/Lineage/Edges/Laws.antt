-- ===== src/Lineage/Edges/Laws.antt =====
-- lineage/edges.py: the comparison of nodes, the writes to the table of edges and the reads.
use mathlib.Core.Path.{subst, fun_ext}
use trail_signal_os.Prelude.{
  ℕ, ◌+◌, ◌≤◌, ◌≡◌, refl, sym, ap, ◌∙◌, Bool, true, false, ◌&&◌, ◌||◌, inl, inr, Option, some, none,
  List, [], ◌∷◌, ◌++◌, Memᴰ, any, select, sort, take, if◌then◌else◌, count_where, length,
  length-take-le-length, length-sort, length-select, All, All-select, All-sort, All-take,
  All-select_test, All-pair, All-self, All-select_back, All-sort_back, take_all, Bool-cases, arith,
}
use trail_signal_os.Lineage.Edges.{
  Kind, query_spec, task, versioned, other_kind, kind_code, Node, node_eq, LineageEdge, same_edge,
  insert_lineage_edge_idempotent, edge_order, edges_for_child, kind_is, id_is,
}

kind_code_inj : (a b : Kind) → kind_code a ≡ kind_code b → a ≡ b
kind_code_inj query_spec query_spec h = refl
kind_code_inj query_spec task h = absurd (omega arith)
kind_code_inj query_spec (versioned n) h = absurd (omega arith)
kind_code_inj query_spec (other_kind n) h = absurd (omega arith)
kind_code_inj task query_spec h = absurd (omega arith)
kind_code_inj task task h = refl
kind_code_inj task (versioned n) h = absurd (omega arith)
kind_code_inj task (other_kind n) h = absurd (omega arith)
kind_code_inj (versioned m) query_spec h = absurd (omega arith)
kind_code_inj (versioned m) task h = absurd (omega arith)
kind_code_inj (versioned m) (versioned n) h = ap versioned (omega arith)
kind_code_inj (versioned m) (other_kind n) h = absurd (omega arith)
kind_code_inj (other_kind m) query_spec h = absurd (omega arith)
kind_code_inj (other_kind m) task h = absurd (omega arith)
kind_code_inj (other_kind m) (versioned n) h = absurd (omega arith)
kind_code_inj (other_kind m) (other_kind n) h = ap other_kind (omega arith)

pub node_eq-true : (a b : Node) → node_eq a b ≡ true → a ≡ b
node_eq-true a b h =
    let kinds = kind_code_inj a.kind b.kind (ground arith) in
    let ids : a.id ≡ b.id = ground arith in cc

pub node_eq_self : (a : Node) → node_eq a a ≡ true
node_eq_self a = ground arith

-- The edges of a node that the table holds.
abbrev pub of_child : Node → LineageEdge → Bool
of_child n e = node_eq e.child n

of_child_test :
    (n : Node) (e : LineageEdge)
    → ((kind_is (some n.kind) e.child.kind && id_is (some n.id) e.child.id)
        && (kind_is none e.parent.kind && id_is none e.parent.id))
      ≡ of_child n e
of_child_test n e = ground arith

pub edges_for_child_lem :
    (n : Node) (edges : List LineageEdge)
    → edges_for_child n edges ≡ take 500 (sort edge_order (select (of_child n) edges))
unfolding edges_for_child
edges_for_child_lem n edges =
    ap (λ p. take 500 (sort edge_order (select p edges))) (fun_ext (of_child_test n))

pub length-edges_for_child :
    (n : Node) (edges : List LineageEdge)
    → length (edges_for_child n edges) ≤ count_where (of_child n) edges
length-edges_for_child n edges = omega (
  arith,
  ap length (edges_for_child_lem n edges),
  length-take-le-length 500 (sort edge_order (select (of_child n) edges)),
  length-sort edge_order (select (of_child n) edges),
  length-select (of_child n) edges,
)

-- A read of a node's edges: each is in the table and belongs to the node.
pub All-edges_for_child :
    (n : Node) (edges : List LineageEdge)
    → All (λ e. Memᴰ e edges × (of_child n e ≡ true)) (edges_for_child n edges)
All-edges_for_child n edges =
    subst (All (λ e. Memᴰ e edges × (of_child n e ≡ true))) (sym (edges_for_child_lem n edges)) (
      All-take _ 500 _ (
        All-sort _ edge_order _ (
          All-pair _ _ _ (All-select _ (of_child n) edges (All-self edges))
            (All-select_test (of_child n) edges))))

-- Unless a node has more edges than a read returns, a read returns them all.
pub All-edges_for_child_back {κ} :
    (P : LineageEdge → Type κ) (n : Node) (edges : List LineageEdge)
    → count_where (of_child n) edges ≤ 500
    → All P (edges_for_child n edges)
    → All (λ e. of_child n e ≡ true → P e) edges
All-edges_for_child_back P n edges few h =
    let whole = take_all 500 (sort edge_order (select (of_child n) edges)) (
      omega (
        arith,
        length-sort edge_order (select (of_child n) edges),
        length-select (of_child n) edges,
      )) in
    All-select_back P (of_child n) edges
      (All-sort_back P edge_order _ (subst (All P) (edges_for_child_lem n edges ∙ whole) h))

any-append_last :
    (q : LineageEdge → Bool) (xs : List LineageEdge) (x : LineageEdge)
    → any q (xs ++ x ∷ []) ≡ (any q xs || q x)
any-append_last q [] x = ground arith
any-append_last q (y ∷ ys) x = ground (arith, any-append_last q ys x)

count_where-append_last :
    (q : LineageEdge → Bool) (xs : List LineageEdge) (x : LineageEdge)
    → count_where q (xs ++ x ∷ []) ≡ count_where q xs + (if q x then 1 else 0)
count_where-append_last q [] x = ground arith
count_where-append_last q (y ∷ ys) x = ground (arith, count_where-append_last q ys x)

count_where-any :
    (q : LineageEdge → Bool) (xs : List LineageEdge) → any q xs ≡ false → count_where q xs ≡ 0
count_where-any q [] h = refl
count_where-any q (x ∷ xs) h = ground (arith, count_where-any q xs)

same_edge_self :
    (child parent : Node) (e : LineageEdge)
    → e.child ≡ child
    → e.parent ≡ parent
    → same_edge child parent e ≡ true
same_edge_self child parent e h k = rw (h, k) (ground arith)

-- The primary key of the table.
abbrev pub IsUnique : List LineageEdge → Type 0
IsUnique edges = (child parent : Node) → count_where (same_edge child parent) edges ≤ 1

module _ (now : ℕ) (child parent : Node) (relation : ℕ) (tag : Option ℕ)
    (edges : List LineageEdge) where
  abbrev new_row : LineageEdge
  new_row = record {
    child = child;
    parent = parent;
    relation = relation;
    version_tag = tag;
    created_at = now;
  }

  pub insert_present :
      any
        (same_edge child parent)
        (insert_lineage_edge_idempotent now child parent relation tag edges).1
      ≡ true
  unfolding insert_lineage_edge_idempotent
  insert_present = elim (Bool-cases (any (same_edge child parent) edges)) [
    | inl old ↦ rw old old
    | inr new ↦ rw new (
        ground (
          arith,
          any-append_last (same_edge child parent) edges new_row,
          same_edge_self child parent new_row refl refl,
        ))
  ]

  count_other :
      (c p : Node)
      → count_where
          (same_edge c p)
          (insert_lineage_edge_idempotent now child parent relation tag edges).1
        ≤ count_where (same_edge c p) edges
          + (if same_edge c p new_row
              then (if any (same_edge child parent) edges then 0 else 1)
              else 0)
  unfolding insert_lineage_edge_idempotent
  count_other c p = elim (Bool-cases (any (same_edge child parent) edges)) [
    | inl old ↦ rw old (omega arith)
    | inr new ↦ rw new (ground (arith, count_where-append_last (same_edge c p) edges new_row))
  ]

  -- A second write of the same edge, at whatever time and with whatever relation and tag, inserts
  -- nothing and says so.
  pub insert-insert :
      (later relation' : ℕ) (tag' : Option ℕ)
      → let once = (insert_lineage_edge_idempotent now child parent relation tag edges).1 in
        insert_lineage_edge_idempotent later child parent relation' tag' once ≡ (false, once)
  unfolding insert_lineage_edge_idempotent
  insert-insert later relation' tag' = rw insert_present refl

  -- Writes keep the primary key: no two rows have the same child and parent.
  pub insert-IsUnique :
      IsUnique edges
      → IsUnique (insert_lineage_edge_idempotent now child parent relation tag edges).1
  insert-IsUnique unique c p = elim (Bool-cases (same_edge c p new_row)) [
    | inl same ↦
        let cs = node_eq-true c child (ground arith) in
        let ps = node_eq-true p parent (ground arith) in
        let zero_rows : any (same_edge child parent) edges ≡ false
            → count_where (same_edge c p) edges ≡ 0 =
          λ new. rw (cs, ps) (count_where-any (same_edge child parent) edges new) in
        elim (Bool-cases (any (same_edge child parent) edges)) [
          | inl old ↦ ground (arith, count_other c p, unique c p)
          | inr new ↦ ground (arith, count_other c p, zero_rows new)
        ]
    | inr other ↦ ground (arith, count_other c p, unique c p)
  ]
