-- ===== src/Graph/Persist/RoundTrip.antt =====
-- graph/compiler.py, `persist_compiled_workflow`: what a reader of the tables finds.
use trail_signal_os.Prelude.{
  ℕ, ◌≡◌, refl, sym, ap, ◌∙◌, Bool, true, false, not, ◌&&◌, ◌||◌, Option, none, some, List, [], ◌∷◌,
  ◌++◌, any, select, update, first, inl, inr, Bool-cases, All, All-map_to, All-select_test, arith,
}
use trail_signal_os.Guards.{ok}
use trail_signal_os.Graph.Texts.{Text, text_eq, text_eq-true, text_eq_self, text_eq_comm}
use trail_signal_os.Graph.Compiler.{
  WorkflowDefRow, WorkflowNodeRow, WorkflowEdgeRow, CompiledWorkflow,
}
use trail_signal_os.Graph.Compiler.Rows.{IsLimit}
use trail_signal_os.Graph.Compiler.WellFormed.{IsWellFormed, has_row}
use trail_signal_os.Graph.Persist.{
  GraphDb, def_of, node_of, edge_of, takes_name, upsert_def, same_node_key, same_edge_key, is_limit,
  check_node_row, has_node, check_edge_row, delete_edges, persist_compiled_workflow,
  read_definition, read_nodes, read_edges,
}
use trail_signal_os.Graph.Persist.Inserts.{IsKeyed, insert_rows_lem}

-- The rows of one owner after those of the others are kept and its own are added.
module _ {A : Type 0} (owner : A → Text) where
  abbrev of : Text → A → Bool
  of id a = text_eq (owner a) id

  select_own :
      (id : Text) (rows : List A) → All (λ a. owner a ≡ id) rows → select (of id) rows ≡ rows
  select_own id [] h = refl
  select_own id (a ∷ rows) h =
      let own : of id a ≡ true = ground (arith, h.0, text_eq_self id) in
      rw own (ap (λ l. a ∷ l) (select_own id rows h.1))

  select_replaced :
      (id : Text) (table rows : List A)
      → All (λ a. owner a ≡ id) rows
      → select (of id) (select (λ a. not (of id a)) table ++ rows) ≡ rows
  select_replaced id [] rows h = select_own id rows h
  select_replaced id (a ∷ table) rows h = elim (Bool-cases (of id a)) [
    | inl own ↦ rw own (select_replaced id table rows h)
    | inr other ↦ rw (other, other) (select_replaced id table rows h)
  ]

  select_none :
      (id j : Text) (rows : List A)
      → text_eq j id ≡ false
      → All (λ a. owner a ≡ id) rows
      → select (of j) rows ≡ []
  select_none id j [] ne h = refl
  select_none id j (a ∷ rows) ne h =
      let other : of j a ≡ false = ground (arith, h.0, text_eq_comm id j) in
      rw other (select_none id j rows ne h.1)

  select_others :
      (id j : Text) (table rows : List A)
      → text_eq j id ≡ false
      → All (λ a. owner a ≡ id) rows
      → select (of j) (select (λ a. not (of id a)) table ++ rows) ≡ select (of j) table
  select_others id j [] rows ne h = select_none id j rows ne h
  select_others id j (a ∷ table) rows ne h = elim (Bool-cases (of id a)) [
    | inl own ↦
        let other : of j a ≡ false =
          ground (arith, text_eq-true (owner a) id own, text_eq_comm id j) in
        rw (own, other) (select_others id j table rows ne h)
    | inr kept ↦ elim (Bool-cases (of j a)) [
      | inl here ↦ rw (kept, here) (ap (λ l. a ∷ l) (select_others id j table rows ne h))
      | inr away ↦ rw (kept, away) (select_others id j table rows ne h)
    ]
  ]

any-All : {A : Type 0} (p : A → Bool) (xs : List A) → All (λ x. p x ≡ false) xs → any p xs ≡ false
any-All p [] h = refl
any-All p (x ∷ xs) h = ground (arith, h.0, any-All p xs h.1)

any-and :
    {A : Type 0} (p q : A → Bool) (xs : List A)
    → any p xs ≡ false
    → any (λ x. p x && q x) xs ≡ false
any-and p q [] h = refl
any-and p q (x ∷ xs) h = ground (arith, any-and p q xs)

has_node-append :
    (id n : Text) (kept rows : List WorkflowNodeRow)
    → All (λ (r : WorkflowNodeRow). (r.workflow_id ≡ id) × IsLimit r.loop_budget) rows
    → has_row n rows ≡ true
    → has_node (kept ++ rows) id n ≡ true
has_node-append id n (k ∷ kept) rows owned h =
    ground (arith, has_node-append id n kept rows owned h)
has_node-append id n [] (r ∷ rows) owned h = elim (Bool-cases (text_eq n r.node_id)) [
  | inl here ↦ ground (arith, owned.0.0, text_eq_self id)
  | inr later ↦ ground (arith, has_node-append id n [] rows owned.1)
]
has_node-append id n [] [] owned h = cc

IsLimit-is_limit : (o : Option ℕ) → IsLimit o → is_limit o ≡ true
IsLimit-is_limit none h = refl
IsLimit-is_limit (some n) h = ground arith

-- The row of a definition after its upsert.
find-update :
    (d : WorkflowDefRow) (defs : List WorkflowDefRow)
    → any (def_of d.workflow_id) defs ≡ true
    → first (
        select (def_of d.workflow_id) (
          update
            (def_of d.workflow_id)
            (λ (row : WorkflowDefRow). record row {
              name = d.name;
              version = d.version;
              graph_yaml_hash = d.graph_yaml_hash;
            })
            defs))
      ≡ some d
find-update d [] h = cc
find-update d (row ∷ defs) h = elim (Bool-cases (def_of d.workflow_id row)) [
  | inl own ↦
      rw (own, own)
        (let same = text_eq-true row.workflow_id d.workflow_id own in ground (arith, same))
  | inr other ↦ rw (other, other) (find-update d defs (ground arith))
]

find-append :
    (d : WorkflowDefRow) (defs : List WorkflowDefRow)
    → any (def_of d.workflow_id) defs ≡ false
    → first (select (def_of d.workflow_id) (defs ++ d ∷ [])) ≡ some d
find-append d [] h = rw (text_eq_self d.workflow_id) refl
find-append d (row ∷ defs) h = elim (Bool-cases (def_of d.workflow_id row)) [
  | inl own ↦ absurd (ground arith)
  | inr other ↦ rw other (find-append d defs (ground arith))
]

upsert_lem :
    (d : WorkflowDefRow) (defs : List WorkflowDefRow)
    → any (takes_name d) defs ≡ false
    → (after : List WorkflowDefRow) × (upsert_def d defs ≡ ok after)
      × (first (select (def_of d.workflow_id) after) ≡ some d)
upsert_lem d defs free = elim (Bool-cases (any (def_of d.workflow_id) defs)) [
  | inl old ↦ (_, rw (free, old) refl, find-update d defs old)
  | inr new ↦ (_, rw (free, new) refl, find-append d defs new)
]

-- The rows of other definitions after an upsert.
update_others :
    (d : WorkflowDefRow) (j : Text) (defs : List WorkflowDefRow)
    → text_eq j d.workflow_id ≡ false
    → select (def_of j) (
        update
          (def_of d.workflow_id)
          (λ (row : WorkflowDefRow). record row {
            name = d.name;
            version = d.version;
            graph_yaml_hash = d.graph_yaml_hash;
          })
          defs)
      ≡ select (def_of j) defs
update_others d j [] ne = refl
update_others d j (row ∷ defs) ne = elim (Bool-cases (def_of d.workflow_id row)) [
  | inl own ↦
      let other : def_of j row ≡ false =
        ground
          (arith, text_eq-true row.workflow_id d.workflow_id own, text_eq_comm d.workflow_id j) in
      rw (own, other) (update_others d j defs ne)
  | inr kept ↦ elim (Bool-cases (def_of j row)) [
    | inl here ↦ rw (kept, here) (ap (λ l. row ∷ l) (update_others d j defs ne))
    | inr away ↦ rw (kept, away) (update_others d j defs ne)
  ]
]

append_others :
    (d : WorkflowDefRow) (j : Text) (defs : List WorkflowDefRow)
    → text_eq j d.workflow_id ≡ false
    → select (def_of j) (defs ++ d ∷ []) ≡ select (def_of j) defs
append_others d j [] ne =
    let other : def_of j d ≡ false = ground (arith, text_eq_comm d.workflow_id j) in rw other refl
append_others d j (row ∷ defs) ne = elim (Bool-cases (def_of j row)) [
  | inl here ↦ rw here (ap (λ l. row ∷ l) (append_others d j defs ne))
  | inr away ↦ rw away (append_others d j defs ne)
]

ok_injective : {A : Type 0} {a b : A} → ok a ≡ ok b → a ≡ b
ok_injective e = cc

upsert_others :
    (d : WorkflowDefRow) (j : Text) (defs after : List WorkflowDefRow)
    → text_eq j d.workflow_id ≡ false
    → upsert_def d defs ≡ ok after
    → select (def_of j) after ≡ select (def_of j) defs
upsert_others d j defs after ne e = elim (Bool-cases (any (takes_name d) defs)) [
  | inl taken ↦ let e' = rw taken at e in cc
  | inr free ↦ elim (Bool-cases (any (def_of d.workflow_id) defs)) [
    | inl old ↦
        let e' = rw (free, old) at e in
        ap (select (def_of j)) (sym (ok_injective e')) ∙ update_others d j defs ne
    | inr new ↦
        let e' = rw (free, new) at e in
        ap (select (def_of j)) (sym (ok_injective e')) ∙ append_others d j defs ne
  ]
]

module _ (db : GraphDb) (w : CompiledWorkflow) (well : IsWellFormed w)
    (name_free : any (takes_name w.definition) db.workflow_defs ≡ false)
    (unused : any (edge_of w.definition.workflow_id) db.workflow_edges ≡ false)
    (nodes_keyed : IsKeyed same_node_key w.nodes)
    (edges_keyed : IsKeyed same_edge_key w.edges) where
  abbrev id : Text
  id = w.definition.workflow_id

  abbrev kept_nodes : List WorkflowNodeRow
  kept_nodes = select (λ (n : WorkflowNodeRow). not (node_of id n)) db.workflow_nodes

  abbrev kept_edges : List WorkflowEdgeRow
  kept_edges = delete_edges id db.workflow_edges

  fresh_nodes :
      All (λ n. (any (same_node_key n) kept_nodes ≡ false) × (check_node_row n ≡ true)) w.nodes
  fresh_nodes =
      All-map_to _ _ w.nodes
        (λ n h. (
          any-All (same_node_key n) kept_nodes (
              All-map_to _ _ kept_nodes
                (λ m k. ground (arith, h.0, k, text_eq_comm n.workflow_id m.workflow_id))
                (All-select_test (λ (m : WorkflowNodeRow). not (node_of id m)) db.workflow_nodes)),
          IsLimit-is_limit n.loop_budget h.1,
        ))
        well.owned

  fresh_edges :
      All
        (λ e.
          (any (same_edge_key e) kept_edges ≡ false)
          × (check_edge_row (kept_nodes ++ w.nodes) e ≡ true))
        w.edges
  fresh_edges =
      All-map_to _ _ w.edges
        (λ e h. (
          any-All (same_edge_key e) kept_edges (
              All-map_to _ _ kept_edges
                (λ f k. ground (arith, h.0, k, text_eq_comm e.workflow_id f.workflow_id))
                (All-select_test (λ (f : WorkflowEdgeRow). not (edge_of id f)) db.workflow_edges)),
          rw h.0 (
              ground (
                arith,
                IsLimit-is_limit e.max_trips h.3,
                has_node-append id e.from_node kept_nodes w.nodes well.owned h.1,
                has_node-append id e.to_node kept_nodes w.nodes well.owned h.2,
              )),
        ))
        well.joined

  -- A well-formed workflow that the tables hold no edges of, with distinct keys and a free name, is
  -- persisted, and a reader finds its definition, nodes and edges as compiled, in their order. The
  -- definition, the nodes and the edges of every other workflow are as before.
  pub persist-read :
      (after : GraphDb) × (persist_compiled_workflow db w ≡ ok after)
      × (read_definition id after ≡ some w.definition)
      × (read_nodes id after ≡ w.nodes)
      × (read_edges id after ≡ w.edges)
      × ((j : Text)
          → text_eq j id ≡ false
          → (read_definition j after ≡ read_definition j db)
            × (read_nodes j after ≡ read_nodes j db)
            × (read_edges j after ≡ read_edges j db))
  unfolding persist_compiled_workflow
  persist-read =
      let (defs, upserted, found) = upsert_lem w.definition db.workflow_defs name_free in
      let own_nodes =
        All-map_to _ (λ (n : WorkflowNodeRow). n.workflow_id ≡ id) w.nodes (λ n h. h.0)
          well.owned in
      let own_edges =
        All-map_to _ (λ (e : WorkflowEdgeRow). e.workflow_id ≡ id) w.edges (λ e h. h.0)
          well.joined in
      (
        record {
          workflow_defs = defs;
          workflow_nodes = kept_nodes ++ w.nodes;
          workflow_edges = kept_edges ++ w.edges;
        },
        rw
            (
              upserted,
              any-and (edge_of id)
                  (λ (e : WorkflowEdgeRow).
                    has_node db.workflow_nodes id e.from_node
                    || has_node db.workflow_nodes id e.to_node)
                  db.workflow_edges unused,
              insert_rows_lem same_node_key check_node_row w.nodes kept_nodes nodes_keyed
                  fresh_nodes,
              insert_rows_lem same_edge_key (check_edge_row (kept_nodes ++ w.nodes)) w.edges
                  kept_edges edges_keyed fresh_edges,
            )
            refl,
        found,
        select_replaced (λ (n : WorkflowNodeRow). n.workflow_id) id db.workflow_nodes w.nodes
            own_nodes,
        select_replaced (λ (e : WorkflowEdgeRow). e.workflow_id) id db.workflow_edges w.edges
            own_edges,
        (λ j ne. (
          ap first (upsert_others w.definition j db.workflow_defs defs ne upserted),
          select_others (λ (n : WorkflowNodeRow). n.workflow_id) id j db.workflow_nodes w.nodes ne
              own_nodes,
          select_others (λ (e : WorkflowEdgeRow). e.workflow_id) id j db.workflow_edges w.edges ne
              own_edges,
        )),
      )
