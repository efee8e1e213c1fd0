-- ===== src/Graph/Compiler/WellFormed.antt =====
-- graph/compiler.py: what a compiled workflow satisfies.
use mathlib.Core.Path.{subst}
use trail_signal_os.Prelude.{
  ◌≤◌, ◌≡◌, refl, ◌∙◌, Bool, true, false, ◌&&◌, ◌||◌, Option, List, [], ◌∷◌, ◌++◌, map, any, inl,
  inr, Bool-cases, All, All-map_to, All-append, All-self, All-pair, Memᴰ, arith,
}
use trail_signal_os.Guards.{ok}
use trail_signal_os.Graph.Texts.{Text, codes, text_eq, has_text, text_eq-true, text_eq_self}
use trail_signal_os.Graph.Values.{Value, mapping, seq, end, nil, or_else, get}
use trail_signal_os.Graph.Compiler.{
  require_list, is_nil, refuse_if, require_mapping, WorkflowNodeRow, WorkflowEdgeRow, CompiledNode,
  CompiledWorkflow, catalog_verifier_names, has_no_role, start_node, end_node, row_id, pseudo_node,
  is_referenced, require_text, compile_nodes, compile_edges, compile_document,
  compile_workflow_yaml, as_compile_error, parsed,
}
use trail_signal_os.Graph.Guard8.{guard8_validate_workflow}
use trail_signal_os.Graph.Outcomes.{Ensures, returned, bind, Ensures-ok}
use trail_signal_os.Graph.Compiler.Rows.{
  IsNode, IsLimit, IsDistinct, compile_nodes-lem, compile_edges-lem,
}

-- A node row with an identifier.
abbrev pub has_row : Text → List WorkflowNodeRow → Bool
has_row id rows = any (λ (r : WorkflowNodeRow). text_eq id r.node_id) rows

-- What a compiled workflow promises to its readers: the persistence, and the executor.
pub record IsWellFormed (w : CompiledWorkflow) : Type 0 where
  pub distinct : IsDistinct (map (λ (n : CompiledNode). n.node_id) w.runtime_nodes)
  pub runnable :
      All
        (λ (n : CompiledNode).
          ((text_eq n.kind (codes "llm") && has_no_role n.role) ≡ false)
          × (has_text n.verifier catalog_verifier_names ≡ true)
          × (1 ≤ n.max_iterations))
        w.runtime_nodes
  pub owned :
      All
        (λ (r : WorkflowNodeRow).
          (r.workflow_id ≡ w.definition.workflow_id) × IsLimit r.loop_budget)
        w.nodes
  pub joined :
      All
        (λ (e : WorkflowEdgeRow).
          (e.workflow_id ≡ w.definition.workflow_id)
          × (has_row e.from_node w.nodes ≡ true)
          × (has_row e.to_node w.nodes ≡ true)
          × IsLimit e.max_trips)
        w.edges

any-append :
    (p : WorkflowNodeRow → Bool) (xs ys : List WorkflowNodeRow)
    → any p (xs ++ ys) ≡ (any p xs || any p ys)
any-append p [] ys = refl
any-append p (x ∷ xs) ys = ground (arith, any-append p xs ys)

has_row-map :
    (id : Text) (rows : List (WorkflowNodeRow × CompiledNode))
    → has_row id (map (λ (b : WorkflowNodeRow × CompiledNode). b.0) rows)
      ≡ has_text id (map row_id rows)
has_row-map id [] = refl
has_row-map id (b ∷ rows) = ground (arith, has_row-map id rows)

-- The nodes of a workflow, as the compiler puts them together.
abbrev node_rows :
    Text → List (WorkflowNodeRow × CompiledNode) → List WorkflowEdgeRow → List WorkflowNodeRow
node_rows workflow_id rows edges =
    map (λ (both : WorkflowNodeRow × CompiledNode). both.0) rows
    ++ (pseudo_node workflow_id start_node (codes "entry") edges
        ++ pseudo_node workflow_id end_node (codes "exit") edges)

has_pseudo :
    (workflow_id id kind : Text) (edges : List WorkflowEdgeRow)
    → is_referenced id edges ≡ true
    → has_row id (pseudo_node workflow_id id kind edges) ≡ true
has_pseudo workflow_id id kind edges h = rw h (ground (arith, text_eq_self id))

pseudo_owned :
    (workflow_id id kind : Text) (edges : List WorkflowEdgeRow)
    → All
        (λ (r : WorkflowNodeRow). (r.workflow_id ≡ workflow_id) × IsLimit r.loop_budget)
        (pseudo_node workflow_id id kind edges)
pseudo_owned workflow_id id kind edges = elim (Bool-cases (is_referenced id edges)) [
  | inl e ↦ rw e ((refl, tt), tt)
  | inr e ↦ rw e tt
]

has_row-node_rows :
    (workflow_id id : Text) (rows : List (WorkflowNodeRow × CompiledNode))
    (edges : List WorkflowEdgeRow)
    → has_row id (node_rows workflow_id rows edges) ≡ (
        has_text id (map row_id rows)
        || (has_row id (pseudo_node workflow_id start_node (codes "entry") edges)
            || has_row id (pseudo_node workflow_id end_node (codes "exit") edges)))
has_row-node_rows workflow_id id rows edges =
    let is_id = λ (r : WorkflowNodeRow). text_eq id r.node_id in
    let entry = pseudo_node workflow_id start_node (codes "entry") edges in
    let exit = pseudo_node workflow_id end_node (codes "exit") edges in
    rw
      (
        any-append is_id (map (λ (b : WorkflowNodeRow × CompiledNode). b.0) rows) (entry ++ exit),
        any-append is_id entry exit,
        has_row-map id rows,
      )
      refl

pub any-Memᴰ :
    (p : WorkflowEdgeRow → Bool) {e : WorkflowEdgeRow} {edges : List WorkflowEdgeRow}
    → Memᴰ e edges
    → p e ≡ true
    → any p edges ≡ true
any-Memᴰ p {edges = e ∷ es} (Memᴰ.head same) h =
    let first : p e ≡ true = rw (← same) h in ground arith
any-Memᴰ p (Memᴰ.tail m) h = ground (arith, any-Memᴰ p m h)

has_pseudo_named :
    (workflow_id id name kind : Text) (edges : List WorkflowEdgeRow)
    → text_eq name id ≡ true
    → is_referenced name edges ≡ true
    → has_row name (pseudo_node workflow_id id kind edges) ≡ true
has_pseudo_named workflow_id id name kind edges h r =
    subst (λ i. has_row name (pseudo_node workflow_id i kind edges) ≡ true) (text_eq-true name id h)
      (has_pseudo workflow_id name kind edges r)

module _ (workflow_id : Text) (rows : List (WorkflowNodeRow × CompiledNode))
    (edges : List WorkflowEdgeRow) (e : WorkflowEdgeRow) (m : Memᴰ e edges) where
  from_row :
      (has_text e.from_node (map row_id rows) || text_eq e.from_node start_node) ≡ true
      → has_row e.from_node (node_rows workflow_id rows edges) ≡ true
  from_row h =
      let referenced =
        any-Memᴰ
          (λ (f : WorkflowEdgeRow).
            text_eq e.from_node f.from_node || text_eq e.from_node f.to_node)
          m (ground (arith, text_eq_self e.from_node)) in
      elim (Bool-cases (text_eq e.from_node start_node)) [
        | inl is_start ↦
            let entry =
              has_pseudo_named workflow_id start_node e.from_node (codes "entry") edges is_start
                referenced in
            has_row-node_rows workflow_id e.from_node rows edges ∙ ground arith
        | inr plain ↦ has_row-node_rows workflow_id e.from_node rows edges ∙ ground arith
      ]

  to_row :
      (has_text e.to_node (map row_id rows) || text_eq e.to_node end_node) ≡ true
      → has_row e.to_node (node_rows workflow_id rows edges) ≡ true
  to_row h =
      let referenced =
        any-Memᴰ
          (λ (f : WorkflowEdgeRow). text_eq e.to_node f.from_node || text_eq e.to_node f.to_node) m
          (ground (arith, text_eq_self e.to_node)) in
      elim (Bool-cases (text_eq e.to_node end_node)) [
        | inl is_end ↦
            let exit =
              has_pseudo_named workflow_id end_node e.to_node (codes "exit") edges is_end
                referenced in
            has_row-node_rows workflow_id e.to_node rows edges ∙ ground arith
        | inr plain ↦ has_row-node_rows workflow_id e.to_node rows edges ∙ ground arith
      ]

All-map {κ} :
    {A : Type 0} {B : Type 0} (P : B → Type κ) (f : A → B) (xs : List A)
    → All (λ x. P (f x)) xs
    → All P (map f xs)
All-map P f [] h = tt
All-map P f (x ∷ xs) h = (h.0, All-map P f xs h.1)

runtime_ids :
    (workflow_id : Text) (rows : List (WorkflowNodeRow × CompiledNode))
    → All (IsNode workflow_id []) rows
    → map (λ (n : CompiledNode). n.node_id) (map (λ (b : WorkflowNodeRow × CompiledNode). b.1) rows)
      ≡ map row_id rows
runtime_ids workflow_id [] h = refl
runtime_ids workflow_id (b ∷ rows) h = rw (h.0.same, runtime_ids workflow_id rows h.1) refl

compile_document-IsWellFormed :
    (yaml_hash : Text → Text) (source : Text) (payload : Value)
    → Ensures IsWellFormed (compile_document yaml_hash source payload)
unfolding compile_document
compile_document-IsWellFormed yaml_hash source payload =
    bind (require_mapping payload) _ (λ document _.
      bind (require_mapping (or_else (get (codes "workflow") document) (mapping end))) _ (λ meta _.
        bind (require_text (get (codes "id") meta)) _ (λ workflow_id _.
          bind (require_text (get (codes "name") meta)) _ (λ name _.
            bind (require_text (get (codes "version") meta)) _ (λ version _.
              bind (require_list (or_else (get (codes "nodes") document) (seq nil))) _
                (λ raw_nodes _. bind (refuse_if (is_nil raw_nodes)) _ (λ _ _.
                  bind (require_list (or_else (get (codes "edges") document) (seq nil))) _
                    (λ raw_edges _.
                      bind (as_compile_error (guard8_validate_workflow raw_nodes raw_edges)) _
                        (λ _ _. bind (compile_nodes workflow_id [] raw_nodes) _ (λ rows nodes_ok.
                          bind (compile_edges workflow_id (map row_id rows) raw_edges) _
                            (λ edges edges_ok.
                              let nodes =
                                Ensures-ok (compile_nodes-lem workflow_id [] raw_nodes) nodes_ok in
                              let joins =
                                Ensures-ok
                                  (compile_edges-lem workflow_id (map row_id rows) raw_edges)
                                  edges_ok in
                              returned (record {
                                distinct = rw (runtime_ids workflow_id rows nodes.0) nodes.1;
                                runnable = All-map _ _ rows (
                                    All-map_to _ _ rows
                                      (λ b h. (h.has_role, h.known_verifier, h.bounded)) nodes.0);
                                owned =
                                    All-append _ _ _
                                      (All-map _ _ rows (
                                        All-map_to _ _ rows (λ b h. (h.owned, h.budgeted)) nodes.0))
                                      (All-append _ _ _
                                        (pseudo_owned workflow_id start_node (codes "entry") edges)
                                        (pseudo_owned workflow_id end_node (codes "exit") edges));
                                joined =
                                    All-map_to _ _ edges
                                      (λ e h. (
                                        h.0.owned,
                                        from_row workflow_id rows edges e h.1 h.0.from_known,
                                        to_row workflow_id rows edges e h.1 h.0.to_known,
                                        h.0.limited,
                                      ))
                                      (All-pair _ _ edges joins (All-self edges));
                              }))))))))))))

-- Whatever the parser makes of a source, a workflow that compiles is well formed: its node ids are
-- distinct, an llm node has a role, every verifier is in the catalog, every loop budget and every
-- trip limit is at least 1, every edge joins two nodes that have a row, and all rows belong to it.
pub compile_workflow_yaml-IsWellFormed :
    (safe_load : Text → Option Value) (yaml_hash : Text → Text) (source : Text)
    (w : CompiledWorkflow)
    → compile_workflow_yaml safe_load yaml_hash source ≡ ok w
    → IsWellFormed w
unfolding compile_workflow_yaml
compile_workflow_yaml-IsWellFormed safe_load yaml_hash source w h =
    Ensures-ok {P = IsWellFormed}
      (bind (parsed (safe_load source)) _
        (λ payload _. compile_document-IsWellFormed yaml_hash source payload))
      h
