-- ===== src/Graph/Compiler/Rows.antt =====
-- graph/compiler.py: what the rows of a compiled workflow satisfy.
use trail_signal_os.Prelude.{
  ℕ, ◌≤◌, ◌≡◌, refl, Bool, true, false, not, ◌&&◌, ◌||◌, Option, none, some, List, [], ◌∷◌, map,
  inl, inr, Bool-cases, All, All-map_to, arith,
}
use trail_signal_os.Guards.{ok}
use trail_signal_os.Graph.Texts.{Text, codes, text_eq, has_text, text_eq_comm}
use trail_signal_os.Graph.Values.{Value, Fields, get, is_none, as_int}
use trail_signal_os.Graph.Compiler.{
  refuse_if, trip_limit, at_least_one, require_mapping, optional_text, verifier_or, WorkflowNodeRow,
  WorkflowEdgeRow, CompiledNode, catalog_verifier_names, has_no_role, start_node, end_node, row_id,
  require_text, read_loop_budget, validate_verifier_name, schema_ref, compile_node, compile_nodes,
  compile_edge, compile_edges,
}
use trail_signal_os.Graph.Outcomes.{Ensures, returned, bind, Ensures-ok}

abbrev pub IsLimit : Option ℕ → Type 0
IsLimit none = Unit
IsLimit (some n) = 1 ≤ n

-- What the compiler promises of a node.
pub record IsNode (workflow_id : Text) (seen_ids : List Text)
    (both : WorkflowNodeRow × CompiledNode) : Type 0 where
  pub owned : both.0.workflow_id ≡ workflow_id
  pub same : both.0.node_id ≡ both.1.node_id
  pub fresh : has_text both.0.node_id seen_ids ≡ false
  pub has_role : (text_eq both.1.kind (codes "llm") && has_no_role both.1.role) ≡ false
  pub known_verifier : has_text both.1.verifier catalog_verifier_names ≡ true
  pub bounded : 1 ≤ both.1.max_iterations
  pub budgeted : IsLimit both.0.loop_budget

read_loop_budget_pos : (node : Fields) {n : ℕ} → read_loop_budget node ≡ ok n → 1 ≤ n
unfolding read_loop_budget
read_loop_budget_pos node h = ground arith

pub refuse_if-ok : (b : Bool) {u : Unit {0}} → refuse_if b ≡ ok u → b ≡ false
refuse_if-ok true h = cc
refuse_if-ok false h = refl

verifier_known :
    (kind : Text) (v : Value) {name : Option Text}
    → validate_verifier_name kind v ≡ ok name
    → has_text (verifier_or name) catalog_verifier_names ≡ true
unfolding validate_verifier_name
verifier_known kind v {name} h = ground arith

compile_node-IsNode :
    (workflow_id : Text) (seen_ids : List Text) (v : Value)
    → Ensures (IsNode workflow_id seen_ids) (compile_node workflow_id seen_ids v)
unfolding compile_node
compile_node-IsNode workflow_id seen_ids v = bind (require_mapping v) _ (λ node _.
    bind (require_text (get (codes "id") node)) _ (λ node_id _.
      bind (require_text (get (codes "kind") node)) _ (λ kind _.
        bind (refuse_if (has_text node_id seen_ids)) _ (λ _ is_fresh.
          bind (optional_text (get (codes "role") node)) _ (λ role _.
            bind (refuse_if (text_eq kind (codes "llm") && has_no_role role)) _ (λ _ has_role.
              bind (schema_ref node (codes "input_schema")) _ (λ input _.
                bind (schema_ref node (codes "output_schema")) _ (λ output _.
                  bind (validate_verifier_name kind (get (codes "verifier") node)) _
                    (λ verifier is_known. bind (read_loop_budget node) _ (λ budget is_pos.
                      bind (optional_text (get (codes "prompt") node)) _ (λ prompt _.
                        bind (optional_text (get (codes "cassette_kind") node)) _ (λ cassette _.
                          returned (record {
                            owned = refl;
                            same = refl;
                            fresh = refuse_if-ok _ is_fresh;
                            has_role = refuse_if-ok _ has_role;
                            known_verifier = verifier_known kind _ is_known;
                            bounded = read_loop_budget_pos node is_pos;
                            budgeted = read_loop_budget_pos node is_pos;
                          })))))))))))))

-- No two texts of a list are equal.
abbrev pub IsDistinct : List Text → Type 0
IsDistinct [] = Unit
IsDistinct (t ∷ ts) = (has_text t ts ≡ false) × IsDistinct ts

IsNode-weaken :
    (workflow_id id : Text) (seen_ids : List Text) (both : WorkflowNodeRow × CompiledNode)
    → IsNode workflow_id (id ∷ seen_ids) both
    → IsNode workflow_id seen_ids both
IsNode-weaken workflow_id id seen_ids both h = record {
  owned = h.owned;
  same = h.same;
  fresh = ground (arith, h.fresh);
  has_role = h.has_role;
  known_verifier = h.known_verifier;
  bounded = h.bounded;
  budgeted = h.budgeted;
}

unseen_ids :
    (workflow_id id : Text) (seen_ids : List Text) (rows : List (WorkflowNodeRow × CompiledNode))
    → All (IsNode workflow_id (id ∷ seen_ids)) rows
    → has_text id (map row_id rows) ≡ false
unseen_ids workflow_id id seen_ids [] h = refl
unseen_ids workflow_id id seen_ids (b ∷ rows) h =
    ground
      (arith, h.0.fresh, text_eq_comm id b.0.node_id, unseen_ids workflow_id id seen_ids rows h.1)

pub compile_nodes-lem :
    (workflow_id : Text) (seen_ids : List Text) (vs : List Value)
    → Ensures
        (λ rows. All (IsNode workflow_id seen_ids) rows × IsDistinct (map row_id rows))
        (compile_nodes workflow_id seen_ids vs)
unfolding compile_nodes
compile_nodes-lem workflow_id seen_ids [] = returned (tt, tt)
compile_nodes-lem workflow_id seen_ids (v ∷ vs) =
    bind (compile_node workflow_id seen_ids v) _ (λ both e.
      bind (compile_nodes workflow_id (both.0.node_id ∷ seen_ids) vs) _ (λ rows r.
        let head = Ensures-ok (compile_node-IsNode workflow_id seen_ids v) e in
        let tail = Ensures-ok (compile_nodes-lem workflow_id (both.0.node_id ∷ seen_ids) vs) r in
        returned (
          (head, All-map_to _ _ rows (IsNode-weaken workflow_id both.0.node_id seen_ids) tail.0),
          (unseen_ids workflow_id both.0.node_id seen_ids rows tail.0, tail.1),
        )))

-- What the compiler promises of an edge.
pub record IsEdge (workflow_id : Text) (seen_ids : List Text) (edge : WorkflowEdgeRow)
    : Type 0 where
  pub owned : edge.workflow_id ≡ workflow_id
  pub from_known : (has_text edge.from_node seen_ids || text_eq edge.from_node start_node) ≡ true
  pub to_known : (has_text edge.to_node seen_ids || text_eq edge.to_node end_node) ≡ true
  pub limited : IsLimit edge.max_trips

trip_limit-IsLimit : (v : Value) → Ensures IsLimit (trip_limit v)
trip_limit-IsLimit v = elim (Bool-cases (is_none v)) [
  | inl e ↦ rw e (returned tt)
  | inr e ↦ rw e (bind (at_least_one (as_int v)) _ (λ n h. returned (ground (arith, h))))
]

compile_edge-IsEdge :
    (workflow_id : Text) (seen_ids : List Text) (v : Value)
    → Ensures (IsEdge workflow_id seen_ids) (compile_edge workflow_id seen_ids v)
unfolding compile_edge
compile_edge-IsEdge workflow_id seen_ids v = bind (require_mapping v) _ (λ edge _.
    bind (require_text (get (codes "from") edge)) _ (λ from_node _.
      bind (require_text (get (codes "to") edge)) _ (λ to_node _.
        bind (require_text (get (codes "edge_type") edge)) _ (λ edge_type _.
          bind (refuse_if (not (has_text from_node seen_ids) && not (text_eq from_node start_node)))
            _
            (λ _ from_known.
              bind (refuse_if (not (has_text to_node seen_ids) && not (text_eq to_node end_node))) _
                (λ _ to_known. bind (optional_text (get (codes "condition") edge)) _ (λ condition _.
                  bind (trip_limit (get (codes "max_trips") edge)) _ (λ limit is_limit.
                    returned (record {
                      owned = refl;
                      from_known = ground (arith, refuse_if-ok _ from_known);
                      to_known = ground (arith, refuse_if-ok _ to_known);
                      limited =
                          Ensures-ok (trip_limit-IsLimit (get (codes "max_trips") edge)) is_limit;
                    })))))))))

pub compile_edges-lem :
    (workflow_id : Text) (seen_ids : List Text) (vs : List Value)
    → Ensures (All (IsEdge workflow_id seen_ids)) (compile_edges workflow_id seen_ids vs)
unfolding compile_edges
compile_edges-lem workflow_id seen_ids [] = returned tt
compile_edges-lem workflow_id seen_ids (v ∷ vs) =
    bind (compile_edge workflow_id seen_ids v) _ (λ edge e.
      bind (compile_edges workflow_id seen_ids vs) _ (λ edges r. returned (
        Ensures-ok (compile_edge-IsEdge workflow_id seen_ids v) e,
        Ensures-ok (compile_edges-lem workflow_id seen_ids vs) r,
      )))
