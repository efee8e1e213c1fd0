-- ===== src/Graph/Persist/Replace.antt =====
-- graph/compiler.py, `persist_compiled_workflow`, of a workflow that the tables hold already.
use trail_signal_os.Prelude.{◌≡◌, refl, true, ◌&&◌, ◌||◌, any, inl, inr, Bool-cases, Memᴰ, arith}
use trail_signal_os.Guards.{err, integrity_error}
use trail_signal_os.Graph.Compiler.{WorkflowEdgeRow, CompiledWorkflow}
use trail_signal_os.Graph.Compiler.WellFormed.{any-Memᴰ}
use trail_signal_os.Graph.Persist.{
  GraphDb, def_of, edge_of, takes_name, has_node, persist_compiled_workflow,
}

-- While the tables hold an edge of the workflow, from a node that has its row, no version of the
-- workflow can be persisted: the nodes are deleted before the edges that refer to them.
pub persist_replace_fails :
    (db : GraphDb) (w : CompiledWorkflow) (e : WorkflowEdgeRow)
    → Memᴰ e db.workflow_edges
    → edge_of w.definition.workflow_id e ≡ true
    → has_node db.workflow_nodes w.definition.workflow_id e.from_node ≡ true
    → persist_compiled_workflow db w ≡ err integrity_error
unfolding persist_compiled_workflow
persist_replace_fails db w e m own joined =
    let id = w.definition.workflow_id in
    let refers = λ (f : WorkflowEdgeRow).
      edge_of id f
      && (has_node db.workflow_nodes id f.from_node || has_node db.workflow_nodes id f.to_node) in
    let blocked : any refers db.workflow_edges ≡ true = any-Memᴰ refers m (ground arith) in
    elim (Bool-cases (any (takes_name w.definition) db.workflow_defs)) [
      | inl taken ↦ rw taken refl
      | inr free ↦ elim (Bool-cases (any (def_of id) db.workflow_defs)) [
        | inl old ↦ rw (free, old, blocked) refl
        | inr new ↦ rw (free, new, blocked) refl
      ]
    ]
