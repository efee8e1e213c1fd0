-- ===== src/Reconciliation/Artifacts/Gaps.antt =====
-- control/reconciliation/artifact_reconciler.py: what is flagged of an artifact.
use trail_signal_os.Prelude.{
  ℕ, ◌≡◌, refl, ◌∙◌, Bool, true, false, not, ◌&&◌, List, [], ◌∷◌, ◌++◌, zero, suc, select, take,
  All, arith,
}
use trail_signal_os.Lineage.Edges.{LineageEdge}
use trail_signal_os.Lineage.Trace.{Artifact, LineageDb}
use trail_signal_os.Reconciliation.Artifacts.{
  InlineRef, has_edge_to, has_edges, has_refs, refs_of, inline_refs, is_gap, is_orphan,
  flag_lineage_gaps,
}

-- Every parent that the artifact names has its edge.
abbrev pub IsLinked : List LineageEdge → Artifact → Type 0
IsLinked edges a = All (λ (p : ℕ). has_edge_to edges a p ≡ true) a.derived_from

select-append :
    (p : InlineRef → Bool) (xs ys : List InlineRef)
    → select p (xs ++ ys) ≡ select p xs ++ select p ys
select-append p [] ys = refl
select-append p (x ∷ xs) ys = ground (arith, select-append p xs ys)

no_refs :
    (edges : List LineageEdge) (a : Artifact) (ps : List ℕ)
    → All (λ (p : ℕ). has_edge_to edges a p ≡ true) ps
    → select (is_gap edges) (refs_of a ps) ≡ []
no_refs edges a [] h = refl
no_refs edges a (p ∷ ps) h = rw h.0 (no_refs edges a ps h.1)

no_inline :
    (edges : List LineageEdge) (artifacts : List Artifact)
    → All (IsLinked edges) artifacts
    → select (is_gap edges) (inline_refs artifacts) ≡ []
no_inline edges [] h = refl
no_inline edges (a ∷ artifacts) h =
    select-append (is_gap edges) (refs_of a a.derived_from) (inline_refs artifacts)
    ∙ (rw (no_refs edges a a.derived_from h.0) (no_inline edges artifacts h.1))

-- An edge to a parent is an edge.
edge_to_edge :
    (edges : List LineageEdge) (a : Artifact) (p : ℕ)
    → has_edge_to edges a p ≡ true
    → has_edges edges a ≡ true
edge_to_edge [] a p h = h
edge_to_edge (e ∷ edges) a p h = ground (arith, h, edge_to_edge edges a p)

linked_refs :
    (edges : List LineageEdge) (a : Artifact) (ps : List ℕ)
    → All (λ (p : ℕ). has_edge_to edges a p ≡ true) ps
    → (has_refs ps && not (has_edges edges a)) ≡ false
linked_refs edges a [] h = refl
linked_refs edges a (p ∷ ps) h = ground (arith, edge_to_edge edges a p, h.0)

no_orphans :
    (edges : List LineageEdge) (artifacts : List Artifact)
    → All (IsLinked edges) artifacts
    → select (is_orphan edges) artifacts ≡ []
no_orphans edges [] h = refl
no_orphans edges (a ∷ artifacts) h =
    rw (linked_refs edges a a.derived_from h.0) (no_orphans edges artifacts h.1)

take_nil {ℓ} : {A : Type ℓ} (n : ℕ) → take {A = A} n [] ≡ []
take_nil zero = refl
take_nil (suc n) = refl

-- Where every parent that an artifact names has its edge, nothing is flagged, neither a reference
-- nor an orphan, at any limit.
pub flag_lineage_gaps_linked :
    (limit : ℕ) (db : LineageDb)
    → All (IsLinked db.edges) db.artifacts
    → flag_lineage_gaps limit db ≡ []
unfolding flag_lineage_gaps
flag_lineage_gaps_linked limit db linked =
    rw (no_inline db.edges db.artifacts linked, no_orphans db.edges db.artifacts linked)
      (rw (take_nil {A = InlineRef} limit, take_nil {A = Artifact} limit) refl)
