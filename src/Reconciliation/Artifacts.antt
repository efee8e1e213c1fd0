-- ===== src/Reconciliation/Artifacts.antt =====
-- control/reconciliation/artifact_reconciler.py. `derived_from` is the JSON array of the parents'
-- identifiers.
pub mod Gaps
use trail_signal_os.Prelude.{
  ℕ, Bool, true, false, not, ◌&&◌, ◌||◌, Option, none, some, List, [], ◌∷◌, ◌++◌, ◌==◌, any, select,
  sort, take, map, leb, ltb, if◌then◌else◌,
}
use trail_signal_os.Lineage.Edges.{Kind, kind_code, LineageEdge}
use trail_signal_os.Lineage.Trace.{Artifact, LineageDb}

pub data LineageIssue : Type 0 where
  inline_ref_without_edge orphan_artifact_no_edges : LineageIssue

-- `parent_id` is missing where the source writes the empty text.
pub record LineageGap : Type 0 where
  pub artifact_id : ℕ
  pub artifact_kind : Kind
  pub parent_id : Option ℕ
  pub issue : LineageIssue

-- The artifact is the child of the edge.
abbrev pub is_edge_of : Artifact → LineageEdge → Bool
is_edge_of a e = kind_code e.child.kind == kind_code a.artifact_kind && e.child.id == a.artifact_id

abbrev pub has_edge_to : List LineageEdge → Artifact → ℕ → Bool
has_edge_to edges a parent =
    any (λ (e : LineageEdge). is_edge_of a e && e.parent.id == parent) edges

abbrev pub has_edges : List LineageEdge → Artifact → Bool
has_edges edges a = any (is_edge_of a) edges

-- A row of the lateral join.
pub record InlineRef : Type 0 where
  pub artifact : Artifact
  pub parent : ℕ

abbrev pub refs_of : Artifact → List ℕ → List InlineRef
refs_of a [] = []
refs_of a (p ∷ ps) = record { artifact = a; parent = p } ∷ refs_of a ps

abbrev pub inline_refs : List Artifact → List InlineRef
inline_refs [] = []
inline_refs (a ∷ artifacts) = refs_of a a.derived_from ++ inline_refs artifacts

-- `ORDER BY a.created_at DESC, a.artifact_id`, and then by the reference.
abbrev pub is_newer : Artifact → Artifact → Bool
is_newer a b =
    ltb b.created_at a.created_at
    || (a.created_at == b.created_at && ltb a.artifact_id b.artifact_id)

abbrev pub is_beside : Artifact → Artifact → Bool
is_beside a b = a.created_at == b.created_at && a.artifact_id == b.artifact_id

abbrev pub ref_order : InlineRef → InlineRef → Bool
ref_order r s =
    is_newer r.artifact s.artifact || (is_beside r.artifact s.artifact && leb r.parent s.parent)

abbrev pub orphan_order : Artifact → Artifact → Bool
orphan_order a b = is_newer a b || is_beside a b

abbrev pub has_refs : List ℕ → Bool
has_refs [] = false
has_refs (p ∷ ps) = true

abbrev pub inline_gap : InlineRef → LineageGap
inline_gap r = record {
  artifact_id = r.artifact.artifact_id;
  artifact_kind = r.artifact.artifact_kind;
  parent_id = some r.parent;
  issue = inline_ref_without_edge;
}

abbrev pub orphan_gap : Artifact → LineageGap
orphan_gap a = record {
  artifact_id = a.artifact_id;
  artifact_kind = a.artifact_kind;
  parent_id = none;
  issue = orphan_artifact_no_edges;
}

abbrev pub is_gap : List LineageEdge → InlineRef → Bool
is_gap edges r = not (has_edge_to edges r.artifact r.parent)

abbrev pub is_orphan : List LineageEdge → Artifact → Bool
is_orphan edges a = has_refs a.derived_from && not (has_edges edges a)

unfoldable pub flag_lineage_gaps : ℕ → LineageDb → List LineageGap
flag_lineage_gaps limit db =
    map inline_gap
      (take limit (sort ref_order (select (is_gap db.edges) (inline_refs db.artifacts))))
    ++ map orphan_gap (take limit (sort orphan_order (select (is_orphan db.edges) db.artifacts)))
