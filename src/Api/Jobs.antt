-- ===== src/Api/Jobs.antt =====
-- control/api/routes_jobs.py: the jobs, their children and their status. An exception rolls the
-- transaction back, so that a failed call has no database. The job identifier that SHA-256 makes
-- of a parent, a kind and a suffix is the argument `stable_id`.
pub mod Children
pub mod Lifecycle
use trail_signal_os.Prelude.{
  ℕ, Bool, true, false, not, ◌&&◌, ◌||◌, Option, none, some, is_eq, is_null, List, [], ◌∷◌, ◌++◌,
  ◌==◌, if◌then◌else◌, any, select, update, first, sort, ltb, leb,
}
use trail_signal_os.Guards.{
  Result, ok, err, ◌>>=◌, ◌>>◌, http_error, integrity_error, unique_violation,
}
use trail_signal_os.Lineage.Edges.{Kind, other_kind, Node, LineageEdge, write_lineage_edge}

pub data JobKind : Type 0 where
  dossier collection scoring validation decision : JobKind

pub data JobStatus : Type 0 where
  created planning discovering acquiring extracting indexing synthesizing completed : JobStatus
  paused cancel_requested cancelled failed completed_with_gaps : JobStatus

-- The extra entries of a provenance.
pub data Extra : Type 0 where
  source_class pain_point_id opportunity_id : ℕ → Extra

pub record JobProvenance : Type 0 where
  pub config_hash : ℕ
  pub created_at : ℕ
  pub extra : List Extra

pub record ResearchJob : Type 0 where
  pub job_id : ℕ
  pub parent_job_id : Option ℕ
  pub job_kind : JobKind
  pub niche_id : Option ℕ
  pub constraints_ref : Option ℕ
  pub status : JobStatus
  pub config_hash : ℕ
  pub budget : ℕ
  pub provenance : JobProvenance
  pub created_at : ℕ
  pub updated_at : ℕ

pub record JobDb : Type 0 where
  pub jobs : List ResearchJob
  pub edges : List LineageEdge

abbrev pub has_job_id : ℕ → ResearchJob → Bool
has_job_id id j = j.job_id == id

abbrev pub fetch_job : JobDb → ℕ → Option ResearchJob
fetch_job db id = first (select (has_job_id id) db.jobs)

-- `ORDER BY created_at, job_id`
abbrev pub child_order : ResearchJob → ResearchJob → Bool
child_order i j =
    ltb i.created_at j.created_at || (i.created_at == j.created_at && leb i.job_id j.job_id)

abbrev pub is_child_of : ℕ → ResearchJob → Bool
is_child_of id j = is_eq j.parent_job_id id

unfoldable pub fetch_children : JobDb → ℕ → List ResearchJob
fetch_children db id = sort child_order (select (is_child_of id) db.jobs)

-- The kind "job" of lineage, and the relation "spawned_from".
abbrev pub job_node : ℕ → Node
job_node id = record { kind = other_kind 0; id = id }

abbrev pub spawned_from : ℕ
spawned_from = 0

abbrev pub link_parent : ℕ → ResearchJob → List LineageEdge → List LineageEdge
link_parent now j edges = elim j.parent_job_id [
  | none ↦ edges
  | some p ↦ (write_lineage_edge now (job_node j.job_id) (job_node p) spawned_from none edges).1
]

-- The foreign key of `parent_job_id`.
abbrev pub has_parent : JobDb → ResearchJob → Bool
has_parent db j = elim j.parent_job_id [ none ↦ true | some p ↦ any (has_job_id p) db.jobs ]

-- The row is written with the status CREATED, and its times are those of the transaction.
unfoldable pub insert_research_job : ℕ → ResearchJob → JobDb → Result JobDb
insert_research_job now j db =
    if any (has_job_id j.job_id) db.jobs
    then err unique_violation
    else if not (has_parent db j)
    then err integrity_error
    else ok (record { jobs = db.jobs ++ j ∷ []; edges = link_parent now j db.edges })

-- What the program reads besides the database: the hash of the configuration, the time, the default
-- budget (an empty one counts as missing) and the stable identifiers.
pub record Settings : Type 0 where
  pub config_hash : ℕ
  pub default_budget : ℕ
  pub is_empty_budget : ℕ → Bool
  pub stable_id : ℕ → JobKind → ℕ → ℕ
  pub scoring_suffix : ℕ
  pub decision_suffix : ℕ

abbrev pub budget_of : Settings → ResearchJob → ℕ
budget_of s j = if s.is_empty_budget j.budget then s.default_budget else j.budget

abbrev pub child_job : Settings → ℕ → ResearchJob → JobKind → ℕ → List Extra → ResearchJob
child_job s now parent kind suffix extra = record {
  job_id = s.stable_id parent.job_id kind suffix;
  parent_job_id = some parent.job_id;
  job_kind = kind;
  niche_id = parent.niche_id;
  constraints_ref = parent.constraints_ref;
  status = created;
  config_hash = s.config_hash;
  budget = budget_of s parent;
  provenance = record { config_hash = s.config_hash; created_at = now; extra = extra };
  created_at = now;
  updated_at = now;
}

-- The jobs of an expansion, in the order of their insertion.
abbrev pub collection_jobs : Settings → ℕ → ResearchJob → List ℕ → List ResearchJob
collection_jobs s now parent [] = []
collection_jobs s now parent (c ∷ cs) =
    child_job s now parent collection c (source_class c ∷ []) ∷ collection_jobs s now parent cs

abbrev pub expansion_jobs : Settings → ℕ → ResearchJob → List ℕ → List ResearchJob
expansion_jobs s now parent source_classes =
    collection_jobs s now parent source_classes
    ++ (child_job s now parent scoring s.scoring_suffix []
        ∷ child_job s now parent decision s.decision_suffix []
        ∷ [])

unfoldable pub insert_jobs : ℕ → List ResearchJob → JobDb → Result JobDb
unfolding insert_research_job
insert_jobs now [] db = ok db
insert_jobs now (j ∷ js) db = do larger ← insert_research_job now j db; insert_jobs now js larger

abbrev pub set_status : ℕ → JobStatus → ℕ → JobDb → JobDb
set_status now status_value id db = record db {
  jobs =
      update (has_job_id id)
        (λ (j : ResearchJob). record j { status = status_value; updated_at = now }) db.jobs;
}

pub record Expansion : Type 0 where
  pub job_id : ℕ
  pub expanded : Bool
  pub children : List ResearchJob

abbrev pub is_dossier : JobKind → Bool
is_dossier dossier = true
is_dossier _ = false

abbrev pub is_nil : List ResearchJob → Bool
is_nil [] = true
is_nil (j ∷ js) = false

abbrev pub expand_row :
    Settings → ℕ → ℕ → List ℕ → JobDb → Option ResearchJob → Result (Expansion × JobDb)
expand_row s now id source_classes db none = err (http_error 404)
expand_row s now id source_classes db (some parent) =
    if not (is_dossier parent.job_kind)
    then err (http_error 409)
    else if not (is_nil (fetch_children db id))
    then ok (record { job_id = id; expanded = false; children = fetch_children db id }, db)
    else do
      let children = expansion_jobs s now parent source_classes
      larger ← insert_jobs now children db
      ok (
        record { job_id = id; expanded = true; children = children },
        set_status now planning id larger,
      )

unfoldable pub expand_dossier_job : Settings → ℕ → ℕ → List ℕ → JobDb → Result (Expansion × JobDb)
unfolding fetch_children insert_jobs
expand_dossier_job s now id source_classes db =
    expand_row s now id source_classes db (fetch_job db id)

-- `_set_job_status`, and the three routes that call it.
abbrev pub set_job_row : ℕ → JobStatus → ℕ → JobDb → Option ResearchJob → Result JobDb
set_job_row now status_value id db none = err (http_error 404)
set_job_row now status_value id db (some j) = ok (set_status now status_value id db)

unfoldable pub set_job_status : ℕ → JobStatus → ℕ → JobDb → Result JobDb
set_job_status now status_value id db = set_job_row now status_value id db (fetch_job db id)

unfoldable pub pause_research_job : ℕ → ℕ → JobDb → Result JobDb
unfolding set_job_status
pause_research_job now id db = set_job_status now paused id db

unfoldable pub resume_research_job : ℕ → ℕ → JobDb → Result JobDb
unfolding set_job_status
resume_research_job now id db = set_job_status now discovering id db

unfoldable pub cancel_research_job : ℕ → ℕ → JobDb → Result JobDb
unfolding set_job_status
cancel_research_job now id db = set_job_status now cancel_requested id db
