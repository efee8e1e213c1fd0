-- ===== src/Tests/Jobs.antt =====
-- A dossier, and a dead letter.
use trail_signal_os.Prelude.{ℕ, ◌+◌, ◌≡◌, refl, true, false, none, some, [], ◌∷◌, arith}
use trail_signal_os.Store.{Task, Db}
use trail_signal_os.Store.Lanes.{Lane}
use trail_signal_os.Store.States.{TaskState}
use trail_signal_os.Guards.{Result, ok, err}
use trail_signal_os.Leases.{acquire_lease, acquired, take_lease}
use trail_signal_os.Leases.Fencing.{update_task_fenced}
use trail_signal_os.Api.DeadLetters.{requeue, requeue_dead_letter}
use trail_signal_os.Api.DeadLetters.Generations.{requeue_reuses_generation}
use trail_signal_os.Api.Jobs.{
  ResearchJob, JobDb, JobKind, dossier, created, discovering, cancel_requested, Settings, Expansion,
  fetch_children, fetch_job, expand_dossier_job, cancel_research_job, resume_research_job,
}
use trail_signal_os.Api.Jobs.Children.{expand-expand}
use trail_signal_os.Api.Jobs.Lifecycle.{resume-cancel}
use trail_signal_os.Tests.Data.{row, db_of}

abbrev dead_row : Task
dead_row = row 1 Lane.http TaskState.dead_letter

abbrev dead_db : Db
dead_db = db_of (dead_row ∷ [])

requeue_reuses_generation_example :
    let (given, held) = acquire_lease 60 1 8 30 (requeue_dead_letter 50 1 true dead_db).1 in
    (given ≡ some (acquired 1 8 (take_lease 60 8 30 (requeue 50 dead_row))))
    × ((take_lease 60 8 30 (requeue 50 dead_row)).lease_generation ≡ 1)
    × ((update_task_fenced 70 1 8 1 TaskState.succeeded none [] held).0 ≡ ok tt)
requeue_reuses_generation_example =
    requeue_reuses_generation 50 1 60 8 30 70 TaskState.succeeded none dead_db (refl, tt) refl refl
      refl (omega arith)

abbrev pub dossier_job : ResearchJob
dossier_job = record {
  job_id = 1;
  parent_job_id = none;
  job_kind = dossier;
  niche_id = some 4;
  constraints_ref = none;
  status = created;
  config_hash = 9;
  budget = 5;
  provenance = record { config_hash = 9; created_at = 10; extra = [] };
  created_at = 10;
  updated_at = 10;
}

abbrev pub job_db : JobDb
job_db = record { jobs = dossier_job ∷ []; edges = [] }

abbrev stable_id_by_suffix : ℕ → JobKind → ℕ → ℕ
stable_id_by_suffix parent kind suffix = 100 + suffix

abbrev settings : Settings
settings = record {
  config_hash = 9;
  default_budget = 6;
  is_empty_budget = λ b. false;
  stable_id = stable_id_by_suffix;
  scoring_suffix = 50;
  decision_suffix = 51;
}

abbrev expanded_or : Expansion × JobDb → Result (Expansion × JobDb) → Expansion × JobDb
expanded_or d (ok x) = x
expanded_or d (err e) = d

abbrev expanded : Expansion × JobDb
expanded =
    expanded_or (record { job_id = 0; expanded = false; children = [] }, job_db)
      (expand_dossier_job settings 20 1 (1 ∷ 2 ∷ []) job_db)

expand-expand_example :
    expand_dossier_job settings 30 1 (3 ∷ []) expanded.1
    ≡ ok (
      record { job_id = 1; expanded = false; children = fetch_children expanded.1 1 },
      expanded.1,
    )
unfolding expand_dossier_job
expand-expand_example =
    expand-expand settings 20 1 30 (1 ∷ 2 ∷ []) (3 ∷ []) job_db expanded.1 expanded.0 refl

resume-cancel_example :
    (cancelled resumed : JobDb) × (cancel_research_job 20 1 job_db ≡ ok cancelled)
    × (fetch_job cancelled 1
        ≡ some (record dossier_job { status = cancel_requested; updated_at = 20 }))
    × (resume_research_job 30 1 cancelled ≡ ok resumed)
    × (fetch_job resumed 1 ≡ some (record dossier_job { status = discovering; updated_at = 30 }))
resume-cancel_example = resume-cancel 20 30 1 job_db {j = dossier_job} refl
