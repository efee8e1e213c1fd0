-- ===== src/Api/Jobs/Lifecycle.antt =====
-- control/api/routes_jobs.py: pausing, resuming and cancelling a job.
use trail_signal_os.Prelude.{ℕ, ◌≡◌, ◌≢◌, refl, some, List, [], ◌∷◌, select, update, first, arith}
use trail_signal_os.Guards.{ok}
use trail_signal_os.Api.Jobs.{
  ResearchJob, JobDb, JobStatus, discovering, cancel_requested, has_job_id, fetch_job, set_status,
  set_job_status, resume_research_job, cancel_research_job,
}

find-set_status :
    (id now : ℕ) (st : JobStatus) (jobs : List ResearchJob) {j : ResearchJob}
    → first (select (has_job_id id) jobs) ≡ some j
    → first (
        select (has_job_id id) (
          update
            (has_job_id id)
            (λ (j : ResearchJob). record j { status = st; updated_at = now })
            jobs))
      ≡ some (record j { status = st; updated_at = now })
find-set_status id now st [] {j} e = cc
find-set_status id now st (i ∷ jobs) {j} e =
    ground (arith, e, find-set_status id now st jobs {j = j})

find-set_status_ne :
    (k id now : ℕ) (st : JobStatus) (jobs : List ResearchJob)
    → k ≢ id
    → first (
        select (has_job_id k) (
          update
            (has_job_id id)
            (λ (j : ResearchJob). record j { status = st; updated_at = now })
            jobs))
      ≡ first (select (has_job_id k) jobs)
find-set_status_ne k id now st [] ne = refl
find-set_status_ne k id now st (i ∷ jobs) ne =
    ground (arith, ne, find-set_status_ne k id now st jobs ne)

-- A job that exists gets the status, whatever its status was, and no other job changes.
pub set_job_status_lem :
    (now id : ℕ) (st : JobStatus) (db : JobDb) {j : ResearchJob}
    → fetch_job db id ≡ some j
    → (after : JobDb) × (set_job_status now st id db ≡ ok after)
      × (fetch_job after id ≡ some (record j { status = st; updated_at = now }))
      × ((k : ℕ) → k ≢ id → fetch_job after k ≡ fetch_job db k)
unfolding set_job_status
set_job_status_lem now id st db {j} e = (
  set_status now st id db,
  rw e refl,
  find-set_status id now st db.jobs {j = j} e,
  λ k ne. find-set_status_ne k id now st db.jobs ne,
)

-- A job that exists and is cancelled can be resumed at once: it is then DISCOVERING as if it had
-- never been cancelled.
pub resume-cancel :
    (now later id : ℕ) (db : JobDb) {j : ResearchJob}
    → fetch_job db id ≡ some j
    → (cancelled resumed : JobDb) × (cancel_research_job now id db ≡ ok cancelled)
      × (fetch_job cancelled id ≡ some (record j { status = cancel_requested; updated_at = now }))
      × (resume_research_job later id cancelled ≡ ok resumed)
      × (fetch_job resumed id ≡ some (record j { status = discovering; updated_at = later }))
unfolding cancel_research_job resume_research_job
resume-cancel now later id db {j} e =
    let (c, cancels, found, _) = set_job_status_lem now id cancel_requested db {j = j} e in
    let (r, resumes, found', _) =
      set_job_status_lem later id discovering c
        {j = record j { status = cancel_requested; updated_at = now }} found in
    (c, r, cancels, found, resumes, found')
