-- ===== src/Reconciliation/Counters.antt =====
-- control/reconciliation/counter_reconciler.py
pub mod Flags
use trail_signal_os.Prelude.{
  ℕ, Bool, true, false, not, ◌&&◌, List, ◌++◌, ◌==◌, any, select, sort, take, map, leb,
}
use trail_signal_os.Store.{Task}
use trail_signal_os.Store.States.{TaskState, is_terminal}
use trail_signal_os.Api.Jobs.{
  ResearchJob, JobStatus, completed, cancelled, failed, completed_with_gaps, paused,
  cancel_requested,
}

-- `TERMINAL_JOB_STATUSES`
abbrev pub is_terminal_status : JobStatus → Bool
is_terminal_status completed = true
is_terminal_status cancelled = true
is_terminal_status failed = true
is_terminal_status completed_with_gaps = true
is_terminal_status _ = false

-- The statuses of the second query: neither terminal, nor paused or asked to cancel.
abbrev pub is_active_status : JobStatus → Bool
is_active_status paused = false
is_active_status cancel_requested = false
is_active_status s = not (is_terminal_status s)

-- `t.state IN ('READY', 'LEASED', 'RUNNING', 'RETRY_WAIT', 'PENDING')`
abbrev pub is_active_state : TaskState → Bool
is_active_state TaskState.ready = true
is_active_state TaskState.leased = true
is_active_state TaskState.running = true
is_active_state TaskState.retry_wait = true
is_active_state TaskState.pending = true
is_active_state _ = false

abbrev pub has_active_task : List Task → ResearchJob → Bool
has_active_task tasks j = any (λ (t : Task). t.job_id == j.job_id && is_active_state t.state) tasks

abbrev pub has_open_task : List Task → ResearchJob → Bool
has_open_task tasks j = any (λ (t : Task). t.job_id == j.job_id && not (is_terminal t.state)) tasks

abbrev pub has_task : List Task → ResearchJob → Bool
has_task tasks j = any (λ (t : Task). t.job_id == j.job_id) tasks

pub data CounterIssue : Type 0 where
  terminal_job_has_active_tasks active_job_all_tasks_terminal : CounterIssue

pub record JobCounterMismatch : Type 0 where
  pub job_id : ℕ
  pub job_status : JobStatus
  pub issue : CounterIssue

-- The WHERE clauses of the two queries.
abbrev pub is_ended_too_early : List Task → ResearchJob → Bool
is_ended_too_early tasks j = is_terminal_status j.status && has_active_task tasks j

abbrev pub is_stale : List Task → ResearchJob → Bool
is_stale tasks j = is_active_status j.status && (not (has_open_task tasks j) && has_task tasks j)

-- `ORDER BY j.updated_at DESC`
abbrev pub newest_job : ResearchJob → ResearchJob → Bool
newest_job i j = leb j.updated_at i.updated_at

abbrev pub flagged : CounterIssue → ResearchJob → JobCounterMismatch
flagged issue j = record { job_id = j.job_id; job_status = j.status; issue = issue }

abbrev pub query :
    ℕ → (ResearchJob → Bool) → CounterIssue → List ResearchJob → List JobCounterMismatch
query limit p issue jobs = map (flagged issue) (take limit (sort newest_job (select p jobs)))

unfoldable pub flag_counter_mismatches : ℕ → List Task → List ResearchJob → List JobCounterMismatch
flag_counter_mismatches limit tasks jobs =
    query limit (is_ended_too_early tasks) terminal_job_has_active_tasks jobs
    ++ query limit (is_stale tasks) active_job_all_tasks_terminal jobs
