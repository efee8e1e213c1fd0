-- ===== src/Reconciliation/Counters/Flags.antt =====
-- control/reconciliation/counter_reconciler.py: which jobs are flagged.
use trail_signal_os.Prelude.{
  ℕ, ◌≤◌, ◌≡◌, refl, ap, ◌∙◌, Bool, not, ◌&&◌, ◌||◌, List, [], ◌∷◌, ◌++◌, ◌==◌, any, any-map,
  any-sort, any-select, take_all, select, sort, map, length, length-sort, length-select,
  count_where, inl, inr, Bool-cases, arith,
}
use trail_signal_os.Store.{Task}
use trail_signal_os.Store.States.{TaskState, is_terminal}
use trail_signal_os.Api.Jobs.{ResearchJob}
use trail_signal_os.Reconciliation.Counters.{
  CounterIssue, terminal_job_has_active_tasks, active_job_all_tasks_terminal, JobCounterMismatch,
  is_ended_too_early, is_stale, newest_job, flagged, query, is_active_state, has_active_task,
  has_open_task, has_task, is_terminal_status, is_active_status, flag_counter_mismatches,
}

abbrev pub names_job : ℕ → JobCounterMismatch → Bool
names_job id m = m.job_id == id

count_where-le :
    (p : ResearchJob → Bool) (jobs : List ResearchJob) → count_where p jobs ≤ length jobs
count_where-le p [] = omega arith
count_where-le p (j ∷ jobs) = ground (arith, count_where-le p jobs)

query_lem :
    (limit id : ℕ) (p : ResearchJob → Bool) (issue : CounterIssue) (jobs : List ResearchJob)
    → length jobs ≤ limit
    → any (names_job id) (query limit p issue jobs)
      ≡ any (λ (j : ResearchJob). j.job_id == id && p j) jobs
query_lem limit id p issue jobs enough =
    let rows = sort newest_job (select p jobs) in
    let whole = take_all limit rows (
      omega (
        arith,
        length-sort newest_job (select p jobs),
        length-select p jobs,
        count_where-le p jobs,
      )) in
    let is_id = λ (j : ResearchJob). j.job_id == id in
    ap (λ l. any (names_job id) (map (flagged issue) l)) whole
    ∙ (any-map (names_job id) (flagged issue) rows
        ∙ (any-sort is_id newest_job (select p jobs) ∙ any-select is_id p jobs))

any-append :
    (p : JobCounterMismatch → Bool) (xs ys : List JobCounterMismatch)
    → any p (xs ++ ys) ≡ (any p xs || any p ys)
any-append p [] ys = refl
any-append p (x ∷ xs) ys = ground (arith, any-append p xs ys)

-- A state is active exactly if it is not terminal.
active_states : (s : TaskState) → is_active_state s ≡ not (is_terminal s)
active_states s = ground arith

same_tasks : (tasks : List Task) (j : ResearchJob) → has_open_task tasks j ≡ has_active_task tasks j
same_tasks [] j = refl
same_tasks (t ∷ tasks) j = ground (arith, active_states t.state, same_tasks tasks j)

-- A job whose status and tasks disagree: it has ended with an active task, or it is at work and has
-- tasks, none of them active.
abbrev pub disagrees : List Task → ResearchJob → Bool
disagrees tasks j =
    (is_terminal_status j.status && has_active_task tasks j)
    || (is_active_status j.status && (has_task tasks j && not (has_active_task tasks j)))

regroup :
    (ended active at_work some_task x y : Bool)
    → (((ended && active) || x) || ((at_work && (not active && some_task)) || y))
      ≡ (((ended && active) || (at_work && (some_task && not active))) || (x || y))
regroup ended active at_work some_task x y = ground arith

any-or :
    (tasks : List Task) (id : ℕ) (jobs : List ResearchJob)
    → (any (λ (j : ResearchJob). j.job_id == id && is_ended_too_early tasks j) jobs
        || any (λ (j : ResearchJob). j.job_id == id && is_stale tasks j) jobs)
      ≡ any (λ (j : ResearchJob). j.job_id == id && disagrees tasks j) jobs
any-or tasks id [] = refl
any-or tasks id (j ∷ jobs) =
    let open_tasks = same_tasks tasks j in
    let rest = any-or tasks id jobs in
    elim (Bool-cases (j.job_id == id)) [
      | inl own ↦
          rw (own, open_tasks)
            (regroup (is_terminal_status j.status) (has_active_task tasks j)
                (is_active_status j.status) (has_task tasks j) _ _
              ∙ ap (λ b. disagrees tasks j || b) rest)
      | inr other ↦ rw other rest
    ]

-- With a limit that the jobs do not exceed, a job is flagged exactly if a job of its identifier
-- disagrees with its tasks.
pub flag_counter_mismatches_lem :
    (limit id : ℕ) (tasks : List Task) (jobs : List ResearchJob)
    → length jobs ≤ limit
    → any (names_job id) (flag_counter_mismatches limit tasks jobs)
      ≡ any (λ (j : ResearchJob). j.job_id == id && disagrees tasks j) jobs
unfolding flag_counter_mismatches
flag_counter_mismatches_lem limit id tasks jobs enough =
    any-append (names_job id)
      (query limit (is_ended_too_early tasks) terminal_job_has_active_tasks jobs)
      (query limit (is_stale tasks) active_job_all_tasks_terminal jobs)
    ∙ (rw
        (
          query_lem limit id (is_ended_too_early tasks) terminal_job_has_active_tasks jobs enough,
          query_lem limit id (is_stale tasks) active_job_all_tasks_terminal jobs enough,
        )
        (any-or tasks id jobs))
