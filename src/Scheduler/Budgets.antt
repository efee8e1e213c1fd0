-- ===== src/Scheduler/Budgets.antt =====
-- control/scheduler/budgets.py.
use trail_signal_os.Prelude.{
  ℕ, Bool, true, false, ◌&&◌, Option, none, some, ◌==◌, leb, if◌then◌else◌, count_where,
}
use trail_signal_os.Store.{
  Task, Db, Job, BudgetField, max_queries, max_fetched_urls, browser_pages, media_items, find_job,
}
use trail_signal_os.Store.Lanes.{
  Lane, Lane.http, Lane.browser, Lane.search as search_lane, Lane.media, lane_eq,
}
use trail_signal_os.Store.States.{TaskState}
use trail_signal_os.Guards.{Result, ok, err, value_error, key_error}
use trail_signal_os.Scheduler.Reasons.{Reason, lane_not_budgeted, budget_exhausted, within_budget}

-- `LANE_BUDGET_FIELD`
abbrev pub lane_budget_field : Lane → Option BudgetField
lane_budget_field search_lane = some max_queries
lane_budget_field http = some max_fetched_urls
lane_budget_field browser = some browser_pages
lane_budget_field media = some media_items
lane_budget_field _ = none

-- Membership in `SPEND_STATES`.
abbrev pub is_spend : TaskState → Bool
is_spend TaskState.ready = true
is_spend TaskState.leased = true
is_spend TaskState.running = true
is_spend TaskState.succeeded = true
is_spend TaskState.retry_wait = true
is_spend _ = false

pub record BudgetCheckResult : Type 0 where
  pub allowed : Bool
  pub reason : Reason
  pub field : Option BudgetField
  pub limit : Option ℕ
  pub spent : Option ℕ

abbrev pub spends : ℕ → Lane → Task → Bool
spends job_id lane t = t.job_id == job_id && (lane_eq t.lane lane && is_spend t.state)

abbrev pub count_lane_spend : ℕ → Lane → Db → ℕ
count_lane_spend job_id lane db = count_where (spends job_id lane) db.tasks

-- `_fetch_job_budget(conn, job_id)[field]`
abbrev pub budget_limit : Option Job → BudgetField → Result ℕ
budget_limit none field = err value_error
budget_limit (some job) field = go (job.budget field)
  where
    go : Option ℕ → Result ℕ
    go none = err key_error
    go (some limit) = ok limit

abbrev budget_result : BudgetField → Result ℕ → ℕ → Result BudgetCheckResult
budget_result field (err e) spent = err e
budget_result field (ok limit) spent =
    if leb limit spent
    then ok (record {
      allowed = false;
      reason = budget_exhausted;
      field = some field;
      limit = some limit;
      spent = some spent;
    })
    else ok (record {
      allowed = true;
      reason = within_budget;
      field = some field;
      limit = some limit;
      spent = some spent;
    })

check_field : Option BudgetField → ℕ → Lane → Db → Result BudgetCheckResult
check_field none job_id lane db = ok (record {
  allowed = true;
  reason = lane_not_budgeted;
  field = none;
  limit = none;
  spent = none;
})
check_field (some field) job_id lane db =
    budget_result field (budget_limit (find_job db job_id) field) (count_lane_spend job_id lane db)

unfoldable pub check_lane_budget : ℕ → Lane → Db → Result BudgetCheckResult
unfolding check_field
check_lane_budget job_id lane db = check_field (lane_budget_field lane) job_id lane db
