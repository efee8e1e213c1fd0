-- ===== src/Reconciliation/Pass/Report.antt =====
-- control/reconciliation/run.py: what a pass repairs and reports.
use trail_signal_os.Prelude.{
  ℕ, ◌≤◌, ◌≡◌, refl, none, some, [], any, ◌&&◌, ◌==◌, count_where, length, All,
}
use trail_signal_os.Store.{Task, find_task}
use trail_signal_os.Store.Rows.{HasUniqueIds}
use trail_signal_os.Guards.{ok}
use trail_signal_os.Leases.Reaper.{is_expired, reclaim_expired_leases}
use trail_signal_os.Leases.Recovery.{Reclaims, reclaim_all}
use trail_signal_os.Api.Jobs.{ResearchJob}
use trail_signal_os.Reconciliation.Artifacts.Gaps.{IsLinked, flag_lineage_gaps_linked}
use trail_signal_os.Reconciliation.Counters.Flags.{
  names_job, disagrees, flag_counter_mismatches_lem,
}
use trail_signal_os.Reconciliation.Pass.{
  ReconcilerSettings, ReconcilerPassResult, ReconcilerState, run_reconciler_pass,
}

-- A pass without a Redis client, on a state with unique task ids and whose limits are not exceeded,
-- succeeds. It makes every leased or running task whose lease has ended READY, without an owner, and
-- reports it as reclaimed; every other task is as it was and is not reported so. It flags a job exactly if the job disagrees with its tasks as
-- they are after that. Where every parent that an artifact names has its edge, it reports no lineage
-- gap. The jobs and the lineage are as before.
pub run_reconciler_pass_lem :
    {S : Type 0} (now : ℕ) (cfg : ReconcilerSettings) (s : ReconcilerState S)
    → HasUniqueIds s.world.db.tasks
    → count_where (is_expired now) s.world.db.tasks ≤ cfg.lease_reclaim_limit
    → length s.jobs ≤ cfg.counter_scan_limit
    → (r : ReconcilerPassResult) × (after : ReconcilerState S) × (run_reconciler_pass now none cfg s
        ≡ (ok r, after))
      × ((j : ℕ) (t : Task)
          → find_task s.world.db j ≡ some t
          → Reclaims now t r.reclaimed_tasks (find_task after.world.db j))
      × ((id : ℕ)
          → any (names_job id) r.counter_mismatches
            ≡ any (λ (j : ResearchJob). j.job_id == id && disagrees after.world.db.tasks j) s.jobs)
      × (All (IsLinked s.lineage.edges) s.lineage.artifacts → r.lineage_gaps ≡ [])
      × (after.jobs ≡ s.jobs)
      × (after.lineage ≡ s.lineage)
unfolding run_reconciler_pass
run_reconciler_pass_lem now cfg s unique few_leases few_jobs = (
  _,
  _,
  refl,
  (λ j t found.
      reclaim_all now cfg.lease_reclaim_limit s.world.db j {t = t} unique few_leases found),
  (λ id.
      flag_counter_mismatches_lem cfg.counter_scan_limit id
        (reclaim_expired_leases now cfg.lease_reclaim_limit s.world.db).1.tasks s.jobs few_jobs),
  (λ linked. flag_lineage_gaps_linked cfg.artifact_scan_limit s.lineage linked),
  refl,
  refl,
)
