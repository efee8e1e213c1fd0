-- ===== src/Retries/Handle/Deferral.antt =====
-- A failure on a route whose circuit is open.
use trail_signal_os.Prelude.{
  ℕ, ◌+◌, ◌<◌, ◌≡◌, refl, ap, ◌∙◌, sym, false, Option, none, some, arith, Bool-cases, inl, inr,
}
use mathlib.Core.Path.{subst}
use trail_signal_os.Store.{Task, Db, find_task}
use trail_signal_os.Store.States.{TaskState}
use trail_signal_os.Store.Rows.{find-update_id}
use trail_signal_os.Guards.{ok}
use trail_signal_os.Retries.Classifier.{ErrorCode, FailureAction, FailureClassification}
use trail_signal_os.Retries.Circuit.{RouteCircuit, open_state, allow_request, record_failure}
use trail_signal_os.Retries.Circuit.Probe.{open_cools_down}
use trail_signal_os.Retries.Registry.{
  CircuitRegistry, get, get-put_self, allow_request_at, record_failure_at, put, or_fresh,
}
use trail_signal_os.Retries.Handle.{
  FailureReport, Control, wait_for_retry, set_retry_wait, count_failure, schedule_retry,
  handle_task_failure,
}
use trail_signal_os.Retries.Handle.Outcomes.{classified_of, handle_is_schedule}

-- The circuit of a key after a call on the registry.
get-put : (key : ℕ) (c : RouteCircuit) (r : CircuitRegistry) → get key (put key c r) ≡ c
unfolding get
get-put key c r = ap (λ o. or_fresh o key r.config) (get-put_self key c r.circuits)

module _ (now until : ℕ) (h : now < until) where
  -- Open until this time, which has not come.
  abbrev OpenUntil : RouteCircuit → Type 0
  OpenUntil c = (c.state ≡ open_state) × (c.cooldown_until ≡ some until)

  OpenUntil-fail :
      (f : Option ErrorCode) (c : RouteCircuit) → OpenUntil c → OpenUntil (record_failure now f c).1
  unfolding record_failure
  OpenUntil-fail f c (o, cool) = (ground arith, ground arith)

  allow_OpenUntil : (c : RouteCircuit) → OpenUntil c → allow_request now c ≡ (false, c)
  allow_OpenUntil c (o, cool) = open_cools_down now until c o cool ∙ (ground arith)

  count_OpenUntil :
      (rep : FailureReport) (c : FailureClassification) (r : CircuitRegistry)
      → OpenUntil (get rep.route_key r)
      → OpenUntil (get rep.route_key (count_failure now rep c r).1)
  unfolding record_failure_at
  count_OpenUntil rep c r o = elim (Bool-cases c.counts_toward_circuit) [
    | inl yes_counts ↦ rw yes_counts (
        subst OpenUntil
          (sym (
            get-put rep.route_key
              (record_failure now (some c.failure_class) (get rep.route_key r)).1 r))
          (OpenUntil-fail (some c.failure_class) (get rep.route_key r) o))
    | inr no_counts ↦ rw no_counts o
  ]

  ask_OpenUntil :
      (key : ℕ) (r : CircuitRegistry)
      → OpenUntil (get key r)
      → ((allow_request_at key now r).0 ≡ false)
        × ((get key (allow_request_at key now r).1).cooldown_until ≡ some until)
  unfolding allow_request_at
  ask_OpenUntil key r o =
      let asked = allow_OpenUntil (get key r) o in
      (
        ap (λ x. x.0) asked,
        ap (λ x. x.cooldown_until) (get-put key (allow_request now (get key r)).1 r)
            ∙ (ap (λ x. x.1.cooldown_until) asked ∙ o.1),
      )

  schedule_OpenUntil :
      (jitter : ℕ) (rep : FailureReport) (c : FailureClassification) (s : Control)
      → OpenUntil (get rep.route_key s.circuits)
      → (schedule_retry now jitter rep c s).1.db
        ≡ set_retry_wait now rep.task_id until (rep.attempt + 1) s.db
  unfolding schedule_retry
  schedule_OpenUntil jitter rep c s o =
      let counted = (count_failure now rep c s.circuits).1 in
      let (refused, cool) =
        ask_OpenUntil rep.route_key counted (count_OpenUntil rep c s.circuits o) in
      rw refused (rw cool refl)

-- A retryable failure with attempts left, on a route whose circuit is open with a cooldown that is
-- not over, leaves the row in RETRY_WAIT until the end of the cooldown, even where the server asked
-- for another delay, with the attempt of the report and one more, no owner and the next generation.
pub open_circuit_defers :
    (now jitter : ℕ) (rep : FailureReport) (s : Control) {c : FailureClassification} {t : Task}
    {until : ℕ}
    → find_task s.db rep.task_id ≡ some t
    → classified_of rep ≡ ok c
    → c.action ≡ FailureAction.retry_wait
    → rep.attempt < rep.max_attempts
    → (get rep.route_key s.circuits).state ≡ open_state
    → (get rep.route_key s.circuits).cooldown_until ≡ some until
    → now < until
    → find_task (handle_task_failure now jitter rep s).1.db rep.task_id
      ≡ some (record t {
        state = TaskState.retry_wait;
        retry_at = some until;
        attempt = rep.attempt + 1;
        lease_owner = none;
        lease_generation = t.lease_generation + 1;
        lease_expires_at = none;
        updated_at = now;
      })
open_circuit_defers now jitter rep s {c} {t} {until} e ec a room o cool h =
    ap (λ x. find_task x.1.db rep.task_id) (handle_is_schedule now jitter rep s {c = c} ec a room)
    ∙ (ap (λ (d : Db). find_task d rep.task_id)
          (schedule_OpenUntil now until h jitter rep c s (o, cool))
        ∙ find-update_id rep.task_id (wait_for_retry now until (rep.attempt + 1)) s.db.tasks {t = t}
            (λ x. refl) e)
