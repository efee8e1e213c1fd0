-- ===== src/Retries/Classifier/Policy.antt =====
-- The retry policy that the classifier carries out.
use trail_signal_os.Prelude.{
  ℕ, ◌≡◌, ◌≢◌, refl, true, false, Option, none, some, if◌then◌else◌, arith, is_null, ◌↔◌,
}
use trail_signal_os.Guards.{ok, err, guard_violation}
use trail_signal_os.Retries.Classifier.{
  ErrorCode, http_code, retry_wait, blocked, FailureClassification, classify_failure,
}

-- A 403, by status or by code, is blocked if nothing tries to escalate it, and is otherwise an
-- error: it is never retried and never simply failed.
pub forbidden_is_blocked :
    (code : Option ErrorCode) (escalation : Option ℕ)
    → (classify_failure (some 403) code escalation ≡ (
        if is_null escalation
        then ok (record {
          failure_class = http_code 403;
          action = blocked;
          retryable = false;
          counts_toward_circuit = false;
        })
        else err guard_violation))
      × (classify_failure none (some (http_code 403)) escalation
          ≡ classify_failure (some 403) code escalation)
unfolding classify_failure
forbidden_is_blocked code none = (refl, refl)
forbidden_is_blocked code (some e) = (refl, refl)

-- Whatever is classified, a task is to be retried exactly if the failure counts toward the circuit
-- of its route.
pub retry_counts :
    (status : Option ℕ) (code : Option ErrorCode) (escalation : Option ℕ)
    {c : FailureClassification}
    → classify_failure status code escalation ≡ ok c
    → (c.retryable ≡ c.counts_toward_circuit) × ((c.action ≡ retry_wait) ↔ (c.retryable ≡ true))
unfolding classify_failure
retry_counts (some status) code escalation e =
    (ground arith, (λ h. ground arith, λ h. ground arith))
retry_counts none none escalation e = (ground arith, (λ h. ground arith, λ h. ground arith))
retry_counts none (some code) escalation e = (ground arith, (λ h. ground arith, λ h. ground arith))

-- A status and the code of that status are classified alike, but for 401.
pub status_code_agree :
    (status : ℕ) (code : Option ErrorCode) (escalation : Option ℕ)
    → status ≢ 401
    → classify_failure (some status) code escalation
      ≡ classify_failure none (some (http_code status)) escalation
unfolding classify_failure
status_code_agree status code escalation h = ground arith

-- A 401 is blocked as a status, and failed as a code.
pub status_code_differ :
    (code : Option ErrorCode) (escalation : Option ℕ)
    → classify_failure (some 401) code escalation
      ≢ classify_failure none (some (http_code 401)) escalation
unfolding classify_failure
status_code_differ code escalation h = cc
