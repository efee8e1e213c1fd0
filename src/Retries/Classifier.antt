-- ===== src/Retries/Classifier.antt =====
-- control/retries/classifier.py. An error code is a text: those that a set of the module names are
-- constructors, `http_code n` is the text "HTTP_n" for any other status, and `other` is the rest.
pub mod Policy
use trail_signal_os.Prelude.{
  ℕ, Bool, true, false, ◌||◌, Option, none, some, List, [], ◌∷◌, ◌==◌, if◌then◌else◌, any,
}
use trail_signal_os.Guards.{Result, ok, err, ◌>>=◌, ◌>>◌, guard10_route_403_to_blocked}

pub data ErrorCode : Type 0 where
  network_timeout dns_temporary_failure connection_reset : ErrorCode
  browser_crash temporary_storage_failure database_connection_failure : ErrorCode
  robots_disallowed policy_disallowed authorization_required unsupported_content : ErrorCode
  invalid_job_input max_response_size_exceeded unknown_failure : ErrorCode
  http_code : ℕ → ErrorCode
  other : ℕ → ErrorCode

pub data FailureAction : Type 0 where
  retry_wait blocked failed : FailureAction

pub record FailureClassification : Type 0 where
  pub failure_class : ErrorCode
  pub action : FailureAction
  pub retryable : Bool
  pub counts_toward_circuit : Bool

abbrev pub contains : ℕ → List ℕ → Bool
contains n = any (λ (m : ℕ). n == m)

abbrev pub retryable_http_statuses : List ℕ
retryable_http_statuses = 408 ∷ 429 ∷ 500 ∷ 502 ∷ 503 ∷ 504 ∷ []

abbrev pub non_retryable_http_statuses : List ℕ
non_retryable_http_statuses = 401 ∷ 403 ∷ 404 ∷ 410 ∷ []

abbrev pub blocked_http_statuses : List ℕ
blocked_http_statuses = 403 ∷ []

-- Membership in `RETRYABLE_ERROR_CODES`.
abbrev pub is_retryable_code : ErrorCode → Bool
is_retryable_code network_timeout = true
is_retryable_code dns_temporary_failure = true
is_retryable_code connection_reset = true
is_retryable_code (http_code n) = contains n retryable_http_statuses
is_retryable_code browser_crash = true
is_retryable_code temporary_storage_failure = true
is_retryable_code database_connection_failure = true
is_retryable_code _ = false

-- Membership in `NON_RETRYABLE_ERROR_CODES`.
abbrev pub is_non_retryable_code : ErrorCode → Bool
is_non_retryable_code (http_code n) = contains n (404 ∷ 410 ∷ [])
is_non_retryable_code robots_disallowed = true
is_non_retryable_code policy_disallowed = true
is_non_retryable_code authorization_required = true
is_non_retryable_code unsupported_content = true
is_non_retryable_code invalid_job_input = true
is_non_retryable_code max_response_size_exceeded = true
is_non_retryable_code _ = false

-- `error_code == "HTTP_403"`
abbrev pub is_http_403 : ErrorCode → Bool
is_http_403 (http_code n) = n == 403
is_http_403 _ = false

-- `error_code in {"ROBOTS_DISALLOWED", "POLICY_DISALLOWED"}`
abbrev pub is_disallowed : ErrorCode → Bool
is_disallowed robots_disallowed = true
is_disallowed policy_disallowed = true
is_disallowed _ = false

-- Membership in `BLOCKED_ERROR_CODES`.
abbrev pub is_blocked_code : ErrorCode → Bool
is_blocked_code code = is_http_403 code || is_disallowed code

abbrev classified : ErrorCode → FailureAction → Bool → Bool → Result FailureClassification
classified failure_class action retryable counts = ok (record {
  failure_class = failure_class;
  action = action;
  retryable = retryable;
  counts_toward_circuit = counts;
})

-- The first half of `classify_failure`: a status code was given.
classify_status : ℕ → Option ℕ → Result FailureClassification
classify_status status escalation =
    let failure_class = http_code status in
    if contains status blocked_http_statuses
    then (guard10_route_403_to_blocked status escalation >>= λ _.
        classified failure_class blocked false false)
    else if contains status retryable_http_statuses
    then classified failure_class retry_wait true true
    else if contains status non_retryable_http_statuses
    then classified failure_class (if status == 401 then blocked else failed) false false
    else classified failure_class failed false false

-- Guard 10, at the one blocked code that is an HTTP status.
guard_code : ErrorCode → Option ℕ → Result (Unit {0})
guard_code code escalation =
    if is_http_403 code then (guard10_route_403_to_blocked 403 escalation >>= λ _. ok tt) else ok tt

-- The second half: an error code alone.
classify_code : ErrorCode → Option ℕ → Result FailureClassification
classify_code code escalation =
    if is_blocked_code code
    then (guard_code code escalation >> classified code blocked false false)
    else if is_retryable_code code
    then classified code retry_wait true true
    else if is_non_retryable_code code
    then classified code (if is_disallowed code then blocked else failed) false false
    else classified code failed false false

unfoldable pub classify_failure :
    Option ℕ → Option ErrorCode → Option ℕ → Result FailureClassification
unfolding classify_status classify_code guard_code guard10_route_403_to_blocked
classify_failure (some status) code escalation = classify_status status escalation
classify_failure none none escalation = classified unknown_failure failed false false
classify_failure none (some code) escalation = classify_code code escalation
