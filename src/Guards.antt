-- ===== src/Guards.antt =====
-- guards/runtime_guards.py and guards/exceptions.py: the exceptions that the control plane raises,
-- as values, and the runtime guards that it calls.
use trail_signal_os.Prelude.{◌≡◌, refl, ◌⊎◌, inl, inr, ℕ, Option, ◌==◌, if◌then◌else◌, is_null}

pub data Error : Type 0 where
  guard_violation stale_lease value_error key_error lookup_error overflow_error : Error
  attribute_error type_error validation_error law1_error missing_verifier_error integrity_error
        unique_violation coverage_error compile_error executor_error packed_input_error :
      Error
  hook_injection_error iteration_ceiling_error file_not_found : Error
  http_error : ℕ → Error

pub data Result (A : Type 0) : Type 0 where
  ok : A → Result A
  err : Error → Result A

infixl 5 ◌>>=◌ ◌>>◌
abbrev pub ◌>>=◌ : {A B : Type 0} → Result A → (A → Result B) → Result B
ok a >>= f = f a
err e >>= f = err e

abbrev pub ◌>>◌ : {B : Type 0} → Result (Unit {0}) → Result B → Result B
m >> k = m >>= λ _. k

-- Guard 2: a fenced update changes a row, or is stale.
unfoldable pub guard2_require_fenced_update : ℕ → ℕ → ℕ → Result (Unit {0})
guard2_require_fenced_update rows_updated expected_owner actual_owner =
    if actual_owner == expected_owner
    then (if rows_updated == 0 then err stale_lease else ok tt)
    else err stale_lease

-- The text that guard 10 returns.
pub data Route : Type 0 where
  retry blocked : Route

-- Guard 10: a 403 is blocked; an escalation of one is refused. `escalation` is a non-empty text.
unfoldable pub guard10_route_403_to_blocked : ℕ → Option ℕ → Result Route
guard10_route_403_to_blocked status_code escalation =
    if status_code == 403
    then (if is_null escalation then ok blocked else err guard_violation)
    else ok retry

pub Result-cases :
    {A : Type 0} (r : Result A) → ((a : A) × (r ≡ ok a)) ⊎ ((e : Error) × (r ≡ err e))
Result-cases (ok a) = inl (a, refl)
Result-cases (err e) = inr (e, refl)
