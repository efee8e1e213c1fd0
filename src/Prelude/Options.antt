-- ===== src/Prelude/Options.antt =====
-- A nullable column under an SQL comparison: a comparison with NULL is not true.
use mathlib.Core.Path.{◌≡◌, refl}
use mathlib.Core.Logic.{◌⊎◌, inl, inr}
use mathlib.Core.Bool.{Bool, true, false}
use mathlib.Core.Option.{Option, none, some}
use Prim.Native.Nat.{ℕ}
use trail_signal_os.Prelude.Tests.{ltb, leb, ◌==◌, if◌then◌else◌, Bool-cases}
use mathlib.Core.Option.{map}
use mathlib.Core.Path.{ap}
use native.Mathlib.Omega.{arith}

-- `column < value`
abbrev pub is_before : Option ℕ → ℕ → Bool
is_before none t = false
is_before (some s) t = ltb s t

-- `column <= value`
abbrev pub is_due : Option ℕ → ℕ → Bool
is_due none t = false
is_due (some s) t = leb s t

-- `column >= value`
abbrev pub is_from : Option ℕ → ℕ → Bool
is_from none t = false
is_from (some s) t = leb t s

-- `column = value`
abbrev pub is_eq : Option ℕ → ℕ → Bool
is_eq none t = false
is_eq (some s) t = s == t

-- `column IS NULL`
abbrev pub is_null {ℓ} : {A : Type ℓ} → Option A → Bool
is_null none = true
is_null (some _) = false

pub Option-cases {ℓ} : {A : Type ℓ} (o : Option A) → (o ≡ none) ⊎ ((a : A) × (o ≡ some a))
Option-cases none = inl refl
Option-cases (some a) = inr (a, refl)

abbrev pub keep_if {ℓ} : {A : Type ℓ} → (A → Bool) → Option A → Option A
keep_if p none = none
keep_if p (some a) = if p a then some a else none

pub keep_if-some {ℓ} :
    {A : Type ℓ} (p : A → Bool) (o : Option A) {a : A}
    → keep_if p o ≡ some a
    → (o ≡ some a) × (p a ≡ true)
keep_if-some p none e = cc
keep_if-some p (some b) {a} e = elim (Bool-cases (p b)) [
  | inl t ↦ let same : some b ≡ some a = rw t at e in (same, ground (arith, ap (map p) same))
  | inr f ↦ absurd (ground arith)
]
