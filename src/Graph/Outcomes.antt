-- ===== src/Graph/Outcomes.antt =====
-- Postconditions of computations that may fail: a rule for bind.
use mathlib.Core.Path.{subst}
use trail_signal_os.Prelude.{◌≡◌, refl, arith}
use trail_signal_os.Guards.{Result, ok, err, Error, ◌>>=◌}

-- A result that satisfies a predicate, if there is one.
pub data Ensures {A : Type 0} (P : A → Type 0) : Result A → Type 0 where
  returned : {a : A} → P a → Ensures P (ok a)
  failed : {e : Error} → Ensures P (err e)

pub bind :
    {A B : Type 0} {P : B → Type 0} (m : Result A) (f : A → Result B)
    → ((a : A) → m ≡ ok a → Ensures P (f a))
    → Ensures P (m >>= f)
bind (ok a) f k = k a refl
bind (err e) f k = failed

pub Ensures-ok : {A : Type 0} {P : A → Type 0} {r : Result A} {a : A} → Ensures P r → r ≡ ok a → P a
Ensures-ok {P = P} (returned h) e = subst P (ground (arith, e)) h
Ensures-ok failed e = cc

pub Ensures-map :
    {A : Type 0} {P Q : A → Type 0} {r : Result A}
    → ((a : A) → P a → Q a)
    → Ensures P r
    → Ensures Q r
Ensures-map f (returned h) = returned (f _ h)
Ensures-map f failed = failed
