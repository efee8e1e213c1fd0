-- ===== src/Prelude/Search.antt =====
-- Which rows pass a test, after a sort, a limit, a selection or a map.
use Prim.Native.Nat.{ℕ, zero, suc, ◌≤◌}
use mathlib.Core.Path.{◌≡◌, refl, ap, ◌∙◌}
use mathlib.Core.Bool.{Bool, true, ◌&&◌, ◌||◌}
use mathlib.Core.List.{List, [], ◌∷◌, map}
use native.Mathlib.Omega.{arith}
use trail_signal_os.Prelude.Lists.{length, take, select, count_where, any, insert_sorted, sort}

module _ {ℓ} {A : Type ℓ} where
  pub any-insert_sorted :
      (q : A → Bool) (le : A → A → Bool) (a : A) (xs : List A)
      → any q (insert_sorted le a xs) ≡ (q a || any q xs)
  any-insert_sorted q le a [] = refl
  any-insert_sorted q le a (x ∷ xs) = ground (arith, any-insert_sorted q le a xs)

  pub any-sort : (q : A → Bool) (le : A → A → Bool) (xs : List A) → any q (sort le xs) ≡ any q xs
  any-sort q le [] = refl
  any-sort q le (x ∷ xs) =
      any-insert_sorted q le x (sort le xs) ∙ ap (λ b. q x || b) (any-sort q le xs)

  pub length-insert_sorted :
      (le : A → A → Bool) (a : A) (xs : List A) → length (insert_sorted le a xs) ≡ suc (length xs)
  length-insert_sorted le a [] = refl
  length-insert_sorted le a (x ∷ xs) = ground (arith, length-insert_sorted le a xs)

  pub length-sort : (le : A → A → Bool) (xs : List A) → length (sort le xs) ≡ length xs
  length-sort le [] = refl
  length-sort le (x ∷ xs) = length-insert_sorted le x (sort le xs) ∙ ap suc (length-sort le xs)

  pub length-select : (p : A → Bool) (xs : List A) → length (select p xs) ≡ count_where p xs
  length-select p [] = refl
  length-select p (x ∷ xs) = ground (arith, length-select p xs)

  pub any-select : (q p : A → Bool) (xs : List A) → any q (select p xs) ≡ any (λ x. q x && p x) xs
  any-select q p [] = refl
  any-select q p (x ∷ xs) = ground (arith, any-select q p xs)

  pub any-take : (q : A → Bool) (n : ℕ) (xs : List A) → any q (take n xs) ≡ true → any q xs ≡ true
  any-take q zero xs h = ground arith
  any-take q (suc n) [] h = h
  any-take q (suc n) (x ∷ xs) h = ground (arith, any-take q n xs)

  pub take_all : (n : ℕ) (xs : List A) → length xs ≤ n → take n xs ≡ xs
  take_all zero [] h = refl
  take_all zero (x ∷ xs) h = absurd (omega arith)
  take_all (suc n) [] h = refl
  take_all (suc n) (x ∷ xs) h = ap (λ l. x ∷ l) (take_all n xs (omega arith))

  pub any-map {κ} :
      {B : Type κ} (q : B → Bool) (f : A → B) (xs : List A)
      → any q (map f xs) ≡ any (λ x. q (f x)) xs
  any-map q f [] = refl
  any-map q f (x ∷ xs) = ap (λ b. q (f x) || b) (any-map q f xs)
