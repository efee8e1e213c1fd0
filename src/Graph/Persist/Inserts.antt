-- ===== src/Graph/Persist/Inserts.antt =====
-- graph/compiler.py: a list of rows with new keys is inserted as a whole.
use mathlib.Core.List.{append_assoc, append-nil}
use trail_signal_os.Prelude.{
  ◌≡◌, refl, sym, ap, ◌∙◌, Bool, true, false, ◌||◌, List, [], ◌∷◌, ◌++◌, any, All, All-map_to,
  All-pair, arith,
}
use trail_signal_os.Guards.{ok}
use trail_signal_os.Graph.Persist.{insert_rows}

module _ {A : Type 0} (same_key : A → A → Bool) where
  -- No later row has the key of an earlier one.
  abbrev pub IsKeyed : List A → Type 0
  IsKeyed [] = Unit
  IsKeyed (row ∷ rows) = (any (λ later. same_key later row) rows ≡ false) × IsKeyed rows

any-append :
    {A : Type 0} (p : A → Bool) (xs ys : List A) → any p (xs ++ ys) ≡ (any p xs || any p ys)
any-append p [] ys = refl
any-append p (x ∷ xs) ys = ground (arith, any-append p xs ys)

any-false : {A : Type 0} (p : A → Bool) (xs : List A) → any p xs ≡ false → All (λ x. p x ≡ false) xs
any-false p [] h = tt
any-false p (x ∷ xs) h = (ground arith, any-false p xs (ground arith))

pub insert_rows_lem :
    {A : Type 0} (same_key : A → A → Bool) (check : A → Bool) (rows table : List A)
    → IsKeyed same_key rows
    → All (λ row. (any (same_key row) table ≡ false) × (check row ≡ true)) rows
    → insert_rows same_key check rows table ≡ ok (table ++ rows)
insert_rows_lem same_key check [] table keyed fresh = ap ok (sym (append-nil table))
insert_rows_lem same_key check (row ∷ rows) table keyed fresh =
    rw (fresh.0.0, fresh.0.1)
      (insert_rows_lem same_key check rows (table ++ row ∷ []) keyed.1 (
          All-map_to _ _ rows
            (λ later h.
              (any-append (same_key later) table (row ∷ []) ∙ ground (arith, h.0.0, h.1), h.0.1))
            (All-pair _ _ rows fresh.1 (any-false (λ later. same_key later row) rows keyed.0)))
        ∙ ap ok (append_assoc table (row ∷ []) rows))
