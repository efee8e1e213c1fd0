-- ===== src/Store/Counts.antt =====
-- How a statement on one row changes a count.
use trail_signal_os.Prelude.{
  ℕ, ◌+◌, ◌≡◌, refl, ◌&&◌, not, Bool, true, false, none, some, List, [], ◌∷◌, arith, ◌==◌, ==→eq,
  first, select, count_where, update, Bool-cases, inl, inr,
}
use trail_signal_os.Store.{Task, has_id}
use trail_signal_os.Store.Rows.{HasUniqueIds, updated}

abbrev pub one : Bool → ℕ
one true = 1
one false = 0

count_where-update-none :
    (p q : Task → Bool) (f : Task → Task) (id : ℕ) (ts : List Task)
    → first (select (has_id id) ts) ≡ none
    → count_where p (update (λ (s : Task). has_id id s && q s) f ts) ≡ count_where p ts
count_where-update-none p q f id [] e = refl
count_where-update-none p q f id (t ∷ ts) e = ground (arith, count_where-update-none p q f id ts)

-- The count loses the old row and gains the new one.
pub count_where-update_key :
    (p q : Task → Bool) (f : Task → Task) (id : ℕ) (ts : List Task) {t : Task}
    → HasUniqueIds ts
    → first (select (has_id id) ts) ≡ some t
    → count_where p (update (λ (s : Task). has_id id s && q s) f ts) + one (p t)
      ≡ count_where p ts + one (p (updated q f t))
count_where-update_key p q f id [] {t} u e = cc
count_where-update_key p q f id (s ∷ ts) {t} u e = elim (Bool-cases (s.task_id == id)) [
  | inl same ↦
      let here : s ≡ t = ground arith in
      let key = ==→eq s.task_id id same in ground (arith, count_where-update-none p q f id ts)
  | inr other ↦ ground (arith, count_where-update_key p q f id ts {t = t} u.1)
]

abbrev pub is_other : ℕ → (Task → Bool) → Task → Bool
is_other id p t = not (has_id id t) && p t

count_where_absent :
    (p : Task → Bool) (id : ℕ) (ts : List Task)
    → first (select (has_id id) ts) ≡ none
    → count_where p ts ≡ count_where (is_other id p) ts
count_where_absent p id [] e = refl
count_where_absent p id (s ∷ ts) e = ground (arith, count_where_absent p id ts)

-- A count is the row of one key and the others.
pub count_where_others :
    (p : Task → Bool) (id : ℕ) (ts : List Task) {t : Task}
    → HasUniqueIds ts
    → first (select (has_id id) ts) ≡ some t
    → count_where p ts ≡ count_where (is_other id p) ts + one (p t)
count_where_others p id [] {t} u e = cc
count_where_others p id (s ∷ ts) {t} u e = elim (Bool-cases (s.task_id == id)) [
  | inl same ↦
      let here : s ≡ t = ground arith in
      let key = ==→eq s.task_id id same in ground (arith, count_where_absent p id ts)
  | inr other ↦ ground (arith, count_where_others p id ts {t = t} u.1)
]
