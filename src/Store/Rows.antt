-- ===== src/Store/Rows.antt =====
-- Laws of the tasks table: looking a row up by its key after a statement, and the keys that a
-- statement leaves unique.
use trail_signal_os.Prelude.{
  ==→eq, ℕ, ◌≡◌, refl, ap, Bool, ◌&&◌, none, List, [], ◌∷◌, arith, if◌then◌else◌, first, select,
  count_where, update, is_null, keep_if, any, Bool-cases, inl, inr, false, ◌==◌, ◌∙◌, any, ◌==◌,
  map, some, ◌≢◌,
}
use trail_signal_os.Store.{Task, has_id}
use mathlib.Core.Option
use mathlib.Core.Path.{subst, sym}

-- The primary key: no two rows have one identifier.
abbrev pub HasUniqueIds : List Task → Type 0
HasUniqueIds [] = Unit
HasUniqueIds (t ∷ ts) = (first (select (has_id t.task_id) ts) ≡ none) × HasUniqueIds ts

-- A SET clause that leaves the key alone.
abbrev pub KeepsId : (Task → Task) → Type 0
KeepsId f = (t : Task) → (f t).task_id ≡ t.task_id

-- What an UPDATE makes of one row.
abbrev pub updated : (Task → Bool) → (Task → Task) → Task → Task
updated p f t = if p t then f t else t

pub find-update :
    (id : ℕ) (p : Task → Bool) (f : Task → Task) (ts : List Task)
    → KeepsId f
    → first (select (has_id id) (update p f ts))
      ≡ Option.map (updated p f) (first (select (has_id id) ts))
find-update id p f [] keep = refl
find-update id p f (t ∷ ts) keep = ground (arith, keep t, find-update id p f ts keep)

pub update-HasUniqueIds :
    (p : Task → Bool) (f : Task → Task) (ts : List Task)
    → KeepsId f
    → HasUniqueIds ts
    → HasUniqueIds (update p f ts)
update-HasUniqueIds p f [] keep h = tt
update-HasUniqueIds p f (t ∷ ts) keep h =
    let e : (updated p f t).task_id ≡ t.task_id = ground (arith, keep t) in
    (
      rw e (find-update t.task_id p f ts keep ∙ ap (Option.map (updated p f)) h.0),
      update-HasUniqueIds p f ts keep h.1,
    )

-- A statement whose WHERE clause names the key finds the row of that key or none.
pub first-select_key :
    (id : ℕ) (q : Task → Bool) (ts : List Task)
    → HasUniqueIds ts
    → first (select (λ (t : Task). has_id id t && q t) ts)
      ≡ keep_if q (first (select (has_id id) ts))
first-select_key id q [] h = refl
first-select_key id q (t ∷ ts) h = ground (arith, first-select_key id q ts h.1)

-- So does a count: one row or none.
pub count_where_key :
    (id : ℕ) (q : Task → Bool) (ts : List Task)
    → HasUniqueIds ts
    → count_where (λ (t : Task). has_id id t && q t) ts
      ≡ (if is_null (keep_if q (first (select (has_id id) ts))) then 0 else 1)
count_where_key id q [] h = refl
count_where_key id q (t ∷ ts) h = ground (arith, count_where_key id q ts h.1)

-- An update that selects no row changes nothing.
pub update_none :
    (p : Task → Bool) (f : Task → Task) (ts : List Task) → count_where p ts ≡ 0 → update p f ts ≡ ts
update_none p f [] h = refl
update_none p f (t ∷ ts) h = ground (arith, update_none p f ts)

pub first-map {ℓ κ} :
    {A : Type ℓ} {B : Type κ} (f : A → B) (xs : List A) → first (map f xs) ≡ Option.map f (first xs)
first-map f [] = refl
first-map f (x ∷ xs) = refl

pub find-has_id :
    (id : ℕ) (ts : List Task) {t : Task} → first (select (has_id id) ts) ≡ some t → t.task_id ≡ id
find-has_id id [] {t} e = cc
find-has_id id (s ∷ ts) {t} e = ground (arith, find-has_id id ts {t = t})

-- A statement on the row of one key leaves the rows of the others alone.
pub find-update_ne :
    (j id : ℕ) (q : Task → Bool) (f : Task → Task) (ts : List Task)
    → KeepsId f
    → j ≢ id
    → first (select (has_id j) (update (λ (t : Task). has_id id t && q t) f ts))
      ≡ first (select (has_id j) ts)
find-update_ne j id q f [] keep h = refl
find-update_ne j id q f (t ∷ ts) keep h = ground (arith, keep t, find-update_ne j id q f ts keep h)

-- The row of the key itself.
pub find-update_self :
    (id : ℕ) (q : Task → Bool) (f : Task → Task) (ts : List Task) {t : Task}
    → KeepsId f
    → first (select (has_id id) ts) ≡ some t
    → first (select (has_id id) (update (λ (s : Task). has_id id s && q s) f ts))
      ≡ some (if q t then f t else t)
find-update_self id q f [] {t} keep e = cc
find-update_self id q f (s ∷ ts) {t} keep e =
    ground (arith, keep s, find-update_self id q f ts {t = t} keep)

any-none :
    (p : Task → Bool) (ts : List Task) (t : Task)
    → first (select (has_id t.task_id) ts) ≡ none
    → any (λ (s : Task). t.task_id == s.task_id && p s) ts ≡ false
any-none p [] t e = refl
any-none p (s ∷ ts) t e = ground (arith, any-none p ts t)

any-key_self :
    (p : Task → Bool) (ts : List Task) (t : Task)
    → HasUniqueIds ts
    → first (select (has_id t.task_id) ts) ≡ some t
    → any (λ (s : Task). t.task_id == s.task_id && p s) ts ≡ p t
any-key_self p [] t u e = cc
any-key_self p (s ∷ ts) t u e = elim (Bool-cases (s.task_id == t.task_id)) [
  | inl same ↦
      let eq : s ≡ t = ground (arith, e) in rw eq (ground (arith, any-none p ts t (rw eq at (u.0))))
  | inr other ↦ ground (arith, any-key_self p ts t u.1)
]

-- A test on the rows of one key is a test on the row that a look-up finds.
pub any-key :
    (p : Task → Bool) (ts : List Task) (t : Task) (j : ℕ)
    → HasUniqueIds ts
    → first (select (has_id j) ts) ≡ some t
    → any (λ (s : Task). t.task_id == s.task_id && p s) ts ≡ p t
any-key p ts t j u e =
    any-key_self p ts t u (
      subst (λ (k : ℕ). first (select (has_id k) ts) ≡ some t) (sym (find-has_id j ts {t = t} e)) e)

-- An update of the one row with a key.
pub find-update_id :
    (id : ℕ) (f : Task → Task) (ts : List Task) {t : Task}
    → KeepsId f
    → first (select (has_id id) ts) ≡ some t
    → first (select (has_id id) (update (has_id id) f ts)) ≡ some (f t)
find-update_id id f [] {t} keep e = cc
find-update_id id f (s ∷ ts) {t} keep e =
    ground (arith, keep s, find-update_id id f ts {t = t} keep)

pub find-update_id_ne :
    (j id : ℕ) (f : Task → Task) (ts : List Task)
    → KeepsId f
    → j ≢ id
    → first (select (has_id j) (update (has_id id) f ts)) ≡ first (select (has_id j) ts)
find-update_id_ne j id f [] keep h = refl
find-update_id_ne j id f (t ∷ ts) keep h =
    ground (arith, keep t, find-update_id_ne j id f ts keep h)

count_where-none :
    (id : ℕ) (ts : List Task)
    → first (select (has_id id) ts) ≡ none
    → count_where (has_id id) ts ≡ 0
count_where-none id [] e = refl
count_where-none id (s ∷ ts) e = ground (arith, count_where-none id ts)

pub count_where_id :
    (id : ℕ) (ts : List Task) {t : Task}
    → HasUniqueIds ts
    → first (select (has_id id) ts) ≡ some t
    → count_where (has_id id) ts ≡ 1
count_where_id id [] {t} u e = cc
count_where_id id (s ∷ ts) {t} u e = elim (Bool-cases (s.task_id == id)) [
  | inl same ↦ ground (arith, count_where-none id ts, ==→eq s.task_id id same, u.0)
  | inr other ↦ ground (arith, count_where_id id ts {t = t} u.1)
]

-- A test on the rows that a statement by the key selects.
pub any-unselected :
    (p v : Task → Bool) (ts : List Task)
    → count_where p ts ≡ 0
    → any (λ (t : Task). p t && v t) ts ≡ false
any-unselected p v [] h = refl
any-unselected p v (t ∷ ts) h = ground (arith, any-unselected p v ts)

any-lost :
    (id : ℕ) (q v : Task → Bool) (ts : List Task)
    → first (select (has_id id) ts) ≡ none
    → any (λ (t : Task). (has_id id t && q t) && v t) ts ≡ false
any-lost id q v [] e = refl
any-lost id q v (t ∷ ts) e = ground (arith, any-lost id q v ts)

pub any-selected :
    (id : ℕ) (q v : Task → Bool) (ts : List Task) {t : Task}
    → HasUniqueIds ts
    → first (select (has_id id) ts) ≡ some t
    → any (λ (s : Task). (has_id id s && q s) && v s) ts ≡ (q t && v t)
any-selected id q v [] {t} u e = cc
any-selected id q v (s ∷ ts) {t} u e = elim (Bool-cases (s.task_id == id)) [
  | inl same ↦
      let eq : s ≡ t = ground arith in
      rw eq (ground (arith, any-lost id q v ts, ==→eq s.task_id id same, u.0))
  | inr other ↦ ground (arith, any-selected id q v ts {t = t} u.1)
]
