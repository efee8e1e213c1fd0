-- ===== src/Leases/Fencing/Columns.antt =====
-- control/leases/fencing.py: the row that the assignments of `extra_sets` promise, column by column.
use trail_signal_os.Prelude.{ℕ, ◌≡◌, refl, ap, ◌∙◌, Option, none, some, List, [], ◌∷◌}
use trail_signal_os.Store.{Task}
use trail_signal_os.Leases.Fencing.{
  Assignment, set_attempt, set_lease_generation, set_not_before, set_retry_at, set_lease_owner,
  set_lease_expires_at, set_last_heartbeat_at, assign, assign_all,
}

abbrev or_before : {A : Type 0} → Option A → A → A
or_before none before = before
or_before (some new) before = new

-- The value of a column: the last that is assigned to it, or the one before.
abbrev pub last_of : {A : Type 0} → (Assignment → Option A) → List Assignment → A → A
last_of column [] before = before
last_of column (a ∷ rest) before = last_of column rest (or_before (column a) before)

abbrev pub attempt_column : Assignment → Option ℕ
attempt_column (set_attempt n) = some n
attempt_column _ = none

abbrev pub generation_column : Assignment → Option ℕ
generation_column (set_lease_generation n) = some n
generation_column _ = none

abbrev pub not_before_column : Assignment → Option (Option ℕ)
not_before_column (set_not_before o) = some o
not_before_column _ = none

abbrev pub retry_at_column : Assignment → Option (Option ℕ)
retry_at_column (set_retry_at o) = some o
retry_at_column _ = none

abbrev pub owner_column : Assignment → Option (Option ℕ)
owner_column (set_lease_owner o) = some o
owner_column _ = none

abbrev pub expires_column : Assignment → Option (Option ℕ)
expires_column (set_lease_expires_at o) = some o
expires_column _ = none

abbrev pub heartbeat_column : Assignment → Option (Option ℕ)
heartbeat_column (set_last_heartbeat_at o) = some o
heartbeat_column _ = none

abbrev pub columns : List Assignment → Task → Task
columns ex t = record t {
  attempt = last_of attempt_column ex t.attempt;
  lease_generation = last_of generation_column ex t.lease_generation;
  not_before = last_of not_before_column ex t.not_before;
  retry_at = last_of retry_at_column ex t.retry_at;
  lease_owner = last_of owner_column ex t.lease_owner;
  lease_expires_at = last_of expires_column ex t.lease_expires_at;
  last_heartbeat_at = last_of heartbeat_column ex t.last_heartbeat_at;
}

assign-columns : (a : Assignment) (t : Task) → assign a t ≡ columns (a ∷ []) t
assign-columns (set_attempt n) t = refl
assign-columns (set_lease_generation n) t = refl
assign-columns (set_not_before o) t = refl
assign-columns (set_retry_at o) t = refl
assign-columns (set_lease_owner o) t = refl
assign-columns (set_lease_expires_at o) t = refl
assign-columns (set_last_heartbeat_at o) t = refl

-- Assignments in their order leave the last value of each column.
pub assign_all-columns : (ex : List Assignment) (t : Task) → assign_all ex t ≡ columns ex t
assign_all-columns [] t = refl
assign_all-columns (a ∷ ex) t =
    assign_all-columns ex (assign a t) ∙ ap (columns ex) (assign-columns a t)
