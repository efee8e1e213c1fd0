-- ===== src/Graph/Values.antt =====
-- The values that `yaml.safe_load` makes, and what Python's `get`, `or` and `isinstance` do on them.
use trail_signal_os.Prelude.{
  ℕ, zero, suc, ℤ, pos, negsuc, Bool, true, false, Option, none, some, List, [], ◌∷◌, ◌==◌,
  if◌then◌else◌,
}
use trail_signal_os.Graph.Texts.{Text, text_eq}

-- `other b n` is any other scalar, a float or a date, whose truth value is `b`.
mutual
  pub data Value : Type 0 where
    null : Value
    bool : Bool → Value
    int : ℤ → Value
    str : Text → Value
    other : Bool → ℕ → Value
    seq : Items → Value
    mapping : Fields → Value

  pub data Items : Type 0 where
    nil : Items
    cons : Value → Items → Items

  pub data Fields : Type 0 where
    end : Fields
    field : Text → Value → Fields → Fields

abbrev pub elements : Items → List Value
elements nil = []
elements (cons v vs) = v ∷ elements vs

abbrev pub find_key : Text → Fields → Option Value
find_key k end = none
find_key k (field j v fs) = let rest = find_key k fs in if text_eq k j then some v else rest

abbrev pub or_default : Value → Option Value → Value
or_default d none = d
or_default d (some v) = v

-- `node.get(k)`: None, if the key is missing.
abbrev pub get : Text → Fields → Value
get k fs = or_default null (find_key k fs)

-- The truth value.
abbrev pub truthy : Value → Bool
truthy null = false
truthy (bool b) = b
truthy (int (pos zero)) = false
truthy (int (pos (suc n))) = true
truthy (int (negsuc n)) = true
truthy (str []) = false
truthy (str (c ∷ cs)) = true
truthy (other b n) = b
truthy (seq nil) = false
truthy (seq (cons v vs)) = true
truthy (mapping end) = false
truthy (mapping (field k v fs)) = true

-- `v or d`
abbrev pub or_else : Value → Value → Value
or_else v d = if truthy v then v else d

abbrev pub is_text : Text → Value → Bool
is_text t (str s) = text_eq s t
is_text t _ = false

abbrev pub is_none : Value → Bool
is_none null = true
is_none _ = false

-- A list, a set or a dict has no hash.
abbrev pub is_hashable : Value → Bool
is_hashable (seq vs) = false
is_hashable (mapping fs) = false
is_hashable _ = true

abbrev pub int_eq : ℤ → ℤ → Bool
int_eq (pos m) (pos n) = m == n
int_eq (negsuc m) (negsuc n) = m == n
int_eq _ _ = false

-- `isinstance(v, int)`, which a truth value is too.
abbrev pub as_int : Value → Option ℤ
as_int (int z) = some z
as_int (bool true) = some (pos 1)
as_int (bool false) = some (pos 0)
as_int _ = none

abbrev same_number : Option ℤ → Option ℤ → Bool
same_number (some y) (some z) = int_eq y z
same_number _ _ = false

-- Equality of two hashable values. A float is told apart from the integer of its value.
abbrev pub same_id : Value → Value → Bool
same_id null null = true
same_id (str s) (str t) = text_eq s t
same_id (other b m) (other c n) = m == n
same_id u v = same_number (as_int u) (as_int v)
