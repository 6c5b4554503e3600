-- ===== src/Codec.antt =====
-- api/v1/zz_generated.spec.go: what the functions `…FromMap` and the methods `ToMap` do with one field
-- of each type.
use testenv_vm.Prelude.{
  if◌then◌else◌, keys, has, Result, ◌>>=◌, ok, err, ℤ, pos, negsuc, ℕ, zero, suc, ◌-◌, ◌/◌, String,
  Bool, true, false, Option, none, some, List, [], ◌∷◌, map, ◌==◌,
}
pub mod FromMap
pub mod ToMap
pub mod Entries
pub mod RoundTrip
pub mod Report
pub mod Clean
pub mod Completeness
use testenv_vm.Api.{
  Value, Items, Fields, null, boolean, integer, number, text, strings, array, object, nil, cons,
  end, field,
}

pub data ParseError : Type 0 where
  expected : String → String → ParseError
  expected_item : String → ℕ → String → ParseError
  in_field : String → ParseError → ParseError
  in_item : String → ℕ → ParseError → ParseError
  -- `val.(interface{})` of a nil value, which is a runtime panic
  panics : String → ParseError

-- A map, by the value at each of its keys.
abbrev pub Find : Type 0
Find = String → Option Value

unfoldable pub find : Fields → Find
find end k = none
find (field j v fs) k = let rest = find fs k in if j == k then some v else rest

unfoldable pub text_of : String → Option Value → Result ParseError String
text_of k none = ok ""
text_of k (some null) = ok ""
text_of k (some (text s)) = ok s
text_of k (some _) = err (expected k "string")

unfoldable pub bool_of : String → Option Value → Result ParseError Bool
bool_of k none = ok false
bool_of k (some null) = ok false
bool_of k (some (boolean b)) = ok b
bool_of k (some _) = err (expected k "bool")

unfoldable pub int_of : (String → ℤ) → String → Option Value → Result ParseError ℤ
int_of truncate k none = ok (pos 0)
int_of truncate k (some null) = ok (pos 0)
int_of truncate k (some (integer z)) = ok z
int_of truncate k (some (number s)) = ok (truncate s)
int_of truncate k (some _) = err (expected k "int")

unfoldable pub item_texts : String → ℕ → Items → Result ParseError (List String)
item_texts k i nil = ok []
item_texts k i (cons (text s) vs) = do ss ← item_texts k (suc i) vs; ok (s ∷ ss)
item_texts k i (cons _ vs) = err (expected_item k i "string")

unfoldable pub strings_of : String → Option Value → Result ParseError (List String)
unfolding item_texts
strings_of k none = ok []
strings_of k (some null) = ok []
strings_of k (some (array vs)) = item_texts k 0 vs
strings_of k (some (strings ss)) = ok ss
strings_of k (some _) = err (expected k "[]string")

unfoldable pub has_null : Fields → Bool
has_null end = false
has_null (field k null fs) = true
has_null (field k _ fs) = has_null fs

unfoldable pub fields_of : String → Option Value → Result ParseError Fields
unfolding has_null
fields_of k none = ok end
fields_of k (some null) = ok end
fields_of k (some (object fs)) = if has_null fs then err (panics k) else ok fs
fields_of k (some _) = err (expected k "map")

abbrev pub wrapped :
    {A : Type 0} → (ParseError → ParseError) → Result ParseError A → Result ParseError A
wrapped wrap (ok x) = ok x
wrapped wrap (err e) = err (wrap e)

module _ {A : Type 0} (parse : Find → Result ParseError A) where
  -- A struct. Its zero value, for an absent key, is what the empty map gives.
  unfoldable pub nested_of : String → Option Value → Result ParseError A
  nested_of k none = wrapped (in_field k) (parse (λ _. none))
  nested_of k (some null) = wrapped (in_field k) (parse (λ _. none))
  nested_of k (some (object fs)) = wrapped (in_field k) (parse (find fs))
  nested_of k (some _) = err (expected k "object")

  -- A pointer to a struct.
  unfoldable pub option_of : String → Option Value → Result ParseError (Option A)
  option_of k none = ok none
  option_of k (some null) = ok none
  option_of k (some (object fs)) = do x ← wrapped (in_field k) (parse (find fs)); ok (some x)
  option_of k (some _) = err (expected k "object")

  unfoldable pub items_of : String → ℕ → Items → Result ParseError (List A)
  items_of k i nil = ok []
  items_of k i (cons (object fs) vs) = do
    x ← wrapped (in_item k i) (parse (find fs))
    xs ← items_of k (suc i) vs
    ok (x ∷ xs)
  items_of k i (cons _ vs) = err (expected_item k i "object")

  -- A slice of structs.
  unfoldable pub list_of : String → Option Value → Result ParseError (List A)
  unfolding items_of
  list_of k none = ok []
  list_of k (some null) = ok []
  list_of k (some (array vs)) = items_of k 0 vs
  list_of k (some _) = err (expected k "[]object")

-- `m[k] = v` for the fields that are set.
unfoldable pub present : List (String × Option Value) → Fields
present [] = end
present ((k, none) ∷ es) = present es
present ((k, some v) ∷ es) = field k v (present es)

unfoldable pub text_entry : String → Option Value
text_entry s = if s == "" then none else some (text s)

unfoldable pub bool_entry : Bool → Option Value
bool_entry b = if b then some (boolean b) else none

unfoldable pub int_entry : ℤ → Option Value
int_entry (pos zero) = none
int_entry (pos (suc n)) = some (integer (pos (suc n)))
int_entry (negsuc n) = some (integer (negsuc n))

unfoldable pub strings_entry : List String → Option Value
strings_entry [] = none
strings_entry (s ∷ ss) = some (strings (s ∷ ss))

-- A map or a nested struct, where it has an entry.
unfoldable pub fields_entry : Fields → Option Value
fields_entry end = none
fields_entry (field k v fs) = some (object (field k v fs))

module _ {A : Type 0} (to_map : A → Fields) where
  unfoldable pub option_entry : Option A → Option Value
  option_entry none = none
  option_entry (some x) = some (object (to_map x))

  unfoldable pub to_items : List A → Items
  to_items [] = nil
  to_items (x ∷ xs) = cons (object (to_map x)) (to_items xs)

  unfoldable pub list_entry : List A → Option Value
  unfolding to_items
  list_entry [] = none
  list_entry (x ∷ xs) = some (array (to_items (x ∷ xs)))
