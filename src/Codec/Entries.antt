-- ===== src/Codec/Entries.antt =====
-- api/v1/zz_generated.spec.go: the functions `…FromMap` after the methods `ToMap`, field by field.
use testenv_vm.Codec.{
  ParseError, Find, find, text_of, bool_of, int_of, strings_of, has_null, fields_of, wrapped,
  nested_of, option_of, items_of, list_of, present, text_entry, bool_entry, int_entry,
  strings_entry, fields_entry, option_entry, to_items, list_entry, in_field,
}
use testenv_vm.Api.{Value, Fields, end, field}
use testenv_vm.Prelude.{
  ℕ, zero, suc, String, ◌≡◌, refl, ap, Bool, true, false, not, ◌&&◌, Option, none, some, List, [],
  ◌∷◌, arith, ◌==◌, eq_iff, if◌then◌else◌, All, contains, Result, ok, ℤ, pos, negsuc,
}

-- The value that a list of entries gives a key.
unfoldable pub entry : List (String × Option Value) → Find
entry [] k = none
entry ((j, e) ∷ es) k = let rest = entry es k in if j == k then e else rest

unfoldable pub names : List (String × Option Value) → List String
names [] = []
names ((j, e) ∷ es) = j ∷ names es

-- No text stands twice in the list, as a test.
unfoldable pub distinct : List String → Bool
distinct [] = true
distinct (x ∷ xs) = not (contains xs x) && distinct xs

find-present_absent :
    (es : List (String × Option Value)) (k : String)
    → contains (names es) k ≡ false
    → find (present es) k ≡ none
unfolding find present names contains
find-present_absent [] k h = refl
find-present_absent ((j, none) ∷ es) k h = find-present_absent es k (ground arith)
find-present_absent ((j, some v) ∷ es) k h = ground (arith, find-present_absent es k)

-- A map that is written from entries with different keys has them.
pub find-present :
    (es : List (String × Option Value)) (k : String)
    → distinct (names es) ≡ true
    → find (present es) k ≡ entry es k
unfolding find present names entry distinct
find-present [] k h = refl
find-present ((j, none) ∷ es) k h =
    ground (arith, find-present es k, find-present_absent es k, eq_iff j k)
find-present ((j, some v) ∷ es) k h = ground (arith, find-present es k)

abbrev pub Every : {A : Type 0} → (A → Type 0) → Option A → Type 0
Every P none = Unit
Every P (some x) = P x

pub text_trip : (k : String) (s : String) → text_of k (text_entry s) ≡ ok s
unfolding text_of text_entry
text_trip k s = ground (arith, eq_iff s "")

pub bool_trip : (k : String) (b : Bool) → bool_of k (bool_entry b) ≡ ok b
unfolding bool_of bool_entry
bool_trip k true = refl
bool_trip k false = refl

pub int_trip : (truncate : String → ℤ) (k : String) (z : ℤ) → int_of truncate k (int_entry z) ≡ ok z
unfolding int_of int_entry
int_trip truncate k (pos zero) = refl
int_trip truncate k (pos (suc n)) = refl
int_trip truncate k (negsuc n) = refl

pub strings_trip : (k : String) (ss : List String) → strings_of k (strings_entry ss) ≡ ok ss
unfolding strings_of strings_entry
strings_trip k [] = refl
strings_trip k (s ∷ ss) = refl

pub fields_trip :
    (k : String) (fs : Fields) → has_null fs ≡ false → fields_of k (fields_entry fs) ≡ ok fs
unfolding fields_of fields_entry
fields_trip k end h = refl
fields_trip k (field j v fs) h = rw (h) refl

module _ {A : Type 0} (parse : Find → Result ParseError A) (to_map : A → Fields) where
  pub nested_trip :
      (k : String) (x : A)
      → parse (find (to_map x)) ≡ ok x
      → nested_of parse k (fields_entry (to_map x)) ≡ ok x
  unfolding nested_of fields_entry find
  nested_trip k x h = nested_case (to_map x) h
    where
      nested_case :
          (fs : Fields) → parse (find fs) ≡ ok x → nested_of parse k (fields_entry fs) ≡ ok x
      nested_case end p = ap (wrapped (in_field k)) p
      nested_case (field j v fs) p = ap (wrapped (in_field k)) p

  pub option_trip :
      (k : String) (m : Option A)
      → Every (λ x. parse (find (to_map x)) ≡ ok x) m
      → option_of parse k (option_entry to_map m) ≡ ok m
  unfolding option_of option_entry
  option_trip k none h = refl
  option_trip k (some x) h = rw (h) refl

  items_trip :
      (k : String) (i : ℕ) (xs : List A)
      → All (λ x. parse (find (to_map x)) ≡ ok x) xs
      → items_of parse k i (to_items to_map xs) ≡ ok xs
  unfolding items_of to_items
  items_trip k i [] h = refl
  items_trip k i (x ∷ xs) h = rw (h.0, items_trip k (suc i) xs h.1) refl

  pub list_trip :
      (k : String) (xs : List A)
      → All (λ x. parse (find (to_map x)) ≡ ok x) xs
      → list_of parse k (list_entry to_map xs) ≡ ok xs
  unfolding list_of list_entry
  list_trip k [] h = refl
  list_trip k (x ∷ xs) h = items_trip k 0 (x ∷ xs) h

pub All-every {κ} : {A : Type 0} (P : A → Type κ) → ((x : A) → P x) → (xs : List A) → All P xs
All-every P f [] = tt
All-every P f (x ∷ xs) = (f x, All-every P f xs)

pub Every-Every : {A : Type 0} (P : A → Type 0) → ((x : A) → P x) → (m : Option A) → Every P m
Every-Every P f none = tt
Every-Every P f (some x) = f x
