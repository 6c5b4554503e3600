-- ===== src/Store/Listing.antt =====
-- pkg/state/store.go, `List` and `Exists`: the identifiers of the state files. `os.ReadDir` and
-- `os.Stat` are parameters.
use testenv_vm.Prelude.{
  if◌then◌else◌, is_some, Result, ok, err, String, Bool, true, false, ◌&&◌, Option, none, some,
  List, [], ◌∷◌, ◌==◌,
}
use testenv_vm.Store.{
  FileError, StoreError, Files, state_dir, state_path, not_exist, other_error, read_failed,
}
pub mod Exact
use Prim.Native.Char.{Char}
use Prim.Native.String.{◌++◌ as str_append}
use text.Mathlib.Text.{starts_with}

-- A file of a directory.
pub record Entry : Type 0 where
  pub name : String
  pub is_dir : Bool

pub record Directories (W : Type 0) : Type 0 where
  pub read_dir : String → W → Result FileError (List Entry)
  pub stat : String → W → Result FileError Entry

abbrev pub before_rest : Char → Option String → Option String
before_rest c none = none
before_rest c (some a) = some (String.◌∷◌ c a)

-- What stands before a suffix.
pub before_suffix : String → String → Option String
before_suffix String.[] t = if t == "" then some "" else none
before_suffix (String.◌∷◌ c s) t =
    let rest = before_rest c (before_suffix s t) in if String.◌∷◌ c s == t then some "" else rest

-- `strings.HasSuffix`
abbrev pub has_suffix : String → String → Bool
has_suffix s t = is_some (before_suffix s t)

-- `strings.TrimSuffix`
abbrev pub trim_suffix : String → String → String
trim_suffix s t = elim (before_suffix s t) [ none ↦ s | some a ↦ a ]

-- What stands after a prefix.
pub after_prefix : String → String → Option String
after_prefix s String.[] = some s
after_prefix String.[] (String.◌∷◌ c p) = none
after_prefix (String.◌∷◌ d s) (String.◌∷◌ c p) =
    let rest = after_prefix s p in if String.◌∷◌ d "" == String.◌∷◌ c "" then rest else none

-- `strings.HasPrefix`
abbrev pub has_prefix : String → String → Bool
has_prefix s p = is_some (after_prefix s p)

-- `strings.TrimPrefix`
abbrev pub trim_prefix : String → String → String
trim_prefix s p = elim (after_prefix s p) [ none ↦ s | some r ↦ r ]

abbrev pub state_file_prefix : String
state_file_prefix = "testenv-"

abbrev pub state_file_suffix : String
state_file_suffix = ".json"

abbrev pub file_id : String → String
file_id name = trim_suffix (trim_prefix name state_file_prefix) state_file_suffix

-- The `for` over the entries.
pub list_ids : List Entry → List String
list_ids [] = []
list_ids (entry ∷ entries) =
    let rest = list_ids entries in
    if entry.is_dir
    then rest
    else if has_prefix entry.name state_file_prefix && has_suffix entry.name state_file_suffix
    then (if file_id entry.name == "" then rest else file_id entry.name ∷ rest)
    else rest

unfoldable pub listed_ids : Result FileError (List Entry) → Result StoreError (List String)
unfolding list_ids after_prefix before_suffix
listed_ids (err not_exist) = ok []
listed_ids (err (other_error e)) = err (read_failed (other_error e))
listed_ids (ok entries) = ok (list_ids entries)

module _ {W : Type 0} (fs : Files W) (ds : Directories W) (base_dir : String) where
  unfoldable pub list : W → Result StoreError (List String)
  unfolding listed_ids
  list w = listed_ids (ds.read_dir (state_dir fs base_dir) w)

  unfoldable pub exists : String → W → Bool
  exists id w =
      if id == ""
      then false
      else elim (ds.stat (state_path fs base_dir id) w) [ ok _ ↦ true | err e ↦ false ]
