-- ===== src/Orchestrator/Stored.antt =====
-- pkg/orchestrator/orchestrator.go, `Delete`, over the store of pkg/state/store.go: the services whose
-- `Load` and `Delete` are those of the store.
-- The text of an error of the store is a parameter but for its start where the state file is missing,
-- which `isNotFoundError` looks for; `os.IsNotExist` does not see through the error of `Load`, which
-- wraps that of the file.
use testenv_vm.Api.{EnvironmentState}
use testenv_vm.Orchestrator.{
  LoadError, Services, Config, mentions, is_not_found_error, delete_environment,
}
use testenv_vm.Store.{
  FileError, StoreError, Files, state_path, parse, load, deleted, delete_state, not_exist,
  other_error, not_found,
}
use testenv_vm.Prelude.{
  String, ◌≡◌, refl, sym, subst, true, false, Option, none, some, arith, ◌==◌, Result, ok, err,
}
use Prim.Native.String.{◌++◌ as str_append}
use text.Mathlib.Text.{starts_with}
use text.Mathlib.TextLemmas.{nil-append, cons-append}
use text.Mathlib.TextPositions.{starts_with-append}
use testenv_vm.Orchestrator.Deleted.{
  IsMissing, missing-delete_environment, delete_environment-IsMissing,
}

mentions-here : (s part : String) → starts_with s part ≡ true → mentions s part ≡ true
unfolding mentions
mentions-here String.[] part h = h
mentions-here (String.◌∷◌ c s) part h = ground arith

mentions-after :
    (p s part : String) → mentions s part ≡ true → mentions (str_append p s) part ≡ true
unfolding mentions
mentions-after String.[] s part h = rw (nil-append s) h
mentions-after (String.◌∷◌ c p) s part h =
    rw (cons-append c p s) (ground (arith, mentions-after p s part h))

-- A text that starts with `state not found`.
abbrev pub state_not_found : String → String
state_not_found rest = str_append "state " (str_append "not found" rest)

state_not_found-mentions : (rest : String) → mentions (state_not_found rest) "not found" ≡ true
state_not_found-mentions rest =
    mentions-after "state " (str_append "not found" rest) "not found" (
      mentions-here (str_append "not found" rest) "not found" (starts_with-append "not found" rest))

-- The texts of the errors: `details` is what follows the first words of a missing state, and `wording` is
-- the text of another error.
abbrev pub error_text : (String → String) → (StoreError → String) → String → StoreError → String
error_text details wording id not_found = state_not_found (details id)
error_text details wording id e = wording e

abbrev pub as_loaded :
    (StoreError → String) → Result StoreError EnvironmentState → Result LoadError EnvironmentState
as_loaded wording (ok a) = ok a
as_loaded wording (err e) = err (record { is_not_exist = false; message = wording e })

abbrev pub as_failure :
    {W : Type 0} → (StoreError → String) → Result StoreError (Unit {0}) × W → Option String × W
as_failure wording (ok u, w) = (none, w)
as_failure wording (err e, w) = (some (wording e), w)

module _ {W : Type 0} (fs : Files W) (base_dir : String) (details : String → String)
    (wording : StoreError → String) (s : Services W) where
  -- The services with the store behind `Load` and `Delete`.
  abbrev pub with_store : Services W
  with_store = record s {
    load = λ id w. as_loaded (error_text details wording id) (load fs base_dir id w);
    remove_state =
        λ id w. as_failure (error_text details wording id) (delete_state fs base_dir id w);
  }

-- `strings.ToLower` changes no lower-case letter.
abbrev pub Lowers : {W : Type 0} → Services W → Type 0
Lowers s = (rest : String) → (r : String) × (s.to_lower (state_not_found rest) ≡ state_not_found r)

module _ {W : Type 0} (fs : Files W) (base_dir : String) (details : String → String)
    (wording : StoreError → String) (s : Services W) (config : Config) (lowers : Lowers s)
    (id : String) (named : (id == "") ≡ false) where
  absent-IsMissing :
      (w : W)
      → fs.read_file (state_path fs base_dir id) w ≡ err not_exist
      → IsMissing (with_store fs base_dir details wording s) config id w
  unfolding load parse is_not_found_error
  absent-IsMissing w absent =
      let (r, lowered) = lowers (details id) in
      (
        record { is_not_exist = false; message = state_not_found (details id) },
        rw (named, absent) refl,
        rw lowered (ground (arith, state_not_found-mentions r)),
      )

  -- Where the state file is missing, `Delete` succeeds and does nothing, although `os.IsNotExist` is
  -- false of the error of `Load`: the text of the error tells.
  pub delete_environment-absent :
      (w : W)
      → fs.read_file (state_path fs base_dir id) w ≡ err not_exist
      → delete_environment (with_store fs base_dir details wording s) config id w ≡ (none, w)
  delete_environment-absent w absent =
      missing-delete_environment (with_store fs base_dir details wording s) config id w
        (absent-IsMissing w absent)

  module _
      (removes : (w : W)
        → fs.read_file (state_path fs base_dir id) (fs.remove_file (state_path fs base_dir id) w).1
          ≡ err not_exist)
      (keeps : (dir : String) (w : W)
        → fs.read_file (state_path fs base_dir id) w ≡ err not_exist
        → fs.read_file (state_path fs base_dir id) (s.remove_all dir w).1 ≡ err not_exist) where
    deleted-world :
        (r : Result FileError (Unit {0}) × W)
        → (as_failure (error_text details wording id) (deleted fs base_dir r)).1 ≡ r.1
    unfolding deleted
    deleted-world (ok u, w') = refl
    deleted-world (err not_exist, w') = refl
    deleted-world (err (other_error e), w') = refl

    delete_state-world :
        (w : W)
        → (as_failure (error_text details wording id) (delete_state fs base_dir id w)).1
          ≡ (fs.remove_file (state_path fs base_dir id) w).1
    unfolding delete_state
    delete_state-world w = rw named (deleted-world (fs.remove_file (state_path fs base_dir id) w))

    -- Where the file system lets the state file be removed, and no removal of a directory brings it back:
    -- after a `Delete` of a named environment that returned no error, a second one succeeds as well, and
    -- does nothing.
    pub delete_environment-twice :
        (w : W)
        → let services = with_store fs base_dir details wording s in
          (delete_environment services config id w).0 ≡ none
          → delete_environment services config id (delete_environment services config id w).1
            ≡ (none, (delete_environment services config id w).1)
    delete_environment-twice w returns =
        missing-delete_environment (with_store fs base_dir details wording s) config id _ (
          delete_environment-IsMissing (with_store fs base_dir details wording s) config id
            (λ w'. fs.read_file (state_path fs base_dir id) w' ≡ err not_exist) absent-IsMissing
            (λ w'.
              subst (λ x. fs.read_file (state_path fs base_dir id) x ≡ err not_exist)
                (sym (delete_state-world w')) (removes w'))
            keeps w returns)
