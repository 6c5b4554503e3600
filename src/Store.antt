-- ===== src/Store.antt =====
-- pkg/state/store.go: saving, loading and deleting state files; `List` and `Exists` are in
-- Store/Listing.antt. The file system and encoding/json are parameters.
use testenv_vm.Prelude.{String, Option, none, some, ◌==◌, if◌then◌else◌, Result, ok, err}
pub mod Laws
pub mod Listing
use Prim.Native.String.{◌++◌ as str_append, count}
use text.Mathlib.TextLemmas.{length-append}
use testenv_vm.Api.{EnvironmentState}

pub data FileError : Type 0 where
  not_exist : FileError
  other_error : String → FileError

pub data StoreError : Type 0 where
  empty_id not_found : StoreError
  mkdir_failed write_failed rename_failed read_failed delete_failed : FileError → StoreError
  marshal_failed parse_failed : StoreError

-- Package os over a type `W` of file systems, `filepath.Join`, and encoding/json.
pub record Files (W : Type 0) : Type 0 where
  pub mkdir_all : String → W → Result FileError (Unit {0}) × W
  pub write_file : String → String → W → Result FileError (Unit {0}) × W
  pub rename : String → String → W → Result FileError (Unit {0}) × W
  pub remove_file : String → W → Result FileError (Unit {0}) × W
  pub read_file : String → W → Result FileError String
  pub join_path : String → String → String
  pub marshal : EnvironmentState → Option String
  pub unmarshal : String → Option EnvironmentState

abbrev pub parsed : Option EnvironmentState → Result StoreError EnvironmentState
parsed none = err parse_failed
parsed (some state) = ok state

module _ {W : Type 0} (fs : Files W) (base_dir : String) where
  unfoldable pub state_dir : String
  state_dir = fs.join_path base_dir "state"

  unfoldable pub state_path : String → String
  unfolding state_dir
  state_path id = fs.join_path state_dir (str_append "testenv-" (str_append id ".json"))

  abbrev pub temp_path : String → String
  temp_path id = str_append (state_path id) ".tmp"

  -- The rename; its failure removes the temporary file.
  unfoldable pub install :
      String → Result FileError (Unit {0}) × W → Result StoreError (Unit {0}) × W
  install id (ok _, w) = (ok tt, w)
  install id (err e, w) = (err (rename_failed e), (fs.remove_file (temp_path id) w).1)

  unfoldable pub write_state :
      String → Result FileError (Unit {0}) × W → Result StoreError (Unit {0}) × W
  unfolding install
  write_state id (err e, w) = (err (write_failed e), w)
  write_state id (ok _, w) = install id (fs.rename (temp_path id) (state_path id) w)

  unfoldable pub save_data : String → Option String → W → Result StoreError (Unit {0}) × W
  unfolding write_state
  save_data id none w = (err marshal_failed, w)
  save_data id (some bytes) w = write_state id (fs.write_file (temp_path id) bytes w)

  unfoldable pub save_in :
      EnvironmentState → Result FileError (Unit {0}) × W → Result StoreError (Unit {0}) × W
  unfolding save_data
  save_in state (err e, w) = (err (mkdir_failed e), w)
  save_in state (ok _, w) = save_data state.id (fs.marshal state) w

  unfoldable pub save : EnvironmentState → W → Result StoreError (Unit {0}) × W
  unfolding save_in state_dir
  save state w =
      if state.id == "" then (err empty_id, w) else save_in state (fs.mkdir_all state_dir w)

  unfoldable pub parse : Result FileError String → Result StoreError EnvironmentState
  parse (err not_exist) = err not_found
  parse (err (other_error e)) = err (read_failed (other_error e))
  parse (ok bytes) = parsed (fs.unmarshal bytes)

  unfoldable pub load : String → W → Result StoreError EnvironmentState
  unfolding parse
  load id w = if id == "" then err empty_id else parse (fs.read_file (state_path id) w)

  unfoldable pub deleted : Result FileError (Unit {0}) × W → Result StoreError (Unit {0}) × W
  deleted (ok _, w) = (ok tt, w)
  deleted (err not_exist, w) = (ok tt, w)
  deleted (err (other_error e), w) = (err (delete_failed (other_error e)), w)

  unfoldable pub delete_state : String → W → Result StoreError (Unit {0}) × W
  unfolding deleted
  delete_state id w =
      if id == "" then (err empty_id, w) else deleted (fs.remove_file (state_path id) w)
