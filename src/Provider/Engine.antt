-- ===== src/Provider/Engine.antt =====
-- pkg/provider/manager.go: `resolveEngine`.
-- `exec.Command(program, arguments...)`
use testenv_vm.Prelude.{
  ℕ, zero, suc, String, Bool, false, not, ◌&&◌, ◌||◌, Option, none, some, List, [], ◌∷◌, ◌==◌, eqb,
  if◌then◌else◌, Result, ok, err,
}
use mathlib.Core.Option
use Prim.Native.String.{◌++◌ as str_append, count}
use Prim.Native.Char.{code}
use text.Mathlib.Text.{starts_with}

pub record Command : Type 0 where
  pub program : String
  pub arguments : List String

pub data EngineError : Type 0 where
  version_on_internal : String → String → EngineError
  local_disabled : String → EngineError
  binary_missing : String → EngineError

-- What the resolution reads: packages os, os/exec, strings and path/filepath. An error is `none`.
pub record Host : Type 0 where
  -- `os.Getenv("FORGE_RUN_LOCAL_ENABLED") == "true"`
  pub run_local : Bool
  pub working_directory : Option String
  pub exists : String → Bool
  pub in_path : String → Bool
  pub read_file : String → Option String
  pub is_absolute : String → Bool
  pub join_path : String → String → String
  pub parent : String → String
  -- `strings.Split(s, "\n")` and `strings.TrimSpace`
  pub lines : String → List String
  pub trim_space : String → String

-- The text after a prefix that it has, `strings.TrimPrefix`.
unfoldable pub trim_prefix : String → String → String
trim_prefix s String.[] = s
trim_prefix String.[] (String.◌∷◌ c p) = String.[]
trim_prefix (String.◌∷◌ d s) (String.◌∷◌ c p) =
    let rest = trim_prefix s p in
    if starts_with (String.◌∷◌ d s) (String.◌∷◌ c p) then rest else String.◌∷◌ d s

-- The path, and the version from the first `@` on.
unfoldable pub strip_version : String → String × String
strip_version String.[] = (String.[], String.[])
strip_version (String.◌∷◌ c s) =
    let (path, version) = strip_version s in
    if eqb (code c) b'@' then (String.[], String.◌∷◌ c s) else (String.◌∷◌ c path, version)

abbrev pub has_char : ℕ → String → Bool
has_char n String.[] = false
has_char n (String.◌∷◌ c s) = eqb (code c) n || has_char n s

-- What stands before the first slash.
abbrev pub first_segment : String → String
first_segment String.[] = String.[]
first_segment (String.◌∷◌ c s) =
    let rest = first_segment s in if eqb (code c) b'/' then String.[] else String.◌∷◌ c rest

unfoldable pub is_external_module : String → Bool
is_external_module path =
    not (path == "")
    && not (starts_with path "./" || starts_with path "../")
    && has_char b'/' path
    && has_char b'.' (first_segment path)

module _ (host : Host) where
  -- The line of `readModulePath` that decides.
  unfoldable pub module_line : List String → String
  module_line [] = ""
  module_line (raw ∷ rest) =
      let line = host.trim_space raw in
      let later = module_line rest in
      if starts_with line "module " then host.trim_space (trim_prefix line "module ") else later

  unfoldable pub read_module_path : String → String
  unfolding module_line trim_prefix
  read_module_path path = elim (host.read_file path) [
    | none ↦ ""
    | some content ↦ module_line (host.lines content)
  ]

  -- The walk up to the nearest go.work; `none` where the fuel runs out.
  unfoldable pub find_go_work : ℕ → String → Option (Option String)
  find_go_work zero d = none
  find_go_work (suc fuel) d =
      let up = find_go_work fuel (host.parent d) in
      if host.exists (host.join_path d "go.work")
      then some (some d)
      else if host.parent d == d
      then some none
      else up

  -- A line of go.work that names no directory.
  unfoldable pub is_skipped : String → Bool
  is_skipped line =
      line == ""
      || starts_with line "go "
      || starts_with line "//"
      || line == "use ("
      || line == ")"
      || line == "use"

  unfoldable pub is_member : String → String → String → Bool
  unfolding read_module_path
  is_member work_dir module_path use_dir =
      let absolute =
        if host.is_absolute use_dir then use_dir else host.join_path work_dir use_dir in
      let path = read_module_path (host.join_path absolute "go.mod") in
      not (path == "") && starts_with module_path path

  unfoldable pub uses_module : String → String → List String → Bool
  unfolding is_skipped is_member trim_prefix
  uses_module work_dir module_path [] = false
  uses_module work_dir module_path (raw ∷ rest) =
      let line = host.trim_space raw in
      let use_dir = host.trim_space (trim_prefix line "use ") in
      let later = uses_module work_dir module_path rest in
      if is_skipped line || use_dir == "" || use_dir == "("
      then later
      else is_member work_dir module_path use_dir || later

  unfoldable pub in_work_file : String → Option String → Bool
  unfolding uses_module
  in_work_file module_path none = false
  in_work_file module_path (some work_dir) =
      elim (host.read_file (host.join_path work_dir "go.work")) [
        | none ↦ false
        | some content ↦ uses_module work_dir module_path (host.lines content)
      ]

  -- No walk is longer than the path that it starts from.
  unfoldable pub is_workspace_module : String → Option Bool
  unfolding find_go_work in_work_file
  is_workspace_module module_path = elim host.working_directory [
    | none ↦ some false
    | some d ↦ Option.map (in_work_file module_path) (find_go_work (suc (count d)) d)
  ]

  abbrev pub go_run : String → Command
  go_run package_path = record { program = "go"; arguments = "run" ∷ package_path ∷ "--mcp" ∷ [] }

  -- The workspace copy of an external module is used where local runs are enabled.
  unfoldable pub is_local_copy : String → Bool
  unfolding is_workspace_module
  is_local_copy path =
      host.run_local && elim (is_workspace_module path) [ none ↦ false | some found ↦ found ]

  unfoldable pub resolve_external : String → String → Command
  unfolding is_local_copy
  resolve_external path version =
      if is_local_copy path
      then go_run path
      else go_run (str_append path (if version == "" then "@latest" else version))

  unfoldable pub resolve_internal : String → String → String → Result EngineError Command
  resolve_internal engine path version =
      if not (version == "")
      then err (version_on_internal engine version)
      else if host.run_local
      then ok (
          go_run (
            if starts_with path "./" || starts_with path "../" then path else str_append "./" path))
      else err (local_disabled engine)

  unfoldable pub resolve_go_engine : String → Result EngineError Command
  unfolding strip_version is_external_module resolve_external resolve_internal trim_prefix
  resolve_go_engine engine =
      let (path, version) = strip_version (trim_prefix engine "go://") in
      if is_external_module path
      then ok (resolve_external path version)
      else resolve_internal engine path version

  unfoldable pub resolve_binary_engine : String → Result EngineError Command
  resolve_binary_engine engine =
      if host.in_path engine || host.exists engine
      then ok (record { program = engine; arguments = "--mcp" ∷ [] })
      else err (binary_missing engine)

  unfoldable pub resolve_engine : String → Result EngineError Command
  unfolding resolve_go_engine resolve_binary_engine
  resolve_engine engine =
      if starts_with engine "go://" then resolve_go_engine engine else resolve_binary_engine engine
