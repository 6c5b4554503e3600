-- ===== src/Orchestrator.antt =====
-- pkg/orchestrator/orchestrator.go: `Create` and `Delete`, over the executor. The artifact is in
-- Orchestrator/Artifact.antt.
-- Time stamps are left out, as in the state, and so is the log.
use testenv_vm.Prelude.{
  if◌then◌else◌, Dict, insert, keys, Result, ok, err, ℤ, String, Bool, ◌||◌, Option, none, some,
  List, [], ◌∷◌, ◌==◌,
}
use testenv_vm.Executor.Prefix.{Digests, new_isolation_config}
use testenv_vm.Executor.Isolation.{IsolationConfig}
use testenv_vm.Executor.Delete.{Teardown, execute_delete, rollback}
use testenv_vm.Executor.Phases.{ExecutionResult, execute_create}
use testenv_vm.Executor.Create.{or_else, flagged_provider, Plan}
use testenv_vm.Executor.Backend.{Backend}
use testenv_vm.Spec.Validator.References.{TemplatedFields}
use testenv_vm.Spec.Validator.Phases.{validate_early}
use testenv_vm.Spec.Validator.{ValidationError}
use testenv_vm.Spec.Context.{TemplateContext, new_template_context}
use testenv_vm.Dag.Build.{BuildError, build_dag}
use testenv_vm.Dag.{Dag, Sorted, topological_sort, phases}
use testenv_vm.Codec.FromMap.{spec_from_map}
use testenv_vm.Codec.{ParseError, Find}
use testenv_vm.Api.{
  ProviderConfig, ResourceRef, NetworkResource, Spec, Failure, EnvironmentState, creating, ready,
  failed, destroying,
}
use text.Mathlib.Text.{starts_with}
pub mod Artifact
pub mod Created
pub mod Deleted
pub mod Stored
pub mod Managed

-- The error of `store.Load`: what `os.IsNotExist` says of it, and its text.
pub record LoadError : Type 0 where
  pub is_not_exist : Bool
  pub message : String

-- What the orchestrator calls, over the state `W` of the world outside: packages os, strings and
-- path/filepath, encoding/json behind the state store, and the provider manager. An `Option String`
-- is an error, by its text.
pub record Services (W : Type 0) : Type 0 where
  pub backend : Backend W
  pub digests : Digests
  -- the conversion of a float64 to an int
  pub truncate : String → ℤ
  pub make_dir : String → W → Option String × W
  pub remove_all : String → W → Option String × W
  pub to_lower : String → String
  -- `manager.Start` and `manager.GetInfo`
  pub start : ProviderConfig → W → Option String × W
  pub is_known : String → W → Bool
  -- `store.Load` and `store.Delete`
  pub load : String → W → Result LoadError EnvironmentState
  pub remove_state : String → W → Option String × W

pub record Config : Type 0 where
  pub state_dir : String
  pub image_cache_dir : String
  pub cleanup_on_failure : Bool

-- The directory of the image cache, by the configuration and the environment variable.
unfoldable image_cache_directory : Config → String → String
image_cache_directory config variable =
    or_else (or_else config.image_cache_dir variable) "/tmp/testenv-vm/images"

pub record CreateInput : Type 0 where
  pub test_id : String
  pub stage : String
  pub tmp_dir : String
  pub spec : Find
  pub env : Dict String

pub data CreateError : Type 0 where
  unparsable : ParseError → CreateError
  invalid : ValidationError → CreateError
  no_directory : String → CreateError
  not_started : String → String → CreateError
  not_built : BuildError → CreateError
  not_sorted : CreateError
  state_not_saved : String → CreateError
  creation_failed : List Failure → CreateError
  ready_not_saved : String → CreateError
  no_default_provider : CreateError

-- `CreateResult`: the artifact is a function of the state, and the provisioner holds the state, the
-- context and its default provider.
pub record CreateResult : Type 0 where
  pub env : EnvironmentState
  pub ctx : TemplateContext
  pub default_provider : String

unfoldable pub build_execution_plan : List (List ResourceRef) → Option (List (List ResourceRef))
build_execution_plan [] = none
build_execution_plan (phase ∷ plan) = some (phase ∷ plan)

-- `for k, v := range input.Env { templateCtx.Env[k] = v }`
unfoldable pub add_all : Dict String → Dict String → Dict String
add_all [] m = m
add_all ((k, v) ∷ rest) m = add_all rest (insert k v m)

unfoldable pub initial_state :
    CreateInput → Spec → String → List (List ResourceRef) → EnvironmentState
unfolding build_execution_plan
initial_state input spec dir plan = record {
  id = input.test_id;
  stage = input.stage;
  status = creating;
  spec = some spec;
  resources = record { keys = []; networks = []; vms = [] };
  execution_plan = build_execution_plan plan;
  errors = [];
  artifact_dir = dir;
}

-- `NewRuntimeProvisioner` looks for the default provider; its arguments are not nil here.
unfoldable pub runtime_provider : Spec → Option String
unfolding flagged_provider
runtime_provider spec =
    let name = or_else spec.default_provider (flagged_provider spec.providers) in
    if name == "" then none else some name

-- A part of the text starts with the other one.
unfoldable pub mentions : String → String → Bool
mentions String.[] part = starts_with String.[] part
mentions (String.◌∷◌ c s) part =
    let rest = mentions s part in starts_with (String.◌∷◌ c s) part || rest

module _ {W : Type 0} (s : Services W) (config : Config) where
  abbrev pub Created : Type 0
  Created = Result CreateError CreateResult × W

  unfoldable pub start_all : List ProviderConfig → W → Option (String × String) × W
  start_all [] w = (none, w)
  start_all (p ∷ ps) w =
      let (e, w₁) = s.start p w in
      let rest = start_all ps w₁ in
      elim e [ none ↦ rest | some message ↦ (some (p.name, message), w₁) ]

  -- A run that failed is rolled back where the configuration says so, and saved as failed.
  unfoldable pub finish_failed : IsolationConfig → ExecutionResult W → Created
  finish_failed iso r =
      let run : Teardown W = record { env = r.run.env; world = r.run.world } in
      let undone = (rollback s.backend (some iso) run).1 in
      let ended = if config.cleanup_on_failure then undone else run in
      let (saved, w) = s.backend.save (record ended.env { status = failed }) ended.world in
      (err (creation_failed r.errors), w)

  unfoldable pub hand_over :
      EnvironmentState → TemplateContext → Option String → Option String × W → Created
  hand_over env ctx provider (some e, w) = (err (ready_not_saved e), w)
  hand_over env ctx none (none, w) = (err no_default_provider, w)
  hand_over env ctx (some name) (none, w) =
      (ok (record { env = env; ctx = ctx; default_provider = name }), w)

  unfoldable pub finish_ready : Spec → ExecutionResult W → Created
  unfolding runtime_provider hand_over
  finish_ready spec r =
      let env = record r.run.env { status = ready } in
      hand_over env r.run.ctx (runtime_provider spec) (s.backend.save env r.run.world)

  unfoldable pub conclude : Spec → IsolationConfig → ExecutionResult W → Created
  unfolding finish_failed finish_ready
  conclude spec iso r =
      let done = finish_ready spec r in
      let undone = finish_failed iso r in if r.success then done else undone

  module _ (input : CreateInput) where
    -- The initial state is saved, and the phases run.
    unfoldable pub run_plan :
        Plan
        → IsolationConfig
        → List (List ResourceRef)
        → EnvironmentState
        → Option String × W
        → Created
    unfolding conclude add_all
    run_plan p iso plan env (some e, w) = (err (state_not_saved e), w)
    run_plan p iso plan env (none, w) =
        let ctx = record new_template_context { env = add_all input.env [] } in
        conclude p.spec iso
          (execute_create s.backend p plan (record { env = env; ctx = ctx; world = w }))

    unfoldable pub create_sorted : Plan → IsolationConfig → String → Sorted → W → Created
    unfolding run_plan initial_state
    create_sorted p iso dir (phases plan) w =
        let env = initial_state input p.spec dir plan in
        run_plan p iso plan env (s.backend.save env w)
    create_sorted p iso dir _ w = (err not_sorted, w)

    unfoldable pub create_built :
        Plan → IsolationConfig → String → Result BuildError Dag → W → Created
    unfolding create_sorted
    create_built p iso dir (err e) w = (err (not_built e), w)
    create_built p iso dir (ok d) w = create_sorted p iso dir (topological_sort d) w

    unfoldable pub create_started :
        Plan → IsolationConfig → String → Option (String × String) × W → Created
    unfolding create_built
    create_started p iso dir (some (name, message), w) = (err (not_started name message), w)
    create_started p iso dir (none, w) = create_built p iso dir (build_dag p.spec) w

    unfoldable pub create_in : Plan → IsolationConfig → String → Option String × W → Created
    unfolding create_started start_all
    create_in p iso dir (some e, w) = (err (no_directory e), w)
    create_in p iso dir (none, w) = create_started p iso dir (start_all p.spec.providers w)

    unfoldable pub create_valid :
        Spec → IsolationConfig → Result ValidationError TemplatedFields → W → Created
    unfolding create_in
    create_valid spec iso (err e) w = (err (invalid e), w)
    create_valid spec iso (ok templated) w =
        let dir = s.backend.join_path input.tmp_dir input.test_id in
        create_in (record { spec = spec; templated = some templated; iso = some iso }) iso dir
          (s.make_dir dir w)

    unfoldable pub create_parsed : Result ParseError Spec → W → Created
    unfolding create_valid
    create_parsed (err e) w = (err (unparsable e), w)
    create_parsed (ok spec) w =
        create_valid spec (new_isolation_config s.digests input.test_id spec.networks)
          (validate_early spec) w

    unfoldable pub create_environment : W → Created
    unfolding create_parsed
    create_environment w = create_parsed (spec_from_map s.truncate input.spec) w

  unfoldable pub is_not_found_error : LoadError → Bool
  unfolding mentions
  is_not_found_error e =
      let lowered = s.to_lower e.message in
      mentions lowered "not found" || mentions lowered "does not exist"

  -- The providers that are not known yet are started; their errors are only logged.
  unfoldable pub start_unknown : List ProviderConfig → W → W
  start_unknown [] w = w
  start_unknown (p ∷ ps) w =
      let skipped = start_unknown ps w in
      let started = start_unknown ps (s.start p w).1 in
      if s.is_known p.name w then skipped else started

  abbrev providers_of : Option Spec → List ProviderConfig
  providers_of none = []
  providers_of (some spec) = spec.providers

  abbrev networks_of : Option Spec → List NetworkResource
  networks_of none = []
  networks_of (some spec) = spec.networks

  -- The state file and the artifact directory.
  unfoldable pub clean_up : String → String → W → W
  clean_up test_id dir w =
      let w₁ = (s.remove_state test_id w).1 in
      let w₂ = (s.remove_all dir w₁).1 in if dir == "" then w₁ else w₂

  -- What follows a successful `Load`. Each error is only logged.
  unfoldable pub delete_loaded : String → EnvironmentState → W → W
  unfolding start_unknown clean_up
  delete_loaded test_id loaded w =
      let env = record loaded { status = destroying } in
      let w₁ = (s.backend.save env w).1 in
      let w₂ = start_unknown (providers_of env.spec) w₁ in
      let iso = new_isolation_config s.digests test_id (networks_of env.spec) in
      let ended = (execute_delete s.backend (some iso) (record { env = env; world = w₂ })).1 in
      clean_up test_id ended.env.artifact_dir ended.world

  unfoldable pub delete_from : String → Result LoadError EnvironmentState → W → Option LoadError × W
  unfolding is_not_found_error delete_loaded
  delete_from test_id (err e) w =
      if e.is_not_exist || is_not_found_error e then (none, w) else (some e, w)
  delete_from test_id (ok env) w = (none, delete_loaded test_id env w)

  unfoldable pub delete_environment : String → W → Option LoadError × W
  unfolding delete_from
  delete_environment test_id w = delete_from test_id (s.load test_id w) w
