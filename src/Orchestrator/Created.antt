-- ===== src/Orchestrator/Created.antt =====
-- pkg/orchestrator/orchestrator.go, `Create`: what stands at its end.
use testenv_vm.Api.{ResourceRef, Spec, Failure, EnvironmentState, creating, ready, failed}
use testenv_vm.Spec.Context.{new_template_context}
use testenv_vm.Executor.Backend.{Backend}
use testenv_vm.Executor.Delete.{Teardown, rollback}
use testenv_vm.Orchestrator.{
  Services, Config, CreateInput, add_all, initial_state, Created, start_all, unparsable, invalid,
  no_directory, not_started, not_built, not_sorted, state_not_saved, creation_failed,
  ready_not_saved, no_default_provider,
}
use testenv_vm.Executor.Completion.{IsDone}
use testenv_vm.Executor.Isolation.{IsolationConfig}
use testenv_vm.Executor.Phases.{ExecutionResult, execute_create}
use testenv_vm.Executor.Create.{Plan}
use testenv_vm.Spec.Validator.Phases.{validate_early}
use testenv_vm.Spec.Validator.{no_default_provider}
use testenv_vm.Dag.Build.{resource_refs, build_dag}
use testenv_vm.Dag.Sort.{phase_keys}
use testenv_vm.Dag.{Dag, node_key}
use testenv_vm.Codec.FromMap.{spec_from_map}
use testenv_vm.Prelude.{
  String, ◌≡◌, true, false, Option, none, some, List, [], map, if◌then◌else◌, All, is_empty,
  contains, ok, err,
}

module _ {W : Type 0} (s : Services W) (config : Config) (input : CreateInput) where
  -- The specification of the input has a plan that holds its resources and nothing else, and each of
  -- the keys, networks and VMs in it is ready.
  abbrev pub IsComplete : EnvironmentState → Type 0
  IsComplete env =
      (spec : Spec) × (spec_from_map s.truncate input.spec ≡ ok spec)
      × (plan : List (List ResourceRef)) × All (All (IsDone env)) plan
      × ((k : String)
          → contains (phase_keys plan) k ≡ contains (map node_key (resource_refs spec)) k)

  -- The run of `ExecuteCreate` that `Create` makes: over the plan of the specification, from its initial
  -- state, which a save without an error has stored.
  abbrev pub IsRun : ExecutionResult W → Type 0
  IsRun r =
      (p : Plan) × (spec_from_map s.truncate input.spec ≡ ok p.spec)
      × (dir : String) × (plan : List (List ResourceRef)) × (before after : W) × (s.backend.save
            (initial_state input p.spec dir plan) before
          ≡ (none, after))
      × (r
          ≡ execute_create s.backend p plan (record {
            env = initial_state input p.spec dir plan;
            ctx = record new_template_context { env = add_all input.env [] };
            world = after;
          }))

  -- The run succeeded, and its environment is the one that is marked as ready; `saved` is what the save
  -- of it has returned.
  abbrev pub IsReadied : EnvironmentState → Option String → W → Type 0
  IsReadied env saved w =
      (env.status ≡ ready)
      × IsComplete env
      × (r : ExecutionResult W) × IsRun r
      × (r.success ≡ true)
      × (env ≡ record r.run.env { status = ready })
      × (s.backend.save env r.run.world ≡ (saved, w))

  -- What a failed run leaves before it is saved, with the rollback where the configuration wants it.
  abbrev pub left_by : ExecutionResult W → IsolationConfig → Teardown W
  left_by r iso =
      let run : Teardown W = record { env = r.run.env; world = r.run.world } in
      let undone = (rollback s.backend (some iso) run).1 in
      if config.cleanup_on_failure then undone else run

  -- The run failed with these errors, and its environment, rolled back or not, is saved as failed. The
  -- error of that save is only logged.
  abbrev pub IsUndone : List Failure → W → Type 0
  IsUndone es w =
      (is_empty es ≡ false)
      × (r : ExecutionResult W) × IsRun r
      × (r.success ≡ false)
      × (r.errors ≡ es)
      × (iso : IsolationConfig) × (w
          ≡ (s.backend.save (record (left_by r iso).env { status = failed })
              (left_by r iso).world).1)

  abbrev pub Outcome : W → Created s config → Type 0
  Outcome w₀ (ok result, w) = IsReadied result.env none w
  Outcome w₀ (err (creation_failed es), w) = IsUndone es w
  Outcome w₀ (err no_default_provider, w) = (env : EnvironmentState) × IsReadied env none w
  Outcome w₀ (err (ready_not_saved e), w) = (env : EnvironmentState) × IsReadied env (some e) w
  Outcome w₀ (err (state_not_saved e), w) =
      (env : EnvironmentState) × (before : W) × (env.status ≡ creating)
      × (s.backend.save env before ≡ (some e, w))
  Outcome w₀ (err not_sorted, w) = ⊥
  Outcome w₀ (err (not_built e), w) =
      (spec : Spec) × (spec_from_map s.truncate input.spec ≡ ok spec) × (build_dag spec ≡ err e)
  Outcome w₀ (err (not_started name message), w) =
      (spec : Spec) × (spec_from_map s.truncate input.spec ≡ ok spec)
      × (before : W) × (start_all s config spec.providers before ≡ (some (name, message), w))
  Outcome w₀ (err (no_directory e), w) =
      s.make_dir (s.backend.join_path input.tmp_dir input.test_id) w₀ ≡ (some e, w)
  Outcome w₀ (err (invalid e), w) =
      (w ≡ w₀)
      × (spec : Spec) × (spec_from_map s.truncate input.spec ≡ ok spec)
      × (validate_early spec ≡ err e)
  Outcome w₀ (err (unparsable e), w) = (w ≡ w₀) × (spec_from_map s.truncate input.spec ≡ err e)
