-- ===== src/Executor/Delete.antt =====
-- pkg/orchestrator/executor.go, `deleteResource` and `ExecuteDelete`, and pkg/orchestrator/rollback.go.
use testenv_vm.Prelude.{
  String, Bool, true, false, not, ◌||◌, Option, none, some, List, [], ◌∷◌, ◌++◌, map, ◌==◌,
  if◌then◌else◌, is_empty, Result, ok, err,
}
use mathlib.Core.Option
use mathlib.Core.List.{reverse}
use testenv_vm.Api.{
  ResourceRef, ResourceState, EnvironmentState, ErrorRecord, Status, failed, destroying, destroyed,
  Failure, unknown_kind, no_provider, call_failed, returned_error, save_failed, delete_failed,
}
use testenv_vm.Api.Provider.{OperationResult, ErrorCode, not_found, delete}
use testenv_vm.Executor.Isolation.{IsolationConfig, prefixed_name}
use testenv_vm.Executor.Backend.{Backend}
use testenv_vm.Executor.Resources.{get_resource_state, update_resource_state}
use testenv_vm.Executor.Create.{error_message}
use testenv_vm.Executor.Phases.{append_failure}

abbrev is_not_found : ErrorCode → Bool
is_not_found not_found = true
is_not_found _ = false

abbrev pub is_destroyed : Status → Bool
is_destroyed destroyed = true
is_destroyed _ = false

-- `result.Error != nil && result.Error.Code == ErrCodeNotFound`
unfoldable pub already_gone : OperationResult → Bool
already_gone r = elim r.error [ none ↦ false | some e ↦ is_not_found e.code ]

unfoldable pub delete_tool : String → Option String
delete_tool kind =
    if kind == "key"
    then some "key_delete"
    else if kind == "network"
    then some "network_delete"
    else if kind == "vm"
    then some "vm_delete"
    else none

-- What a deletion changes: the state of the environment and the world outside.
pub record Teardown (W : Type 0) : Type 0 where
  pub env : EnvironmentState
  pub world : W

abbrev pub phases_of : EnvironmentState → List (List ResourceRef)
phases_of env = elim env.execution_plan [ none ↦ [] | some phases ↦ phases ]

-- The resources that `RollbackPhase` deletes: those in the state that are not destroyed.
unfoldable pub still_there : Option ResourceState → Bool
still_there none = false
still_there (some entry) = not (is_destroyed entry.status)

unfoldable pub to_roll_back : EnvironmentState → List ResourceRef → List ResourceRef
unfolding still_there
to_roll_back env [] = []
to_roll_back env (ref ∷ refs) =
    let rest = to_roll_back env refs in
    if still_there (get_resource_state ref env) then ref ∷ rest else rest

abbrev rollback_record : Failure → ErrorRecord
rollback_record e = record {
  resource = record { kind = ""; name = ""; provider = "" };
  operation = "rollback";
  error = e;
}

-- The final status, and a record for each error.
unfoldable pub close_rollback : List Failure → EnvironmentState → EnvironmentState
close_rollback es env =
    if is_empty es
    then record env { status = destroyed }
    else record env { status = failed; errors = env.errors ++ map rollback_record es }

module _ {W : Type 0} (b : Backend W) (iso : Option IsolationConfig) where
  abbrev mark_destroyed : ResourceRef → String → Teardown W → Teardown W
  mark_destroyed ref provider s = record s {
    env = update_resource_state ref provider destroyed none "" s.env;
  }

  unfoldable pub finish_delete :
      ResourceRef
      → String
      → Result String OperationResult
      → Teardown W
      → Option Failure × Teardown W
  unfolding already_gone
  finish_delete ref provider (err e) s = (some (call_failed e), s)
  finish_delete ref provider (ok r) s =
      if r.success || already_gone r
      then (none, mark_destroyed ref provider s)
      else (some (returned_error (error_message r)), s)

  unfoldable pub send_delete :
      ResourceRef → String → Option String → Teardown W → Option Failure × Teardown W
  unfolding finish_delete
  send_delete ref provider none s = (some (unknown_kind ref.kind), s)
  send_delete ref provider (some tool) s =
      let (result, w) = b.call provider tool (delete (prefixed_name iso ref.name)) s.world in
      finish_delete ref provider result (record s { world = w })

  unfoldable pub call_delete :
      ResourceRef → ResourceState → Teardown W → Option Failure × Teardown W
  unfolding send_delete delete_tool
  call_delete ref entry s =
      if entry.provider == ""
      then (some (no_provider ref), s)
      else send_delete ref entry.provider (delete_tool ref.kind) s

  unfoldable pub delete_found :
      ResourceRef → Option ResourceState → Teardown W → Option Failure × Teardown W
  unfolding call_delete
  delete_found ref none s = (none, s)
  delete_found ref (some entry) s = call_delete ref entry s

  unfoldable pub delete_resource : ResourceRef → Teardown W → Option Failure × Teardown W
  unfolding delete_found
  delete_resource ref s = delete_found ref (get_resource_state ref s.env) s

  unfoldable pub delete_all : List ResourceRef → Teardown W → List Failure × Teardown W
  unfolding delete_resource
  delete_all [] s = ([], s)
  delete_all (ref ∷ refs) s =
      let (e, s₁) = delete_resource ref s in
      let (es, s₂) = delete_all refs s₁ in (append_failure (delete_failed ref) e es, s₂)

  -- The loop of `ExecuteDelete`, over phases that are reversed already.
  unfoldable pub delete_phases : List (List ResourceRef) → Teardown W → List Failure × Teardown W
  unfolding delete_all
  delete_phases [] s = ([], s)
  delete_phases ([] ∷ phases) s = delete_phases phases s
  delete_phases ((ref ∷ refs) ∷ phases) s =
      let (es, s₁) = delete_all (b.schedule (ref ∷ refs)) s in
      let (es', s₂) = delete_phases phases s₁ in (es ++ es', s₂)

  unfoldable pub execute_delete : Teardown W → List Failure × Teardown W
  unfolding delete_phases
  execute_delete s = delete_phases (reverse (phases_of s.env)) s

  -- `store.Save`, with its error if it has one.
  unfoldable pub save_state : Teardown W → List Failure × Teardown W
  save_state s =
      let (saved, w) = b.save s.env s.world in
      (append_failure (λ e. e) (Option.map save_failed saved) [], record s { world = w })

  unfoldable pub rollback_phase : List ResourceRef → Teardown W → List Failure × Teardown W
  unfolding to_roll_back delete_all save_state
  rollback_phase [] s = ([], s)
  rollback_phase (ref ∷ refs) s =
      let (es, s₁) = delete_all (b.schedule (to_roll_back s.env (ref ∷ refs))) s in
      let (es', s₂) = save_state s₁ in (es ++ es', s₂)

  unfoldable pub rollback_phases : List (List ResourceRef) → Teardown W → List Failure × Teardown W
  unfolding rollback_phase
  rollback_phases [] s = ([], s)
  rollback_phases (phase ∷ phases) s =
      let (es, s₁) = rollback_phase phase s in
      let (es', s₂) = rollback_phases phases s₁ in (es ++ es', s₂)

  unfoldable pub rollback : Teardown W → List Failure × Teardown W
  unfolding rollback_phases close_rollback save_state
  rollback s =
      let phases = reverse (phases_of s.env) in
      let (es₁, s₁) = save_state (record s { env = record s.env { status = destroying } }) in
      let (es₂, s₂) = rollback_phases phases s₁ in
      let es = es₁ ++ es₂ in
      let (es₃, s₃) = save_state (record s₂ { env = close_rollback es s₂.env }) in
      if is_empty phases then ([], s) else (es ++ es₃, s₃)
