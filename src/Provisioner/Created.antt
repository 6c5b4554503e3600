-- ===== src/Provisioner/Created.antt =====
-- pkg/client/provisioner.go, `CreateVM`: the ends after a provider is called.
use testenv_vm.Provisioner.{
  Runtime, Step, entry, add_phase, vm_ref, call_error, result_error, call_unsaved, result_unsaved,
  not_converted, not_saved, name_required,
}
use testenv_vm.Api.{Fields, ResourceState, EnvironmentState, ready, failed}
use testenv_vm.Prelude.{String, ◌≡◌, true, false, some, ◌==◌, Dict, lookup, ok, err}
use testenv_vm.Api

module _ {W : Type 0} (rt : Runtime W) (name : String) where
  -- The entries of the other VMs are those of the map.
  abbrev pub OthersStay : Dict ResourceState → EnvironmentState → Type 0
  OthersStay before env =
      (other : String)
      → name == other ≡ false
      → lookup other env.resources.vms ≡ lookup other before

  abbrev pub IsReadyVm : EnvironmentState → EnvironmentState → Type 0
  IsReadyVm before env =
      (state : Fields) × (lookup name env.resources.vms
        ≡ some (record {
          provider = rt.default_provider;
          status = ready;
          state = some state;
          error = "";
        }))
      × OthersStay before.resources.vms env
      × (env.execution_plan ≡ add_phase rt (vm_ref rt name) before.execution_plan)

  abbrev pub IsFailedVm : String → EnvironmentState → EnvironmentState → Type 0
  IsFailedVm message before env =
      (entry : ResourceState) × (lookup name env.resources.vms ≡ some entry)
      × (entry.status ≡ failed)
      × (entry.error ≡ message)
      × OthersStay before.resources.vms env
      × (env.execution_plan ≡ before.execution_plan)

  abbrev pub Ends : EnvironmentState → Step rt (Unit {0}) → Type 0
  Ends before (ok _, s) = IsReadyVm before s.env
  Ends before (err (call_error e), s) = IsFailedVm e before s.env
  Ends before (err (call_unsaved e _), s) = IsFailedVm e before s.env
  Ends before (err (result_error e), s) = IsFailedVm e before s.env
  Ends before (err (result_unsaved e _), s) = IsFailedVm e before s.env
  Ends before (err not_converted, s) = IsFailedVm "conversion failed" before s.env
  Ends before (err (not_saved e), s) = IsReadyVm before s.env
  Ends before (err name_required, s) = ((name == "") ≡ true) × IsReadyVm before s.env
  Ends before (err _, s) = ⊥

  -- The placeholder stands, and nothing else has changed.
  abbrev IsReserved : EnvironmentState → EnvironmentState → Type 0
  IsReserved before env =
      ((entry : ResourceState) × (lookup name env.resources.vms ≡ some entry))
      × OthersStay before.resources.vms env
      × (env.execution_plan ≡ before.execution_plan)
