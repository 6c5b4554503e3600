-- ===== src/Executor/States.antt =====
-- pkg/orchestrator/executor.go: how an update of one resource shows in the state.
use testenv_vm.Prelude.{
  String, ◌≡◌, Bool, true, ◌&&◌, ◌||◌, Option, some, arith, ◌==◌, eq_iff, if◌then◌else◌,
  lookup-insert,
}
use testenv_vm.Api.{ResourceRef, ResourceState, EnvironmentState, Status, Fields}
use testenv_vm.Executor.Resources.{get_resource_state, update_resource_state}

-- The kinds that the state has an entry for; images have none.
abbrev pub is_tracked : ResourceRef → Bool
is_tracked ref = ref.kind == "key" || ref.kind == "network" || ref.kind == "vm"

abbrev pub same_resource : ResourceRef → ResourceRef → Bool
same_resource a b = a.kind == b.kind && a.name == b.name

abbrev pub entry_of : String → Status → Option Fields → String → ResourceState
entry_of provider status state error = record {
  provider = provider;
  status = status;
  state = state;
  error = error;
}

-- An update writes the entry of its own resource, and no other.
pub get-update_resource_state :
    (ref r : ResourceRef) (provider : String) (status : Status) (state : Option Fields)
    (error : String) (env : EnvironmentState)
    → is_tracked ref ≡ true
    → get_resource_state r (update_resource_state ref provider status state error env) ≡ (
        if same_resource ref r
        then some (entry_of provider status state error)
        else get_resource_state r env)
unfolding get_resource_state update_resource_state
get-update_resource_state ref r provider status state error env tracked =
    let entry = entry_of provider status state error in
    ground (
      arith,
      eq_iff ref.kind r.kind,
      eq_iff ref.kind "key",
      eq_iff ref.kind "network",
      eq_iff ref.kind "vm",
      eq_iff r.kind "key",
      eq_iff r.kind "network",
      eq_iff r.kind "vm",
      lookup-insert ref.name r.name entry env.resources.keys,
      lookup-insert ref.name r.name entry env.resources.networks,
      lookup-insert ref.name r.name entry env.resources.vms,
    )
