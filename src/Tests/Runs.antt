-- ===== src/Tests/Runs.antt =====
-- Runs of the executor on the sample specification.
use testenv_vm.Api.{KeyResource, ResourceState, ready, network_not_found}
use testenv_vm.Tests.Fixtures.{
  ssh_key, unmarked_provider, sample, ssh_ref, lan_ref, missing_ref, counting, counting_is_fair,
  sample_plan, sample_phases, new_env, new_run, created_env, created,
}
use testenv_vm.Executor.Create.{Plan, create_resource}
use testenv_vm.Executor.Resources.{
  find_key_spec, find_network_spec, convert_resource_to_map, get_resource_state,
  update_resource_state,
}
use testenv_vm.Prelude.{
  String, ◌≡◌, refl, sym, ap, false, ◌&&◌, none, some, [], ◌∷◌, if◌then◌else◌, All, lookup, Result,
  ok, err,
}
use testenv_vm.Spec.Template.{is_templated}
use testenv_vm.Spec.Context.{render_string}
use testenv_vm.Spec.Render.{render_key_resource}
use testenv_vm.Spec.Validator.{valid, validate_providers}
use testenv_vm.Executor.Phases.{execute_create, create_all, record_errors}
use testenv_vm.Executor.States.{is_tracked, same_resource, get-update_resource_state, entry_of}
use testenv_vm.Executor.Readiness.{create_resource-writes}
use testenv_vm.Executor.Outcome.{Ends, execute_create-Ends}
use testenv_vm.Executor.Reports.{
  IsReported, execute_create-IsReported, blamed, record_errors-create_all,
}
use testenv_vm.Executor.Delete.{phases_of, execute_delete}
use testenv_vm.Executor.Removal.{IsGone}
use testenv_vm.Executor.Rollback.{RollsBack, rollback_ends, execute_delete-IsGone}
use testenv_vm.Executor.Defaults.{Refuses, validate_providers-create_resource}

execute_create-Ends_example : Ends counting sample_plan counting_is_fair sample_phases new_run
execute_create-Ends_example =
    execute_create-Ends counting sample_plan counting_is_fair sample_phases new_run

rollback_ends_example : RollsBack counting none counting_is_fair created
rollback_ends_example = rollback_ends counting none counting_is_fair created refl

created-execute_delete : (execute_delete counting none created).0 ≡ []
unfolding execute_delete get_resource_state lookup update_resource_state
created-execute_delete = refl

execute_delete-IsGone_example :
    All (All (IsGone (execute_delete counting none created).1.env)) (phases_of created_env)
execute_delete-IsGone_example =
    execute_delete-IsGone counting none counting_is_fair created created-execute_delete

ssh-create_resource : (create_resource counting sample_plan ssh_ref new_run).0 ≡ none
unfolding create_resource find_key_spec render_key_resource render_string is_templated
    convert_resource_to_map
ssh-create_resource = refl

create_resource-writes_example :
    (e : ResourceState) × (e.status ≡ ready)
    × (e.error ≡ "")
    × (get_resource_state lan_ref (create_resource counting sample_plan ssh_ref new_run).1.env ≡ (
        if is_tracked ssh_ref && same_resource ssh_ref lan_ref
        then some e
        else get_resource_state lan_ref new_env))
create_resource-writes_example =
    create_resource-writes counting sample_plan ssh_ref lan_ref new_run ssh-create_resource

unknown-execute_create :
    (execute_create counting sample_plan ((missing_ref ∷ []) ∷ []) new_run).success ≡ false
unfolding execute_create create_resource find_network_spec
unknown-execute_create = refl

execute_create-IsReported_example :
    IsReported counting sample_plan
      (execute_create counting sample_plan ((missing_ref ∷ []) ∷ []) new_run)
execute_create-IsReported_example =
    execute_create-IsReported counting sample_plan ((missing_ref ∷ []) ∷ []) new_run
      unknown-execute_create

missing-create_resource :
    (create_resource counting sample_plan missing_ref
      (create_resource counting sample_plan ssh_ref new_run).1).0
    ≡ some (network_not_found "wan")
unfolding create_resource find_network_spec
missing-create_resource = refl

record_errors-create_all_example :
    record_errors
      (ssh_ref ∷ missing_ref ∷ [])
      (create_all counting sample_plan (ssh_ref ∷ missing_ref ∷ []) new_run).0
    ≡ blamed counting sample_plan ssh_ref missing_ref (network_not_found "wan") ∷ []
record_errors-create_all_example =
    record_errors-create_all counting sample_plan ssh_ref missing_ref (network_not_found "wan")
      new_run ssh-create_resource missing-create_resource

get-update_resource_state_example :
    get_resource_state lan_ref (update_resource_state ssh_ref "stub" ready none "" created_env) ≡ (
      if same_resource ssh_ref lan_ref
      then some (entry_of "stub" ready none "")
      else get_resource_state lan_ref created_env)
get-update_resource_state_example =
    get-update_resource_state ssh_ref lan_ref "stub" ready none "" created_env refl

abbrev unmarked_plan : Plan
unmarked_plan = record sample_plan { spec = record sample { providers = unmarked_provider ∷ [] } }

ssh-find_key_spec : find_key_spec unmarked_plan.spec "ssh" ≡ ok ssh_key
unfolding find_key_spec
ssh-find_key_spec = refl

abbrev provider_of : Result String KeyResource → String
provider_of (ok k) = k.provider
provider_of (err e) = ""

copies_keep : (k c : KeyResource) → counting.copy_key k ≡ ok c → c.provider ≡ k.provider
copies_keep k c h = ap (λ (r : Result String KeyResource). provider_of r) (sym h)

validate_providers-create_resource_example :
    (validate_providers unmarked_plan.spec.providers ≡ valid)
    × Refuses counting unmarked_plan ssh_ref new_run
        (create_resource counting unmarked_plan ssh_ref new_run)
validate_providers-create_resource_example =
    validate_providers-create_resource counting unmarked_plan ssh_ref copies_keep new_run
      unmarked_provider ssh_key refl refl refl refl refl refl refl ssh-find_key_spec refl
