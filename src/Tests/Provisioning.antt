-- ===== src/Tests/Provisioning.antt =====
-- The runtime provisioner in the environment of the sample specification.
use testenv_vm.Tests.Fixtures.{web, counting, stub_entry, created_env, created}
use testenv_vm.Api.Provider.{delete}
use testenv_vm.Provisioner.Names.{requested, create_vm-delete_resource}
use testenv_vm.Provisioner.Refused.{create_vm-IsRefused}
use testenv_vm.Provisioner.{Runtime, vm_request, vm_ref, create_vm, already_exists}
use testenv_vm.Spec.Context.{new_template_context}
use testenv_vm.Executor.Delete.{finish_delete, delete_resource}
use testenv_vm.Executor.Backend.{Run}
use testenv_vm.Executor.Isolation.{IsolationConfig, prefixed_name}
use testenv_vm.Prelude.{ℕ, ◌≡◌, refl, ◌≢◌, inl, true, none, some, lookup, ok, err}

abbrev runtime : Runtime ℕ
runtime = record {
  backend = counting;
  is_known = λ name n. true;
  copy = λ spec. ok spec;
  read_file = λ path. none;
  default_provider = "stub";
}

abbrev ready_run : Run ℕ
ready_run = record { env = created_env; ctx = new_template_context; world = 0 }

create_vm-IsRefused_example :
    create_vm runtime "web" web.spec ready_run ≡ (err (already_exists "web"), ready_run)
unfolding lookup
create_vm-IsRefused_example =
    create_vm-IsRefused runtime "web" web.spec ready_run (already_exists "web") (inl (refl, refl))

abbrev isolation : IsolationConfig
isolation = record {
  name_prefix = "ab12";
  original_cidr_prefix = "192.168.100.";
  new_cidr_prefix = "192.168.7.";
}

create_vm-delete_resource_example :
    let asked = delete (prefixed_name (some isolation) "web") in
    let (result, w) = counting.call "stub" "vm_delete" asked 3 in
    (delete_resource counting (some isolation) (vm_ref runtime "web") created
      ≡ finish_delete counting
          (some isolation)
          (vm_ref runtime "web")
          "stub"
          result
          (record created { world = w }))
    × (requested asked ≢ requested (vm_request runtime "web" web.spec))
unfolding lookup
create_vm-delete_resource_example =
    create_vm-delete_resource runtime counting isolation "web" web.spec stub_entry created refl refl
      refl
