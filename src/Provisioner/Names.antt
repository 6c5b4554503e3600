-- ===== src/Provisioner/Names.antt =====
-- pkg/client/provisioner.go beside pkg/orchestrator/executor.go: the name of a VM at its provider.
-- The name that a request carries.
use testenv_vm.Api.{ResourceState}
use testenv_vm.Api.Provider.{Request, key_create, network_create, vm_create, delete}
use testenv_vm.Provisioner.{Runtime, vm_request, vm_ref}
use testenv_vm.Executor.Resources.{get_resource_state}
use testenv_vm.Executor.Delete.{
  delete_tool, Teardown, finish_delete, send_delete, call_delete, delete_found, delete_resource,
}
use testenv_vm.Executor.Backend.{Backend}
use testenv_vm.Executor.Isolation.{IsolationConfig, prefixed_name}
use testenv_vm.Prelude.{String, ◌≡◌, refl, ap, ◌≢◌, false, some, arith, ◌==◌, lookup}
use testenv_vm.Api
use Prim.Native.String.{◌++◌ as str_append, count}
use text.Mathlib.TextLemmas.{length-append}

abbrev pub requested : Request → String
requested (key_create name spec rest) = name
requested (network_create name kind spec rest) = name
requested (vm_create name spec rest) = name
requested (delete name) = name

longer_name :
    (prefix name : String) → prefix == "" ≡ false → str_append prefix (str_append "-" name) ≢ name
longer_name prefix name h e =
    let same = ap count e in
    let long = length-append prefix (str_append "-" name) in
    let dash = length-append "-" name in absurd (omega arith)

-- A VM that is created at runtime has its own name at the provider. The deletion of the environment
-- asks for another one where it has a prefix, so the provider is never asked to delete the VM.
pub create_vm-delete_resource :
    {W : Type 0} (rt : Runtime W) (b : Backend W) (iso : IsolationConfig) (name : String)
    (spec : Api.VmSpec) (entry : ResourceState) (s : Teardown W)
    → iso.name_prefix == "" ≡ false
    → entry.provider == "" ≡ false
    → lookup name s.env.resources.vms ≡ some entry
    → let asked = delete (prefixed_name (some iso) name) in
      let (result, w) = b.call entry.provider "vm_delete" asked s.world in
      (delete_resource b (some iso) (vm_ref rt name) s
        ≡ finish_delete b
            (some iso)
            (vm_ref rt name)
            entry.provider
            result
            (record s { world = w }))
      × (requested asked ≢ requested (vm_request rt name spec))
unfolding delete_resource delete_found call_delete send_delete delete_tool get_resource_state
    prefixed_name vm_request
create_vm-delete_resource rt b iso name spec entry s named given found =
    (rw (found, given) refl, rw named (longer_name iso.name_prefix name named))
