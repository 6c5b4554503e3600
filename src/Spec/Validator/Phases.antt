-- ===== src/Spec/Validator/Phases.antt =====
-- pkg/spec/validator.go: `ValidateEarly`, before any resource is made, and
-- `ValidateResourceRefsLate`, after the templates of a resource are rendered.
use testenv_vm.Prelude.{
  String, not, ◌&&◌, ◌||◌, Option, none, some, List, [], ◌∷◌, map, ◌==◌, if◌then◌else◌, contains,
  Result, ◌>>◌, ok, err,
}
use testenv_vm.Api.{
  Spec, ProviderConfig, NetworkResource, VmResource, Failure, attach_to_self, network_unknown,
}
use testenv_vm.Dag.Build.{network_names}
use testenv_vm.Spec.Validator.{
  ValidationError, Check, valid, reject_if, validate_providers, validate_keys, validate_networks,
  validate_vms, default_provider_unknown, default_provider_mismatch,
}
use testenv_vm.Spec.Validator.Images.{validate_images}
use testenv_vm.Spec.Validator.References.{
  TemplatedFields, validate_provider_refs, validate_template_refs_exist, validate_resource_refs,
}

unfoldable pub check_default_flags : String → List ProviderConfig → Check
check_default_flags default [] = valid
check_default_flags default (p ∷ ps) =
    reject_if (p.default && not (p.name == default)) (default_provider_mismatch p.name default)
    >> check_default_flags default ps

unfoldable pub validate_early : Spec → Result ValidationError TemplatedFields
unfolding check_default_flags
validate_early spec =
    let names = map (λ (p : ProviderConfig). p.name) spec.providers in
    let default = spec.default_provider in
    validate_providers spec.providers
    >> reject_if (not (default == "") && not (contains names default))
        (default_provider_unknown default)
    >> (if default == "" then valid else check_default_flags default spec.providers)
    >> validate_keys spec.keys
    >> validate_networks spec.networks
    >> validate_vms spec.vms
    >> validate_images spec
    >> validate_provider_refs spec names
    >> validate_template_refs_exist spec
    >> validate_resource_refs spec

-- The `network` case: a rendered `attachTo` must not be the network itself.
unfoldable pub validate_network_late :
    String → NetworkResource → Option TemplatedFields → Result Failure (Unit {0})
validate_network_late name rendered none = ok tt
validate_network_late name rendered (some fields) =
    if contains fields.network_attach_to name
      && rendered.spec.attach_to == name
      && not (rendered.spec.attach_to == "")
    then err (attach_to_self name)
    else ok tt

unfoldable pub check_rendered_networks :
    List String → String → List String → Result Failure (Unit {0})
check_rendered_networks names vm [] = ok tt
check_rendered_networks names vm (net ∷ nets) =
    let rest = check_rendered_networks names vm nets in
    if net == "" || contains names net then rest else err (network_unknown vm net)

-- The `vm` case: each rendered network must be the name of a network of the specification.
unfoldable pub validate_vm_late :
    Spec → String → VmResource → Option TemplatedFields → Result Failure (Unit {0})
unfolding check_rendered_networks
validate_vm_late spec name rendered none = ok tt
validate_vm_late spec name rendered (some fields) =
    if contains fields.vm_network name
    then check_rendered_networks (map (λ n. n.name) spec.networks) name
        (network_names rendered.spec)
    else ok tt
