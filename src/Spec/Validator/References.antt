-- ===== src/Spec/Validator/References.antt =====
-- pkg/spec/validator.go: the references from one resource to another, and to providers.
use testenv_vm.Prelude.{
  String, Bool, true, false, not, ◌&&◌, ◌||◌, List, [], ◌∷◌, map, ◌==◌, if◌then◌else◌, contains,
  Result, ◌>>=◌, ◌>>◌, ok,
}
use testenv_vm.Api.{ResourceRef, Spec, NetworkResource, VmResource, ImageResource}
use testenv_vm.Dag.Build.{network_names}
use testenv_vm.Spec.Texts.{spec_texts}
use testenv_vm.Spec.Template.{extract_template_refs, is_templated}
use testenv_vm.Spec.Validator.{
  ValidationError, Check, valid, reject_if, provider_not_found, reference_not_found,
  attach_to_itself, attach_to_missing, network_missing,
}

-- `templatedFields`: the names of the resources whose field was templated.
pub record TemplatedFields : Type 0 where
  pub network_attach_to : List String
  pub vm_network : List String

abbrev pub new_templated_fields : TemplatedFields
new_templated_fields = record { network_attach_to = []; vm_network = [] }

-- A loop of `validateProviderRefs`.
unfoldable pub check_provider_refs :
    {A : Type 0} (kind : String) (name_of provider_of : A → String) → List String → List A → Check
check_provider_refs kind name_of provider_of names [] = valid
check_provider_refs kind name_of provider_of names (x ∷ xs) =
    reject_if (not (provider_of x == "") && not (contains names (provider_of x)))
      (provider_not_found kind (name_of x) (provider_of x))
    >> check_provider_refs kind name_of provider_of names xs

unfoldable pub validate_provider_refs : Spec → List String → Check
unfolding check_provider_refs
validate_provider_refs spec names =
    check_provider_refs "key" (λ k. k.name) (λ k. k.provider) names spec.keys
    >> check_provider_refs "network" (λ n. n.name) (λ n. n.provider) names spec.networks
    >> check_provider_refs "vm" (λ vm. vm.name) (λ vm. vm.provider) names spec.vms

-- The names of the images and their aliases.
unfoldable pub image_names : List ImageResource → List String
image_names [] = []
image_names (img ∷ imgs) =
    let rest = image_names imgs in
    img.name ∷ (if img.spec.alias == "" then rest else img.spec.alias ∷ rest)

unfoldable pub reference_exists : Spec → ResourceRef → Bool
unfolding image_names
reference_exists spec ref =
    if ref.kind == "key"
    then contains (map (λ k. k.name) spec.keys) ref.name
    else if ref.kind == "network"
    then contains (map (λ n. n.name) spec.networks) ref.name
    else if ref.kind == "vm"
    then contains (map (λ vm. vm.name) spec.vms) ref.name
    else if ref.kind == "image"
    then contains (image_names spec.images) ref.name
    else true

unfoldable pub check_references : Spec → List ResourceRef → Check
unfolding reference_exists
check_references spec [] = valid
check_references spec (ref ∷ refs) =
    reject_if (not (reference_exists spec ref)) (reference_not_found ref.kind ref.name)
    >> check_references spec refs

unfoldable pub validate_template_refs_exist : Spec → Check
unfolding check_references
validate_template_refs_exist spec = check_references spec (extract_template_refs (spec_texts spec))

-- The first loop of `validateResourceRefs`.
unfoldable pub check_attach_to :
    List String → List NetworkResource → TemplatedFields → Result ValidationError TemplatedFields
check_attach_to names [] fields = ok fields
check_attach_to names (n ∷ ns) fields =
    let attach_to = n.spec.attach_to in
    let literal = not (attach_to == "") && not (is_templated attach_to) in
    reject_if (literal && attach_to == n.name) (attach_to_itself n.name)
    >> reject_if (literal && not (contains names attach_to)) (attach_to_missing n.name attach_to)
    >> check_attach_to names ns (
        if is_templated attach_to
        then record fields { network_attach_to = n.name ∷ fields.network_attach_to }
        else fields)

-- The inner loop over the networks of a VM: whether one of them is templated.
unfoldable pub check_vm_networks : List String → String → List String → Result ValidationError Bool
check_vm_networks names vm [] = ok false
check_vm_networks names vm (net ∷ nets) =
    reject_if (not (net == "") && not (is_templated net) && not (contains names net))
      (network_missing vm net)
    >> (check_vm_networks names vm nets >>= λ more. ok (is_templated net || more))

unfoldable pub check_vm_refs :
    List String → List VmResource → TemplatedFields → Result ValidationError TemplatedFields
unfolding check_vm_networks
check_vm_refs names [] fields = ok fields
check_vm_refs names (vm ∷ vms) fields =
    check_vm_networks names vm.name (network_names vm.spec) >>= λ templated.
    check_vm_refs names vms
      (if templated then record fields { vm_network = vm.name ∷ fields.vm_network } else fields)

unfoldable pub validate_resource_refs : Spec → Result ValidationError TemplatedFields
unfolding check_attach_to check_vm_refs
validate_resource_refs spec =
    let names = map (λ n. n.name) spec.networks in
    check_attach_to names spec.networks new_templated_fields >>= check_vm_refs names spec.vms
