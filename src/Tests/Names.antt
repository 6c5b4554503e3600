-- ===== src/Tests/Names.antt =====
-- Names and checks of the sample specification.
use testenv_vm.Prelude.{◌≤◌, String, ◌≡◌, refl, some, [], contains, ok}
use testenv_vm.Dag.Build.{network_names}
use testenv_vm.Spec.Texts.{spec_texts}
use testenv_vm.Spec.Template.{extract_template_refs, is_templated}
use testenv_vm.Spec.Validator.{validate_providers, validate_keys, validate_networks, validate_vms}
use testenv_vm.Spec.Validator.Images.{validate_images}
use testenv_vm.Spec.Validator.References.{
  validate_provider_refs, validate_template_refs_exist, validate_resource_refs,
  new_templated_fields,
}
use testenv_vm.Spec.Validator.Phases.{validate_early}
use testenv_vm.Spec.Validator.Sound.{IsValid, validate_early-IsValid}
use testenv_vm.Executor.Isolation.{prefixed_name}
use testenv_vm.Executor.Prefix.{
  Digests, IsDigest, short_hash, new_isolation_config, hash_to_octet, hash_to_octet_bounds,
  new_isolation_config-prefixed_name,
}
use testenv_vm.Tests.Fixtures.{sample}

sample-validate_early : validate_early sample ≡ ok new_templated_fields
unfolding validate_early validate_providers contains validate_keys validate_networks validate_vms
    validate_images validate_provider_refs validate_template_refs_exist extract_template_refs
    spec_texts validate_resource_refs network_names is_templated
sample-validate_early = refl

validate_early-IsValid_example : IsValid sample
validate_early-IsValid_example =
    validate_early-IsValid sample new_templated_fields sample-validate_early

-- Digests of the right length.
abbrev constant_digests : Digests
constant_digests = record {
  sha256_hex = λ s. "0123456789abcdef0123456789abcdef0123456789abcdef0123456789abcdef";
  sha256_head = λ s. 291;
  crc32 = λ s. 1000;
  decimal = λ n. "41";
}

constant_digests-IsDigest : IsDigest constant_digests
constant_digests-IsDigest s = refl

hash_to_octet_bounds_example :
    (2 ≤ hash_to_octet constant_digests "t1") × (hash_to_octet constant_digests "t1" ≤ 253)
hash_to_octet_bounds_example = hash_to_octet_bounds constant_digests "t1"

abbrev vm_name : String
vm_name = "web"

same_names :
    prefixed_name (some (new_isolation_config constant_digests "t1" [])) vm_name
    ≡ prefixed_name (some (new_isolation_config constant_digests "t1" sample.networks)) vm_name
unfolding prefixed_name new_isolation_config
same_names = refl

new_isolation_config-prefixed_name_example :
    (short_hash constant_digests "t1" ≡ short_hash constant_digests "t1") × (vm_name ≡ vm_name)
new_isolation_config-prefixed_name_example =
    new_isolation_config-prefixed_name constant_digests "t1" "t1" [] sample.networks vm_name vm_name
      constant_digests-IsDigest same_names
