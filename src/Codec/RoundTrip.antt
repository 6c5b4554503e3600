-- ===== src/Codec/RoundTrip.antt =====
-- api/v1/zz_generated.spec.go: the functions `…FromMap` after the methods `ToMap`.
-- No value of the free-form maps is nil, on which `FromMap` panics.
pub mod Leaves
pub mod Nested
use testenv_vm.Prelude.{String, ◌≡◌, refl, ap, ◌∙◌, fun_ext, false, All, All-map, contains, ok, ℤ}
use testenv_vm.Codec.Entries.{
  entry, names, distinct, find-present, text_trip, bool_trip, int_trip, strings_trip, fields_trip,
  nested_trip, option_trip, list_trip, All-every, Every-Every,
}
use testenv_vm.Codec.ToMap.{
  boot_spec_entries, boot_spec_to_map, cloud_init_nameservers_entries,
  cloud_init_nameservers_to_map, cloud_init_readiness_spec_entries,
  cloud_init_readiness_spec_to_map, user_spec_entries, user_spec_to_map, write_file_spec_entries,
  write_file_spec_to_map, dhcp_spec_entries, dhcp_spec_to_map, dns_spec_entries, dns_spec_to_map,
  disk_spec_entries, disk_spec_to_map, image_customize_spec_entries, image_customize_spec_to_map,
  key_spec_entries, key_spec_to_map, tftp_spec_entries, tftp_spec_to_map, provider_config_entries,
  provider_config_to_map, ssh_readiness_spec_entries, ssh_readiness_spec_to_map,
  tcp_readiness_spec_entries, tcp_readiness_spec_to_map, resource_ref_entries, resource_ref_to_map,
  cloud_init_ethernet_config_entries, cloud_init_ethernet_config_to_map, image_spec_entries,
  image_spec_to_map, key_resource_entries, key_resource_to_map, network_spec_entries,
  network_spec_to_map, readiness_spec_entries, readiness_spec_to_map,
  cloud_init_network_config_entries, cloud_init_network_config_to_map, image_resource_entries,
  image_resource_to_map, network_resource_entries, network_resource_to_map, cloud_init_spec_entries,
  cloud_init_spec_to_map, vm_spec_entries, vm_spec_to_map, vm_resource_entries, vm_resource_to_map,
  spec_entries, spec_to_map,
}
use testenv_vm.Codec.FromMap.{
  boot_spec_from_map, cloud_init_nameservers_from_map, cloud_init_readiness_spec_from_map,
  user_spec_from_map, write_file_spec_from_map, dhcp_spec_from_map, dns_spec_from_map,
  disk_spec_from_map, image_customize_spec_from_map, key_spec_from_map, tftp_spec_from_map,
  provider_config_from_map, ssh_readiness_spec_from_map, tcp_readiness_spec_from_map,
  resource_ref_from_map, cloud_init_ethernet_config_from_map, image_spec_from_map,
  key_resource_from_map, network_spec_from_map, readiness_spec_from_map,
  cloud_init_network_config_from_map, image_resource_from_map, network_resource_from_map,
  cloud_init_spec_from_map, vm_spec_from_map, vm_resource_from_map, spec_from_map,
}
use testenv_vm.Codec.{find, has_null}
use testenv_vm.Api.{
  BootSpec, CloudInitNameservers, CloudInitReadinessSpec, UserSpec, WriteFileSpec, DhcpSpec,
  DnsSpec, DiskSpec, ImageCustomizeSpec, KeySpec, TftpSpec, ProviderConfig, SshReadinessSpec,
  TcpReadinessSpec, ResourceRef, CloudInitEthernetConfig, ImageSpec, KeyResource, NetworkSpec,
  ReadinessSpec, CloudInitNetworkConfig, ImageResource, NetworkResource, CloudInitSpec, VmSpec,
  VmResource, Spec,
}
use testenv_vm.Codec.RoundTrip.Leaves.{
  boot_spec_trip, cloud_init_nameservers_trip, cloud_init_readiness_spec_trip, user_spec_trip,
  write_file_spec_trip, dhcp_spec_trip, dns_spec_trip, disk_spec_trip, image_customize_spec_trip,
  key_spec_trip, tftp_spec_trip, provider_config_trip, ssh_readiness_spec_trip,
  tcp_readiness_spec_trip, resource_ref_trip, cloud_init_ethernet_config_trip,
}
use testenv_vm.Codec.RoundTrip.Nested.{
  image_spec_trip, key_resource_trip, network_spec_trip, readiness_spec_trip,
  cloud_init_network_config_trip, image_resource_trip, network_resource_trip, cloud_init_spec_trip,
  vm_spec_trip, vm_resource_trip,
}

abbrev pub IsClean : Spec → Type 0
IsClean spec =
    All (λ p. has_null p.spec ≡ false) spec.providers
    × All (λ r. has_null r.provider_spec ≡ false) spec.keys
    × All (λ r. has_null r.provider_spec ≡ false) spec.networks
    × All (λ r. has_null r.provider_spec ≡ false) spec.vms

module _ (truncate : String → ℤ) where
  -- `FromMap` reads back the specification that `ToMap` has written, if no free-form map holds a nil
  -- value.
  pub spec_from_map-spec_to_map :
      (r : Spec) → IsClean r → spec_from_map truncate (find (spec_to_map r)) ≡ ok r
  unfolding spec_from_map spec_entries entry names distinct contains
  spec_from_map-spec_to_map r h =
      ap (spec_from_map truncate) (fun_ext (λ k. find-present (spec_entries r) k refl))
      ∙ rw
          (
            text_trip "artifactDir" r.artifact_dir,
            bool_trip "cleanupOnFailure" r.cleanup_on_failure,
            text_trip "defaultBaseImage" r.default_base_image,
            text_trip "defaultProvider" r.default_provider,
            text_trip "imageCacheDir" r.image_cache_dir,
            list_trip (image_resource_from_map truncate) image_resource_to_map "images" r.images
                (All-every _ (image_resource_trip truncate) r.images),
            list_trip (key_resource_from_map truncate) key_resource_to_map "keys" r.keys
                (All-map _ _ (key_resource_trip truncate) r.keys h.1),
            list_trip (network_resource_from_map truncate) network_resource_to_map "networks"
                r.networks (All-map _ _ (network_resource_trip truncate) r.networks h.2),
            list_trip (provider_config_from_map truncate) provider_config_to_map "providers"
                r.providers (All-map _ _ (provider_config_trip truncate) r.providers h.0),
            text_trip "stateDir" r.state_dir,
            list_trip (vm_resource_from_map truncate) vm_resource_to_map "vms" r.vms
                (All-map _ _ (vm_resource_trip truncate) r.vms h.3),
          )
          refl
