-- ===== src/Codec/RoundTrip/Nested.antt =====
-- api/v1/zz_generated.spec.go: the round trips of the structs that hold other structs.
use testenv_vm.Prelude.{String, ◌≡◌, refl, ap, ◌∙◌, fun_ext, false, contains, ok, ℤ}
use testenv_vm.Codec.Entries.{
  entry, names, distinct, find-present, text_trip, int_trip, strings_trip, fields_trip, nested_trip,
  option_trip, list_trip, All-every, Every-Every,
}
use testenv_vm.Codec.ToMap.{
  boot_spec_to_map, cloud_init_readiness_spec_to_map, user_spec_to_map, write_file_spec_to_map,
  dhcp_spec_to_map, dns_spec_to_map, disk_spec_to_map, image_customize_spec_to_map, key_spec_to_map,
  tftp_spec_to_map, ssh_readiness_spec_to_map, tcp_readiness_spec_to_map,
  cloud_init_ethernet_config_to_map, image_spec_entries, image_spec_to_map, key_resource_entries,
  key_resource_to_map, network_spec_entries, network_spec_to_map, readiness_spec_entries,
  readiness_spec_to_map, cloud_init_network_config_entries, cloud_init_network_config_to_map,
  image_resource_entries, image_resource_to_map, network_resource_entries, network_resource_to_map,
  cloud_init_spec_entries, cloud_init_spec_to_map, vm_spec_entries, vm_spec_to_map,
  vm_resource_entries, vm_resource_to_map,
}
use testenv_vm.Codec.FromMap.{
  boot_spec_from_map, cloud_init_readiness_spec_from_map, user_spec_from_map,
  write_file_spec_from_map, dhcp_spec_from_map, dns_spec_from_map, disk_spec_from_map,
  image_customize_spec_from_map, key_spec_from_map, tftp_spec_from_map, ssh_readiness_spec_from_map,
  tcp_readiness_spec_from_map, cloud_init_ethernet_config_from_map, image_spec_from_map,
  key_resource_from_map, network_spec_from_map, readiness_spec_from_map,
  cloud_init_network_config_from_map, image_resource_from_map, network_resource_from_map,
  cloud_init_spec_from_map, vm_spec_from_map, vm_resource_from_map,
}
use testenv_vm.Codec.{find, has_null}
use testenv_vm.Api.{
  ImageSpec, KeyResource, NetworkSpec, ReadinessSpec, CloudInitNetworkConfig, ImageResource,
  NetworkResource, CloudInitSpec, VmSpec, VmResource,
}
use testenv_vm.Codec.RoundTrip.Leaves.{
  boot_spec_trip, cloud_init_readiness_spec_trip, user_spec_trip, write_file_spec_trip,
  dhcp_spec_trip, dns_spec_trip, disk_spec_trip, image_customize_spec_trip, key_spec_trip,
  tftp_spec_trip, ssh_readiness_spec_trip, tcp_readiness_spec_trip, cloud_init_ethernet_config_trip,
}

module _ (truncate : String → ℤ) where
  pub image_spec_trip :
      (r : ImageSpec) → image_spec_from_map truncate (find (image_spec_to_map r)) ≡ ok r
  unfolding image_spec_from_map image_spec_entries entry names distinct contains
  image_spec_trip r =
      ap (image_spec_from_map truncate) (fun_ext (λ k. find-present (image_spec_entries r) k refl))
      ∙ rw
          (
            text_trip "alias" r.alias,
            option_trip (image_customize_spec_from_map truncate) image_customize_spec_to_map
                "customize" r.customize
                (Every-Every _ (image_customize_spec_trip truncate) r.customize),
            text_trip "sha256" r.sha256,
            text_trip "source" r.source,
          )
          refl

  pub key_resource_trip :
      (r : KeyResource)
      → has_null r.provider_spec ≡ false
      → key_resource_from_map truncate (find (key_resource_to_map r)) ≡ ok r
  unfolding key_resource_from_map key_resource_entries entry names distinct contains
  key_resource_trip r h =
      ap (key_resource_from_map truncate)
        (fun_ext (λ k. find-present (key_resource_entries r) k refl))
      ∙ rw
          (
            text_trip "name" r.name,
            text_trip "provider" r.provider,
            fields_trip "providerSpec" r.provider_spec h,
            nested_trip (key_spec_from_map truncate) key_spec_to_map "spec" r.spec
                (key_spec_trip truncate r.spec),
          )
          refl

  pub network_spec_trip :
      (r : NetworkSpec) → network_spec_from_map truncate (find (network_spec_to_map r)) ≡ ok r
  unfolding network_spec_from_map network_spec_entries entry names distinct contains
  network_spec_trip r =
      ap (network_spec_from_map truncate)
        (fun_ext (λ k. find-present (network_spec_entries r) k refl))
      ∙ rw
          (
            text_trip "attachTo" r.attach_to,
            text_trip "cidr" r.cidr,
            option_trip (dhcp_spec_from_map truncate) dhcp_spec_to_map "dhcp" r.dhcp
                (Every-Every _ (dhcp_spec_trip truncate) r.dhcp),
            option_trip (dns_spec_from_map truncate) dns_spec_to_map "dns" r.dns
                (Every-Every _ (dns_spec_trip truncate) r.dns),
            text_trip "gateway" r.gateway,
            int_trip truncate "mtu" r.mtu,
            option_trip (tftp_spec_from_map truncate) tftp_spec_to_map "tftp" r.tftp
                (Every-Every _ (tftp_spec_trip truncate) r.tftp),
          )
          refl

  pub readiness_spec_trip :
      (r : ReadinessSpec) → readiness_spec_from_map truncate (find (readiness_spec_to_map r)) ≡ ok r
  unfolding readiness_spec_from_map readiness_spec_entries entry names distinct contains
  readiness_spec_trip r =
      ap (readiness_spec_from_map truncate)
        (fun_ext (λ k. find-present (readiness_spec_entries r) k refl))
      ∙ rw
          (
            nested_trip (cloud_init_readiness_spec_from_map truncate)
                cloud_init_readiness_spec_to_map "cloudInit" r.cloud_init
                (cloud_init_readiness_spec_trip truncate r.cloud_init),
            nested_trip (ssh_readiness_spec_from_map truncate) ssh_readiness_spec_to_map "ssh" r.ssh
                (ssh_readiness_spec_trip truncate r.ssh),
            nested_trip (tcp_readiness_spec_from_map truncate) tcp_readiness_spec_to_map "tcp" r.tcp
                (tcp_readiness_spec_trip truncate r.tcp),
          )
          refl

  pub cloud_init_network_config_trip :
      (r : CloudInitNetworkConfig)
      → cloud_init_network_config_from_map truncate (find (cloud_init_network_config_to_map r))
        ≡ ok r
  unfolding cloud_init_network_config_from_map cloud_init_network_config_entries entry names
      distinct contains
  cloud_init_network_config_trip r =
      ap (cloud_init_network_config_from_map truncate)
        (fun_ext (λ k. find-present (cloud_init_network_config_entries r) k refl))
      ∙ rw
          (list_trip (cloud_init_ethernet_config_from_map truncate)
            cloud_init_ethernet_config_to_map "ethernets" r.ethernets
            (All-every _ (cloud_init_ethernet_config_trip truncate) r.ethernets))
          refl

  pub image_resource_trip :
      (r : ImageResource) → image_resource_from_map truncate (find (image_resource_to_map r)) ≡ ok r
  unfolding image_resource_from_map image_resource_entries entry names distinct contains
  image_resource_trip r =
      ap (image_resource_from_map truncate)
        (fun_ext (λ k. find-present (image_resource_entries r) k refl))
      ∙ rw
          (
            text_trip "name" r.name,
            nested_trip (image_spec_from_map truncate) image_spec_to_map "spec" r.spec
                (image_spec_trip r.spec),
          )
          refl

  pub network_resource_trip :
      (r : NetworkResource)
      → has_null r.provider_spec ≡ false
      → network_resource_from_map truncate (find (network_resource_to_map r)) ≡ ok r
  unfolding network_resource_from_map network_resource_entries entry names distinct contains
  network_resource_trip r h =
      ap (network_resource_from_map truncate)
        (fun_ext (λ k. find-present (network_resource_entries r) k refl))
      ∙ rw
          (
            text_trip "kind" r.kind,
            text_trip "name" r.name,
            text_trip "provider" r.provider,
            fields_trip "providerSpec" r.provider_spec h,
            nested_trip (network_spec_from_map truncate) network_spec_to_map "spec" r.spec
                (network_spec_trip r.spec),
          )
          refl

  pub cloud_init_spec_trip :
      (r : CloudInitSpec)
      → cloud_init_spec_from_map truncate (find (cloud_init_spec_to_map r)) ≡ ok r
  unfolding cloud_init_spec_from_map cloud_init_spec_entries entry names distinct contains
  cloud_init_spec_trip r =
      ap (cloud_init_spec_from_map truncate)
        (fun_ext (λ k. find-present (cloud_init_spec_entries r) k refl))
      ∙ rw
          (
            text_trip "hostname" r.hostname,
            nested_trip (cloud_init_network_config_from_map truncate)
                cloud_init_network_config_to_map "networkConfig" r.network_config
                (cloud_init_network_config_trip r.network_config),
            strings_trip "packages" r.packages,
            strings_trip "runcmd" r.runcmd,
            list_trip (user_spec_from_map truncate) user_spec_to_map "users" r.users
                (All-every _ (user_spec_trip truncate) r.users),
            list_trip (write_file_spec_from_map truncate) write_file_spec_to_map "writeFiles"
                r.write_files (All-every _ (write_file_spec_trip truncate) r.write_files),
          )
          refl

  pub vm_spec_trip : (r : VmSpec) → vm_spec_from_map truncate (find (vm_spec_to_map r)) ≡ ok r
  unfolding vm_spec_from_map vm_spec_entries entry names distinct contains
  vm_spec_trip r =
      ap (vm_spec_from_map truncate) (fun_ext (λ k. find-present (vm_spec_entries r) k refl))
      ∙ rw
          (
            nested_trip (boot_spec_from_map truncate) boot_spec_to_map "boot" r.boot
                (boot_spec_trip truncate r.boot),
            nested_trip (cloud_init_spec_from_map truncate) cloud_init_spec_to_map "cloudInit"
                r.cloud_init (cloud_init_spec_trip r.cloud_init),
            nested_trip (disk_spec_from_map truncate) disk_spec_to_map "disk" r.disk
                (disk_spec_trip truncate r.disk),
            int_trip truncate "memory" r.memory,
            text_trip "network" r.network,
            strings_trip "networks" r.networks,
            nested_trip (readiness_spec_from_map truncate) readiness_spec_to_map "readiness"
                r.readiness (readiness_spec_trip r.readiness),
            int_trip truncate "vcpus" r.vcpus,
          )
          refl

  pub vm_resource_trip :
      (r : VmResource)
      → has_null r.provider_spec ≡ false
      → vm_resource_from_map truncate (find (vm_resource_to_map r)) ≡ ok r
  unfolding vm_resource_from_map vm_resource_entries entry names distinct contains
  vm_resource_trip r h =
      ap (vm_resource_from_map truncate)
        (fun_ext (λ k. find-present (vm_resource_entries r) k refl))
      ∙ rw
          (
            text_trip "name" r.name,
            text_trip "provider" r.provider,
            fields_trip "providerSpec" r.provider_spec h,
            nested_trip (vm_spec_from_map truncate) vm_spec_to_map "spec" r.spec
                (vm_spec_trip r.spec),
          )
          refl
