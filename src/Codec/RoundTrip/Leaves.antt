-- ===== src/Codec/RoundTrip/Leaves.antt =====
-- api/v1/zz_generated.spec.go: the round trips of the structs whose fields are all plain, and of the
-- structs that hold one of them.
use testenv_vm.Prelude.{String, ◌≡◌, refl, ap, ◌∙◌, fun_ext, false, contains, ok, ℤ}
use testenv_vm.Codec.Entries.{
  entry, names, distinct, find-present, text_trip, bool_trip, int_trip, strings_trip, fields_trip,
  nested_trip,
}
use testenv_vm.Codec.ToMap.{
  boot_spec_entries, boot_spec_to_map, cloud_init_nameservers_entries,
  cloud_init_nameservers_to_map, cloud_init_readiness_spec_entries,
  cloud_init_readiness_spec_to_map, user_spec_entries, user_spec_to_map, write_file_spec_entries,
  write_file_spec_to_map, dhcp_spec_entries, dhcp_spec_to_map, dns_spec_entries, dns_spec_to_map,
  disk_spec_entries, disk_spec_to_map, image_customize_spec_entries, image_customize_spec_to_map,
  key_spec_entries, key_spec_to_map, tftp_spec_entries, tftp_spec_to_map, provider_config_entries,
  provider_config_to_map, ssh_readiness_spec_entries, ssh_readiness_spec_to_map,
  tcp_readiness_spec_entries, tcp_readiness_spec_to_map, resource_ref_entries, resource_ref_to_map,
  cloud_init_ethernet_config_entries, cloud_init_ethernet_config_to_map,
}
use testenv_vm.Codec.FromMap.{
  boot_spec_from_map, cloud_init_nameservers_from_map, cloud_init_readiness_spec_from_map,
  user_spec_from_map, write_file_spec_from_map, dhcp_spec_from_map, dns_spec_from_map,
  disk_spec_from_map, image_customize_spec_from_map, key_spec_from_map, tftp_spec_from_map,
  provider_config_from_map, ssh_readiness_spec_from_map, tcp_readiness_spec_from_map,
  resource_ref_from_map, cloud_init_ethernet_config_from_map,
}
use testenv_vm.Codec.{find, has_null}
use testenv_vm.Api.{
  BootSpec, CloudInitNameservers, CloudInitReadinessSpec, UserSpec, WriteFileSpec, DhcpSpec,
  DnsSpec, DiskSpec, ImageCustomizeSpec, KeySpec, TftpSpec, ProviderConfig, SshReadinessSpec,
  TcpReadinessSpec, ResourceRef, CloudInitEthernetConfig,
}

module _ (truncate : String → ℤ) where
  pub boot_spec_trip :
      (r : BootSpec) → boot_spec_from_map truncate (find (boot_spec_to_map r)) ≡ ok r
  unfolding boot_spec_from_map boot_spec_entries entry names distinct contains
  boot_spec_trip r =
      ap (boot_spec_from_map truncate) (fun_ext (λ k. find-present (boot_spec_entries r) k refl))
      ∙ rw (text_trip "firmware" r.firmware, strings_trip "order" r.order) refl

  pub cloud_init_nameservers_trip :
      (r : CloudInitNameservers)
      → cloud_init_nameservers_from_map truncate (find (cloud_init_nameservers_to_map r)) ≡ ok r
  unfolding cloud_init_nameservers_from_map cloud_init_nameservers_entries entry names distinct
      contains
  cloud_init_nameservers_trip r =
      ap (cloud_init_nameservers_from_map truncate)
        (fun_ext (λ k. find-present (cloud_init_nameservers_entries r) k refl))
      ∙ rw (strings_trip "addresses" r.addresses) refl

  pub cloud_init_readiness_spec_trip :
      (r : CloudInitReadinessSpec)
      → cloud_init_readiness_spec_from_map truncate (find (cloud_init_readiness_spec_to_map r))
        ≡ ok r
  unfolding cloud_init_readiness_spec_from_map cloud_init_readiness_spec_entries entry names
      distinct contains
  cloud_init_readiness_spec_trip r =
      ap (cloud_init_readiness_spec_from_map truncate)
        (fun_ext (λ k. find-present (cloud_init_readiness_spec_entries r) k refl))
      ∙ rw (bool_trip "enabled" r.enabled, text_trip "timeout" r.timeout) refl

  pub user_spec_trip :
      (r : UserSpec) → user_spec_from_map truncate (find (user_spec_to_map r)) ≡ ok r
  unfolding user_spec_from_map user_spec_entries entry names distinct contains
  user_spec_trip r =
      ap (user_spec_from_map truncate) (fun_ext (λ k. find-present (user_spec_entries r) k refl))
      ∙ rw
          (
            text_trip "name" r.name,
            strings_trip "sshAuthorizedKeys" r.ssh_authorized_keys,
            text_trip "sudo" r.sudo,
          )
          refl

  pub write_file_spec_trip :
      (r : WriteFileSpec)
      → write_file_spec_from_map truncate (find (write_file_spec_to_map r)) ≡ ok r
  unfolding write_file_spec_from_map write_file_spec_entries entry names distinct contains
  write_file_spec_trip r =
      ap (write_file_spec_from_map truncate)
        (fun_ext (λ k. find-present (write_file_spec_entries r) k refl))
      ∙ rw
          (
            text_trip "content" r.content,
            text_trip "path" r.path,
            text_trip "permissions" r.permissions,
          )
          refl

  pub dhcp_spec_trip :
      (r : DhcpSpec) → dhcp_spec_from_map truncate (find (dhcp_spec_to_map r)) ≡ ok r
  unfolding dhcp_spec_from_map dhcp_spec_entries entry names distinct contains
  dhcp_spec_trip r =
      ap (dhcp_spec_from_map truncate) (fun_ext (λ k. find-present (dhcp_spec_entries r) k refl))
      ∙ rw
          (
            strings_trip "dnsServers" r.dns_servers,
            bool_trip "enabled" r.enabled,
            text_trip "leaseTime" r.lease_time,
            text_trip "rangeEnd" r.range_end,
            text_trip "rangeStart" r.range_start,
            text_trip "router" r.router,
          )
          refl

  pub dns_spec_trip : (r : DnsSpec) → dns_spec_from_map truncate (find (dns_spec_to_map r)) ≡ ok r
  unfolding dns_spec_from_map dns_spec_entries entry names distinct contains
  dns_spec_trip r =
      ap (dns_spec_from_map truncate) (fun_ext (λ k. find-present (dns_spec_entries r) k refl))
      ∙ rw (bool_trip "enabled" r.enabled, strings_trip "servers" r.servers) refl

  pub disk_spec_trip :
      (r : DiskSpec) → disk_spec_from_map truncate (find (disk_spec_to_map r)) ≡ ok r
  unfolding disk_spec_from_map disk_spec_entries entry names distinct contains
  disk_spec_trip r =
      ap (disk_spec_from_map truncate) (fun_ext (λ k. find-present (disk_spec_entries r) k refl))
      ∙ rw (text_trip "baseImage" r.base_image, text_trip "size" r.size) refl

  pub image_customize_spec_trip :
      (r : ImageCustomizeSpec)
      → image_customize_spec_from_map truncate (find (image_customize_spec_to_map r)) ≡ ok r
  unfolding image_customize_spec_from_map image_customize_spec_entries entry names distinct contains
  image_customize_spec_trip r =
      ap (image_customize_spec_from_map truncate)
        (fun_ext (λ k. find-present (image_customize_spec_entries r) k refl))
      ∙ rw (strings_trip "packages" r.packages, strings_trip "runcmd" r.runcmd) refl

  pub key_spec_trip : (r : KeySpec) → key_spec_from_map truncate (find (key_spec_to_map r)) ≡ ok r
  unfolding key_spec_from_map key_spec_entries entry names distinct contains
  key_spec_trip r =
      ap (key_spec_from_map truncate) (fun_ext (λ k. find-present (key_spec_entries r) k refl))
      ∙ rw
          (
            int_trip truncate "bits" r.bits,
            text_trip "comment" r.comment,
            text_trip "outputDir" r.output_dir,
            text_trip "type" r.type,
          )
          refl

  pub tftp_spec_trip :
      (r : TftpSpec) → tftp_spec_from_map truncate (find (tftp_spec_to_map r)) ≡ ok r
  unfolding tftp_spec_from_map tftp_spec_entries entry names distinct contains
  tftp_spec_trip r =
      ap (tftp_spec_from_map truncate) (fun_ext (λ k. find-present (tftp_spec_entries r) k refl))
      ∙ rw
          (text_trip "bootFile" r.boot_file, bool_trip "enabled" r.enabled, text_trip "root" r.root)
          refl

  pub provider_config_trip :
      (r : ProviderConfig)
      → has_null r.spec ≡ false
      → provider_config_from_map truncate (find (provider_config_to_map r)) ≡ ok r
  unfolding provider_config_from_map provider_config_entries entry names distinct contains
  provider_config_trip r h =
      ap (provider_config_from_map truncate)
        (fun_ext (λ k. find-present (provider_config_entries r) k refl))
      ∙ rw
          (
            bool_trip "default" r.default,
            text_trip "engine" r.engine,
            text_trip "name" r.name,
            fields_trip "spec" r.spec h,
          )
          refl

  pub ssh_readiness_spec_trip :
      (r : SshReadinessSpec)
      → ssh_readiness_spec_from_map truncate (find (ssh_readiness_spec_to_map r)) ≡ ok r
  unfolding ssh_readiness_spec_from_map ssh_readiness_spec_entries entry names distinct contains
  ssh_readiness_spec_trip r =
      ap (ssh_readiness_spec_from_map truncate)
        (fun_ext (λ k. find-present (ssh_readiness_spec_entries r) k refl))
      ∙ rw
          (
            bool_trip "enabled" r.enabled,
            text_trip "privateKey" r.private_key,
            text_trip "timeout" r.timeout,
            text_trip "user" r.user,
          )
          refl

  pub tcp_readiness_spec_trip :
      (r : TcpReadinessSpec)
      → tcp_readiness_spec_from_map truncate (find (tcp_readiness_spec_to_map r)) ≡ ok r
  unfolding tcp_readiness_spec_from_map tcp_readiness_spec_entries entry names distinct contains
  tcp_readiness_spec_trip r =
      ap (tcp_readiness_spec_from_map truncate)
        (fun_ext (λ k. find-present (tcp_readiness_spec_entries r) k refl))
      ∙ rw (int_trip truncate "port" r.port, text_trip "timeout" r.timeout) refl

  pub resource_ref_trip :
      (r : ResourceRef) → resource_ref_from_map truncate (find (resource_ref_to_map r)) ≡ ok r
  unfolding resource_ref_from_map resource_ref_entries entry names distinct contains
  resource_ref_trip r =
      ap (resource_ref_from_map truncate)
        (fun_ext (λ k. find-present (resource_ref_entries r) k refl))
      ∙ rw (text_trip "kind" r.kind, text_trip "name" r.name, text_trip "provider" r.provider) refl

  pub cloud_init_ethernet_config_trip :
      (r : CloudInitEthernetConfig)
      → cloud_init_ethernet_config_from_map truncate (find (cloud_init_ethernet_config_to_map r))
        ≡ ok r
  unfolding cloud_init_ethernet_config_from_map cloud_init_ethernet_config_entries entry names
      distinct contains
  cloud_init_ethernet_config_trip r =
      ap (cloud_init_ethernet_config_from_map truncate)
        (fun_ext (λ k. find-present (cloud_init_ethernet_config_entries r) k refl))
      ∙ rw
          (
            strings_trip "addresses" r.addresses,
            bool_trip "dhcp4" r.dhcp4,
            text_trip "gateway4" r.gateway4,
            text_trip "name" r.name,
            nested_trip (cloud_init_nameservers_from_map truncate) cloud_init_nameservers_to_map
                "nameservers" r.nameservers (cloud_init_nameservers_trip r.nameservers),
          )
          refl
