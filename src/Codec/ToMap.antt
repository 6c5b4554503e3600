-- ===== src/Codec/ToMap.antt =====
-- api/v1/zz_generated.spec.go: the methods `ToMap`.
use testenv_vm.Prelude.{String, Option, List, [], ◌∷◌}
use testenv_vm.Api.{
  BootSpec, CloudInitNameservers, CloudInitReadinessSpec, UserSpec, WriteFileSpec, DhcpSpec,
  DnsSpec, DiskSpec, ImageCustomizeSpec, KeySpec, TftpSpec, ProviderConfig, SshReadinessSpec,
  TcpReadinessSpec, ResourceRef, CloudInitEthernetConfig, ImageSpec, KeyResource, NetworkSpec,
  ReadinessSpec, CloudInitNetworkConfig, ImageResource, NetworkResource, CloudInitSpec, VmSpec,
  VmResource, Spec, Value, Fields,
}
use testenv_vm.Codec.{
  present, text_entry, bool_entry, int_entry, strings_entry, fields_entry, option_entry, list_entry,
}

unfoldable pub boot_spec_entries : BootSpec → List (String × Option Value)
boot_spec_entries r = ("firmware", text_entry r.firmware) ∷ ("order", strings_entry r.order) ∷ []

abbrev pub boot_spec_to_map : BootSpec → Fields
boot_spec_to_map r = present (boot_spec_entries r)

unfoldable pub cloud_init_nameservers_entries : CloudInitNameservers → List (String × Option Value)
cloud_init_nameservers_entries r = ("addresses", strings_entry r.addresses) ∷ []

abbrev pub cloud_init_nameservers_to_map : CloudInitNameservers → Fields
cloud_init_nameservers_to_map r = present (cloud_init_nameservers_entries r)

unfoldable pub cloud_init_readiness_spec_entries :
    CloudInitReadinessSpec → List (String × Option Value)
cloud_init_readiness_spec_entries r =
    ("enabled", bool_entry r.enabled) ∷ ("timeout", text_entry r.timeout) ∷ []

abbrev pub cloud_init_readiness_spec_to_map : CloudInitReadinessSpec → Fields
cloud_init_readiness_spec_to_map r = present (cloud_init_readiness_spec_entries r)

unfoldable pub user_spec_entries : UserSpec → List (String × Option Value)
user_spec_entries r =
    ("name", text_entry r.name)
    ∷ ("sshAuthorizedKeys", strings_entry r.ssh_authorized_keys)
    ∷ ("sudo", text_entry r.sudo)
    ∷ []

abbrev pub user_spec_to_map : UserSpec → Fields
user_spec_to_map r = present (user_spec_entries r)

unfoldable pub write_file_spec_entries : WriteFileSpec → List (String × Option Value)
write_file_spec_entries r =
    ("content", text_entry r.content)
    ∷ ("path", text_entry r.path)
    ∷ ("permissions", text_entry r.permissions)
    ∷ []

abbrev pub write_file_spec_to_map : WriteFileSpec → Fields
write_file_spec_to_map r = present (write_file_spec_entries r)

unfoldable pub dhcp_spec_entries : DhcpSpec → List (String × Option Value)
dhcp_spec_entries r =
    ("dnsServers", strings_entry r.dns_servers)
    ∷ ("enabled", bool_entry r.enabled)
    ∷ ("leaseTime", text_entry r.lease_time)
    ∷ ("rangeEnd", text_entry r.range_end)
    ∷ ("rangeStart", text_entry r.range_start)
    ∷ ("router", text_entry r.router)
    ∷ []

abbrev pub dhcp_spec_to_map : DhcpSpec → Fields
dhcp_spec_to_map r = present (dhcp_spec_entries r)

unfoldable pub dns_spec_entries : DnsSpec → List (String × Option Value)
dns_spec_entries r = ("enabled", bool_entry r.enabled) ∷ ("servers", strings_entry r.servers) ∷ []

abbrev pub dns_spec_to_map : DnsSpec → Fields
dns_spec_to_map r = present (dns_spec_entries r)

unfoldable pub disk_spec_entries : DiskSpec → List (String × Option Value)
disk_spec_entries r = ("baseImage", text_entry r.base_image) ∷ ("size", text_entry r.size) ∷ []

abbrev pub disk_spec_to_map : DiskSpec → Fields
disk_spec_to_map r = present (disk_spec_entries r)

unfoldable pub image_customize_spec_entries : ImageCustomizeSpec → List (String × Option Value)
image_customize_spec_entries r =
    ("packages", strings_entry r.packages) ∷ ("runcmd", strings_entry r.runcmd) ∷ []

abbrev pub image_customize_spec_to_map : ImageCustomizeSpec → Fields
image_customize_spec_to_map r = present (image_customize_spec_entries r)

unfoldable pub key_spec_entries : KeySpec → List (String × Option Value)
key_spec_entries r =
    ("bits", int_entry r.bits)
    ∷ ("comment", text_entry r.comment)
    ∷ ("outputDir", text_entry r.output_dir)
    ∷ ("type", text_entry r.type)
    ∷ []

abbrev pub key_spec_to_map : KeySpec → Fields
key_spec_to_map r = present (key_spec_entries r)

unfoldable pub tftp_spec_entries : TftpSpec → List (String × Option Value)
tftp_spec_entries r =
    ("bootFile", text_entry r.boot_file)
    ∷ ("enabled", bool_entry r.enabled)
    ∷ ("root", text_entry r.root)
    ∷ []

abbrev pub tftp_spec_to_map : TftpSpec → Fields
tftp_spec_to_map r = present (tftp_spec_entries r)

unfoldable pub provider_config_entries : ProviderConfig → List (String × Option Value)
provider_config_entries r =
    ("default", bool_entry r.default)
    ∷ ("engine", text_entry r.engine)
    ∷ ("name", text_entry r.name)
    ∷ ("spec", fields_entry r.spec)
    ∷ []

abbrev pub provider_config_to_map : ProviderConfig → Fields
provider_config_to_map r = present (provider_config_entries r)

unfoldable pub ssh_readiness_spec_entries : SshReadinessSpec → List (String × Option Value)
ssh_readiness_spec_entries r =
    ("enabled", bool_entry r.enabled)
    ∷ ("privateKey", text_entry r.private_key)
    ∷ ("timeout", text_entry r.timeout)
    ∷ ("user", text_entry r.user)
    ∷ []

abbrev pub ssh_readiness_spec_to_map : SshReadinessSpec → Fields
ssh_readiness_spec_to_map r = present (ssh_readiness_spec_entries r)

unfoldable pub tcp_readiness_spec_entries : TcpReadinessSpec → List (String × Option Value)
tcp_readiness_spec_entries r = ("port", int_entry r.port) ∷ ("timeout", text_entry r.timeout) ∷ []

abbrev pub tcp_readiness_spec_to_map : TcpReadinessSpec → Fields
tcp_readiness_spec_to_map r = present (tcp_readiness_spec_entries r)

unfoldable pub resource_ref_entries : ResourceRef → List (String × Option Value)
resource_ref_entries r =
    ("kind", text_entry r.kind)
    ∷ ("name", text_entry r.name)
    ∷ ("provider", text_entry r.provider)
    ∷ []

abbrev pub resource_ref_to_map : ResourceRef → Fields
resource_ref_to_map r = present (resource_ref_entries r)

unfoldable pub cloud_init_ethernet_config_entries :
    CloudInitEthernetConfig → List (String × Option Value)
cloud_init_ethernet_config_entries r =
    ("addresses", strings_entry r.addresses)
    ∷ ("dhcp4", bool_entry r.dhcp4)
    ∷ ("gateway4", text_entry r.gateway4)
    ∷ ("name", text_entry r.name)
    ∷ ("nameservers", fields_entry (cloud_init_nameservers_to_map r.nameservers))
    ∷ []

abbrev pub cloud_init_ethernet_config_to_map : CloudInitEthernetConfig → Fields
cloud_init_ethernet_config_to_map r = present (cloud_init_ethernet_config_entries r)

unfoldable pub image_spec_entries : ImageSpec → List (String × Option Value)
image_spec_entries r =
    ("alias", text_entry r.alias)
    ∷ ("customize", option_entry image_customize_spec_to_map r.customize)
    ∷ ("sha256", text_entry r.sha256)
    ∷ ("source", text_entry r.source)
    ∷ []

abbrev pub image_spec_to_map : ImageSpec → Fields
image_spec_to_map r = present (image_spec_entries r)

unfoldable pub key_resource_entries : KeyResource → List (String × Option Value)
key_resource_entries r =
    ("name", text_entry r.name)
    ∷ ("provider", text_entry r.provider)
    ∷ ("providerSpec", fields_entry r.provider_spec)
    ∷ ("spec", fields_entry (key_spec_to_map r.spec))
    ∷ []

abbrev pub key_resource_to_map : KeyResource → Fields
key_resource_to_map r = present (key_resource_entries r)

unfoldable pub network_spec_entries : NetworkSpec → List (String × Option Value)
network_spec_entries r =
    ("attachTo", text_entry r.attach_to)
    ∷ ("cidr", text_entry r.cidr)
    ∷ ("dhcp", option_entry dhcp_spec_to_map r.dhcp)
    ∷ ("dns", option_entry dns_spec_to_map r.dns)
    ∷ ("gateway", text_entry r.gateway)
    ∷ ("mtu", int_entry r.mtu)
    ∷ ("tftp", option_entry tftp_spec_to_map r.tftp)
    ∷ []

abbrev pub network_spec_to_map : NetworkSpec → Fields
network_spec_to_map r = present (network_spec_entries r)

unfoldable pub readiness_spec_entries : ReadinessSpec → List (String × Option Value)
readiness_spec_entries r =
    ("cloudInit", fields_entry (cloud_init_readiness_spec_to_map r.cloud_init))
    ∷ ("ssh", fields_entry (ssh_readiness_spec_to_map r.ssh))
    ∷ ("tcp", fields_entry (tcp_readiness_spec_to_map r.tcp))
    ∷ []

abbrev pub readiness_spec_to_map : ReadinessSpec → Fields
readiness_spec_to_map r = present (readiness_spec_entries r)

unfoldable pub cloud_init_network_config_entries :
    CloudInitNetworkConfig → List (String × Option Value)
cloud_init_network_config_entries r =
    ("ethernets", list_entry cloud_init_ethernet_config_to_map r.ethernets) ∷ []

abbrev pub cloud_init_network_config_to_map : CloudInitNetworkConfig → Fields
cloud_init_network_config_to_map r = present (cloud_init_network_config_entries r)

unfoldable pub image_resource_entries : ImageResource → List (String × Option Value)
image_resource_entries r =
    ("name", text_entry r.name) ∷ ("spec", fields_entry (image_spec_to_map r.spec)) ∷ []

abbrev pub image_resource_to_map : ImageResource → Fields
image_resource_to_map r = present (image_resource_entries r)

unfoldable pub network_resource_entries : NetworkResource → List (String × Option Value)
network_resource_entries r =
    ("kind", text_entry r.kind)
    ∷ ("name", text_entry r.name)
    ∷ ("provider", text_entry r.provider)
    ∷ ("providerSpec", fields_entry r.provider_spec)
    ∷ ("spec", fields_entry (network_spec_to_map r.spec))
    ∷ []

abbrev pub network_resource_to_map : NetworkResource → Fields
network_resource_to_map r = present (network_resource_entries r)

unfoldable pub cloud_init_spec_entries : CloudInitSpec → List (String × Option Value)
cloud_init_spec_entries r =
    ("hostname", text_entry r.hostname)
    ∷ ("networkConfig", fields_entry (cloud_init_network_config_to_map r.network_config))
    ∷ ("packages", strings_entry r.packages)
    ∷ ("runcmd", strings_entry r.runcmd)
    ∷ ("users", list_entry user_spec_to_map r.users)
    ∷ ("writeFiles", list_entry write_file_spec_to_map r.write_files)
    ∷ []

abbrev pub cloud_init_spec_to_map : CloudInitSpec → Fields
cloud_init_spec_to_map r = present (cloud_init_spec_entries r)

unfoldable pub vm_spec_entries : VmSpec → List (String × Option Value)
vm_spec_entries r =
    ("boot", fields_entry (boot_spec_to_map r.boot))
    ∷ ("cloudInit", fields_entry (cloud_init_spec_to_map r.cloud_init))
    ∷ ("disk", fields_entry (disk_spec_to_map r.disk))
    ∷ ("memory", int_entry r.memory)
    ∷ ("network", text_entry r.network)
    ∷ ("networks", strings_entry r.networks)
    ∷ ("readiness", fields_entry (readiness_spec_to_map r.readiness))
    ∷ ("vcpus", int_entry r.vcpus)
    ∷ []

abbrev pub vm_spec_to_map : VmSpec → Fields
vm_spec_to_map r = present (vm_spec_entries r)

unfoldable pub vm_resource_entries : VmResource → List (String × Option Value)
vm_resource_entries r =
    ("name", text_entry r.name)
    ∷ ("provider", text_entry r.provider)
    ∷ ("providerSpec", fields_entry r.provider_spec)
    ∷ ("spec", fields_entry (vm_spec_to_map r.spec))
    ∷ []

abbrev pub vm_resource_to_map : VmResource → Fields
vm_resource_to_map r = present (vm_resource_entries r)

unfoldable pub spec_entries : Spec → List (String × Option Value)
spec_entries r =
    ("artifactDir", text_entry r.artifact_dir)
    ∷ ("cleanupOnFailure", bool_entry r.cleanup_on_failure)
    ∷ ("defaultBaseImage", text_entry r.default_base_image)
    ∷ ("defaultProvider", text_entry r.default_provider)
    ∷ ("imageCacheDir", text_entry r.image_cache_dir)
    ∷ ("images", list_entry image_resource_to_map r.images)
    ∷ ("keys", list_entry key_resource_to_map r.keys)
    ∷ ("networks", list_entry network_resource_to_map r.networks)
    ∷ ("providers", list_entry provider_config_to_map r.providers)
    ∷ ("stateDir", text_entry r.state_dir)
    ∷ ("vms", list_entry vm_resource_to_map r.vms)
    ∷ []

abbrev pub spec_to_map : Spec → Fields
spec_to_map r = present (spec_entries r)
