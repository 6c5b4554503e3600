-- ===== src/Spec/Texts.antt =====
-- pkg/spec/template.go: the resource references in the template strings of a specification.
-- `ExtractTemplateRefs` walks a value by reflection; here each type has the list of its strings, in
-- the order of the walk. The entries of a `map` are taken in the order of the list.
use testenv_vm.Prelude.{String, Option, none, some, List, [], ◌∷◌, ◌++◌}
use testenv_vm.Api.{
  BootSpec, CloudInitEthernetConfig, CloudInitNameservers, CloudInitNetworkConfig,
  CloudInitReadinessSpec, CloudInitSpec, DhcpSpec, DiskSpec, DnsSpec, ImageCustomizeSpec,
  ImageResource, ImageSpec, KeyResource, KeySpec, NetworkResource, NetworkSpec, ProviderConfig,
  ReadinessSpec, Spec, SshReadinessSpec, TcpReadinessSpec, TftpSpec, UserSpec, VmResource, VmSpec,
  WriteFileSpec, Value, Items, Fields, text, strings, array, object, nil, cons, end, field,
}

module _ {A : Type 0} (texts : A → List String) where
  -- `reflect.Slice`
  unfoldable pub texts_in : List A → List String
  texts_in [] = []
  texts_in (x ∷ xs) = texts x ++ texts_in xs

  -- `reflect.Ptr`
  unfoldable pub texts_at : Option A → List String
  texts_at none = []
  texts_at (some x) = texts x

unfoldable mutual
  pub value_texts : Value → List String
  value_texts (text s) = s ∷ []
  value_texts (strings ss) = ss
  value_texts (array xs) = items_texts xs
  value_texts (object fs) = fields_texts fs
  value_texts _ = []

  pub items_texts : Items → List String
  items_texts nil = []
  items_texts (cons x xs) = value_texts x ++ items_texts xs

  pub fields_texts : Fields → List String
  fields_texts end = []
  fields_texts (field k x xs) = value_texts x ++ fields_texts xs

unfoldable pub boot_spec_texts : BootSpec → List String
boot_spec_texts r = r.firmware ∷ (r.order)

unfoldable pub cloud_init_nameservers_texts : CloudInitNameservers → List String
cloud_init_nameservers_texts r = r.addresses

unfoldable pub cloud_init_readiness_spec_texts : CloudInitReadinessSpec → List String
cloud_init_readiness_spec_texts r = r.timeout ∷ []

unfoldable pub user_spec_texts : UserSpec → List String
user_spec_texts r = r.name ∷ (r.ssh_authorized_keys ++ (r.sudo ∷ []))

unfoldable pub write_file_spec_texts : WriteFileSpec → List String
write_file_spec_texts r = r.content ∷ r.path ∷ r.permissions ∷ []

unfoldable pub dhcp_spec_texts : DhcpSpec → List String
dhcp_spec_texts r = r.dns_servers ++ (r.lease_time ∷ r.range_end ∷ r.range_start ∷ r.router ∷ [])

unfoldable pub dns_spec_texts : DnsSpec → List String
dns_spec_texts r = r.servers

unfoldable pub disk_spec_texts : DiskSpec → List String
disk_spec_texts r = r.base_image ∷ r.size ∷ []

unfoldable pub image_customize_spec_texts : ImageCustomizeSpec → List String
image_customize_spec_texts r = r.packages ++ (r.runcmd)

unfoldable pub key_spec_texts : KeySpec → List String
key_spec_texts r = r.comment ∷ r.output_dir ∷ r.type ∷ []

unfoldable pub tftp_spec_texts : TftpSpec → List String
tftp_spec_texts r = r.boot_file ∷ r.root ∷ []

unfoldable pub provider_config_texts : ProviderConfig → List String
unfolding fields_texts
provider_config_texts r = r.engine ∷ r.name ∷ (fields_texts r.spec)

unfoldable pub ssh_readiness_spec_texts : SshReadinessSpec → List String
ssh_readiness_spec_texts r = r.private_key ∷ r.timeout ∷ r.user ∷ []

unfoldable pub tcp_readiness_spec_texts : TcpReadinessSpec → List String
tcp_readiness_spec_texts r = r.timeout ∷ []

unfoldable pub cloud_init_ethernet_config_texts : CloudInitEthernetConfig → List String
unfolding cloud_init_nameservers_texts
cloud_init_ethernet_config_texts r =
    r.addresses ++ (r.gateway4 ∷ r.name ∷ (cloud_init_nameservers_texts r.nameservers))

unfoldable pub image_spec_texts : ImageSpec → List String
unfolding texts_at image_customize_spec_texts
image_spec_texts r =
    r.alias ∷ (texts_at image_customize_spec_texts r.customize ++ (r.sha256 ∷ r.source ∷ []))

unfoldable pub key_resource_texts : KeyResource → List String
unfolding fields_texts key_spec_texts
key_resource_texts r =
    r.name ∷ r.provider ∷ (fields_texts r.provider_spec ++ (key_spec_texts r.spec))

unfoldable pub network_spec_texts : NetworkSpec → List String
unfolding texts_at dhcp_spec_texts dns_spec_texts tftp_spec_texts
network_spec_texts r =
    r.attach_to
    ∷ r.cidr
    ∷ (texts_at dhcp_spec_texts r.dhcp
        ++ (texts_at dns_spec_texts r.dns ++ (r.gateway ∷ (texts_at tftp_spec_texts r.tftp))))

unfoldable pub readiness_spec_texts : ReadinessSpec → List String
unfolding cloud_init_readiness_spec_texts ssh_readiness_spec_texts tcp_readiness_spec_texts
readiness_spec_texts r =
    cloud_init_readiness_spec_texts r.cloud_init
    ++ (ssh_readiness_spec_texts r.ssh ++ (tcp_readiness_spec_texts r.tcp))

unfoldable pub cloud_init_network_config_texts : CloudInitNetworkConfig → List String
unfolding texts_in cloud_init_ethernet_config_texts
cloud_init_network_config_texts r = texts_in cloud_init_ethernet_config_texts r.ethernets

unfoldable pub image_resource_texts : ImageResource → List String
unfolding image_spec_texts
image_resource_texts r = r.name ∷ (image_spec_texts r.spec)

unfoldable pub network_resource_texts : NetworkResource → List String
unfolding fields_texts network_spec_texts
network_resource_texts r =
    r.kind ∷ r.name ∷ r.provider ∷ (fields_texts r.provider_spec ++ (network_spec_texts r.spec))

unfoldable pub cloud_init_spec_texts : CloudInitSpec → List String
unfolding cloud_init_network_config_texts texts_in user_spec_texts write_file_spec_texts
cloud_init_spec_texts r =
    r.hostname
    ∷ (cloud_init_network_config_texts r.network_config
        ++ (r.packages
            ++ (r.runcmd
                ++ (texts_in user_spec_texts r.users
                    ++ (texts_in write_file_spec_texts r.write_files)))))

unfoldable pub vm_spec_texts : VmSpec → List String
unfolding boot_spec_texts cloud_init_spec_texts disk_spec_texts readiness_spec_texts
vm_spec_texts r =
    boot_spec_texts r.boot
    ++ (cloud_init_spec_texts r.cloud_init
        ++ (disk_spec_texts r.disk
            ++ (r.network ∷ (r.networks ++ (readiness_spec_texts r.readiness)))))

unfoldable pub vm_resource_texts : VmResource → List String
unfolding fields_texts vm_spec_texts
vm_resource_texts r = r.name ∷ r.provider ∷ (fields_texts r.provider_spec ++ (vm_spec_texts r.spec))

unfoldable pub spec_texts : Spec → List String
unfolding texts_in image_resource_texts key_resource_texts network_resource_texts
    provider_config_texts vm_resource_texts
spec_texts r =
    r.artifact_dir
    ∷ r.default_base_image
    ∷ r.default_provider
    ∷ r.image_cache_dir
    ∷ (texts_in image_resource_texts r.images
        ++ (texts_in key_resource_texts r.keys
            ++ (texts_in network_resource_texts r.networks
                ++ (texts_in provider_config_texts r.providers
                    ++ (r.state_dir ∷ (texts_in vm_resource_texts r.vms))))))
