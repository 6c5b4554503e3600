-- ===== src/Codec/FromMap.antt =====
-- api/v1/zz_generated.spec.go: the functions `…FromMap`. A Go map is the function that looks up its
-- keys, and a nil map the one that finds nothing. `truncate` is Go's conversion of a float64 to an int.
use testenv_vm.Prelude.{String, Result, ◌>>=◌, ok, ℤ}
use testenv_vm.Api.{
  BootSpec, CloudInitNameservers, CloudInitReadinessSpec, UserSpec, WriteFileSpec, DhcpSpec,
  DnsSpec, DiskSpec, ImageCustomizeSpec, KeySpec, TftpSpec, ProviderConfig, SshReadinessSpec,
  TcpReadinessSpec, ResourceRef, CloudInitEthernetConfig, ImageSpec, KeyResource, NetworkSpec,
  ReadinessSpec, CloudInitNetworkConfig, ImageResource, NetworkResource, CloudInitSpec, VmSpec,
  VmResource, Spec,
}
use testenv_vm.Codec.{
  ParseError, Find, text_of, bool_of, int_of, strings_of, fields_of, nested_of, option_of, list_of,
}

module _ (truncate : String → ℤ) where
  unfoldable pub boot_spec_from_map : Find → Result ParseError BootSpec
  boot_spec_from_map find = do
    firmware' ← text_of "firmware" (find "firmware")
    order' ← strings_of "order" (find "order")
    ok (record { firmware = firmware'; order = order' })

  unfoldable pub cloud_init_nameservers_from_map : Find → Result ParseError CloudInitNameservers
  cloud_init_nameservers_from_map find = do
    addresses' ← strings_of "addresses" (find "addresses")
    ok (record { addresses = addresses' })

  unfoldable pub cloud_init_readiness_spec_from_map :
      Find → Result ParseError CloudInitReadinessSpec
  cloud_init_readiness_spec_from_map find = do
    enabled' ← bool_of "enabled" (find "enabled")
    timeout' ← text_of "timeout" (find "timeout")
    ok (record { enabled = enabled'; timeout = timeout' })

  unfoldable pub user_spec_from_map : Find → Result ParseError UserSpec
  user_spec_from_map find = do
    name' ← text_of "name" (find "name")
    ssh_authorized_keys' ← strings_of "sshAuthorizedKeys" (find "sshAuthorizedKeys")
    sudo' ← text_of "sudo" (find "sudo")
    ok (record { name = name'; ssh_authorized_keys = ssh_authorized_keys'; sudo = sudo' })

  unfoldable pub write_file_spec_from_map : Find → Result ParseError WriteFileSpec
  write_file_spec_from_map find = do
    content' ← text_of "content" (find "content")
    path' ← text_of "path" (find "path")
    permissions' ← text_of "permissions" (find "permissions")
    ok (record { content = content'; path = path'; permissions = permissions' })

  unfoldable pub dhcp_spec_from_map : Find → Result ParseError DhcpSpec
  dhcp_spec_from_map find = do
    dns_servers' ← strings_of "dnsServers" (find "dnsServers")
    enabled' ← bool_of "enabled" (find "enabled")
    lease_time' ← text_of "leaseTime" (find "leaseTime")
    range_end' ← text_of "rangeEnd" (find "rangeEnd")
    range_start' ← text_of "rangeStart" (find "rangeStart")
    router' ← text_of "router" (find "router")
    ok (record {
      dns_servers = dns_servers';
      enabled = enabled';
      lease_time = lease_time';
      range_end = range_end';
      range_start = range_start';
      router = router';
    })

  unfoldable pub dns_spec_from_map : Find → Result ParseError DnsSpec
  dns_spec_from_map find = do
    enabled' ← bool_of "enabled" (find "enabled")
    servers' ← strings_of "servers" (find "servers")
    ok (record { enabled = enabled'; servers = servers' })

  unfoldable pub disk_spec_from_map : Find → Result ParseError DiskSpec
  disk_spec_from_map find = do
    base_image' ← text_of "baseImage" (find "baseImage")
    size' ← text_of "size" (find "size")
    ok (record { base_image = base_image'; size = size' })

  unfoldable pub image_customize_spec_from_map : Find → Result ParseError ImageCustomizeSpec
  image_customize_spec_from_map find = do
    packages' ← strings_of "packages" (find "packages")
    runcmd' ← strings_of "runcmd" (find "runcmd")
    ok (record { packages = packages'; runcmd = runcmd' })

  unfoldable pub key_spec_from_map : Find → Result ParseError KeySpec
  key_spec_from_map find = do
    bits' ← int_of truncate "bits" (find "bits")
    comment' ← text_of "comment" (find "comment")
    output_dir' ← text_of "outputDir" (find "outputDir")
    type' ← text_of "type" (find "type")
    ok (record { bits = bits'; comment = comment'; output_dir = output_dir'; type = type' })

  unfoldable pub tftp_spec_from_map : Find → Result ParseError TftpSpec
  tftp_spec_from_map find = do
    boot_file' ← text_of "bootFile" (find "bootFile")
    enabled' ← bool_of "enabled" (find "enabled")
    root' ← text_of "root" (find "root")
    ok (record { boot_file = boot_file'; enabled = enabled'; root = root' })

  unfoldable pub provider_config_from_map : Find → Result ParseError ProviderConfig
  provider_config_from_map find = do
    default' ← bool_of "default" (find "default")
    engine' ← text_of "engine" (find "engine")
    name' ← text_of "name" (find "name")
    spec' ← fields_of "spec" (find "spec")
    ok (record { default = default'; engine = engine'; name = name'; spec = spec' })

  unfoldable pub ssh_readiness_spec_from_map : Find → Result ParseError SshReadinessSpec
  ssh_readiness_spec_from_map find = do
    enabled' ← bool_of "enabled" (find "enabled")
    private_key' ← text_of "privateKey" (find "privateKey")
    timeout' ← text_of "timeout" (find "timeout")
    user' ← text_of "user" (find "user")
    ok (record { enabled = enabled'; private_key = private_key'; timeout = timeout'; user = user' })

  unfoldable pub tcp_readiness_spec_from_map : Find → Result ParseError TcpReadinessSpec
  tcp_readiness_spec_from_map find = do
    port' ← int_of truncate "port" (find "port")
    timeout' ← text_of "timeout" (find "timeout")
    ok (record { port = port'; timeout = timeout' })

  unfoldable pub resource_ref_from_map : Find → Result ParseError ResourceRef
  resource_ref_from_map find = do
    kind' ← text_of "kind" (find "kind")
    name' ← text_of "name" (find "name")
    provider' ← text_of "provider" (find "provider")
    ok (record { kind = kind'; name = name'; provider = provider' })

  unfoldable pub cloud_init_ethernet_config_from_map :
      Find → Result ParseError CloudInitEthernetConfig
  cloud_init_ethernet_config_from_map find = do
    addresses' ← strings_of "addresses" (find "addresses")
    dhcp4' ← bool_of "dhcp4" (find "dhcp4")
    gateway4' ← text_of "gateway4" (find "gateway4")
    name' ← text_of "name" (find "name")
    nameservers' ← nested_of cloud_init_nameservers_from_map "nameservers" (find "nameservers")
    ok (record {
      addresses = addresses';
      dhcp4 = dhcp4';
      gateway4 = gateway4';
      name = name';
      nameservers = nameservers';
    })

  unfoldable pub image_spec_from_map : Find → Result ParseError ImageSpec
  image_spec_from_map find = do
    alias' ← text_of "alias" (find "alias")
    customize' ← option_of image_customize_spec_from_map "customize" (find "customize")
    sha256' ← text_of "sha256" (find "sha256")
    source' ← text_of "source" (find "source")
    ok (record { alias = alias'; customize = customize'; sha256 = sha256'; source = source' })

  unfoldable pub key_resource_from_map : Find → Result ParseError KeyResource
  key_resource_from_map find = do
    name' ← text_of "name" (find "name")
    provider' ← text_of "provider" (find "provider")
    provider_spec' ← fields_of "providerSpec" (find "providerSpec")
    spec' ← nested_of key_spec_from_map "spec" (find "spec")
    ok (record { name = name'; provider = provider'; provider_spec = provider_spec'; spec = spec' })

  unfoldable pub network_spec_from_map : Find → Result ParseError NetworkSpec
  network_spec_from_map find = do
    attach_to' ← text_of "attachTo" (find "attachTo")
    cidr' ← text_of "cidr" (find "cidr")
    dhcp' ← option_of dhcp_spec_from_map "dhcp" (find "dhcp")
    dns' ← option_of dns_spec_from_map "dns" (find "dns")
    gateway' ← text_of "gateway" (find "gateway")
    mtu' ← int_of truncate "mtu" (find "mtu")
    tftp' ← option_of tftp_spec_from_map "tftp" (find "tftp")
    ok (record {
      attach_to = attach_to';
      cidr = cidr';
      dhcp = dhcp';
      dns = dns';
      gateway = gateway';
      mtu = mtu';
      tftp = tftp';
    })

  unfoldable pub readiness_spec_from_map : Find → Result ParseError ReadinessSpec
  readiness_spec_from_map find = do
    cloud_init' ← nested_of cloud_init_readiness_spec_from_map "cloudInit" (find "cloudInit")
    ssh' ← nested_of ssh_readiness_spec_from_map "ssh" (find "ssh")
    tcp' ← nested_of tcp_readiness_spec_from_map "tcp" (find "tcp")
    ok (record { cloud_init = cloud_init'; ssh = ssh'; tcp = tcp' })

  unfoldable pub cloud_init_network_config_from_map :
      Find → Result ParseError CloudInitNetworkConfig
  cloud_init_network_config_from_map find = do
    ethernets' ← list_of cloud_init_ethernet_config_from_map "ethernets" (find "ethernets")
    ok (record { ethernets = ethernets' })

  unfoldable pub image_resource_from_map : Find → Result ParseError ImageResource
  image_resource_from_map find = do
    name' ← text_of "name" (find "name")
    spec' ← nested_of image_spec_from_map "spec" (find "spec")
    ok (record { name = name'; spec = spec' })

  unfoldable pub network_resource_from_map : Find → Result ParseError NetworkResource
  network_resource_from_map find = do
    kind' ← text_of "kind" (find "kind")
    name' ← text_of "name" (find "name")
    provider' ← text_of "provider" (find "provider")
    provider_spec' ← fields_of "providerSpec" (find "providerSpec")
    spec' ← nested_of network_spec_from_map "spec" (find "spec")
    ok (record {
      kind = kind';
      name = name';
      provider = provider';
      provider_spec = provider_spec';
      spec = spec';
    })

  unfoldable pub cloud_init_spec_from_map : Find → Result ParseError CloudInitSpec
  cloud_init_spec_from_map find = do
    hostname' ← text_of "hostname" (find "hostname")
    network_config' ←
        nested_of cloud_init_network_config_from_map "networkConfig" (find "networkConfig")
    packages' ← strings_of "packages" (find "packages")
    runcmd' ← strings_of "runcmd" (find "runcmd")
    users' ← list_of user_spec_from_map "users" (find "users")
    write_files' ← list_of write_file_spec_from_map "writeFiles" (find "writeFiles")
    ok (record {
      hostname = hostname';
      network_config = network_config';
      packages = packages';
      runcmd = runcmd';
      users = users';
      write_files = write_files';
    })

  unfoldable pub vm_spec_from_map : Find → Result ParseError VmSpec
  vm_spec_from_map find = do
    boot' ← nested_of boot_spec_from_map "boot" (find "boot")
    cloud_init' ← nested_of cloud_init_spec_from_map "cloudInit" (find "cloudInit")
    disk' ← nested_of disk_spec_from_map "disk" (find "disk")
    memory' ← int_of truncate "memory" (find "memory")
    network' ← text_of "network" (find "network")
    networks' ← strings_of "networks" (find "networks")
    readiness' ← nested_of readiness_spec_from_map "readiness" (find "readiness")
    vcpus' ← int_of truncate "vcpus" (find "vcpus")
    ok (record {
      boot = boot';
      cloud_init = cloud_init';
      disk = disk';
      memory = memory';
      network = network';
      networks = networks';
      readiness = readiness';
      vcpus = vcpus';
    })

  unfoldable pub vm_resource_from_map : Find → Result ParseError VmResource
  vm_resource_from_map find = do
    name' ← text_of "name" (find "name")
    provider' ← text_of "provider" (find "provider")
    provider_spec' ← fields_of "providerSpec" (find "providerSpec")
    spec' ← nested_of vm_spec_from_map "spec" (find "spec")
    ok (record { name = name'; provider = provider'; provider_spec = provider_spec'; spec = spec' })

  unfoldable pub spec_from_map : Find → Result ParseError Spec
  spec_from_map find = do
    artifact_dir' ← text_of "artifactDir" (find "artifactDir")
    cleanup_on_failure' ← bool_of "cleanupOnFailure" (find "cleanupOnFailure")
    default_base_image' ← text_of "defaultBaseImage" (find "defaultBaseImage")
    default_provider' ← text_of "defaultProvider" (find "defaultProvider")
    image_cache_dir' ← text_of "imageCacheDir" (find "imageCacheDir")
    images' ← list_of image_resource_from_map "images" (find "images")
    keys' ← list_of key_resource_from_map "keys" (find "keys")
    networks' ← list_of network_resource_from_map "networks" (find "networks")
    providers' ← list_of provider_config_from_map "providers" (find "providers")
    state_dir' ← text_of "stateDir" (find "stateDir")
    vms' ← list_of vm_resource_from_map "vms" (find "vms")
    ok (record {
      artifact_dir = artifact_dir';
      cleanup_on_failure = cleanup_on_failure';
      default_base_image = default_base_image';
      default_provider = default_provider';
      image_cache_dir = image_cache_dir';
      images = images';
      keys = keys';
      networks = networks';
      providers = providers';
      state_dir = state_dir';
      vms = vms';
    })
