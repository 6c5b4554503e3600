-- ===== src/Spec/Render.antt =====
-- pkg/spec/template.go: `RenderSpec` over the resources of a specification. `renderValue` visits the
-- string fields of a struct in their order and stops at the first error; one string is rendered by
-- Go's text/template, which is the parameter `render`.
use testenv_vm.Prelude.{String, Option, none, some, List, [], ◌∷◌, Result, ◌>>=◌, ok}
use testenv_vm.Api.{
  BootSpec, CloudInitEthernetConfig, CloudInitNameservers, CloudInitNetworkConfig,
  CloudInitReadinessSpec, CloudInitSpec, DhcpSpec, DiskSpec, DnsSpec, KeyResource, KeySpec,
  NetworkResource, NetworkSpec, ReadinessSpec, SshReadinessSpec, TcpReadinessSpec, TftpSpec,
  UserSpec, VmResource, VmSpec, WriteFileSpec, Value, Items, Fields, text, strings, array, object,
  nil, cons, end, field,
}

module _ {A : Type 0} (render_one : A → Result String A) where
  -- `reflect.Slice`
  unfoldable pub render_each : List A → Result String (List A)
  render_each [] = ok []
  render_each (x ∷ xs) = do x' ← render_one x; xs' ← render_each xs; ok (x' ∷ xs')

  -- `reflect.Ptr`
  unfoldable pub render_at : Option A → Result String (Option A)
  render_at none = ok none
  render_at (some x) = do x' ← render_one x; ok (some x')

module _ (render : String → Result String String) where
  -- `renderMapValue`
  unfoldable mutual
    pub render_value : Value → Result String Value
    render_value (text s) = do s' ← render s; ok (text s')
    render_value (strings ss) = do ss' ← render_each render ss; ok (strings ss')
    render_value (array xs) = do xs' ← render_items xs; ok (array xs')
    render_value (object fs) = do fs' ← render_fields fs; ok (object fs')
    render_value v = ok v

    pub render_items : Items → Result String Items
    render_items nil = ok nil
    render_items (cons v vs) = do v' ← render_value v; vs' ← render_items vs; ok (cons v' vs')

    pub render_fields : Fields → Result String Fields
    render_fields end = ok end
    render_fields (field k v fs) = do
      v' ← render_value v
      fs' ← render_fields fs
      ok (field k v' fs')

  unfoldable pub render_key_spec : KeySpec → Result String KeySpec
  render_key_spec r = do
    comment' ← render r.comment
    output_dir' ← render r.output_dir
    type' ← render r.type
    ok (record r { comment = comment'; output_dir = output_dir'; type = type' })

  unfoldable pub render_key_resource : KeyResource → Result String KeyResource
  unfolding render_fields render_key_spec
  render_key_resource r = do
    name' ← render r.name
    provider' ← render r.provider
    provider_spec' ← render_fields r.provider_spec
    spec' ← render_key_spec r.spec
    ok (record r {
      name = name';
      provider = provider';
      provider_spec = provider_spec';
      spec = spec';
    })

  unfoldable pub render_dhcp_spec : DhcpSpec → Result String DhcpSpec
  unfolding render_each
  render_dhcp_spec r = do
    dns_servers' ← render_each render r.dns_servers
    lease_time' ← render r.lease_time
    range_end' ← render r.range_end
    range_start' ← render r.range_start
    router' ← render r.router
    ok (record r {
      dns_servers = dns_servers';
      lease_time = lease_time';
      range_end = range_end';
      range_start = range_start';
      router = router';
    })

  unfoldable pub render_dns_spec : DnsSpec → Result String DnsSpec
  unfolding render_each
  render_dns_spec r = do
    servers' ← render_each render r.servers
    ok (record r { servers = servers' })

  unfoldable pub render_tftp_spec : TftpSpec → Result String TftpSpec
  render_tftp_spec r = do
    boot_file' ← render r.boot_file
    root' ← render r.root
    ok (record r { boot_file = boot_file'; root = root' })

  unfoldable pub render_network_spec : NetworkSpec → Result String NetworkSpec
  unfolding render_at render_dhcp_spec render_dns_spec render_tftp_spec
  render_network_spec r = do
    attach_to' ← render r.attach_to
    cidr' ← render r.cidr
    dhcp' ← render_at render_dhcp_spec r.dhcp
    dns' ← render_at render_dns_spec r.dns
    gateway' ← render r.gateway
    tftp' ← render_at render_tftp_spec r.tftp
    ok (record r {
      attach_to = attach_to';
      cidr = cidr';
      dhcp = dhcp';
      dns = dns';
      gateway = gateway';
      tftp = tftp';
    })

  unfoldable pub render_network_resource : NetworkResource → Result String NetworkResource
  unfolding render_fields render_network_spec
  render_network_resource r = do
    kind' ← render r.kind
    name' ← render r.name
    provider' ← render r.provider
    provider_spec' ← render_fields r.provider_spec
    spec' ← render_network_spec r.spec
    ok (record r {
      kind = kind';
      name = name';
      provider = provider';
      provider_spec = provider_spec';
      spec = spec';
    })

  unfoldable pub render_boot_spec : BootSpec → Result String BootSpec
  unfolding render_each
  render_boot_spec r = do
    firmware' ← render r.firmware
    order' ← render_each render r.order
    ok (record r { firmware = firmware'; order = order' })

  unfoldable pub render_cloud_init_nameservers :
      CloudInitNameservers → Result String CloudInitNameservers
  unfolding render_each
  render_cloud_init_nameservers r = do
    addresses' ← render_each render r.addresses
    ok (record r { addresses = addresses' })

  unfoldable pub render_cloud_init_ethernet_config :
      CloudInitEthernetConfig → Result String CloudInitEthernetConfig
  unfolding render_each render_cloud_init_nameservers
  render_cloud_init_ethernet_config r = do
    addresses' ← render_each render r.addresses
    gateway4' ← render r.gateway4
    name' ← render r.name
    nameservers' ← render_cloud_init_nameservers r.nameservers
    ok (record r {
      addresses = addresses';
      gateway4 = gateway4';
      name = name';
      nameservers = nameservers';
    })

  unfoldable pub render_cloud_init_network_config :
      CloudInitNetworkConfig → Result String CloudInitNetworkConfig
  unfolding render_each render_cloud_init_ethernet_config
  render_cloud_init_network_config r = do
    ethernets' ← render_each render_cloud_init_ethernet_config r.ethernets
    ok (record r { ethernets = ethernets' })

  unfoldable pub render_user_spec : UserSpec → Result String UserSpec
  unfolding render_each
  render_user_spec r = do
    name' ← render r.name
    ssh_authorized_keys' ← render_each render r.ssh_authorized_keys
    sudo' ← render r.sudo
    ok (record r { name = name'; ssh_authorized_keys = ssh_authorized_keys'; sudo = sudo' })

  unfoldable pub render_write_file_spec : WriteFileSpec → Result String WriteFileSpec
  render_write_file_spec r = do
    content' ← render r.content
    path' ← render r.path
    permissions' ← render r.permissions
    ok (record r { content = content'; path = path'; permissions = permissions' })

  unfoldable pub render_cloud_init_spec : CloudInitSpec → Result String CloudInitSpec
  unfolding render_cloud_init_network_config render_each render_user_spec render_write_file_spec
  render_cloud_init_spec r = do
    hostname' ← render r.hostname
    network_config' ← render_cloud_init_network_config r.network_config
    packages' ← render_each render r.packages
    runcmd' ← render_each render r.runcmd
    users' ← render_each render_user_spec r.users
    write_files' ← render_each render_write_file_spec r.write_files
    ok (record r {
      hostname = hostname';
      network_config = network_config';
      packages = packages';
      runcmd = runcmd';
      users = users';
      write_files = write_files';
    })

  unfoldable pub render_disk_spec : DiskSpec → Result String DiskSpec
  render_disk_spec r = do
    base_image' ← render r.base_image
    size' ← render r.size
    ok (record r { base_image = base_image'; size = size' })

  unfoldable pub render_cloud_init_readiness_spec :
      CloudInitReadinessSpec → Result String CloudInitReadinessSpec
  render_cloud_init_readiness_spec r = do
    timeout' ← render r.timeout
    ok (record r { timeout = timeout' })

  unfoldable pub render_ssh_readiness_spec : SshReadinessSpec → Result String SshReadinessSpec
  render_ssh_readiness_spec r = do
    private_key' ← render r.private_key
    timeout' ← render r.timeout
    user' ← render r.user
    ok (record r { private_key = private_key'; timeout = timeout'; user = user' })

  unfoldable pub render_tcp_readiness_spec : TcpReadinessSpec → Result String TcpReadinessSpec
  render_tcp_readiness_spec r = do timeout' ← render r.timeout; ok (record r { timeout = timeout' })

  unfoldable pub render_readiness_spec : ReadinessSpec → Result String ReadinessSpec
  unfolding render_cloud_init_readiness_spec render_ssh_readiness_spec render_tcp_readiness_spec
  render_readiness_spec r = do
    cloud_init' ← render_cloud_init_readiness_spec r.cloud_init
    ssh' ← render_ssh_readiness_spec r.ssh
    tcp' ← render_tcp_readiness_spec r.tcp
    ok (record r { cloud_init = cloud_init'; ssh = ssh'; tcp = tcp' })

  unfoldable pub render_vm_spec : VmSpec → Result String VmSpec
  unfolding render_boot_spec render_cloud_init_spec render_disk_spec render_each
      render_readiness_spec
  render_vm_spec r = do
    boot' ← render_boot_spec r.boot
    cloud_init' ← render_cloud_init_spec r.cloud_init
    disk' ← render_disk_spec r.disk
    network' ← render r.network
    networks' ← render_each render r.networks
    readiness' ← render_readiness_spec r.readiness
    ok (record r {
      boot = boot';
      cloud_init = cloud_init';
      disk = disk';
      network = network';
      networks = networks';
      readiness = readiness';
    })

  unfoldable pub render_vm_resource : VmResource → Result String VmResource
  unfolding render_fields render_vm_spec
  render_vm_resource r = do
    name' ← render r.name
    provider' ← render r.provider
    provider_spec' ← render_fields r.provider_spec
    spec' ← render_vm_spec r.spec
    ok (record r {
      name = name';
      provider = provider';
      provider_spec = provider_spec';
      spec = spec';
    })
