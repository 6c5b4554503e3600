-- ===== src/Executor/Convert.antt =====
-- pkg/orchestrator/executor.go: `convertNetworkSpec` and `convertVMSpec`, and the rewrites of the
-- converted specifications for isolation.
use testenv_vm.Prelude.{
  String, Bool, not, ◌||◌, Option, none, some, List, [], ◌∷◌, map, ◌==◌, if◌then◌else◌, is_empty,
  is_positive,
}
use testenv_vm.Api
use testenv_vm.Api.Provider
use mathlib.Core.Option
use testenv_vm.Executor.Isolation.{IsolationConfig, prefixed_name, rewrite_cidr}

abbrev convert_dhcp : Api.DhcpSpec → Provider.DhcpSpec
convert_dhcp dhcp = record {
  enabled = dhcp.enabled;
  range_start = dhcp.range_start;
  range_end = dhcp.range_end;
  lease_time = dhcp.lease_time;
  router = dhcp.router;
  dns_servers = dhcp.dns_servers;
}

abbrev convert_dns : Api.DnsSpec → Provider.DnsSpec
convert_dns dns = record { enabled = dns.enabled; servers = dns.servers }

abbrev convert_tftp : Api.TftpSpec → Provider.TftpSpec
convert_tftp tftp = record { enabled = tftp.enabled; root = tftp.root; boot_file = tftp.boot_file }

unfoldable pub convert_network_spec : Api.NetworkSpec → Provider.NetworkSpec
convert_network_spec spec = record {
  cidr = spec.cidr;
  gateway = spec.gateway;
  attach_to = spec.attach_to;
  mtu = spec.mtu;
  dhcp = Option.map convert_dhcp spec.dhcp;
  dns = Option.map convert_dns spec.dns;
  tftp = Option.map convert_tftp spec.tftp;
}

abbrev rewrite_dhcp : Option IsolationConfig → Provider.DhcpSpec → Provider.DhcpSpec
rewrite_dhcp iso dhcp = record dhcp {
  range_start = rewrite_cidr iso dhcp.range_start;
  range_end = rewrite_cidr iso dhcp.range_end;
}

-- Only the CIDR, the gateway and the DHCP range are rewritten.
unfoldable pub isolate_network :
    Option IsolationConfig → Provider.NetworkSpec → Provider.NetworkSpec
isolate_network iso spec = record spec {
  cidr = rewrite_cidr iso spec.cidr;
  gateway = rewrite_cidr iso spec.gateway;
  dhcp = Option.map (rewrite_dhcp iso) spec.dhcp;
}

abbrev convert_user : Api.UserSpec → Provider.UserSpec
convert_user u = record {
  name = u.name;
  sudo = u.sudo;
  ssh_authorized_keys = u.ssh_authorized_keys;
}

abbrev convert_write_file : Api.WriteFileSpec → Provider.WriteFileSpec
convert_write_file wf = record {
  path = wf.path;
  content = wf.content;
  permissions = wf.permissions;
}

abbrev convert_ethernet : Api.CloudInitEthernetConfig → Provider.CloudInitEthernetConfig
convert_ethernet eth = record {
  name = eth.name;
  dhcp4 = some eth.dhcp4;
  addresses = eth.addresses;
  gateway4 = eth.gateway4;
  nameservers =
      if is_empty eth.nameservers.addresses
      then none
      else some (record { addresses = eth.nameservers.addresses });
}

abbrev has_cloud_init : Api.CloudInitSpec → Bool
has_cloud_init ci =
    not (ci.hostname == "")
    || not (is_empty ci.users)
    || not (is_empty ci.packages)
    || not (is_empty ci.runcmd)
    || not (is_empty ci.write_files)
    || not (is_empty ci.network_config.ethernets)

abbrev convert_cloud_init : Api.CloudInitSpec → Provider.CloudInitSpec
convert_cloud_init ci = record {
  hostname = ci.hostname;
  users = map convert_user ci.users;
  packages = ci.packages;
  write_files = map convert_write_file ci.write_files;
  runcmd = ci.runcmd;
  network_config =
      if is_empty ci.network_config.ethernets
      then none
      else some (record { ethernets = map convert_ethernet ci.network_config.ethernets });
}

abbrev convert_readiness : Api.ReadinessSpec → Option Provider.ReadinessSpec
convert_readiness r =
    if r.ssh.enabled || r.cloud_init.enabled || is_positive r.tcp.port
    then some (record {
      ssh =
          if r.ssh.enabled
          then some (record {
            enabled = r.ssh.enabled;
            timeout = r.ssh.timeout;
            user = r.ssh.user;
            private_key = r.ssh.private_key;
          })
          else none;
      tcp =
          if is_positive r.tcp.port
          then some (record { port = r.tcp.port; timeout = r.tcp.timeout })
          else none;
      cloud_init =
          if r.cloud_init.enabled
          then some (record { enabled = r.cloud_init.enabled; timeout = r.cloud_init.timeout })
          else none;
    })
    else none

-- `Networks` takes precedence over `Network`.
unfoldable pub resolved_networks : Api.VmSpec → List String
resolved_networks spec =
    if not (is_empty spec.networks)
    then spec.networks
    else if not (spec.network == "")
    then spec.network ∷ []
    else []

unfoldable pub convert_vm_spec : Api.VmSpec → Provider.VmSpec
unfolding resolved_networks
convert_vm_spec spec = record {
  memory = spec.memory;
  vcpus = spec.vcpus;
  network = spec.network;
  networks = resolved_networks spec;
  disk = record { base_image = spec.disk.base_image; size = spec.disk.size };
  boot = record { order = spec.boot.order; firmware = spec.boot.firmware };
  cloud_init =
      if has_cloud_init spec.cloud_init then some (convert_cloud_init spec.cloud_init) else none;
  readiness = convert_readiness spec.readiness;
}

abbrev rewrite_ethernet :
    Option IsolationConfig → Provider.CloudInitEthernetConfig → Provider.CloudInitEthernetConfig
rewrite_ethernet iso eth = record eth {
  addresses = map (rewrite_cidr iso) eth.addresses;
  gateway4 = rewrite_cidr iso eth.gateway4;
}

abbrev rewrite_write_file : Option IsolationConfig → Provider.WriteFileSpec → Provider.WriteFileSpec
rewrite_write_file iso wf = record wf { content = rewrite_cidr iso wf.content }

abbrev rewrite_network_config :
    Option IsolationConfig → Provider.CloudInitNetworkConfig → Provider.CloudInitNetworkConfig
rewrite_network_config iso nc = record nc { ethernets = map (rewrite_ethernet iso) nc.ethernets }

abbrev rewrite_cloud_init : Option IsolationConfig → Provider.CloudInitSpec → Provider.CloudInitSpec
rewrite_cloud_init iso ci = record ci {
  write_files = map (rewrite_write_file iso) ci.write_files;
  runcmd = map (rewrite_cidr iso) ci.runcmd;
  network_config = Option.map (rewrite_network_config iso) ci.network_config;
}

-- The network names get the prefix, the texts of cloud-init the new subnet.
unfoldable pub isolate_vm : Option IsolationConfig → Provider.VmSpec → Provider.VmSpec
isolate_vm iso spec = record spec {
  networks = map (prefixed_name iso) spec.networks;
  network = if spec.network == "" then spec.network else prefixed_name iso spec.network;
  cloud_init = Option.map (rewrite_cloud_init iso) spec.cloud_init;
}
