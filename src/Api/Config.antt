-- ===== src/Api/Config.antt =====
-- api/v1: the specification of a test environment, as generated from spec.openapi.yaml. Fields stand
-- in the order of the Go structs, which is the order in which reflection visits them.
use testenv_vm.Prelude.{String, Bool, Option, List, ℤ}

-- The free-form `map[string]interface{}` of a provider: decoded JSON.
mutual
  pub data Value : Type 0 where
    null : Value
    boolean : Bool → Value
    integer : ℤ → Value
    number : String → Value
    text : String → Value
    strings : List String → Value
    array : Items → Value
    object : Fields → Value

  pub data Items : Type 0 where
    nil : Items
    cons : Value → Items → Items

  pub data Fields : Type 0 where
    end : Fields
    field : String → Value → Fields → Fields

pub record BootSpec : Type 0 where
  pub firmware : String
  pub order : List String

pub record CloudInitNameservers : Type 0 where
  pub addresses : List String

pub record CloudInitReadinessSpec : Type 0 where
  pub enabled : Bool
  pub timeout : String

pub record UserSpec : Type 0 where
  pub name : String
  pub ssh_authorized_keys : List String
  pub sudo : String

pub record WriteFileSpec : Type 0 where
  pub content : String
  pub path : String
  pub permissions : String

pub record DhcpSpec : Type 0 where
  pub dns_servers : List String
  pub enabled : Bool
  pub lease_time : String
  pub range_end : String
  pub range_start : String
  pub router : String

pub record DnsSpec : Type 0 where
  pub enabled : Bool
  pub servers : List String

pub record DiskSpec : Type 0 where
  pub base_image : String
  pub size : String

pub record ImageCustomizeSpec : Type 0 where
  pub packages : List String
  pub runcmd : List String

pub record KeySpec : Type 0 where
  pub bits : ℤ
  pub comment : String
  pub output_dir : String
  pub type : String

pub record TftpSpec : Type 0 where
  pub boot_file : String
  pub enabled : Bool
  pub root : String

pub record ProviderConfig : Type 0 where
  pub default : Bool
  pub engine : String
  pub name : String
  pub spec : Fields

pub record SshReadinessSpec : Type 0 where
  pub enabled : Bool
  pub private_key : String
  pub timeout : String
  pub user : String

pub record TcpReadinessSpec : Type 0 where
  pub port : ℤ
  pub timeout : String

pub record ResourceRef : Type 0 where
  pub kind : String
  pub name : String
  pub provider : String

pub record CloudInitEthernetConfig : Type 0 where
  pub addresses : List String
  pub dhcp4 : Bool
  pub gateway4 : String
  pub name : String
  pub nameservers : CloudInitNameservers

pub record ImageSpec : Type 0 where
  pub alias : String
  pub customize : Option ImageCustomizeSpec
  pub sha256 : String
  pub source : String

pub record KeyResource : Type 0 where
  pub name : String
  pub provider : String
  pub provider_spec : Fields
  pub spec : KeySpec

pub record NetworkSpec : Type 0 where
  pub attach_to : String
  pub cidr : String
  pub dhcp : Option DhcpSpec
  pub dns : Option DnsSpec
  pub gateway : String
  pub mtu : ℤ
  pub tftp : Option TftpSpec

pub record ReadinessSpec : Type 0 where
  pub cloud_init : CloudInitReadinessSpec
  pub ssh : SshReadinessSpec
  pub tcp : TcpReadinessSpec

pub record CloudInitNetworkConfig : Type 0 where
  pub ethernets : List CloudInitEthernetConfig

pub record ImageResource : Type 0 where
  pub name : String
  pub spec : ImageSpec

pub record NetworkResource : Type 0 where
  pub kind : String
  pub name : String
  pub provider : String
  pub provider_spec : Fields
  pub spec : NetworkSpec

pub record CloudInitSpec : Type 0 where
  pub hostname : String
  pub network_config : CloudInitNetworkConfig
  pub packages : List String
  pub runcmd : List String
  pub users : List UserSpec
  pub write_files : List WriteFileSpec

pub record VmSpec : Type 0 where
  pub boot : BootSpec
  pub cloud_init : CloudInitSpec
  pub disk : DiskSpec
  pub memory : ℤ
  pub network : String
  pub networks : List String
  pub readiness : ReadinessSpec
  pub vcpus : ℤ

pub record VmResource : Type 0 where
  pub name : String
  pub provider : String
  pub provider_spec : Fields
  pub spec : VmSpec

pub record Spec : Type 0 where
  pub artifact_dir : String
  pub cleanup_on_failure : Bool
  pub default_base_image : String
  pub default_provider : String
  pub image_cache_dir : String
  pub images : List ImageResource
  pub keys : List KeyResource
  pub networks : List NetworkResource
  pub providers : List ProviderConfig
  pub state_dir : String
  pub vms : List VmResource
