-- ===== src/Api/Provider.antt =====
-- api/provider/v1: what the executor sends to a provider, and what it gets back. Fields of the
-- requests that the executor never fills (CPU, console, virtiofs, IPv6, ...) are left out.
use testenv_vm.Prelude.{String, Bool, true, false, Option, none, some, List, ℤ}
use testenv_vm.Api.Config.{Fields, Value}
use Prim.Native.String.{◌++◌ as str_append}

-- errors.go and operations.go
pub data ErrorCode : Type 0 where
  not_implemented not_found already_exists invalid_spec provider_error : ErrorCode
  timeout permission_denied resource_busy dependency_failed : ErrorCode

pub record OperationError : Type 0 where
  pub code : ErrorCode
  pub message : String
  pub retryable : Bool

pub record OperationResult : Type 0 where
  pub success : Bool
  pub error : Option OperationError
  pub resource : Option Value

unfoldable pub is_retryable_code : ErrorCode → Bool
is_retryable_code timeout = true
is_retryable_code resource_busy = true
is_retryable_code _ = false

unfoldable pub new_operation_error : ErrorCode → String → OperationError
unfolding is_retryable_code
new_operation_error code message = record {
  code = code;
  message = message;
  retryable = is_retryable_code code;
}

-- `quote` is the verb %q of package fmt.
unfoldable pub new_not_found_error : (String → String) → String → String → OperationError
new_not_found_error quote resource name = record {
  code = not_found;
  message = str_append resource (str_append " " (str_append (quote name) " not found"));
  retryable = false;
}

unfoldable pub new_already_exists_error : (String → String) → String → String → OperationError
new_already_exists_error quote resource name = record {
  code = already_exists;
  message = str_append resource (str_append " " (str_append (quote name) " already exists"));
  retryable = false;
}

abbrev pub error_result : OperationError → OperationResult
error_result e = record { success = false; error = some e; resource = none }

abbrev pub success_result : Option Value → OperationResult
success_result resource = record { success = true; error = none; resource = resource }

-- resources.go
pub record KeySpec : Type 0 where
  pub type : String
  pub bits : ℤ
  pub comment : String
  pub output_dir : String

pub record DhcpSpec : Type 0 where
  pub enabled : Bool
  pub range_start : String
  pub range_end : String
  pub lease_time : String
  pub router : String
  pub dns_servers : List String

pub record DnsSpec : Type 0 where
  pub enabled : Bool
  pub servers : List String

pub record TftpSpec : Type 0 where
  pub enabled : Bool
  pub root : String
  pub boot_file : String

pub record NetworkSpec : Type 0 where
  pub cidr : String
  pub gateway : String
  pub attach_to : String
  pub mtu : ℤ
  pub dhcp : Option DhcpSpec
  pub dns : Option DnsSpec
  pub tftp : Option TftpSpec

pub record DiskSpec : Type 0 where
  pub base_image : String
  pub size : String

pub record BootSpec : Type 0 where
  pub order : List String
  pub firmware : String

pub record UserSpec : Type 0 where
  pub name : String
  pub sudo : String
  pub ssh_authorized_keys : List String

pub record WriteFileSpec : Type 0 where
  pub path : String
  pub content : String
  pub permissions : String

pub record CloudInitNameservers : Type 0 where
  pub addresses : List String

pub record CloudInitEthernetConfig : Type 0 where
  pub name : String
  pub dhcp4 : Option Bool
  pub addresses : List String
  pub gateway4 : String
  pub nameservers : Option CloudInitNameservers

pub record CloudInitNetworkConfig : Type 0 where
  pub ethernets : List CloudInitEthernetConfig

pub record CloudInitSpec : Type 0 where
  pub hostname : String
  pub users : List UserSpec
  pub packages : List String
  pub write_files : List WriteFileSpec
  pub runcmd : List String
  pub network_config : Option CloudInitNetworkConfig

pub record SshReadinessSpec : Type 0 where
  pub enabled : Bool
  pub timeout : String
  pub user : String
  pub private_key : String

pub record TcpReadinessSpec : Type 0 where
  pub port : ℤ
  pub timeout : String

pub record CloudInitReadinessSpec : Type 0 where
  pub enabled : Bool
  pub timeout : String

pub record ReadinessSpec : Type 0 where
  pub ssh : Option SshReadinessSpec
  pub tcp : Option TcpReadinessSpec
  pub cloud_init : Option CloudInitReadinessSpec

pub record VmSpec : Type 0 where
  pub memory : ℤ
  pub vcpus : ℤ
  pub network : String
  pub networks : List String
  pub disk : DiskSpec
  pub boot : BootSpec
  pub cloud_init : Option CloudInitSpec
  pub readiness : Option ReadinessSpec

-- The requests of the tools `key_create`, `network_create`, `vm_create` and `*_delete`. A delete
-- request leaves `Force` unset.
pub data Request : Type 0 where
  key_create : String → KeySpec → Fields → Request
  network_create : String → String → NetworkSpec → Fields → Request
  vm_create : String → VmSpec → Fields → Request
  delete : String → Request
