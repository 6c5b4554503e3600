-- ===== src/Stub.antt =====
-- internal/providers/stub/provider.go: the stub provider. Its mutex is not modelled: each operation
-- holds it from its first line to its last. What goes through encoding/json to its client is in
-- Stub/Transport.antt. Time stamps are left out. A resource is given by the JSON object of its struct.
use testenv_vm.Prelude.{
  if◌then◌else◌, Dict, lookup, insert, remove, has, String, Option, none, some, List, [], ◌∷◌, ◌==◌,
}
use testenv_vm.Api.{Value, Items, text, array, object, nil, cons}
use testenv_vm.Api.Provider.{
  OperationResult, new_not_found_error, new_already_exists_error, error_result, success_result,
  KeySpec, NetworkSpec, VmSpec,
}
use testenv_vm.Provider.{CapabilitiesResponse}
use testenv_vm.Codec.{present, text_entry}
pub mod Refinement
pub mod Transport
use Prim.Native.String.{◌++◌ as str_append}

pub record KeyState : Type 0 where
  pub name : String
  pub type : String
  pub public_key : String
  pub public_key_path : String
  pub private_key_path : String
  pub fingerprint : String

pub record NetworkState : Type 0 where
  pub name : String
  pub kind : String
  pub status : String
  pub ip : String
  pub cidr : String
  pub interface_name : String
  pub uuid : String

pub record VmState : Type 0 where
  pub name : String
  pub status : String
  pub ip : String
  pub mac : String
  pub uuid : String
  pub ssh_command : String

abbrev pub key_value : KeyState → Value
key_value k = object (
    present (
      ("name", some (text k.name))
      ∷ ("type", some (text k.type))
      ∷ ("publicKey", some (text k.public_key))
      ∷ ("publicKeyPath", some (text k.public_key_path))
      ∷ ("privateKeyPath", some (text k.private_key_path))
      ∷ ("fingerprint", some (text k.fingerprint))
      ∷ []))

abbrev pub network_value : NetworkState → Value
network_value n = object (
    present (
      ("name", some (text n.name))
      ∷ ("kind", some (text n.kind))
      ∷ ("status", some (text n.status))
      ∷ ("ip", text_entry n.ip)
      ∷ ("cidr", text_entry n.cidr)
      ∷ ("interfaceName", text_entry n.interface_name)
      ∷ ("uuid", text_entry n.uuid)
      ∷ []))

abbrev pub vm_value : VmState → Value
vm_value v = object (
    present (
      ("name", some (text v.name))
      ∷ ("status", some (text v.status))
      ∷ ("ip", text_entry v.ip)
      ∷ ("mac", text_entry v.mac)
      ∷ ("uuid", text_entry v.uuid)
      ∷ ("sshCommand", text_entry v.ssh_command)
      ∷ []))

pub record Provider : Type 0 where
  pub keys : Dict KeyState
  pub networks : Dict NetworkState
  pub vms : Dict VmState
  pub version : String

abbrev new_provider : Provider
new_provider = record { keys = []; networks = []; vms = []; version = "" }

unfoldable version_of : Provider → String
version_of p = if p.version == "" then "dev" else p.version

abbrev crud : List String
crud = "create" ∷ "get" ∷ "list" ∷ "delete" ∷ []

unfoldable capabilities : Provider → CapabilitiesResponse
unfolding version_of
capabilities p = record {
  provider_name = "stub";
  version = version_of p;
  resources =
      record { kind = "key"; operations = crud }
      ∷ record { kind = "network"; operations = crud }
      ∷ record { kind = "vm"; operations = crud }
      ∷ [];
}

abbrev pub default_to : String → String → String
default_to s default = if s == "" then default else s

-- What an operation does with one of the three maps. `quote` is the verb %q of package fmt.
module _ (quote : String → String) {A : Type 0} (noun : String) (value : A → Value) where
  unfoldable pub create_in : String → A → Dict A → OperationResult × Dict A
  create_in name x m =
      if has name m
      then (error_result (new_already_exists_error quote noun name), m)
      else (success_result (some (value x)), insert name x m)

  abbrev pub found_in : String → Option A → OperationResult
  found_in name none = error_result (new_not_found_error quote noun name)
  found_in name (some x) = success_result (some (value x))

  unfoldable pub get_in : String → Dict A → OperationResult
  get_in name m = found_in name (lookup name m)

  unfoldable pub delete_in : String → Dict A → OperationResult × Dict A
  delete_in name m =
      if has name m
      then (success_result none, remove name m)
      else (error_result (new_not_found_error quote noun name), m)

module _ {A : Type 0} (value : A → Value) where
  abbrev values : Dict A → Items
  values [] = nil
  values ((name, x) ∷ rest) = cons (value x) (values rest)

  unfoldable pub list_in : Dict A → OperationResult
  list_in m = success_result (some (array (values m)))

unfoldable pub new_key : String → KeySpec → KeyState
new_key name spec =
    let kind = default_to spec.type "ed25519" in
    record {
      name = name;
      type = kind;
      public_key =
          str_append "ssh-"
            (str_append kind (str_append " MOCK" (str_append name (str_append " " spec.comment))));
      public_key_path = str_append "/tmp/stub-keys/" (str_append name ".pub");
      private_key_path = str_append "/tmp/stub-keys/" name;
      fingerprint = str_append "SHA256:MOCK" name;
    }

unfoldable pub new_network : String → String × NetworkSpec → NetworkState
new_network name (kind, spec) = record {
  name = name;
  kind = default_to kind "bridge";
  status = "ready";
  ip = "192.168.100.1";
  cidr = default_to spec.cidr "192.168.100.0/24";
  interface_name = str_append "stub-br-" name;
  uuid = str_append "stub-net-" name;
}

unfoldable pub new_vm : String → VmSpec → VmState
new_vm name spec = record {
  name = name;
  status = "running";
  ip = "192.168.100.10";
  mac = "52:54:00:12:34:56";
  uuid = str_append "stub-vm-" name;
  ssh_command = "ssh -i /tmp/key user@192.168.100.10";
}

abbrev pub Operation : Type 0
Operation = Provider → OperationResult × Provider

module _ (quote : String → String) where
  unfoldable pub key_create : String → KeySpec → Operation
  unfolding create_in new_key
  key_create name spec p =
      let (result, keys) = create_in quote "key" key_value name (new_key name spec) p.keys in
      (result, record p { keys = keys })

  unfoldable pub key_get : String → Operation
  unfolding get_in
  key_get name p = (get_in quote "key" key_value name p.keys, p)

  unfoldable key_list : Operation
  unfolding list_in
  key_list p = (list_in key_value p.keys, p)

  unfoldable pub key_delete : String → Operation
  unfolding delete_in
  key_delete name p =
      let (result, keys) = delete_in quote "key" key_value name p.keys in
      (result, record p { keys = keys })

  unfoldable pub network_create : String → String × NetworkSpec → Operation
  unfolding create_in new_network
  network_create name spec p =
      let (result, networks) =
        create_in quote "network" network_value name (new_network name spec) p.networks in
      (result, record p { networks = networks })

  unfoldable pub network_get : String → Operation
  unfolding get_in
  network_get name p = (get_in quote "network" network_value name p.networks, p)

  unfoldable network_list : Operation
  unfolding list_in
  network_list p = (list_in network_value p.networks, p)

  unfoldable pub network_delete : String → Operation
  unfolding delete_in
  network_delete name p =
      let (result, networks) = delete_in quote "network" network_value name p.networks in
      (result, record p { networks = networks })

  unfoldable pub vm_create : String → VmSpec → Operation
  unfolding create_in new_vm
  vm_create name spec p =
      let (result, vms) = create_in quote "vm" vm_value name (new_vm name spec) p.vms in
      (result, record p { vms = vms })

  unfoldable pub vm_get : String → Operation
  unfolding get_in
  vm_get name p = (get_in quote "vm" vm_value name p.vms, p)

  unfoldable vm_list : Operation
  unfolding list_in
  vm_list p = (list_in vm_value p.vms, p)

  unfoldable pub vm_delete : String → Operation
  unfolding delete_in
  vm_delete name p =
      let (result, vms) = delete_in quote "vm" vm_value name p.vms in
      (result, record p { vms = vms })
