-- ===== src/Codec/Report.antt =====
-- cmd/testenv-vm/zz_generated.validate.go. A nil pointer is `none`. `decimal` prints the index of an
-- item, and `describe` an error of `FromMap`, by package fmt.
use testenv_vm.Prelude.{
  ℕ, suc, String, Bool, true, false, Option, none, some, List, [], ◌∷◌, ◌++◌, map, ◌==◌,
  if◌then◌else◌, ok, err, ℤ,
}
use testenv_vm.Codec.FromMap.{spec_from_map}
use testenv_vm.Codec.{ParseError, Find, in_field, in_item, panics}
use testenv_vm.Api.{
  BootSpec, CloudInitNameservers, CloudInitReadinessSpec, UserSpec, WriteFileSpec, DhcpSpec,
  DnsSpec, DiskSpec, ImageCustomizeSpec, KeySpec, TftpSpec, ProviderConfig, SshReadinessSpec,
  TcpReadinessSpec, ResourceRef, CloudInitEthernetConfig, ImageSpec, KeyResource, NetworkSpec,
  ReadinessSpec, CloudInitNetworkConfig, ImageResource, NetworkResource, CloudInitSpec, VmSpec,
  VmResource, Spec,
}
use Prim.Native.String.{◌++◌ as str_append}

pub record ValidationError : Type 0 where
  pub path : String
  pub message : String

pub record ConfigValidateOutput : Type 0 where
  pub valid : Bool
  pub errors : List ValidationError

-- What each function returns for the errors it has found.
unfoldable pub output : List ValidationError → ConfigValidateOutput
output [] = record { valid = true; errors = [] }
output (e ∷ es) = record { valid = false; errors = e ∷ es }

unfoldable pub required_text : String → String → List ValidationError
required_text field_name s =
    if s == "" then record { path = field_name; message = "required field is missing" } ∷ [] else []

unfoldable pub required_list {ℓ} : {A : Type ℓ} → String → List A → List ValidationError
required_list field_name [] =
    record { path = field_name; message = "required field is missing or empty" } ∷ []
required_list field_name (x ∷ xs) = []

unfoldable pub at_field : String → ValidationError → ValidationError
at_field prefix e = record { path = str_append prefix e.path; message = e.message }

-- A nested struct's errors.
unfoldable pub nested_errors : String → ConfigValidateOutput → List ValidationError
nested_errors prefix result = if result.valid then [] else map (at_field prefix) result.errors

module _ {A : Type 0} (validate : Option A → ConfigValidateOutput) where
  -- A nested pointer's errors.
  unfoldable pub pointer_errors : String → Option A → List ValidationError
  pointer_errors prefix none = []
  pointer_errors prefix (some x) = nested_errors prefix (validate (some x))

  -- A nested slice's errors, from the item at index `i` on.
  unfoldable pub item_errors : (ℕ → String) → String → ℕ → List A → List ValidationError
  item_errors decimal prefix i [] = []
  item_errors decimal prefix i (x ∷ xs) =
      nested_errors (str_append prefix (str_append (decimal i) "].")) (validate (some x))
      ++ item_errors decimal prefix (suc i) xs

-- The parse went no further than a nil value in a map.
unfoldable pub panicking : ParseError → Bool
panicking (panics k) = true
panicking (in_field k e) = panicking e
panicking (in_item k i e) = panicking e
panicking _ = false

module _ (decimal : ℕ → String) where
  unfoldable pub validate_boot_spec : Option BootSpec → ConfigValidateOutput
  validate_boot_spec none = output []
  validate_boot_spec (some s) = output (required_list "spec.order" s.order)

  unfoldable pub validate_cloud_init_nameservers :
      Option CloudInitNameservers → ConfigValidateOutput
  validate_cloud_init_nameservers none = output []
  validate_cloud_init_nameservers (some s) = output []

  unfoldable pub validate_cloud_init_readiness_spec :
      Option CloudInitReadinessSpec → ConfigValidateOutput
  validate_cloud_init_readiness_spec none = output []
  validate_cloud_init_readiness_spec (some s) = output []

  unfoldable pub validate_user_spec : Option UserSpec → ConfigValidateOutput
  validate_user_spec none = output []
  validate_user_spec (some s) = output (required_text "spec.name" s.name)

  unfoldable pub validate_write_file_spec : Option WriteFileSpec → ConfigValidateOutput
  validate_write_file_spec none = output []
  validate_write_file_spec (some s) =
      output (required_text "spec.content" s.content ++ required_text "spec.path" s.path)

  unfoldable pub validate_dhcp_spec : Option DhcpSpec → ConfigValidateOutput
  validate_dhcp_spec none = output []
  validate_dhcp_spec (some s) = output []

  unfoldable pub validate_dns_spec : Option DnsSpec → ConfigValidateOutput
  validate_dns_spec none = output []
  validate_dns_spec (some s) = output []

  unfoldable pub validate_disk_spec : Option DiskSpec → ConfigValidateOutput
  validate_disk_spec none = output []
  validate_disk_spec (some s) = output (required_text "spec.size" s.size)

  unfoldable pub validate_image_customize_spec : Option ImageCustomizeSpec → ConfigValidateOutput
  validate_image_customize_spec none = output []
  validate_image_customize_spec (some s) = output []

  unfoldable pub validate_key_spec : Option KeySpec → ConfigValidateOutput
  validate_key_spec none = output []
  validate_key_spec (some s) = output (required_text "spec.type" s.type)

  unfoldable pub validate_tftp_spec : Option TftpSpec → ConfigValidateOutput
  validate_tftp_spec none = output []
  validate_tftp_spec (some s) = output []

  unfoldable pub validate_provider_config : Option ProviderConfig → ConfigValidateOutput
  validate_provider_config none = output []
  validate_provider_config (some s) =
      output (required_text "spec.engine" s.engine ++ required_text "spec.name" s.name)

  unfoldable pub validate_ssh_readiness_spec : Option SshReadinessSpec → ConfigValidateOutput
  validate_ssh_readiness_spec none = output []
  validate_ssh_readiness_spec (some s) = output []

  unfoldable pub validate_tcp_readiness_spec : Option TcpReadinessSpec → ConfigValidateOutput
  validate_tcp_readiness_spec none = output []
  validate_tcp_readiness_spec (some s) = output []

  unfoldable pub validate_resource_ref : Option ResourceRef → ConfigValidateOutput
  validate_resource_ref none = output []
  validate_resource_ref (some s) =
      output (required_text "spec.kind" s.kind ++ required_text "spec.name" s.name)

  unfoldable pub validate_cloud_init_ethernet_config :
      Option CloudInitEthernetConfig → ConfigValidateOutput
  validate_cloud_init_ethernet_config none = output []
  validate_cloud_init_ethernet_config (some s) = output (
      required_text "spec.name" s.name
      ++ nested_errors "spec.nameservers." (validate_cloud_init_nameservers (some s.nameservers)))

  unfoldable pub validate_image_spec : Option ImageSpec → ConfigValidateOutput
  validate_image_spec none = output []
  validate_image_spec (some s) = output (
      pointer_errors (validate_image_customize_spec) "spec.customize." s.customize
      ++ required_text "spec.source" s.source)

  unfoldable pub validate_key_resource : Option KeyResource → ConfigValidateOutput
  validate_key_resource none = output []
  validate_key_resource (some s) = output (
      required_text "spec.name" s.name
      ++ nested_errors "spec.spec." (validate_key_spec (some s.spec)))

  unfoldable pub validate_network_spec : Option NetworkSpec → ConfigValidateOutput
  validate_network_spec none = output []
  validate_network_spec (some s) = output (
      pointer_errors (validate_dhcp_spec) "spec.dhcp." s.dhcp
      ++ pointer_errors (validate_dns_spec) "spec.dns." s.dns
      ++ pointer_errors (validate_tftp_spec) "spec.tftp." s.tftp)

  unfoldable pub validate_readiness_spec : Option ReadinessSpec → ConfigValidateOutput
  validate_readiness_spec none = output []
  validate_readiness_spec (some s) = output (
      nested_errors "spec.cloudInit." (validate_cloud_init_readiness_spec (some s.cloud_init))
      ++ nested_errors "spec.ssh." (validate_ssh_readiness_spec (some s.ssh))
      ++ nested_errors "spec.tcp." (validate_tcp_readiness_spec (some s.tcp)))

  unfoldable pub validate_cloud_init_network_config :
      Option CloudInitNetworkConfig → ConfigValidateOutput
  validate_cloud_init_network_config none = output []
  validate_cloud_init_network_config (some s) =
      output
        (item_errors (validate_cloud_init_ethernet_config) decimal "spec.ethernets[" 0 s.ethernets)

  unfoldable pub validate_image_resource : Option ImageResource → ConfigValidateOutput
  validate_image_resource none = output []
  validate_image_resource (some s) = output (
      required_text "spec.name" s.name
      ++ nested_errors "spec.spec." (validate_image_spec (some s.spec)))

  unfoldable pub validate_network_resource : Option NetworkResource → ConfigValidateOutput
  validate_network_resource none = output []
  validate_network_resource (some s) = output (
      required_text "spec.kind" s.kind
      ++ required_text "spec.name" s.name
      ++ nested_errors "spec.spec." (validate_network_spec (some s.spec)))

  unfoldable pub validate_cloud_init_spec : Option CloudInitSpec → ConfigValidateOutput
  validate_cloud_init_spec none = output []
  validate_cloud_init_spec (some s) = output (
      nested_errors "spec.networkConfig."
        (validate_cloud_init_network_config (some s.network_config))
      ++ item_errors (validate_user_spec) decimal "spec.users[" 0 s.users
      ++ item_errors (validate_write_file_spec) decimal "spec.writeFiles[" 0 s.write_files)

  unfoldable pub validate_vm_spec : Option VmSpec → ConfigValidateOutput
  validate_vm_spec none = output []
  validate_vm_spec (some s) = output (
      nested_errors "spec.boot." (validate_boot_spec (some s.boot))
      ++ nested_errors "spec.cloudInit." (validate_cloud_init_spec (some s.cloud_init))
      ++ nested_errors "spec.disk." (validate_disk_spec (some s.disk))
      ++ nested_errors "spec.readiness." (validate_readiness_spec (some s.readiness)))

  unfoldable pub validate_vm_resource : Option VmResource → ConfigValidateOutput
  validate_vm_resource none = output []
  validate_vm_resource (some s) = output (
      required_text "spec.name" s.name
      ++ nested_errors "spec.spec." (validate_vm_spec (some s.spec)))

  unfoldable pub validate_spec : Option Spec → ConfigValidateOutput
  validate_spec none = output []
  validate_spec (some s) = output (
      item_errors (validate_image_resource) decimal "spec.images[" 0 s.images
      ++ item_errors (validate_key_resource) decimal "spec.keys[" 0 s.keys
      ++ item_errors (validate_network_resource) decimal "spec.networks[" 0 s.networks
      ++ required_list "spec.providers" s.providers
      ++ item_errors (validate_provider_config) decimal "spec.providers[" 0 s.providers
      ++ item_errors (validate_vm_resource) decimal "spec.vms[" 0 s.vms)

  abbrev pub validate : Option Spec → ConfigValidateOutput
  validate s = validate_spec s

  -- `none` stands for a panic of `FromMap`.
  unfoldable pub validate_map :
      (String → ℤ) → (ParseError → String) → Find → Option ConfigValidateOutput
  validate_map truncate describe m = elim (spec_from_map truncate m) [
    | ok spec ↦ some (validate (some spec))
    | err e ↦
        if panicking e
        then none
        else some (output (record { path = "spec"; message = describe e } ∷ []))
  ]
