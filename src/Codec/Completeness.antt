-- ===== src/Codec/Completeness.antt =====
-- cmd/testenv-vm/zz_generated.validate.go: which specifications the validation accepts.
use testenv_vm.Codec.Report.{
  ValidationError, ConfigValidateOutput, output, required_text, required_list, nested_errors,
  pointer_errors, item_errors, validate_boot_spec, validate_cloud_init_nameservers,
  validate_cloud_init_readiness_spec, validate_user_spec, validate_write_file_spec,
  validate_dhcp_spec, validate_dns_spec, validate_disk_spec, validate_image_customize_spec,
  validate_key_spec, validate_tftp_spec, validate_provider_config, validate_ssh_readiness_spec,
  validate_tcp_readiness_spec, validate_cloud_init_ethernet_config, validate_image_spec,
  validate_key_resource, validate_network_spec, validate_readiness_spec,
  validate_cloud_init_network_config, validate_image_resource, validate_network_resource,
  validate_cloud_init_spec, validate_vm_spec, validate_vm_resource, validate_spec, validate,
}
use testenv_vm.Api.{
  UserSpec, WriteFileSpec, DhcpSpec, DnsSpec, ImageCustomizeSpec, TftpSpec, ProviderConfig,
  CloudInitEthernetConfig, KeyResource, ReadinessSpec, ImageResource, NetworkResource,
  CloudInitSpec, VmResource, Spec,
}
use Prim.Native.String.{◌++◌ as str_append}
use testenv_vm.Prelude.{
  ℕ, suc, String, ◌≡◌, refl, sym, ◌∙◌, Bool, true, false, not, ◌&&◌, Option, none, some, List, [],
  ◌∷◌, ◌++◌, map, arith, ◌==◌, is_empty, pos,
}

abbrev pub every {ℓ} : {A : Type ℓ} → (A → Bool) → List A → Bool
every f [] = true
every f (x ∷ xs) = f x && every f xs

unfoldable pub given : String → Bool
given s = not (s == "")

unfoldable pub image_complete : ImageResource → Bool
image_complete r = given r.name && given r.spec.source

unfoldable pub key_complete : KeyResource → Bool
key_complete r = given r.name && given r.spec.type

unfoldable pub network_complete : NetworkResource → Bool
network_complete r = given r.kind && given r.name

unfoldable pub cloud_init_complete : CloudInitSpec → Bool
cloud_init_complete c =
    every (λ e. given e.name) c.network_config.ethernets
    && every (λ u. given u.name) c.users
    && every (λ f. given f.content && given f.path) c.write_files

unfoldable pub vm_complete : VmResource → Bool
unfolding cloud_init_complete
vm_complete r =
    given r.name
    && not (is_empty r.spec.boot.order)
    && cloud_init_complete r.spec.cloud_init
    && given r.spec.disk.size

unfoldable pub provider_complete : ProviderConfig → Bool
provider_complete p = given p.engine && given p.name

-- The texts and the lists that the schema requires are there. The numbers and flags that it requires, of
-- a VM and of its readiness checks, are not looked at.
unfoldable pub spec_complete : Spec → Bool
spec_complete spec =
    every image_complete spec.images
    && every key_complete spec.keys
    && every network_complete spec.networks
    && not (is_empty spec.providers)
    && every provider_complete spec.providers
    && every vm_complete spec.vms

-- A VM without its memory, its processors and its readiness checks.
abbrev pub cleared_vm : VmResource → VmResource
cleared_vm r = record r {
  spec = record r.spec {
    memory = pos 0;
    vcpus = pos 0;
    readiness = record {
      cloud_init = record { enabled = false; timeout = "" };
      ssh = record { enabled = false; private_key = ""; timeout = ""; user = "" };
      tcp = record { port = pos 0; timeout = "" };
    };
  };
}

abbrev pub cleared : Spec → Spec
cleared spec = record spec { vms = map cleared_vm spec.vms }

every-cleared_vm :
    (vms : List VmResource) → every vm_complete (map cleared_vm vms) ≡ every vm_complete vms
unfolding vm_complete
every-cleared_vm [] = refl
every-cleared_vm (vm ∷ vms) = rw (every-cleared_vm vms) refl

spec_complete-cleared : (spec : Spec) → spec_complete (cleared spec) ≡ spec_complete spec
unfolding spec_complete
spec_complete-cleared spec = rw (every-cleared_vm spec.vms) refl

is_empty-append {ℓ} :
    {A : Type ℓ} (xs ys : List A) → is_empty (xs ++ ys) ≡ (is_empty xs && is_empty ys)
is_empty-append [] ys = refl
is_empty-append (x ∷ xs) ys = refl

output-valid : (es : List ValidationError) → (output es).valid ≡ is_empty es
unfolding output
output-valid [] = refl
output-valid (e ∷ es) = refl

nested_errors-is_empty :
    (prefix : String) (es : List ValidationError)
    → is_empty (nested_errors prefix (output es)) ≡ is_empty es
unfolding nested_errors output
nested_errors-is_empty prefix [] = refl
nested_errors-is_empty prefix (e ∷ es) = refl

required_text-is_empty : (name s : String) → is_empty (required_text name s) ≡ given s
unfolding required_text given
required_text-is_empty name s = ground arith

required_list-is_empty {ℓ} :
    {A : Type ℓ} (name : String) (xs : List A)
    → is_empty (required_list name xs) ≡ not (is_empty xs)
unfolding required_list
required_list-is_empty name [] = refl
required_list-is_empty name (x ∷ xs) = refl

item_errors-is_empty :
    {A : Type 0} (check : Option A → ConfigValidateOutput) (complete : A → Bool)
    (decimal : ℕ → String) (prefix : String)
    → ((p : String) (x : A) → is_empty (nested_errors p (check (some x))) ≡ complete x)
    → (i : ℕ) (xs : List A) → is_empty (item_errors check decimal prefix i xs) ≡ every complete xs
unfolding item_errors
item_errors-is_empty check complete decimal prefix h i [] = refl
item_errors-is_empty check complete decimal prefix h i (x ∷ xs) =
    rw
      (
        is_empty-append
            (nested_errors (str_append prefix (str_append (decimal i) "].")) (check (some x)))
            (item_errors check decimal prefix (suc i) xs),
        h (str_append prefix (str_append (decimal i) "].")) x,
        item_errors-is_empty check complete decimal prefix h (suc i) xs,
      )
      refl

pointer_errors-is_empty :
    {A : Type 0} (check : Option A → ConfigValidateOutput) (prefix : String)
    → ((p : String) (x : A) → is_empty (nested_errors p (check (some x))) ≡ true)
    → (m : Option A) → is_empty (pointer_errors check prefix m) ≡ true
unfolding pointer_errors
pointer_errors-is_empty check prefix h none = refl
pointer_errors-is_empty check prefix h (some x) = h prefix x

and_true : (b : Bool) → (b && true) ≡ b
and_true true = refl
and_true false = refl

and_assoc : (a b c : Bool) → ((a && b) && c) ≡ (a && (b && c))
and_assoc true b c = refl
and_assoc false b c = refl

ruleset emptiness = (
  is_empty-append, nested_errors-is_empty, required_text-is_empty, required_list-is_empty, and_true,
  and_assoc,
)

module _ (decimal : ℕ → String) where
  customize_lem :
      (m : Option ImageCustomizeSpec)
      → is_empty (pointer_errors (validate_image_customize_spec decimal) "spec.customize." m) ≡ true
  unfolding validate_image_customize_spec nested_errors output
  customize_lem =
      pointer_errors-is_empty (validate_image_customize_spec decimal) "spec.customize."
        (λ p x. refl)

  dhcp_lem :
      (m : Option DhcpSpec)
      → is_empty (pointer_errors (validate_dhcp_spec decimal) "spec.dhcp." m) ≡ true
  unfolding validate_dhcp_spec nested_errors output
  dhcp_lem = pointer_errors-is_empty (validate_dhcp_spec decimal) "spec.dhcp." (λ p x. refl)

  dns_lem :
      (m : Option DnsSpec)
      → is_empty (pointer_errors (validate_dns_spec decimal) "spec.dns." m) ≡ true
  unfolding validate_dns_spec nested_errors output
  dns_lem = pointer_errors-is_empty (validate_dns_spec decimal) "spec.dns." (λ p x. refl)

  tftp_lem :
      (m : Option TftpSpec)
      → is_empty (pointer_errors (validate_tftp_spec decimal) "spec.tftp." m) ≡ true
  unfolding validate_tftp_spec nested_errors output
  tftp_lem = pointer_errors-is_empty (validate_tftp_spec decimal) "spec.tftp." (λ p x. refl)

  image_lem :
      (p : String) (r : ImageResource)
      → is_empty (nested_errors p (validate_image_resource decimal (some r))) ≡ image_complete r
  unfolding validate_image_resource validate_image_spec image_complete
  image_lem p r = simp (emptiness, customize_lem)

  key_lem :
      (p : String) (r : KeyResource)
      → is_empty (nested_errors p (validate_key_resource decimal (some r))) ≡ key_complete r
  unfolding validate_key_resource validate_key_spec key_complete
  key_lem p r = simp emptiness

  network_lem :
      (p : String) (r : NetworkResource)
      → is_empty (nested_errors p (validate_network_resource decimal (some r))) ≡ network_complete r
  unfolding validate_network_resource validate_network_spec network_complete
  network_lem p r = simp (emptiness, dhcp_lem, dns_lem, tftp_lem)

  provider_lem :
      (p : String) (r : ProviderConfig)
      → is_empty (nested_errors p (validate_provider_config decimal (some r))) ≡ provider_complete r
  unfolding validate_provider_config provider_complete
  provider_lem p r = simp emptiness

  user_lem :
      (p : String) (r : UserSpec)
      → is_empty (nested_errors p (validate_user_spec decimal (some r))) ≡ given r.name
  unfolding validate_user_spec
  user_lem p r = simp emptiness

  file_lem :
      (p : String) (r : WriteFileSpec)
      → is_empty (nested_errors p (validate_write_file_spec decimal (some r)))
        ≡ (given r.content && given r.path)
  unfolding validate_write_file_spec
  file_lem p r = simp emptiness

  ethernet_lem :
      (p : String) (r : CloudInitEthernetConfig)
      → is_empty (nested_errors p (validate_cloud_init_ethernet_config decimal (some r)))
        ≡ given r.name
  unfolding validate_cloud_init_ethernet_config validate_cloud_init_nameservers
  ethernet_lem p r = simp emptiness

  cloud_init_lem :
      (p : String) (r : CloudInitSpec)
      → is_empty (nested_errors p (validate_cloud_init_spec decimal (some r)))
        ≡ cloud_init_complete r
  unfolding validate_cloud_init_spec validate_cloud_init_network_config cloud_init_complete
  cloud_init_lem p r = simp (
    emptiness,
    item_errors-is_empty (validate_cloud_init_ethernet_config decimal) (λ e. given e.name) decimal
        "spec.ethernets[" ethernet_lem 0,
    item_errors-is_empty (validate_user_spec decimal) (λ u. given u.name) decimal "spec.users["
        user_lem 0,
    item_errors-is_empty (validate_write_file_spec decimal) (λ f. given f.content && given f.path)
        decimal "spec.writeFiles[" file_lem 0,
  )

  readiness_lem :
      (p : String) (r : ReadinessSpec)
      → is_empty (nested_errors p (validate_readiness_spec decimal (some r))) ≡ true
  unfolding validate_readiness_spec validate_cloud_init_readiness_spec validate_ssh_readiness_spec
      validate_tcp_readiness_spec
  readiness_lem p r = simp emptiness

  vm_lem :
      (p : String) (r : VmResource)
      → is_empty (nested_errors p (validate_vm_resource decimal (some r))) ≡ vm_complete r
  unfolding validate_vm_resource validate_vm_spec validate_boot_spec validate_disk_spec vm_complete
  vm_lem p r = simp (emptiness, cloud_init_lem, readiness_lem)

  validate-spec_complete : (spec : Spec) → (validate decimal (some spec)).valid ≡ spec_complete spec
  unfolding validate_spec spec_complete
  validate-spec_complete spec = simp (
    emptiness,
    output-valid,
    item_errors-is_empty (validate_image_resource decimal) image_complete decimal "spec.images["
        image_lem 0,
    item_errors-is_empty (validate_key_resource decimal) key_complete decimal "spec.keys[" key_lem
        0,
    item_errors-is_empty (validate_network_resource decimal) network_complete decimal
        "spec.networks[" network_lem 0,
    item_errors-is_empty (validate_provider_config decimal) provider_complete decimal
        "spec.providers[" provider_lem 0,
    item_errors-is_empty (validate_vm_resource decimal) vm_complete decimal "spec.vms[" vm_lem 0,
  )

  -- The generated validation accepts a specification exactly when each of the texts and lists that the
  -- schema requires is there, however deep it stands. The memory, the processors and the readiness checks
  -- of the VMs, in which the schema requires numbers and flags, make no difference to it.
  pub validate-texts_alone :
      (spec : Spec)
      → ((validate decimal (some spec)).valid ≡ spec_complete spec)
        × ((validate decimal (some (cleared spec))).valid ≡ (validate decimal (some spec)).valid)
  validate-texts_alone spec = (
    validate-spec_complete spec,
    validate-spec_complete (cleared spec)
        ∙ spec_complete-cleared spec
        ∙ sym (validate-spec_complete spec),
  )
