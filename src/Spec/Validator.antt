-- ===== src/Spec/Validator.antt =====
-- pkg/spec/validator.go: the checks of one list of resources. The checks across lists are in
-- Validator/References.antt, those of images in Validator/Images.antt, and `ValidateEarly` and
-- `ValidateResourceRefsLate` in Validator/Phases.antt.
use testenv_vm.Prelude.{
  ℕ, zero, suc, ◌+◌, String, Bool, true, false, not, ◌&&◌, ◌||◌, Option, none, some, List, [], ◌∷◌,
  ◌==◌, ltb, leb, eqb, if◌then◌else◌, length, is_empty, contains, Result, ◌>>◌, ok, err,
  is_positive,
}
pub mod Images
pub mod References
pub mod Phases
pub mod Sound
use Prim.Native.Char.{Char, code}
use testenv_vm.Api.{ProviderConfig, KeyResource, NetworkResource, VmResource, DhcpSpec}

pub data ValidationError : Type 0 where
  no_providers : ValidationError
  name_required : String → ℕ → ValidationError
  engine_required : String → ValidationError
  duplicate_name : String → String → ValidationError
  no_default_provider several_default_providers : ValidationError
  default_provider_unknown : String → ValidationError
  default_provider_mismatch : String → String → ValidationError
  key_type_required : String → ValidationError
  key_type_invalid : String → String → ValidationError
  network_kind_required cidr_required : String → ValidationError
  memory_not_positive vcpus_not_positive : String → ValidationError
  source_required checksum_required : String → ValidationError
  source_invalid : String → String → ValidationError
  alias_is_name alias_is_alias name_is_alias : String → String → ValidationError
  cache_dir_blank : ValidationError
  provider_not_found : String → String → String → ValidationError
  reference_not_found : String → String → ValidationError
  attach_to_itself : String → ValidationError
  attach_to_missing network_missing : String → String → ValidationError

abbrev pub Check : Type 0
Check = Result ValidationError (Unit {0})

abbrev pub valid : Check
valid = ok tt

abbrev pub reject_if : Bool → ValidationError → Check
reject_if true e = err e
reject_if false e = ok tt

unfoldable pub count_default : List ProviderConfig → ℕ
count_default [] = 0
count_default (p ∷ ps) = (if p.default then 1 else 0) + count_default ps

-- The loop of `ValidateProviders`, at index `i`, with the names seen so far.
unfoldable pub check_providers : ℕ → List String → List ProviderConfig → Check
check_providers i seen [] = valid
check_providers i seen (p ∷ ps) =
    reject_if (p.name == "") (name_required "provider" i)
    >> reject_if (p.engine == "") (engine_required p.name)
    >> reject_if (contains seen p.name) (duplicate_name "provider" p.name)
    >> check_providers (suc i) (p.name ∷ seen) ps

unfoldable pub validate_providers : List ProviderConfig → Check
unfolding check_providers count_default
validate_providers providers =
    reject_if (is_empty providers) no_providers
    >> check_providers 0 [] providers
    >> reject_if (ltb 1 (length providers) && eqb (count_default providers) 0) no_default_provider
    >> reject_if (ltb 1 (count_default providers)) several_default_providers

abbrev lower : ℕ → ℕ
lower c = if leb b'A' c && leb c b'Z' then c + 32 else c

-- `strings.ToLower(s) == t` for a lower-case ASCII text `t`: no other character of Unicode has a
-- letter of such a text for its lower case, but the Kelvin sign has `k`, which no key type holds.
unfoldable pub equal_lower : String → String → Bool
equal_lower String.[] String.[] = true
equal_lower (String.◌∷◌ c s) (String.◌∷◌ d t) = eqb (lower (code c)) (code d) && equal_lower s t
equal_lower _ _ = false

unfoldable pub is_valid_key_type : String → Bool
unfolding equal_lower
is_valid_key_type s = equal_lower s "rsa" || equal_lower s "ed25519" || equal_lower s "ecdsa"

unfoldable pub check_keys : ℕ → List String → List KeyResource → Check
unfolding is_valid_key_type
check_keys i seen [] = valid
check_keys i seen (k ∷ ks) =
    reject_if (k.name == "") (name_required "key" i)
    >> reject_if (contains seen k.name) (duplicate_name "key" k.name)
    >> reject_if (k.spec.type == "") (key_type_required k.name)
    >> reject_if (not (is_valid_key_type k.spec.type)) (key_type_invalid k.name k.spec.type)
    >> check_keys (suc i) (k.name ∷ seen) ks

unfoldable pub validate_keys : List KeyResource → Check
unfolding check_keys
validate_keys = check_keys 0 []

abbrev dhcp_enabled : Option DhcpSpec → Bool
dhcp_enabled none = false
dhcp_enabled (some dhcp) = dhcp.enabled

unfoldable pub check_networks : ℕ → List String → List NetworkResource → Check
check_networks i seen [] = valid
check_networks i seen (n ∷ ns) =
    reject_if (n.name == "") (name_required "network" i)
    >> reject_if (n.kind == "") (network_kind_required n.name)
    >> reject_if (contains seen n.name) (duplicate_name "network" n.name)
    >> reject_if (dhcp_enabled n.spec.dhcp && n.spec.cidr == "") (cidr_required n.name)
    >> check_networks (suc i) (n.name ∷ seen) ns

unfoldable pub validate_networks : List NetworkResource → Check
unfolding check_networks
validate_networks = check_networks 0 []

unfoldable pub check_vms : ℕ → List String → List VmResource → Check
check_vms i seen [] = valid
check_vms i seen (vm ∷ vms) =
    reject_if (vm.name == "") (name_required "vm" i)
    >> reject_if (contains seen vm.name) (duplicate_name "vm" vm.name)
    >> reject_if (not (is_positive vm.spec.memory)) (memory_not_positive vm.name)
    >> reject_if (not (is_positive vm.spec.vcpus)) (vcpus_not_positive vm.name)
    >> check_vms (suc i) (vm.name ∷ seen) vms

unfoldable pub validate_vms : List VmResource → Check
unfolding check_vms
validate_vms = check_vms 0 []
