-- ===== src/Tests/Parsing.antt =====
-- The sample specification, written and read again, and checked.
use testenv_vm.Tests.Fixtures.{sample}
use testenv_vm.Codec.Completeness.{
  given, image_complete, key_complete, network_complete, cloud_init_complete, vm_complete,
  provider_complete, spec_complete, cleared, validate-texts_alone,
}
use testenv_vm.Codec.Report.{validate}
use testenv_vm.Codec.Clean.{spec_from_map-reread}
use testenv_vm.Codec.RoundTrip.{IsClean, spec_from_map-spec_to_map}
use testenv_vm.Codec.ToMap.{spec_to_map}
use testenv_vm.Codec.FromMap.{spec_from_map}
use testenv_vm.Codec.{find, has_null}
use testenv_vm.Prelude.{ℕ, String, ◌≡◌, refl, false, some, ok, ℤ, pos}

abbrev cut : String → ℤ
cut s = pos 0

sample-IsClean : IsClean sample
unfolding has_null
sample-IsClean = ((refl, tt), (refl, tt), (refl, tt), (refl, tt))

sample_read : spec_from_map cut (find (spec_to_map sample)) ≡ ok sample
sample_read = spec_from_map-spec_to_map cut sample sample-IsClean

spec_from_map-spec_to_map_example : spec_from_map cut (find (spec_to_map sample)) ≡ ok sample
spec_from_map-spec_to_map_example = spec_from_map-spec_to_map cut sample sample-IsClean

spec_from_map-reread_example : spec_from_map cut (find (spec_to_map sample)) ≡ ok sample
spec_from_map-reread_example =
    spec_from_map-reread cut (find (spec_to_map sample)) sample sample_read

abbrev digit : ℕ → String
digit n = "0"

validate-texts_alone_example :
    ((validate digit (some sample)).valid ≡ spec_complete sample)
    × ((validate digit (some (cleared sample))).valid ≡ (validate digit (some sample)).valid)
validate-texts_alone_example = validate-texts_alone digit sample

-- The boot order of the sample's VM is missing, which the schema requires.
sample_is_incomplete : spec_complete sample ≡ false
unfolding spec_complete image_complete key_complete network_complete provider_complete vm_complete
    cloud_init_complete given
sample_is_incomplete = refl
