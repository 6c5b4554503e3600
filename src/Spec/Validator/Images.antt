-- ===== src/Spec/Validator/Images.antt =====
-- pkg/spec/validator.go, `validateImages`, with the well-known images of pkg/image/registry.go.
use testenv_vm.Prelude.{
  ℕ, suc, String, Bool, true, not, ◌&&◌, ◌||◌, none, some, List, [], ◌∷◌, ◌==◌, leb, eqb,
  if◌then◌else◌, contains, Dict, lookup, insert, Result, ◌>>=◌, ◌>>◌, ok, err,
}
use Prim.Native.Char.{code}
use text.Mathlib.Text.{starts_with}
use testenv_vm.Api.{Spec, ImageResource, ImageSpec}
use testenv_vm.Spec.Validator.{
  ValidationError, Check, valid, reject_if, name_required, duplicate_name, source_required,
  source_invalid, checksum_required, alias_is_name, alias_is_alias, name_is_alias, cache_dir_blank,
}

-- The references of `defaultRegistry`, which only tests replace.
abbrev well_known : List String
well_known = "ubuntu:24.04" ∷ "ubuntu:22.04" ∷ "debian:12" ∷ []

unfoldable pub is_well_known : String → Bool
unfolding contains
is_well_known source = contains well_known source

unfoldable pub check_source : String → ImageSpec → Check
unfolding is_well_known
check_source name image =
    if is_well_known image.source
    then valid
    else reject_if (not (starts_with image.source "https://")) (source_invalid name image.source)
      >> reject_if (image.sha256 == "") (checksum_required name)

unfoldable pub check_alias : String → String → List String → Dict String → Check
check_alias name alias seen aliases =
    if alias == ""
    then valid
    else reject_if (contains seen alias) (alias_is_name name alias)
      >> elim (lookup alias aliases) [ none ↦ valid | some owner ↦ err (alias_is_alias name owner) ]

-- The first loop: it returns the aliases with their owners.
unfoldable pub check_images :
    ℕ → List String → Dict String → List ImageResource → Result ValidationError (Dict String)
unfolding check_source check_alias
check_images i seen aliases [] = ok aliases
check_images i seen aliases (img ∷ imgs) =
    let alias = img.spec.alias in
    let rest =
      check_images (suc i) (img.name ∷ seen)
        (if alias == "" then aliases else insert alias img.name aliases) imgs in
    reject_if (img.name == "") (name_required "image" i)
    >> reject_if (contains seen img.name) (duplicate_name "image" img.name)
    >> reject_if (img.spec.source == "") (source_required img.name)
    >> check_source img.name img.spec
    >> check_alias img.name alias (img.name ∷ seen) aliases
    >> rest

-- The second loop.
unfoldable pub check_image_names : Dict String → List ImageResource → Check
check_image_names aliases [] = valid
check_image_names aliases (img ∷ imgs) =
    elim (lookup img.name aliases) [
      | none ↦ valid
      | some owner ↦ reject_if (not (owner == img.name)) (name_is_alias img.name owner)
    ]
    >> check_image_names aliases imgs

-- `unicode.IsSpace`
abbrev is_unicode_space : ℕ → Bool
is_unicode_space c =
    leb 9 c && leb c 13
    || eqb c 32
    || eqb c 0x85
    || eqb c 0xa0
    || eqb c 0x1680
    || leb 0x2000 c && leb c 0x200a
    || eqb c 0x2028
    || eqb c 0x2029
    || eqb c 0x202f
    || eqb c 0x205f
    || eqb c 0x3000

-- `strings.TrimSpace(s) == ""`
unfoldable pub is_blank : String → Bool
is_blank String.[] = true
is_blank (String.◌∷◌ c s) = is_unicode_space (code c) && is_blank s

unfoldable pub validate_images : Spec → Check
unfolding check_images check_image_names is_blank
validate_images spec =
    (check_images 0 [] [] spec.images >>= λ aliases. check_image_names aliases spec.images)
    >> reject_if (not (spec.image_cache_dir == "") && is_blank spec.image_cache_dir) cache_dir_blank
