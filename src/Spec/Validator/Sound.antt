-- ===== src/Spec/Validator/Sound.antt =====
-- pkg/spec/validator.go: what a specification that `ValidateEarly` accepts satisfies.
use testenv_vm.Api.{
  ProviderConfig, ResourceRef, KeyResource, ImageResource, NetworkResource, VmResource, Spec,
}
use testenv_vm.Dag.Build.{network_names, checked}
use testenv_vm.Spec.Validator.Images.{check_images, check_image_names, validate_images}
use testenv_vm.Spec.Validator.References.{
  TemplatedFields, new_templated_fields, check_provider_refs, validate_provider_refs,
  reference_exists, check_references, validate_template_refs_exist, check_attach_to,
  check_vm_networks, check_vm_refs, validate_resource_refs,
}
use testenv_vm.Spec.Validator.{
  ValidationError, valid, reject_if, check_providers, validate_providers, check_keys, validate_keys,
  check_networks, validate_networks, check_vms, validate_vms,
}
use testenv_vm.Spec.Texts.{spec_texts}
use testenv_vm.Spec.Template.{extract_template_refs, is_templated}
use testenv_vm.Spec.Validator.Phases.{validate_early}
use testenv_vm.Prelude.{
  ℕ, suc, String, ◌≡◌, refl, ◌≢◌, ◌⊎◌, inl, inr, Bool, true, false, not, ◌&&◌, ◌||◌, List, [], ◌∷◌,
  map, arith, ◌==◌, eq_iff, if◌then◌else◌, Bool-cases, All, contains, Unique, IsFresh,
  IsFresh-Unique, Dict, insert, Result, ◌>>=◌, ◌>>◌, >>=-eq-ok, ok, err,
}

passes : (c : Bool) (e : ValidationError) → reject_if c e ≡ valid → c ≡ false
passes true e h = absurd cc
passes false e h = refl

-- Both steps of a sequence of checks succeed.
both :
    {A B : Type 0} (first : Result ValidationError A) (second : Result ValidationError B) {b : B}
    → first >> second ≡ ok b
    → ((a : A) × (first ≡ ok a)) × (second ≡ ok b)
both (ok a) second h = ((a, refl), h)
both (err e) second h = absurd cc

-- No name is empty, and none stands twice.
pub record HasNames (names : List String) : Type 0 where
  pub unique : Unique names
  pub named : All (λ name. (name == "") ≡ false) names

abbrev IsNamed : List String → List String → Type 0
IsNamed seen names = IsFresh seen names × All (λ name. (name == "") ≡ false) names

IsNamed-HasNames : (names : List String) → IsNamed [] names → HasNames names
IsNamed-HasNames names (fresh, named) = record {
  unique = IsFresh-Unique names [] fresh;
  named = named;
}

check_keys-IsNamed :
    (i : ℕ) (seen : List String) (ks : List KeyResource)
    → check_keys i seen ks ≡ valid
    → IsNamed seen (map (λ (k : KeyResource). k.name) ks)
unfolding check_keys
check_keys-IsNamed i seen [] h = (tt, tt)
check_keys-IsNamed i seen (k ∷ ks) h =
    let (h₄, rest) = both _ (check_keys (suc i) (k.name ∷ seen) ks) h in
    let (h₃, _) = both _ _ h₄.1 in
    let (h₂, _) = both _ _ h₃.1 in
    let (h₁, duplicate) = both _ _ h₂.1 in
    let (fresh, named) = check_keys-IsNamed (suc i) (k.name ∷ seen) ks rest in
    ((passes _ _ duplicate, fresh), (passes _ _ h₁.1, named))

check_networks-IsNamed :
    (i : ℕ) (seen : List String) (ns : List NetworkResource)
    → check_networks i seen ns ≡ valid
    → IsNamed seen (map (λ (n : NetworkResource). n.name) ns)
unfolding check_networks
check_networks-IsNamed i seen [] h = (tt, tt)
check_networks-IsNamed i seen (n ∷ ns) h =
    let (h₄, rest) = both _ (check_networks (suc i) (n.name ∷ seen) ns) h in
    let (h₃, _) = both _ _ h₄.1 in
    let (h₂, duplicate) = both _ _ h₃.1 in
    let (h₁, _) = both _ _ h₂.1 in
    let (fresh, named) = check_networks-IsNamed (suc i) (n.name ∷ seen) ns rest in
    ((passes _ _ duplicate, fresh), (passes _ _ h₁.1, named))

check_vms-IsNamed :
    (i : ℕ) (seen : List String) (vms : List VmResource)
    → check_vms i seen vms ≡ valid
    → IsNamed seen (map (λ (vm : VmResource). vm.name) vms)
unfolding check_vms
check_vms-IsNamed i seen [] h = (tt, tt)
check_vms-IsNamed i seen (vm ∷ vms) h =
    let (h₄, rest) = both _ (check_vms (suc i) (vm.name ∷ seen) vms) h in
    let (h₃, _) = both _ _ h₄.1 in
    let (h₂, _) = both _ _ h₃.1 in
    let (h₁, duplicate) = both _ _ h₂.1 in
    let (fresh, named) = check_vms-IsNamed (suc i) (vm.name ∷ seen) vms rest in
    ((passes _ _ duplicate, fresh), (passes _ _ h₁.1, named))

check_providers-IsNamed :
    (i : ℕ) (seen : List String) (ps : List ProviderConfig)
    → check_providers i seen ps ≡ valid
    → IsNamed seen (map (λ (p : ProviderConfig). p.name) ps)
unfolding check_providers
check_providers-IsNamed i seen [] h = (tt, tt)
check_providers-IsNamed i seen (p ∷ ps) h =
    let (h₃, rest) = both _ (check_providers (suc i) (p.name ∷ seen) ps) h in
    let (h₂, duplicate) = both _ _ h₃.1 in
    let (h₁, _) = both _ _ h₂.1 in
    let (fresh, named) = check_providers-IsNamed (suc i) (p.name ∷ seen) ps rest in
    ((passes _ _ duplicate, fresh), (passes _ _ h₁.1, named))

validate_providers-HasNames :
    (ps : List ProviderConfig)
    → validate_providers ps ≡ valid
    → HasNames (map (λ (p : ProviderConfig). p.name) ps)
unfolding validate_providers
validate_providers-HasNames ps h =
    let (h₂, _) = both _ _ h in
    let (h₁, _) = both _ _ h₂.1 in
    let (_, checked) = both _ _ h₁.1 in
    IsNamed-HasNames (map (λ (p : ProviderConfig). p.name) ps)
      (check_providers-IsNamed 0 [] ps checked)

check_references-All :
    (spec : Spec) (refs : List ResourceRef)
    → check_references spec refs ≡ valid
    → All (λ ref. reference_exists spec ref ≡ true) refs
unfolding check_references
check_references-All spec [] h = tt
check_references-All spec (ref ∷ refs) h =
    let (missing, rest) = both _ (check_references spec refs) h in
    let known = passes (not (reference_exists spec ref)) _ missing.1 in
    (ground arith, check_references-All spec refs rest)

-- A literal `attachTo` names a network of the list, and not the network itself.
abbrev pub IsAttached : List String → NetworkResource → Type 0
IsAttached names n =
    (n.spec.attach_to ≡ "")
    ⊎ (is_templated n.spec.attach_to ≡ true)
    ⊎ ((contains names n.spec.attach_to ≡ true) × (n.spec.attach_to ≢ n.name))

literal_fact :
    (empty templated fact : Bool)
    → empty ≡ false
    → templated ≡ false
    → (not empty && not templated && not fact) ≡ false
    → fact ≡ true
literal_fact empty templated fact named plain checked = ground arith

literal_other :
    (empty templated fact : Bool)
    → empty ≡ false
    → templated ≡ false
    → (not empty && not templated && fact) ≡ false
    → fact ≢ true
literal_other empty templated fact named plain checked same = ground arith

check_attach_to-IsAttached :
    (names : List String) (ns : List NetworkResource) (fields : TemplatedFields)
    {out : TemplatedFields}
    → check_attach_to names ns fields ≡ ok out
    → All (IsAttached names) ns
unfolding check_attach_to
check_attach_to-IsAttached names [] fields h = tt
check_attach_to-IsAttached names (n ∷ ns) fields h =
    let attach_to = n.spec.attach_to in
    let literal = not (attach_to == "") && not (is_templated attach_to) in
    let next =
      if is_templated attach_to
      then record fields { network_attach_to = n.name ∷ fields.network_attach_to }
      else fields in
    let (first, rest) = both _ (check_attach_to names ns next) h in
    let (itself, missing) = both _ _ first.1 in
    let other = passes (literal && attach_to == n.name) _ itself.1 in
    let known = passes (literal && not (contains names attach_to)) _ missing in
    (
      elim (Bool-cases (attach_to == "")) [
        | inl empty ↦ inl ((eq_iff attach_to "").0 empty)
        | inr some_name ↦ elim (Bool-cases (is_templated attach_to)) [
          | inl templated ↦ inr (inl templated)
          | inr plain ↦ inr (
              inr (
                literal_fact (attach_to == "") (is_templated attach_to) (contains names attach_to)
                    some_name plain known,
                λ same. absurd (
                    literal_other (attach_to == "") (is_templated attach_to) (attach_to == n.name)
                      some_name plain other ((eq_iff attach_to n.name).1 same)),
              ))
        ]
      ],
      check_attach_to-IsAttached names ns next rest,
    )

-- A literal network of a VM is a network of the list.
abbrev pub IsLinked : List String → String → Type 0
IsLinked names net = (net ≡ "") ⊎ (is_templated net ≡ true) ⊎ (contains names net ≡ true)

-- A provider that a resource names is one of the list.
abbrev pub IsServed : List String → String → Type 0
IsServed names provider = (provider ≡ "") ⊎ (contains names provider ≡ true)

served_fact :
    (names : List String) (provider : String)
    → (not (provider == "") && not (contains names provider)) ≡ false
    → IsServed names provider
served_fact names provider checked = elim (Bool-cases (provider == "")) [
  | inl empty ↦ inl ((eq_iff provider "").0 empty)
  | inr named ↦ inr (ground (arith, named, checked))
]

check_provider_refs-All :
    {A : Type 0} (kind : String) (name_of provider_of : A → String) (names : List String)
    (xs : List A)
    → check_provider_refs kind name_of provider_of names xs ≡ valid
    → All (λ x. IsServed names (provider_of x)) xs
unfolding check_provider_refs
check_provider_refs-All kind name_of provider_of names [] h = tt
check_provider_refs-All kind name_of provider_of names (x ∷ xs) h =
    let (first, rest) = both _ (check_provider_refs kind name_of provider_of names xs) h in
    (
      served_fact names (provider_of x) (passes _ _ first.1),
      check_provider_refs-All kind name_of provider_of names xs rest,
    )

check_vm_networks-All :
    (names : List String) (vm : String) (nets : List String) {out : Bool}
    → check_vm_networks names vm nets ≡ ok out
    → All (IsLinked names) nets
unfolding check_vm_networks
check_vm_networks-All names vm [] h = tt
check_vm_networks-All names vm (net ∷ nets) h =
    let (first, rest) =
      both _ (check_vm_networks names vm nets >>= λ more. ok (is_templated net || more)) h in
    let checked =
      passes (not (net == "") && not (is_templated net) && not (contains names net)) _ first.1 in
    let (_, others, _) =
      >>=-eq-ok (check_vm_networks names vm nets) (λ more. ok (is_templated net || more)) rest in
    (
      elim (Bool-cases (net == "")) [
        | inl empty ↦ inl ((eq_iff net "").0 empty)
        | inr named ↦ elim (Bool-cases (is_templated net)) [
          | inl templated ↦ inr (inl templated)
          | inr plain ↦ inr (
              inr (
                literal_fact (net == "") (is_templated net) (contains names net) named plain
                  checked))
        ]
      ],
      check_vm_networks-All names vm nets others,
    )

check_vm_refs-All :
    (names : List String) (vms : List VmResource) (fields : TemplatedFields) {out : TemplatedFields}
    → check_vm_refs names vms fields ≡ ok out
    → All (λ vm. All (IsLinked names) (network_names vm.spec)) vms
unfolding check_vm_refs
check_vm_refs-All names [] fields h = tt
check_vm_refs-All names (vm ∷ vms) fields h =
    let (templated, first, rest) =
      >>=-eq-ok (check_vm_networks names vm.name (network_names vm.spec))
        (λ templated. check_vm_refs names vms (
          if templated then record fields { vm_network = vm.name ∷ fields.vm_network } else fields))
        h in
    (
      check_vm_networks-All names vm.name (network_names vm.spec) first,
      check_vm_refs-All names vms
          (if templated then record fields { vm_network = vm.name ∷ fields.vm_network } else fields)
          rest,
    )

check_images-IsNamed :
    (i : ℕ) (seen : List String) (aliases : Dict String) (imgs : List ImageResource)
    {out : Dict String}
    → check_images i seen aliases imgs ≡ ok out
    → IsNamed seen (map (λ (img : ImageResource). img.name) imgs)
unfolding check_images
check_images-IsNamed i seen aliases [] h = (tt, tt)
check_images-IsNamed i seen aliases (img ∷ imgs) h =
    let known = if img.spec.alias == "" then aliases else insert img.spec.alias img.name aliases in
    let (h₅, rest) = both _ (check_images (suc i) (img.name ∷ seen) known imgs) h in
    let (h₄, _) = both _ _ h₅.1 in
    let (h₃, _) = both _ _ h₄.1 in
    let (h₂, _) = both _ _ h₃.1 in
    let (h₁, duplicate) = both _ _ h₂.1 in
    let (fresh, named) = check_images-IsNamed (suc i) (img.name ∷ seen) known imgs rest in
    ((passes _ _ duplicate, fresh), (passes _ _ h₁.1, named))

validate_images-HasNames :
    (spec : Spec)
    → validate_images spec ≡ valid
    → HasNames (map (λ (img : ImageResource). img.name) spec.images)
unfolding validate_images
validate_images-HasNames spec h =
    let (loops, _) = both _ _ h in
    let (aliases, first, _) =
      >>=-eq-ok (check_images 0 [] [] spec.images)
        (λ aliases. check_image_names aliases spec.images) loops.1 in
    IsNamed-HasNames (map (λ (img : ImageResource). img.name) spec.images)
      (check_images-IsNamed 0 [] [] spec.images first)

-- The resources name providers of the list.
pub record IsProvided (spec : Spec) (names : List String) : Type 0 where
  pub default : IsServed names spec.default_provider
  pub keys : All (λ (k : KeyResource). IsServed names k.provider) spec.keys
  pub networks : All (λ (n : NetworkResource). IsServed names n.provider) spec.networks
  pub vms : All (λ (vm : VmResource). IsServed names vm.provider) spec.vms

-- What holds of an accepted specification.
pub record IsValid (spec : Spec) : Type 0 where
  pub providers : HasNames (map (λ (p : ProviderConfig). p.name) spec.providers)
  pub keys : HasNames (map (λ (k : KeyResource). k.name) spec.keys)
  pub networks : HasNames (map (λ (n : NetworkResource). n.name) spec.networks)
  pub vms : HasNames (map (λ (vm : VmResource). vm.name) spec.vms)
  pub references :
      All (λ ref. reference_exists spec ref ≡ true) (extract_template_refs (spec_texts spec))
  pub images : HasNames (map (λ (img : ImageResource). img.name) spec.images)
  pub provided : IsProvided spec (map (λ (p : ProviderConfig). p.name) spec.providers)
  pub linked :
      All
        (λ (vm : VmResource).
          All
            (IsLinked (map (λ (n : NetworkResource). n.name) spec.networks))
            (network_names vm.spec))
        spec.vms
  pub attached :
      All (IsAttached (map (λ (n : NetworkResource). n.name) spec.networks)) spec.networks

-- In a specification that `ValidateEarly` accepts, the names of the providers, of the keys, of the
-- networks, of the VMs and of the images are unique and not empty; the default provider and the
-- provider of each key, network and VM is empty or one of the providers; each template reference is to
-- a resource that exists; each network of a VM is empty, templated or a network of the specification;
-- and each literal `attachTo` names another network of the specification.
pub validate_early-IsValid :
    (spec : Spec) (fields : TemplatedFields) → validate_early spec ≡ ok fields → IsValid spec
unfolding validate_early validate_keys validate_networks validate_vms validate_template_refs_exist
    validate_resource_refs validate_provider_refs
validate_early-IsValid spec fields h =
    let provider_names = map (λ (p : ProviderConfig). p.name) spec.providers in
    let (h₉, refs) = both _ (validate_resource_refs spec) h in
    let (h₈, exist) = both _ (validate_template_refs_exist spec) h₉.1 in
    let (h₇, served) = both _ (validate_provider_refs spec provider_names) h₈.1 in
    let (h₆, images) = both _ (validate_images spec) h₇.1 in
    let (h₅, vms) = both _ (validate_vms spec.vms) h₆.1 in
    let (h₄, networks) = both _ (validate_networks spec.networks) h₅.1 in
    let (h₃, keys) = both _ (validate_keys spec.keys) h₄.1 in
    let (h₂, _) = both _ _ h₃.1 in
    let (h₁, default) = both _ _ h₂.1 in
    let names = map (λ (n : NetworkResource). n.name) spec.networks in
    let (served₁, served_vms) = both _ _ served in
    let (served_keys, served_networks) = both _ _ served₁.1 in
    let (templated, attached, linked) =
      >>=-eq-ok (check_attach_to names spec.networks new_templated_fields)
        (check_vm_refs names spec.vms) refs in
    record {
      providers = validate_providers-HasNames spec.providers h₁.1;
      keys =
          IsNamed-HasNames (map (λ (k : KeyResource). k.name) spec.keys)
            (check_keys-IsNamed 0 [] spec.keys keys);
      networks = IsNamed-HasNames names (check_networks-IsNamed 0 [] spec.networks networks);
      vms =
          IsNamed-HasNames (map (λ (vm : VmResource). vm.name) spec.vms)
            (check_vms-IsNamed 0 [] spec.vms vms);
      references = check_references-All spec (extract_template_refs (spec_texts spec)) exist;
      images = validate_images-HasNames spec images;
      provided = record {
        default = served_fact provider_names spec.default_provider (passes _ _ default);
        keys =
            check_provider_refs-All "key" (λ k. k.name) (λ k. k.provider) provider_names spec.keys
              served_keys.1;
        networks =
            check_provider_refs-All "network" (λ n. n.name) (λ n. n.provider) provider_names
              spec.networks served_networks;
        vms =
            check_provider_refs-All "vm" (λ vm. vm.name) (λ vm. vm.provider) provider_names spec.vms
              served_vms;
      };
      linked = check_vm_refs-All names spec.vms templated linked;
      attached = check_attach_to-IsAttached names spec.networks new_templated_fields attached;
    }
