-- ===== src/Codec/Clean.antt =====
-- api/v1/zz_generated.spec.go: what a successful `FromMap` gives.
use testenv_vm.Codec.RoundTrip.{IsClean, spec_from_map-spec_to_map}
use testenv_vm.Codec.ToMap.{spec_to_map}
use testenv_vm.Codec.FromMap.{
  key_spec_from_map, provider_config_from_map, key_resource_from_map, network_spec_from_map,
  image_resource_from_map, network_resource_from_map, vm_spec_from_map, vm_resource_from_map,
  spec_from_map,
}
use testenv_vm.Codec.{
  ParseError, Find, find, text_of, bool_of, has_null, fields_of, wrapped, nested_of, items_of,
  list_of, in_item,
}
use testenv_vm.Api.{
  Value, Items, Fields, ProviderConfig, KeyResource, NetworkResource, VmResource, Spec, null,
  boolean, integer, number, text, strings, array, object, nil, cons,
}
use testenv_vm.Prelude.{
  ℕ, suc, String, ◌≡◌, ap, subst, inl, inr, false, Option, none, some, List, arith, Bool-cases, All,
  Result, >>=-eq-ok, ok, err, ℤ,
}

fields_of-clean :
    (k : String) (v : Option Value) {fs : Fields} → fields_of k v ≡ ok fs → has_null fs ≡ false
unfolding fields_of has_null
fields_of-clean k none h = ground (arith, h)
fields_of-clean k (some (object gs)) {fs} h = elim (Bool-cases (has_null gs)) [
  | inl dirty ↦ absurd (ground arith)
  | inr clean ↦ ground arith
]
fields_of-clean k (some null) h = ground (arith, h)
fields_of-clean k (some (boolean b)) h = absurd (cc)
fields_of-clean k (some (integer b)) h = absurd (cc)
fields_of-clean k (some (number b)) h = absurd (cc)
fields_of-clean k (some (text b)) h = absurd (cc)
fields_of-clean k (some (strings b)) h = absurd (cc)
fields_of-clean k (some (array b)) h = absurd (cc)

wrapped-ok :
    {A : Type 0} (wrap : ParseError → ParseError) (result : Result ParseError A) {x : A}
    → wrapped wrap result ≡ ok x
    → result ≡ ok x
wrapped-ok wrap (ok y) h = h
wrapped-ok wrap (err e) h = absurd (cc)

from_ok : {A : Type 0} → A → Result ParseError A → A
from_ok x (ok y) = y
from_ok x (err e) = x

ok-inj : {A : Type 0} {x y : A} → Path (Result ParseError A) (ok x) (ok y) → x ≡ y
unfolding from_ok
ok-inj {x} h = ap (from_ok x) h

module _ {A : Type 0} (parse : Find → Result ParseError A) (P : A → Type 0)
    (parsed : (m : Find) (x : A) → parse m ≡ ok x → P x) where
  items_of-All :
      (k : String) (i : ℕ) (vs : Items) {xs : List A} → items_of parse k i vs ≡ ok xs → All P xs
  unfolding items_of
  items_of-All k i nil h = subst (All P) (ok-inj h) tt
  items_of-All k i (cons (object fs) vs) h =
      let first = >>=-eq-ok (wrapped (in_item k i) (parse (find fs))) _ h in
      let others = >>=-eq-ok (items_of parse k (suc i) vs) _ first.2 in
      subst (All P) (ok-inj others.2) (
        parsed (find fs) first.0 (wrapped-ok (in_item k i) (parse (find fs)) first.1),
        items_of-All k (suc i) vs others.1,
      )
  items_of-All k i (cons null vs) h = absurd (cc)
  items_of-All k i (cons (boolean b) vs) h = absurd (cc)
  items_of-All k i (cons (integer b) vs) h = absurd (cc)
  items_of-All k i (cons (number b) vs) h = absurd (cc)
  items_of-All k i (cons (text b) vs) h = absurd (cc)
  items_of-All k i (cons (strings b) vs) h = absurd (cc)
  items_of-All k i (cons (array b) vs) h = absurd (cc)

  list_of-All : (k : String) (v : Option Value) {xs : List A} → list_of parse k v ≡ ok xs → All P xs
  unfolding list_of
  list_of-All k none h = subst (All P) (ok-inj h) tt
  list_of-All k (some null) h = subst (All P) (ok-inj h) tt
  list_of-All k (some (array vs)) h = items_of-All k 0 vs h
  list_of-All k (some (boolean b)) h = absurd (cc)
  list_of-All k (some (integer b)) h = absurd (cc)
  list_of-All k (some (number b)) h = absurd (cc)
  list_of-All k (some (text b)) h = absurd (cc)
  list_of-All k (some (strings b)) h = absurd (cc)
  list_of-All k (some (object b)) h = absurd (cc)

module _ (truncate : String → ℤ) where
  key_resource_clean :
      (m : Find) (r : KeyResource)
      → key_resource_from_map truncate m ≡ ok r
      → has_null r.provider_spec ≡ false
  unfolding key_resource_from_map
  key_resource_clean m r h =
      let name_step = >>=-eq-ok (text_of "name" (m "name")) _ h in
      let provider_step = >>=-eq-ok (text_of "provider" (m "provider")) _ name_step.2 in
      let provider_spec_step =
        >>=-eq-ok (fields_of "providerSpec" (m "providerSpec")) _ provider_step.2 in
      let spec_step =
        >>=-eq-ok (nested_of (key_spec_from_map truncate) "spec" (m "spec")) _
          provider_spec_step.2 in
      subst (λ r. has_null r.provider_spec ≡ false) (ok-inj spec_step.2)
        (fields_of-clean "providerSpec" (m "providerSpec") provider_spec_step.1)

  network_resource_clean :
      (m : Find) (r : NetworkResource)
      → network_resource_from_map truncate m ≡ ok r
      → has_null r.provider_spec ≡ false
  unfolding network_resource_from_map
  network_resource_clean m r h =
      let kind_step = >>=-eq-ok (text_of "kind" (m "kind")) _ h in
      let name_step = >>=-eq-ok (text_of "name" (m "name")) _ kind_step.2 in
      let provider_step = >>=-eq-ok (text_of "provider" (m "provider")) _ name_step.2 in
      let provider_spec_step =
        >>=-eq-ok (fields_of "providerSpec" (m "providerSpec")) _ provider_step.2 in
      let spec_step =
        >>=-eq-ok (nested_of (network_spec_from_map truncate) "spec" (m "spec")) _
          provider_spec_step.2 in
      subst (λ r. has_null r.provider_spec ≡ false) (ok-inj spec_step.2)
        (fields_of-clean "providerSpec" (m "providerSpec") provider_spec_step.1)

  vm_resource_clean :
      (m : Find) (r : VmResource)
      → vm_resource_from_map truncate m ≡ ok r
      → has_null r.provider_spec ≡ false
  unfolding vm_resource_from_map
  vm_resource_clean m r h =
      let name_step = >>=-eq-ok (text_of "name" (m "name")) _ h in
      let provider_step = >>=-eq-ok (text_of "provider" (m "provider")) _ name_step.2 in
      let provider_spec_step =
        >>=-eq-ok (fields_of "providerSpec" (m "providerSpec")) _ provider_step.2 in
      let spec_step =
        >>=-eq-ok (nested_of (vm_spec_from_map truncate) "spec" (m "spec")) _
          provider_spec_step.2 in
      subst (λ r. has_null r.provider_spec ≡ false) (ok-inj spec_step.2)
        (fields_of-clean "providerSpec" (m "providerSpec") provider_spec_step.1)

  provider_config_clean :
      (m : Find) (r : ProviderConfig)
      → provider_config_from_map truncate m ≡ ok r
      → has_null r.spec ≡ false
  unfolding provider_config_from_map
  provider_config_clean m r h =
      let default_step = >>=-eq-ok (bool_of "default" (m "default")) _ h in
      let engine_step = >>=-eq-ok (text_of "engine" (m "engine")) _ default_step.2 in
      let name_step = >>=-eq-ok (text_of "name" (m "name")) _ engine_step.2 in
      let spec_step = >>=-eq-ok (fields_of "spec" (m "spec")) _ name_step.2 in
      subst (λ r. has_null r.spec ≡ false) (ok-inj spec_step.2)
        (fields_of-clean "spec" (m "spec") spec_step.1)

  -- A specification that `FromMap` returns holds no nil value in a free-form map: on such a value it
  -- panics instead.
  spec_from_map-IsClean : (m : Find) (s : Spec) → spec_from_map truncate m ≡ ok s → IsClean s
  unfolding spec_from_map
  spec_from_map-IsClean m s h =
      let artifact_dir_step = >>=-eq-ok (text_of "artifactDir" (m "artifactDir")) _ h in
      let cleanup_on_failure_step =
        >>=-eq-ok (bool_of "cleanupOnFailure" (m "cleanupOnFailure")) _ artifact_dir_step.2 in
      let default_base_image_step =
        >>=-eq-ok (text_of "defaultBaseImage" (m "defaultBaseImage")) _ cleanup_on_failure_step.2 in
      let default_provider_step =
        >>=-eq-ok (text_of "defaultProvider" (m "defaultProvider")) _ default_base_image_step.2 in
      let image_cache_dir_step =
        >>=-eq-ok (text_of "imageCacheDir" (m "imageCacheDir")) _ default_provider_step.2 in
      let images_step =
        >>=-eq-ok (list_of (image_resource_from_map truncate) "images" (m "images")) _
          image_cache_dir_step.2 in
      let keys_step =
        >>=-eq-ok (list_of (key_resource_from_map truncate) "keys" (m "keys")) _ images_step.2 in
      let networks_step =
        >>=-eq-ok (list_of (network_resource_from_map truncate) "networks" (m "networks")) _
          keys_step.2 in
      let providers_step =
        >>=-eq-ok (list_of (provider_config_from_map truncate) "providers" (m "providers")) _
          networks_step.2 in
      let state_dir_step = >>=-eq-ok (text_of "stateDir" (m "stateDir")) _ providers_step.2 in
      let vms_step =
        >>=-eq-ok (list_of (vm_resource_from_map truncate) "vms" (m "vms")) _ state_dir_step.2 in
      subst IsClean (ok-inj vms_step.2) (
        list_of-All (provider_config_from_map truncate) (λ r. has_null r.spec ≡ false)
            provider_config_clean "providers" (m "providers") providers_step.1,
        list_of-All (key_resource_from_map truncate) (λ r. has_null r.provider_spec ≡ false)
            key_resource_clean "keys" (m "keys") keys_step.1,
        list_of-All (network_resource_from_map truncate) (λ r. has_null r.provider_spec ≡ false)
            network_resource_clean "networks" (m "networks") networks_step.1,
        list_of-All (vm_resource_from_map truncate) (λ r. has_null r.provider_spec ≡ false)
            vm_resource_clean "vms" (m "vms") vms_step.1,
      )

  -- What `FromMap` has read once is read again, unchanged, from what `ToMap` writes of it.
  pub spec_from_map-reread :
      (m : Find) (s : Spec)
      → spec_from_map truncate m ≡ ok s
      → spec_from_map truncate (find (spec_to_map s)) ≡ ok s
  spec_from_map-reread m s h = spec_from_map-spec_to_map truncate s (spec_from_map-IsClean m s h)
