-- ===== src/Stub/Refinement.antt =====
-- internal/providers/stub/provider.go: the stub provider beside an abstract tables, which can
-- only be asked what they hold at a name.
use testenv_vm.Api.{Value}
use testenv_vm.Api.Provider.{
  OperationResult, new_not_found_error, new_already_exists_error, error_result, success_result,
  KeySpec, NetworkSpec, VmSpec,
}
use testenv_vm.Stub.{
  KeyState, NetworkState, VmState, key_value, network_value, vm_value, Provider, create_in, get_in,
  delete_in, new_key, new_network, new_vm, Operation, key_create, key_get, key_delete,
  network_create, network_get, network_delete, vm_create, vm_get, vm_delete,
}
use testenv_vm.Prelude.{
  String, ◌≡◌, refl, sym, ap, ◌∙◌, fun_ext, inl, inr, Option, none, some, List, [], ◌∷◌, ◌==◌,
  eq_iff, if◌then◌else◌, Bool-cases, Option-cases, Dict, lookup, lookup-insert, lookup-remove,
}

pub data Instruction (S : Type 0) : Type 0 where
  create : String → S → Instruction S
  fetch : String → Instruction S
  drop : String → Instruction S

abbrev pub Table : Type 0 → Type 0
Table A = String → Option A

abbrev pub update : {A : Type 0} → String → Option A → Table A → Table A
update name entry t other = if name == other then entry else t other

-- The abstract specification of `create`, `get` and `delete`.
module _ (quote : String → String) {A S : Type 0} (noun : String) (value : A → Value)
    (build : String → S → A) where
  abbrev exists_error : String → OperationResult
  exists_error name = error_result (new_already_exists_error quote noun name)

  abbrev missing_error : String → OperationResult
  missing_error name = error_result (new_not_found_error quote noun name)

  abbrev answer : Instruction S → Option A → OperationResult
  answer (create name spec) none = success_result (some (value (build name spec)))
  answer (create name spec) (some _) = exists_error name
  answer (fetch name) none = missing_error name
  answer (fetch name) (some x) = success_result (some (value x))
  answer (drop name) none = missing_error name
  answer (drop name) (some _) = success_result none

  abbrev left : Instruction S → Option A → Option A
  left (create name spec) none = some (build name spec)
  left (create name spec) (some x) = some x
  left (fetch name) found = found
  left (drop name) _ = none

  abbrev name_of : Instruction S → String
  name_of (create name spec) = name
  name_of (fetch name) = name
  name_of (drop name) = name

  abbrev pub specified : Instruction S → Table A → OperationResult × Table A
  specified c t = (answer c (t (name_of c)), update (name_of c) (left c (t (name_of c))) t)

  abbrev pub implemented : Instruction S → Dict A → OperationResult × Dict A
  implemented (create name spec) m = create_in quote noun value name (build name spec) m
  implemented (fetch name) m = (get_in quote noun value name m, m)
  implemented (drop name) m = delete_in quote noun value name m

  abbrev pub table : Dict A → Table A
  table m name = lookup name m

  same_entry : (name : String) (t : Table A) → update name (t name) t ≡ t
  same_entry name t = fun_ext (λ other. elim (Bool-cases (name == other)) [
    | inl same ↦ rw same (ap t ((eq_iff name other).0 same))
    | inr apart ↦ rw apart refl
  ])

  kept_entry :
      (name : String) (entry : Option A) (m : Dict A)
      → lookup name m ≡ entry
      → table m ≡ update name entry (table m)
  kept_entry name entry m found =
      sym (same_entry name (table m)) ∙ ap (λ e. update name e (table m)) found

  pub implemented-specified :
      (c : Instruction S) (m : Dict A)
      → ((implemented c m).0 ≡ (specified c (table m)).0)
        × (table (implemented c m).1 ≡ (specified c (table m)).1)
  unfolding create_in get_in delete_in
  implemented-specified (create name spec) m = elim (Option-cases (lookup name m)) [
    | inl absent ↦ rw absent (refl, fun_ext (λ other. lookup-insert name other (build name spec) m))
    | inr (x, found) ↦ rw found (refl, kept_entry name (some x) m found)
  ]
  implemented-specified (fetch name) m = elim (Option-cases (lookup name m)) [
    | inl absent ↦ rw absent (refl, kept_entry name none m absent)
    | inr (x, found) ↦ rw found (refl, kept_entry name (some x) m found)
  ]
  implemented-specified (drop name) m = elim (Option-cases (lookup name m)) [
    | inl absent ↦ rw absent (refl, kept_entry name none m absent)
    | inr (x, found) ↦ rw found (refl, fun_ext (λ other. lookup-remove name other m))
  ]

-- The results of a sequence of requests.
module _ {R X : Type 0} (perform : R → X → OperationResult × X) where
  abbrev pub results : List R → X → List OperationResult
  results [] x = []
  results (c ∷ cs) x = let (result, x') = perform c x in result ∷ results cs x'

-- One step of the first machine is one step of the second, seen through `view`.
simulates :
    {R X Y : Type 0} (perform : R → X → OperationResult × X) (specify : R → Y → OperationResult × Y)
    (view : X → Y)
    → ((c : R) (x : X)
        → ((perform c x).0 ≡ (specify c (view x)).0)
          × (view (perform c x).1 ≡ (specify c (view x)).1))
    → (cs : List R) (x : X) → results perform cs x ≡ results specify cs (view x)
simulates perform specify view step [] x = refl
simulates perform specify view step (c ∷ cs) x =
    let (same, next) = step c x in
    let rest = simulates perform specify view step cs (perform c x).1 in
    ap (λ r. r ∷ results perform cs (perform c x).1) same
    ∙ ap (λ rs. (specify c (view x)).0 ∷ rs) (rest ∙ ap (results specify cs) next)

-- A request to the provider, of any of the three kinds.
pub data AnyRequest : Type 0 where
  on_key : Instruction KeySpec → AnyRequest
  on_network : Instruction (String × NetworkSpec) → AnyRequest
  on_vm : Instruction VmSpec → AnyRequest

-- The abstract provider: three tables, of which a request changes its own alone.
pub record Tables : Type 0 where
  pub keys : Table KeyState
  pub networks : Table NetworkState
  pub vms : Table VmState

abbrev pub tables_of : Provider → Tables
tables_of p = record {
  keys = λ name. lookup name p.keys;
  networks = λ name. lookup name p.networks;
  vms = λ name. lookup name p.vms;
}

-- Three equal tables are equal providers.
Tables-eq : {t u : Tables} → t.keys ≡ u.keys → t.networks ≡ u.networks → t.vms ≡ u.vms → t ≡ u
Tables-eq {t} {u} ks ns vs = cc

module _ (quote : String → String) where
  abbrev pub perform_key : Instruction KeySpec → Operation
  perform_key (create name spec) = key_create quote name spec
  perform_key (fetch name) = key_get quote name
  perform_key (drop name) = key_delete quote name

  abbrev pub perform_network : Instruction (String × NetworkSpec) → Operation
  perform_network (create name spec) = network_create quote name spec
  perform_network (fetch name) = network_get quote name
  perform_network (drop name) = network_delete quote name

  abbrev pub perform_vm : Instruction VmSpec → Operation
  perform_vm (create name spec) = vm_create quote name spec
  perform_vm (fetch name) = vm_get quote name
  perform_vm (drop name) = vm_delete quote name

  abbrev pub key_specification :
      Instruction KeySpec → Table KeyState → OperationResult × Table KeyState
  key_specification = specified quote "key" key_value new_key

  abbrev pub network_specification :
      Instruction (String × NetworkSpec) → Table NetworkState → OperationResult × Table NetworkState
  network_specification = specified quote "network" network_value new_network

  abbrev pub vm_specification : Instruction VmSpec → Table VmState → OperationResult × Table VmState
  vm_specification = specified quote "vm" vm_value new_vm

  key_step :
      (c : Instruction KeySpec) (p : Provider)
      → ((perform_key c p).0 ≡ (key_specification c (λ name. lookup name p.keys)).0)
        × ((λ name. lookup name (perform_key c p).1.keys)
            ≡ (key_specification c (λ name. lookup name p.keys)).1)
  unfolding key_create key_get key_delete
  key_step (create name spec) p =
      implemented-specified quote "key" key_value new_key (create name spec) p.keys
  key_step (fetch name) p = implemented-specified quote "key" key_value new_key (fetch name) p.keys
  key_step (drop name) p = implemented-specified quote "key" key_value new_key (drop name) p.keys

  network_step :
      (c : Instruction (String × NetworkSpec)) (p : Provider)
      → ((perform_network c p).0 ≡ (network_specification c (λ name. lookup name p.networks)).0)
        × ((λ name. lookup name (perform_network c p).1.networks)
            ≡ (network_specification c (λ name. lookup name p.networks)).1)
  unfolding network_create network_get network_delete
  network_step (create name spec) p =
      implemented-specified quote "network" network_value new_network (create name spec) p.networks
  network_step (fetch name) p =
      implemented-specified quote "network" network_value new_network (fetch name) p.networks
  network_step (drop name) p =
      implemented-specified quote "network" network_value new_network (drop name) p.networks

  vm_step :
      (c : Instruction VmSpec) (p : Provider)
      → ((perform_vm c p).0 ≡ (vm_specification c (λ name. lookup name p.vms)).0)
        × ((λ name. lookup name (perform_vm c p).1.vms)
            ≡ (vm_specification c (λ name. lookup name p.vms)).1)
  unfolding vm_create vm_get vm_delete
  vm_step (create name spec) p =
      implemented-specified quote "vm" vm_value new_vm (create name spec) p.vms
  vm_step (fetch name) p = implemented-specified quote "vm" vm_value new_vm (fetch name) p.vms
  vm_step (drop name) p = implemented-specified quote "vm" vm_value new_vm (drop name) p.vms

  abbrev pub perform : AnyRequest → Operation
  perform (on_key c) = perform_key c
  perform (on_network c) = perform_network c
  perform (on_vm c) = perform_vm c

  abbrev pub specification : AnyRequest → Tables → OperationResult × Tables
  specification (on_key c) t =
      let (result, keys) = key_specification c t.keys in (result, record t { keys = keys })
  specification (on_network c) t =
      let (result, networks) = network_specification c t.networks in
      (result, record t { networks = networks })
  specification (on_vm c) t =
      let (result, vms) = vm_specification c t.vms in (result, record t { vms = vms })

  -- A request for keys leaves the other maps alone, and so on.
  key-others :
      (c : Instruction KeySpec) (p : Provider)
      → ((perform_key c p).1.networks ≡ p.networks) × ((perform_key c p).1.vms ≡ p.vms)
  unfolding key_create key_get key_delete
  key-others (create name spec) p = (refl, refl)
  key-others (fetch name) p = (refl, refl)
  key-others (drop name) p = (refl, refl)

  network-others :
      (c : Instruction (String × NetworkSpec)) (p : Provider)
      → ((perform_network c p).1.keys ≡ p.keys) × ((perform_network c p).1.vms ≡ p.vms)
  unfolding network_create network_get network_delete
  network-others (create name spec) p = (refl, refl)
  network-others (fetch name) p = (refl, refl)
  network-others (drop name) p = (refl, refl)

  vm-others :
      (c : Instruction VmSpec) (p : Provider)
      → ((perform_vm c p).1.keys ≡ p.keys) × ((perform_vm c p).1.networks ≡ p.networks)
  unfolding vm_create vm_get vm_delete
  vm-others (create name spec) p = (refl, refl)
  vm-others (fetch name) p = (refl, refl)
  vm-others (drop name) p = (refl, refl)

  any_step :
      (c : AnyRequest) (p : Provider)
      → ((perform c p).0 ≡ (specification c (tables_of p)).0)
        × (tables_of (perform c p).1 ≡ (specification c (tables_of p)).1)
  any_step (on_key c) p =
      let (same, next) = key_step c p in
      let (nets, vms) = key-others c p in
      (
        same,
        Tables-eq next (ap (λ m. λ name. lookup name m) nets) (ap (λ m. λ name. lookup name m) vms),
      )
  any_step (on_network c) p =
      let (same, next) = network_step c p in
      let (keys, vms) = network-others c p in
      (
        same,
        Tables-eq (ap (λ m. λ name. lookup name m) keys) next (ap (λ m. λ name. lookup name m) vms),
      )
  any_step (on_vm c) p =
      let (same, next) = vm_step c p in
      let (keys, nets) = vm-others c p in
      (
        same,
        Tables-eq (ap (λ m. λ name. lookup name m) keys) (ap (λ m. λ name. lookup name m) nets)
            next,
      )

  -- Any sequence of creations, reads and deletions of keys, networks and VMs, in any order, has the results
  -- that three abstract tables give, each of which holds at most one resource under a name and is changed
  -- by the requests of its own kind alone.
  pub perform-specification :
      (p : Provider) (cs : List AnyRequest)
      → results perform cs p ≡ results specification cs (tables_of p)
  perform-specification p cs = simulates perform specification tables_of any_step cs p
