-- ===== src/Dag/Build/Correct.antt =====
-- dag.go, `BuildDAG`: the graph of a specification, and its phases.
use testenv_vm.Prelude.{
  String, ◌≡◌, refl, ◌∙◌, subst, Bool, true, false, ◌||◌, Option, none, some, List, [], ◌∷◌, map,
  arith, ◌==◌, eq_iff, All, contains, Unique, lookup, has, lookup-insert, ◌>>=◌, >>=-eq-ok, ok,
}
use testenv_vm.Api.{ResourceRef, Spec, KeyResource}
use testenv_vm.Dag.{Dag, phases, topological_sort, node_key, new_dag, add_node}
use testenv_vm.Dag.Invariant.{IsDag, fresh_node, new_dag-IsDag, add_node-IsDag}
use testenv_vm.Dag.Sort.{IsLayered, phase_keys, topological_sort_sound}
use testenv_vm.Dag.Cycle.{has_cycle}
use testenv_vm.Dag.Cycle.Invariant.{Cyclic}
use testenv_vm.Dag.Cycle.Correct.{has_cycle_correct, topological_sort-phases}
use testenv_vm.Dag.Build.{
  key_resource_texts, extract_template_refs, key_ref, resource_refs, add_nodes, key_edges,
  network_edges, vm_edges, each, checked, all_edges, build_dag,
}
use testenv_vm.Dag.Build.Edges.{
  Grows, Ensures, IsStable, Ensures-bind, each_rule, HasKey, HasNetwork, HasVm, HasEdges-IsStable,
  HasNetwork-IsStable, HasVm-IsStable, All-IsStable, key_edges_rule, network_edges_rule,
  vm_edges_rule,
}

add_nodes-IsDag : (refs : List ResourceRef) (d : Dag) → IsDag d → IsDag (add_nodes refs d)
unfolding add_nodes
add_nodes-IsDag [] d w = w
add_nodes-IsDag (ref ∷ refs) d w = add_nodes-IsDag refs (add_node ref d) (add_node-IsDag ref d w)

has-add_node :
    (ref : ResourceRef) (d : Dag) (k : String)
    → has k (add_node ref d).nodes ≡ (node_key ref == k || has k d.nodes)
unfolding add_node
has-add_node ref d k =
    ground (arith, lookup-insert (node_key ref) k (fresh_node ref) d.nodes, eq_iff (node_key ref) k)

has-add_nodes :
    (refs : List ResourceRef) (d : Dag) (k : String)
    → has k (add_nodes refs d).nodes ≡ (contains (map node_key refs) k || has k d.nodes)
unfolding add_nodes contains
has-add_nodes [] d k = refl
has-add_nodes (ref ∷ refs) d k =
    ground (arith, has-add_nodes refs (add_node ref d) k, has-add_node ref d k)

-- All edges that the resources of the specification ask for.
pub record HasSpec (spec : Spec) (d : Dag) : Type 0 where
  pub of_keys : All (λ key. HasKey key d) spec.keys
  pub of_networks : All (λ network. HasNetwork network d) spec.networks
  pub of_vms : All (λ vm. HasVm vm d) spec.vms

abbrev KeysHeld : Spec → Dag → Type 0
KeysHeld spec d = All (λ key. HasKey key d) spec.keys

abbrev NetworksHeld : Spec → Dag → Type 0
NetworksHeld spec d = All (λ network. HasNetwork network d) spec.networks

abbrev VmsHeld : Spec → Dag → Type 0
VmsHeld spec d = All (λ vm. HasVm vm d) spec.vms

HasKey-IsStable : (key : KeyResource) → IsStable (HasKey key)
HasKey-IsStable key =
    HasEdges-IsStable (key_ref key) (extract_template_refs (key_resource_texts key))

module _ (spec : Spec) where
  keys_rule : (d : Dag) → Ensures d (each key_edges spec.keys d) (KeysHeld spec)
  keys_rule = each_rule key_edges HasKey HasKey-IsStable key_edges_rule spec.keys

  networks_rule : (d : Dag) → Ensures d (each network_edges spec.networks d) (NetworksHeld spec)
  networks_rule =
      each_rule network_edges HasNetwork HasNetwork-IsStable network_edges_rule spec.networks

  vms_rule : (d : Dag) → Ensures d (each vm_edges spec.vms d) (VmsHeld spec)
  vms_rule = each_rule vm_edges HasVm HasVm-IsStable vm_edges_rule spec.vms

  all_edges_rule :
      (d : Dag)
      → Ensures d (all_edges spec d) (λ e. (KeysHeld spec e × NetworksHeld spec e) × VmsHeld spec e)
  unfolding all_edges
  all_edges_rule d =
      let stable_keys = All-IsStable HasKey spec.keys HasKey-IsStable in
      let stable_networks = All-IsStable HasNetwork spec.networks HasNetwork-IsStable in
      Ensures-bind d (each key_edges spec.keys d >>= each network_edges spec.networks)
        (each vm_edges spec.vms) (λ e. KeysHeld spec e × NetworksHeld spec e) (VmsHeld spec)
        (λ a b g (p, q). (stable_keys a b g p, stable_networks a b g q))
        (Ensures-bind d (each key_edges spec.keys d) (each network_edges spec.networks)
          (KeysHeld spec) (NetworksHeld spec) stable_keys (keys_rule d) networks_rule)
        vms_rule

  base_dag : Dag
  base_dag = add_nodes (resource_refs spec) new_dag

  checked-eq-ok :
      (d : Dag) (v : Option Bool) {d' : Dag} → checked d v ≡ ok d' → (v ≡ some false) × (d ≡ d')
  checked-eq-ok d none h = cc
  checked-eq-ok d (some true) h = cc
  checked-eq-ok d (some false) h = (refl, cc)

  build_dag_lem :
      (d : Dag)
      → build_dag spec ≡ ok d
      → Grows base_dag d × HasSpec spec d × (has_cycle d ≡ some false)
  unfolding build_dag base_dag
  build_dag_lem d h =
      let (e, added, rest) = >>=-eq-ok (all_edges spec base_dag) (λ d. checked d (has_cycle d)) h in
      let (acyclic, same) = checked-eq-ok e (has_cycle e) rest in
      let (g, ((ks, ns), vs)) = all_edges_rule base_dag e added in
      subst (λ x. Grows base_dag x × HasSpec spec x × (has_cycle x ≡ some false)) same
        (g, record { of_keys = ks; of_networks = ns; of_vms = vs }, acyclic)

  base_dag-IsDag : IsDag base_dag
  unfolding base_dag
  base_dag-IsDag = add_nodes-IsDag (resource_refs spec) new_dag new_dag-IsDag

-- Its nodes are the resources of the specification.
pub build_dag-nodes :
    (spec : Spec) (d : Dag)
    → build_dag spec ≡ ok d
    → (k : String) → has k d.nodes ≡ contains (map node_key (resource_refs spec)) k
unfolding base_dag lookup
build_dag-nodes spec d h k =
    let (g, _, _) = build_dag_lem spec d h in
    ground (arith, g.nodes k, has-add_nodes (resource_refs spec) new_dag k)

-- A graph that `BuildDAG` returns is well-formed with its neighbour lists in step; no node of it
-- depends on itself; and it has an edge for each template reference of each key, network and VM, for
-- each literal `attachTo`, and for each literal network name of a VM.
pub build_dag_correct :
    (spec : Spec) (d : Dag) → build_dag spec ≡ ok d → IsDag d × (¬ Cyclic d) × HasSpec spec d
build_dag_correct spec d h =
    let (g, held, acyclic) = build_dag_lem spec d h in
    let w = g.kept (base_dag-IsDag spec) in
    let (b, v, both) = has_cycle_correct d w.formed in
    (w, (λ c. absurd (ground (arith, both.1 c))), held)

-- The graph that `BuildDAG` returns can always be sorted. Each resource of a phase depends only on
-- resources of earlier phases, none is placed twice, and those placed are the images, keys, networks
-- and VMs of the specification.
pub build_dag-phases :
    (spec : Spec) (d : Dag)
    → build_dag spec ≡ ok d
    → (ps : List (List ResourceRef)) × (topological_sort d ≡ phases ps)
      × IsLayered d [] ps
      × Unique (phase_keys ps)
      × ((k : String) → contains (phase_keys ps) k ≡ contains (map node_key (resource_refs spec)) k)
build_dag-phases spec d h =
    let (g, held, acyclic) = build_dag_lem spec d h in
    let w = g.kept (base_dag-IsDag spec) in
    let (ps, sorted) = topological_sort-phases d w.formed acyclic in
    let (layered, unique, all) = topological_sort_sound d ps w.formed sorted in
    (ps, sorted, layered, unique, λ k. all k ∙ build_dag-nodes spec d h k)
