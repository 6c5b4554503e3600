-- ===== src/Dag/Build.antt =====
-- dag.go, `BuildDAG`: the graph of a specification.
use testenv_vm.Prelude.{
  zero, suc, ◌+◌, String, Bool, true, false, not, ◌&&◌, Option, none, some, List, [], ◌∷◌, ◌++◌,
  map, ◌==◌, if◌then◌else◌, is_empty, keys, Result, ◌>>=◌, ok, err,
}
pub mod Edges
pub mod Correct
pub mod References
use testenv_vm.Api.{
  ResourceRef, Spec, ImageResource, KeyResource, NetworkResource, VmResource, VmSpec,
}
use testenv_vm.Dag.{Dag, DagError, new_dag, add_node, add_edge}
use testenv_vm.Dag.Cycle.{has_cycle}
use testenv_vm.Spec.Texts.{key_resource_texts, network_resource_texts, vm_resource_texts}
use testenv_vm.Spec.Template.{extract_template_refs}

-- The wrapped errors: the kind and the name of the resource, or the field, and the cause.
pub data BuildError : Type 0 where
  edge_failed : String → String → DagError → BuildError
  attach_to_failed : String → DagError → BuildError
  network_edge_failed : String → DagError → BuildError
  circular_dependency : BuildError
  search_exhausted : BuildError

abbrev pub image_ref : ImageResource → ResourceRef
image_ref image = record { kind = "image"; name = image.name; provider = "" }

abbrev pub key_ref : KeyResource → ResourceRef
key_ref key = record { kind = "key"; name = key.name; provider = key.provider }

abbrev pub network_ref : NetworkResource → ResourceRef
network_ref network = record { kind = "network"; name = network.name; provider = network.provider }

abbrev pub vm_ref : VmResource → ResourceRef
vm_ref vm = record { kind = "vm"; name = vm.name; provider = vm.provider }

abbrev pub literal_network : String → ResourceRef
literal_network name = record { kind = "network"; name = name; provider = "" }

-- The resources of the specification, in the order in which their nodes are added.
abbrev pub resource_refs : Spec → List ResourceRef
resource_refs spec =
    map image_ref spec.images
    ++ (map key_ref spec.keys ++ (map network_ref spec.networks ++ map vm_ref spec.vms))

pub add_nodes : List ResourceRef → Dag → Dag
add_nodes [] d = d
add_nodes (ref ∷ refs) d = add_nodes refs (add_node ref d)

abbrev pub wrap_edge : (DagError → BuildError) → Result DagError Dag → Result BuildError Dag
wrap_edge wrap (ok d) = ok d
wrap_edge wrap (err e) = err (wrap e)

-- The `for` over the extracted references.
pub add_edges :
    (DagError → BuildError) → ResourceRef → List ResourceRef → Dag → Result BuildError Dag
add_edges wrap from [] d = ok d
add_edges wrap from (dep ∷ deps) d =
    wrap_edge wrap (add_edge from dep d) >>= add_edges wrap from deps

-- A field that names a network: empty, templated (its references are edges already) or literal.
pub add_named : (DagError → BuildError) → ResourceRef → String → Dag → Result BuildError Dag
add_named wrap from name d =
    if name == ""
    then ok d
    else if not (is_empty (extract_template_refs (name ∷ [])))
    then ok d
    else wrap_edge wrap (add_edge from (literal_network name) d)

pub add_all_named :
    (DagError → BuildError) → ResourceRef → List String → Dag → Result BuildError Dag
add_all_named wrap from [] d = ok d
add_all_named wrap from (name ∷ names) d =
    add_named wrap from name d >>= add_all_named wrap from names

-- `Networks` takes precedence over `Network`.
unfoldable pub network_names : VmSpec → List String
network_names vm =
    if is_empty vm.networks && not (vm.network == "") then vm.network ∷ [] else vm.networks

unfoldable pub key_edges : KeyResource → Dag → Result BuildError Dag
key_edges key d =
    add_edges (edge_failed "key" key.name) (key_ref key)
      (extract_template_refs (key_resource_texts key)) d

unfoldable pub network_edges : NetworkResource → Dag → Result BuildError Dag
network_edges network d =
    add_edges (edge_failed "network" network.name) (network_ref network)
      (extract_template_refs (network_resource_texts network)) d
    >>= add_named (attach_to_failed network.name) (network_ref network) network.spec.attach_to

unfoldable pub vm_edges : VmResource → Dag → Result BuildError Dag
unfolding network_names
vm_edges vm d =
    add_edges (edge_failed "vm" vm.name) (vm_ref vm) (extract_template_refs (vm_resource_texts vm))
      d
    >>= add_all_named (network_edge_failed vm.name) (vm_ref vm) (network_names vm.spec)

module _ {A : Type 0} (edges : A → Dag → Result BuildError Dag) where
  pub each : List A → Dag → Result BuildError Dag
  each [] d = ok d
  each (x ∷ xs) d = edges x d >>= each xs

abbrev pub checked : Dag → Option Bool → Result BuildError Dag
checked d none = err search_exhausted
checked d (some true) = err circular_dependency
checked d (some false) = ok d

unfoldable pub all_edges : Spec → Dag → Result BuildError Dag
unfolding each key_edges network_edges vm_edges add_edges add_named add_all_named
all_edges spec d =
    each key_edges spec.keys d >>= each network_edges spec.networks >>= each vm_edges spec.vms

unfoldable pub build_dag : Spec → Result BuildError Dag
unfolding add_nodes all_edges
build_dag spec =
    all_edges spec (add_nodes (resource_refs spec) new_dag) >>= λ d. checked d (has_cycle d)
