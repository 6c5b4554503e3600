-- ===== src/Tests/Graph.antt =====
-- The graph of the sample specification.
use testenv_vm.Prelude.{
  String, ◌≡◌, refl, ◌≢◌, ◌↔◌, ◌⊎◌, Bool, true, false, some, List, [], ◌∷◌, map, All, is_empty,
  contains, Unique, lookup, insert, remove, adjust, keys, has, ok,
}
use testenv_vm.Api.{ResourceRef, NetworkResource}
use testenv_vm.Dag.{Dag, node_key, add_node, add_edge, topological_sort, phases, stuck, out_of_fuel}
use testenv_vm.Dag.Invariant.{IsDag, add_edge-IsDag}
use testenv_vm.Dag.Sort.{topological_sort_sound, topological_sort_terminates, IsLayered, phase_keys}
use testenv_vm.Dag.Cycle.{has_cycle}
use testenv_vm.Dag.Cycle.Invariant.{Cyclic, Depends}
use testenv_vm.Dag.Cycle.Correct.{has_cycle_correct, topological_sort-stuck_iff}
use testenv_vm.Dag.Reach.{depends_on}
use testenv_vm.Dag.Reach.Correct.{depends_on_correct}
use testenv_vm.Dag.Build.{build_dag, resource_refs, literal_network}
use testenv_vm.Dag.Build.Correct.{build_dag_correct, build_dag-phases, HasSpec}
use testenv_vm.Dag.Build.References.{IsDeclared, build_dag-IsDeclared, build_dag-attach_to}
use testenv_vm.Spec.Template.{extract_template_refs, is_space, is_name}
use testenv_vm.Spec.Template.Scan.{
  Piece, IsPiece, plain, reference, of_keys, of_networks, print, all_keys,
  extract_template_refs-print,
}
use testenv_vm.Spec.Texts.{key_resource_texts, network_resource_texts, vm_resource_texts}
use testenv_vm.Tests.Fixtures.{sample, ssh_ref, lan_ref, web_ref}

abbrev sample_dag : Dag
sample_dag = record {
  nodes =
      ("key:ssh", record { ref = ssh_ref; dependencies = []; dependents = web_ref ∷ [] })
      ∷ ("network:lan", record { ref = lan_ref; dependencies = []; dependents = web_ref ∷ [] })
      ∷ ("vm:web", record { ref = web_ref; dependencies = ssh_ref ∷ lan_ref ∷ []; dependents = [] })
      ∷ [];
  edges = ("vm:web", "key:ssh" ∷ "network:lan" ∷ []) ∷ [];
}

sample-extract : extract_template_refs ("{{ .Keys.ssh.PublicKey }}" ∷ []) ≡ ssh_ref ∷ []
unfolding extract_template_refs contains
sample-extract = refl

sample-build_dag : build_dag sample ≡ ok sample_dag
unfolding build_dag extract_template_refs has_cycle contains lookup insert adjust key_resource_texts
    network_resource_texts vm_resource_texts add_edge add_node node_key keys
sample-build_dag = refl

sample-IsDag : IsDag sample_dag
sample-IsDag = (build_dag_correct sample sample_dag sample-build_dag).0

sample-topological_sort :
    topological_sort sample_dag ≡ phases ((ssh_ref ∷ lan_ref ∷ []) ∷ (web_ref ∷ []) ∷ [])
unfolding topological_sort lookup remove node_key
sample-topological_sort = refl

build_dag-phases_example :
    (ps : List (List ResourceRef)) × (topological_sort sample_dag ≡ phases ps)
    × IsLayered sample_dag [] ps
    × Unique (phase_keys ps)
    × ((k : String) → contains (phase_keys ps) k ≡ contains (map node_key (resource_refs sample)) k)
build_dag-phases_example = build_dag-phases sample sample_dag sample-build_dag

build_dag_correct_example : IsDag sample_dag × (¬ Cyclic sample_dag) × HasSpec sample sample_dag
build_dag_correct_example = build_dag_correct sample sample_dag sample-build_dag

topological_sort-stuck_iff_example : (topological_sort sample_dag ≡ stuck) ↔ Cyclic sample_dag
topological_sort-stuck_iff_example = topological_sort-stuck_iff sample_dag sample-IsDag.formed

sample-depends_on : depends_on web_ref lan_ref sample_dag ≡ some true
unfolding depends_on contains lookup node_key
sample-depends_on = refl

depends_on_correct_example :
    (b : Bool) × (depends_on web_ref ssh_ref sample_dag ≡ some b)
    × ((b ≡ true) ↔ Depends sample_dag (node_key web_ref) (node_key ssh_ref))
depends_on_correct_example = depends_on_correct web_ref ssh_ref sample_dag sample-IsDag.formed

has_cycle_correct_example :
    (b : Bool) × (has_cycle sample_dag ≡ some b) × ((b ≡ true) ↔ Cyclic sample_dag)
has_cycle_correct_example = has_cycle_correct sample_dag sample-IsDag.formed

topological_sort_sound_example :
    IsLayered sample_dag [] ((ssh_ref ∷ lan_ref ∷ []) ∷ (web_ref ∷ []) ∷ [])
    × Unique (phase_keys ((ssh_ref ∷ lan_ref ∷ []) ∷ (web_ref ∷ []) ∷ []))
    × ((k : String)
        → contains (phase_keys ((ssh_ref ∷ lan_ref ∷ []) ∷ (web_ref ∷ []) ∷ [])) k
          ≡ has k sample_dag.nodes)
topological_sort_sound_example =
    topological_sort_sound sample_dag ((ssh_ref ∷ lan_ref ∷ []) ∷ (web_ref ∷ []) ∷ [])
      sample-IsDag.formed sample-topological_sort

topological_sort_terminates_example : topological_sort sample_dag ≢ out_of_fuel
topological_sort_terminates_example = topological_sort_terminates sample_dag sample-IsDag.formed

build_dag-IsDeclared_example :
    All (λ vm. All (IsDeclared sample) (extract_template_refs (vm_resource_texts vm))) sample.vms
build_dag-IsDeclared_example = build_dag-IsDeclared sample sample_dag sample-build_dag

build_dag-attach_to_example :
    All
      (λ (n : NetworkResource).
        (n.spec.attach_to ≡ "")
        ⊎ (is_empty (extract_template_refs (n.spec.attach_to ∷ [])) ≡ false)
        ⊎ IsDeclared sample (literal_network n.spec.attach_to))
      sample.networks
build_dag-attach_to_example = build_dag-attach_to sample sample_dag sample-build_dag

abbrev lan_depends : Dag
lan_depends = record {
  nodes =
      ("key:ssh", record { ref = ssh_ref; dependencies = []; dependents = web_ref ∷ lan_ref ∷ [] })
      ∷ (
        "network:lan",
        record { ref = lan_ref; dependencies = ssh_ref ∷ []; dependents = web_ref ∷ [] },
      )
      ∷ ("vm:web", record { ref = web_ref; dependencies = ssh_ref ∷ lan_ref ∷ []; dependents = [] })
      ∷ [];
  edges = ("vm:web", "key:ssh" ∷ "network:lan" ∷ []) ∷ ("network:lan", "key:ssh" ∷ []) ∷ [];
}

sample-add_edge : add_edge lan_ref ssh_ref sample_dag ≡ ok lan_depends
unfolding add_edge node_key contains lookup insert adjust
sample-add_edge = refl

add_edge-IsDag_example : IsDag lan_depends
add_edge-IsDag_example = add_edge-IsDag lan_ref ssh_ref sample_dag sample-IsDag sample-add_edge

abbrev greeting : List Piece
greeting =
    plain "ssh "
    ∷ reference " " of_keys "ssh" "."
    ∷ plain "PublicKey }} on "
    ∷ reference " " of_networks "lan" "."
    ∷ plain "IP }}"
    ∷ []

greeting-IsPiece : All IsPiece greeting
unfolding is_space is_name
greeting-IsPiece =
    (refl, ((refl, refl, refl, refl), (refl, ((refl, refl, refl, refl), (refl, tt)))))

extract_template_refs-print_example :
    let refs = extract_template_refs (map print (greeting ∷ [])) in
    ((k : String) → contains (map node_key refs) k ≡ contains (all_keys (greeting ∷ [])) k)
    × Unique (map node_key refs)
extract_template_refs-print_example =
    extract_template_refs-print (greeting ∷ []) (greeting-IsPiece, tt)

greeting-print : print greeting ≡ "ssh {{ .Keys.ssh.PublicKey }} on {{ .Networks.lan.IP }}"
greeting-print = refl
