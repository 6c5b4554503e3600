-- ===== src/Dag.antt =====
-- pkg/orchestrator/dag.go: the dependency graph, its queries and its topological sort. `BuildDAG`
-- is in Dag/Build.antt, `HasCycle` in Dag/Cycle.antt and `DependsOn` in Dag/Reach.antt.
-- Proofs: Dag/Degrees.antt and Dag/Sort.antt.
-- The read-write mutex is not modelled: each operation holds it from its first line to its last.
pub mod Invariant
pub mod Degrees
pub mod Sort
pub mod Cycle
pub mod Build
pub mod Reach
use testenv_vm.Prelude.{
  ℕ, zero, suc, ◌+◌, ◌-◌, String, Option, none, some, List, [], ◌∷◌, ◌++◌, ◌==◌, eqb, if◌then◌else◌,
  length, contains, is_empty, Dict, lookup, insert, remove, adjust, has, Result, ok, err,
}
use Prim.Native.String.{◌++◌ as str_append}
use testenv_vm.Api.{ResourceRef}

pub record Node : Type 0 where
  pub ref : ResourceRef
  pub dependencies : List ResourceRef
  pub dependents : List ResourceRef

pub record Dag : Type 0 where
  pub nodes : Dict Node
  pub edges : Dict (List String)

pub data DagError : Type 0 where
  source_missing target_missing : String → DagError
  circular : DagError

-- `kind:name`
unfoldable pub node_key : ResourceRef → String
node_key ref = str_append ref.kind (str_append ":" ref.name)

abbrev pub new_dag : Dag
new_dag = record { nodes = []; edges = [] }

-- `d.edges[key]`, which is nil at a missing key
unfoldable pub edges_of : Dag → String → List String
edges_of d k = elim (lookup k d.edges) [ none ↦ [] | some es ↦ es ]

unfoldable pub add_node : ResourceRef → Dag → Dag
add_node ref d = if has (node_key ref) d.nodes then d else record d {
  nodes = insert (node_key ref) (record { ref = ref; dependencies = []; dependents = [] }) d.nodes;
}

abbrev pub add_dependency : ResourceRef → Node → Node
add_dependency to node = record node { dependencies = node.dependencies ++ to ∷ [] }

abbrev pub add_dependent : ResourceRef → Node → Node
add_dependent from node = record node { dependents = node.dependents ++ from ∷ [] }

-- The nodes are written through pointers, one after the other, also where both are one node.
unfoldable pub add_edge : ResourceRef → ResourceRef → Dag → Result DagError Dag
unfolding edges_of
add_edge from to d =
    if has (node_key from) d.nodes
    then (if has (node_key to) d.nodes
        then (if contains (edges_of d (node_key from)) (node_key to)
            then ok d
            else ok (record {
              nodes =
                  adjust (node_key to) (add_dependent from)
                    (adjust (node_key from) (add_dependency to) d.nodes);
              edges =
                  insert (node_key from) (edges_of d (node_key from) ++ node_key to ∷ []) d.edges;
            }))
        else err (target_missing (node_key to)))
    else err (source_missing (node_key from))

-- `inDegree`, the number of dependencies of each node that are not yet placed.
abbrev pub Degrees : Type 0
Degrees = Dict ℕ

pub initial_degrees : Dag → Dict Node → Degrees
initial_degrees d [] = []
initial_degrees d ((k, _) ∷ nodes) = (k, length (edges_of d k)) ∷ initial_degrees d nodes

-- The keys of degree zero.
pub ready_keys : Degrees → List String
ready_keys [] = []
ready_keys ((k, degree) ∷ rest) =
    let others = ready_keys rest in if eqb degree 0 then k ∷ others else others

-- `d.nodes[key].Ref` for each key; every key of the degrees is one of the nodes.
pub refs_of : Dag → List String → List ResourceRef
refs_of d [] = []
refs_of d (k ∷ ks) = elim (lookup k d.nodes) [
  | none ↦ refs_of d ks
  | some node ↦ node.ref ∷ refs_of d ks
]

-- One `inDegree[depKey]--` for each edge to the key.
pub lower : String → List String → ℕ → ℕ
lower k [] degree = degree
lower k (e ∷ es) degree = lower k es (if e == k then degree - 1 else degree)

pub lower_all : Dag → String → Degrees → Degrees
lower_all d k [] = []
lower_all d k ((j, degree) ∷ rest) = (j, lower k (edges_of d j) degree) ∷ lower_all d k rest

-- The `for` over the current phase.
pub place : Dag → List ResourceRef → Degrees → Degrees
place d [] degrees = degrees
place d (ref ∷ phase) degrees =
    place d phase (lower_all d (node_key ref) (remove (node_key ref) degrees))

pub data Sorted : Type 0 where
  phases : List (List ResourceRef) → Sorted
  stuck : Sorted
  out_of_fuel : Sorted

abbrev pub prepend : List ResourceRef → Sorted → Sorted
prepend phase (phases ps) = phases (phase ∷ ps)
prepend phase stuck = stuck
prepend phase out_of_fuel = out_of_fuel

-- The `for remaining > 0` loop.
pub sort_loop : Dag → ℕ → ℕ → Degrees → Sorted
sort_loop d fuel zero degrees = phases []
sort_loop d zero (suc remaining) degrees = out_of_fuel
sort_loop d (suc fuel) (suc remaining) degrees =
    let phase = refs_of d (ready_keys degrees) in
    let rest = sort_loop d fuel (suc remaining - length phase) (place d phase degrees) in
    if is_empty phase then stuck else prepend phase rest

-- Each round places a node, so as many rounds as there are nodes are enough.
unfoldable pub topological_sort : Dag → Sorted
unfolding sort_loop place lower_all lower refs_of ready_keys initial_degrees edges_of
topological_sort d = sort_loop d (length d.nodes) (length d.nodes) (initial_degrees d d.nodes)

unfoldable get_node : ResourceRef → Dag → Option Node
get_node ref d = lookup (node_key ref) d.nodes

unfoldable node_count : Dag → ℕ
node_count d = length d.nodes

unfoldable pub count_edges : Dict (List String) → ℕ
count_edges [] = 0
count_edges ((_, es) ∷ rest) = length es + count_edges rest

unfoldable pub edge_count : Dag → ℕ
unfolding count_edges
edge_count d = count_edges d.edges
