-- ===== src/Dag/Reach.antt =====
-- dag.go, `DependsOn` and `Nodes`: a breadth-first search from one node for another.
-- Each round takes one key off the queue, and a node adds as many keys as it has edges, once. One
-- round more than the graph has edges is enough.
use testenv_vm.Prelude.{
  if◌then◌else◌, contains, has, ℕ, zero, suc, ◌+◌, String, Bool, true, false, Option, none, some,
  List, [], ◌∷◌, ◌++◌, map, ◌==◌,
}
use testenv_vm.Api.{ResourceRef}
use testenv_vm.Dag.{Node, Dag, node_key, edges_of, edge_count}
pub mod Correct

-- The `for` over the dependencies of a node; `none` is its `return true`.
pub push_all : List String → String → List String → List String → Option (List String)
push_all visited to [] queue = some queue
push_all visited to (e ∷ es) queue =
    let rest = push_all visited to es (if contains visited e then queue else queue ++ e ∷ []) in
    if e == to then none else rest

abbrev pub go_on : (List String → Option Bool) → Option (List String) → Option Bool
go_on rest none = some true
go_on rest (some queue) = rest queue

-- The `for len(queue) > 0` loop.
pub walk : Dag → String → ℕ → List String → List String → Option Bool
walk d to fuel visited [] = some false
walk d to zero visited (k ∷ queue) = none
walk d to (suc fuel) visited (k ∷ queue) =
    let skipped = walk d to fuel visited queue in
    let next =
      go_on (walk d to fuel (k ∷ visited)) (push_all (k ∷ visited) to (edges_of d k) queue) in
    if contains visited k then skipped else next

-- `none` means that the fuel ran out.
unfoldable pub depends_on : ResourceRef → ResourceRef → Dag → Option Bool
unfolding walk push_all edges_of
depends_on from to d =
    if has (node_key from) d.nodes
    then (if has (node_key to) d.nodes
        then walk d (node_key to) (suc (edge_count d)) [] (node_key from ∷ [])
        else some false)
    else some false

-- In the order of the map; Go's `range` fixes none.
unfoldable pub nodes : Dag → List Node
nodes d = map (λ entry. entry.1) d.nodes
