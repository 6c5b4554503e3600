-- ===== src/Dag/Cycle.antt =====
-- dag.go, `HasCycle`: a depth-first search with marks 0 (unvisited), 1 (on the path), 2 (finished).
-- The depth is at most the number of nodes, since each call below another marks one more node.
use testenv_vm.Prelude.{
  ℕ, zero, suc, String, Bool, true, false, Option, none, some, List, [], ◌∷◌, eqb, if◌then◌else◌,
  length, Dict, lookup, insert, keys,
}
pub mod Invariant
pub mod Descent
pub mod Correct
use testenv_vm.Dag.{Dag, Node, edges_of}

abbrev pub Marks : Type 0
Marks = Dict ℕ

-- `state[key]`
pub mark : Marks → String → ℕ
mark st k = elim (lookup k st) [ none ↦ 0 | some m ↦ m ]

pub data Search : Type 0 where
  found : Search
  clear : Marks → Search
  exhausted : Search

abbrev pub and_then : Search → (Marks → Search) → Search
and_then found f = found
and_then (clear st) f = f st
and_then exhausted f = exhausted

-- The `for` over the dependencies.
pub dfs_all : (String → Marks → Search) → List String → Marks → Search
dfs_all go [] st = clear st
dfs_all go (k ∷ ks) st = and_then (go k st) (dfs_all go ks)

pub dfs : Dag → ℕ → String → Marks → Search
unfolding mark
dfs d zero k st = exhausted
dfs d (suc fuel) k st =
    let below =
      and_then (dfs_all (dfs d fuel) (edges_of d k) (insert k 1 st))
        (λ st'. clear (insert k 2 st')) in
    if eqb (mark st k) 1 then found else if eqb (mark st k) 2 then clear st else below

-- The `for` over all nodes.
pub dfs_roots : (String → Marks → Search) → List String → Marks → Search
unfolding mark
dfs_roots go [] st = clear st
dfs_roots go (k ∷ ks) st =
    let rest = and_then (go k st) (dfs_roots go ks) in
    let skipped = dfs_roots go ks st in if eqb (mark st k) 0 then rest else skipped

abbrev pub verdict : Search → Option Bool
verdict found = some true
verdict (clear st) = some false
verdict exhausted = none

-- `none` means that the fuel ran out.
unfoldable pub has_cycle : Dag → Option Bool
unfolding dfs dfs_all dfs_roots edges_of
has_cycle d = verdict (dfs_roots (dfs d (suc (length d.nodes))) (keys d.nodes) [])
