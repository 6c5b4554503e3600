-- ===== src/Dag/Cycle/Descent.antt =====
-- dag.go, `HasCycle`: what a call of `dfs` returns.
use testenv_vm.Prelude.{
  ℕ, zero, suc, ◌<◌, String, ◌≡◌, ◌∙◌, subst, inl, inr, true, List, [], ◌∷◌, arith, ◌==◌, eq_iff,
  eqb, Bool-cases, contains, insert, keys, has, contains-keys,
}
use testenv_vm.Dag.{Dag, edges_of}
use testenv_vm.Dag.Invariant.{IsWellFormed}
use testenv_vm.Dag.Cycle.{Marks, mark, Search, found, clear, and_then, dfs, dfs_all}
use testenv_vm.Dag.Cycle.Invariant.{
  Depends, edge, Cyclic, Depends-snoc, IsMarked, Advances, Advances-refl, Advances-trans,
  mark-insert, unvisited, unvisited-le, unvisited-insert, start-IsMarked, finish-IsMarked,
  visit-Advances,
}

-- The result of a search that was to finish the keys `ks`.
pub data Finds (d : Dag) (st : Marks) (ks : List String) : Search → Type 0 where
  cycle : Cyclic d → Finds d st ks found
  finish :
      {st' : Marks}
      → IsMarked d st'
      → Advances st st'
      → ((k : String) → contains ks k ≡ true → mark st' k ≡ 2)
      → Finds d st ks (clear st')

-- The nodes on the path lead to `k`.
abbrev pub Leads : Dag → Marks → String → Type 0
Leads d st k = (j : String) → mark st j ≡ 1 → Depends d j k

-- What a search from one key promises, with a bound on the nodes that are left.
abbrev pub Promises : Dag → ℕ → (String → Marks → Search) → Type 0
Promises d fuel go =
    (k : String) (st : Marks)
    → IsMarked d st
    → has k d.nodes ≡ true
    → Leads d st k
    → unvisited st (keys d.nodes) < fuel
    → Finds d st (k ∷ []) (go k st)

-- A finished key stays finished while the others are searched.
pub Finds-after :
    {d : Dag} {st st' : Marks} (k : String) (ks : List String) {s : Search}
    → Advances st st'
    → mark st' k ≡ 2
    → Finds d st' ks s
    → Finds d st (k ∷ ks) s
unfolding contains
Finds-after k ks a done (cycle c) = cycle c
Finds-after k ks a done (finish w b all) =
    finish w (Advances-trans a b) (λ j m. ground (arith, all j, b.older k, eq_iff k j))

-- The other keys, after one that is finished.
pub Finds-then :
    {d : Dag} {st : Marks} (k : String) (ks : List String) (s : Search) (next : Marks → Search)
    → Finds d st (k ∷ []) s
    → ((st' : Marks) → IsMarked d st' → Advances st st' → Finds d st' ks (next st'))
    → Finds d st (k ∷ ks) (and_then s next)
unfolding contains
Finds-then k ks s next (cycle c) rest = cycle c
Finds-then k ks s next (finish {st'} w a done) rest =
    Finds-after k ks a (done k (ground (arith, eq_iff k k))) (rest st' w a)

-- The marks of a node between its two writes.
Finds-visit :
    (d : Dag) (st : Marks) (k : String) {s : Search}
    → mark st k ≡ 0
    → Finds d (insert k 1 st) (edges_of d k) s
    → Finds d st (k ∷ []) (and_then s (λ st'. clear (insert k 2 st')))
unfolding contains
Finds-visit d st k z (cycle c) = cycle c
Finds-visit d st k z (finish {st'} w a done) =
    finish (finish-IsMarked d st' k w done) (visit-Advances st st' k z a)
      (λ j m. ground (arith, mark-insert k j 2 st', eq_iff k j))

module _ (d : Dag) (fuel : ℕ) (go : String → Marks → Search) (promise : Promises d fuel go) where
  pub dfs_all_lem :
      (ks : List String) (st : Marks)
      → IsMarked d st
      → ((k : String) → contains ks k ≡ true → (has k d.nodes ≡ true) × Leads d st k)
      → unvisited st (keys d.nodes) < fuel
      → Finds d st ks (dfs_all go ks st)
  unfolding dfs_all contains
  dfs_all_lem [] st w h u = finish w (Advances-refl st) (λ k m. absurd (cc))
  dfs_all_lem (k ∷ ks) st w h u =
      let (node, leads) = h k (ground (arith, eq_iff k k)) in
      Finds-then k ks (go k st) (dfs_all go ks) (promise k st w node leads u) (λ st' w' a.
        dfs_all_lem ks st' w'
          (λ j m.
            let (node', leads') = h j (ground arith) in
            (node', λ i p. leads' i (ground (arith, a.same_path i))))
          (omega (arith, unvisited-le st st' (keys d.nodes) a.fewer)))

module _ (d : Dag) (formed : IsWellFormed d) where
  pub dfs_lem : (fuel : ℕ) → Promises d fuel (dfs d fuel)
  unfolding dfs contains
  dfs_lem zero k st w node leads u = absurd (omega arith)
  dfs_lem (suc fuel) k st w node leads u = elim (Bool-cases (eqb (mark st k) 1)) [
    | inl on_path ↦ rw on_path (cycle (k, leads k (ground arith)))
    | inr off_path ↦ elim (Bool-cases (eqb (mark st k) 2)) [
      | inl old ↦
          rw (off_path, old) (finish w (Advances-refl st) (λ j m. ground (arith, eq_iff k j)))
      | inr new ↦
          let z : mark st k ≡ 0 = ground (arith, w.small k) in
          let lower =
            unvisited-insert st k 1 (keys d.nodes) (λ e. omega arith) z
              (contains-keys k d.nodes ∙ node) in
          rw (off_path, new)
            (Finds-visit d st k z (
              dfs_all_lem d fuel (dfs d fuel) (dfs_lem fuel) (edges_of d k) (insert k 1 st)
                (start-IsMarked d st k z w)
                (λ e m. ((formed.closed k e m).1, leads_below st k e leads m)) (omega arith)))
    ]
  ]
    where
      leads_below :
          (st : Marks) (k e : String)
          → Leads d st k
          → contains (edges_of d k) e ≡ true
          → Leads d (insert k 1 st) e
      leads_below st k e leads m j on = elim (Bool-cases (k == j)) [
        | inl same ↦ subst (λ i. Depends d i e) ((eq_iff k j).0 same) (edge m)
        | inr other ↦ Depends-snoc d (leads j (ground (arith, mark-insert k j 1 st))) m
      ]
