-- ===== src/Dag/Cycle/Correct.antt =====
-- dag.go, `HasCycle`: it decides whether a node depends on itself; and where none does, the
-- topological sort returns phases.
use testenv_vm.Prelude.{
  ℕ, suc, ◌<◌, String, ◌≡◌, refl, sym, ◌∙◌, subst, ◌↔◌, inl, inr, Bool, true, false, Option, none,
  some, List, [], ◌∷◌, map, arith, ◌==◌, eq_iff, eqb, Bool-cases, length, All, All-map, contains,
  done_after, contains-done_after, done_after-append, keys, has, contains-keys, length-keys,
}
use testenv_vm.Api.{ResourceRef}
use testenv_vm.Dag.{node_key, Dag, edges_of, Sorted, phases, stuck, out_of_fuel, topological_sort}
use testenv_vm.Dag.Invariant.{IsWellFormed}
use testenv_vm.Dag.Sort.{
  phase_keys, IsLayered, topological_sort_sound, IsDeadlocked, topological_sort-stuck,
  topological_sort_terminates,
}
use testenv_vm.Dag.Cycle.{Marks, mark, Search, dfs, dfs_roots, has_cycle, verdict}
use testenv_vm.Dag.Cycle.Invariant.{
  Depends, edge, via, Cyclic, IsBacked, IsMarked, Advances-refl, mark-nil, unvisited, unvisited-le,
  unvisited-length,
}
use testenv_vm.Dag.Cycle.Descent.{Finds, cycle, finish, Promises, Finds-after, Finds-then, dfs_lem}

module _ (d : Dag) (fuel : ℕ) (go : String → Marks → Search) (promise : Promises d fuel go) where
  -- A root that was reached before is finished, since nothing is on the path between roots.
  dfs_roots_lem :
      (ks : List String) (st : Marks)
      → IsMarked d st
      → ((k : String) → contains ks k ≡ true → has k d.nodes ≡ true)
      → ((k : String) → eqb (mark st k) 1 ≡ false)
      → unvisited st (keys d.nodes) < fuel
      → Finds d st ks (dfs_roots go ks st)
  unfolding dfs_roots contains
  dfs_roots_lem [] st w h off u = finish w (Advances-refl st) (λ k m. absurd (cc))
  dfs_roots_lem (k ∷ ks) st w h off u = elim (Bool-cases (eqb (mark st k) 0)) [
    | inl new ↦ rw new (
        Finds-then k ks (go k st) (dfs_roots go ks)
          (promise k st w (h k (ground (arith, eq_iff k k)))
            (λ j on. absurd (ground (arith, off j))) u)
          (λ st' w' a.
            dfs_roots_lem ks st' w' (λ j m. h j (ground arith)) (λ j. a.same_path j ∙ off j)
              (omega (arith, unvisited-le st st' (keys d.nodes) a.fewer))))
    | inr old ↦ rw old (
        Finds-after k ks (Advances-refl st) (ground (arith, w.small k, off k))
          (dfs_roots_lem ks st w (λ j m. h j (ground arith)) off u))
  ]

-- No node is marked yet.
IsMarked-nil : (d : Dag) → IsMarked d []
unfolding contains
IsMarked-nil d = record {
  order = [];
  small = λ k. omega (arith, mark-nil k);
  finished = λ k. ground (arith, mark-nil k);
  backed = tt;
}

roots-Finds :
    (d : Dag)
    → IsWellFormed d
    → Finds d [] (keys d.nodes) (dfs_roots (dfs d (suc (length d.nodes))) (keys d.nodes) [])
roots-Finds d f =
    let fuel = suc (length d.nodes) in
    dfs_roots_lem d fuel (dfs d fuel) (dfs_lem d f fuel) (keys d.nodes) [] (IsMarked-nil d)
      (λ k m. sym (contains-keys k d.nodes) ∙ m) (λ k. ground (arith, mark-nil k))
      (omega (arith, unvisited-length [] (keys d.nodes), length-keys d.nodes))

-- A finishing order of all nodes.
abbrev IsOrdered : Dag → Type 0
IsOrdered d =
    (order : List String) × IsBacked d order
    × ((k : String) → has k d.nodes ≡ true → contains order k ≡ true)

IsBacked-closed :
    (d : Dag) (order : List String) (a b : String)
    → IsBacked d order
    → contains order a ≡ true
    → contains (edges_of d a) b ≡ true
    → contains order b ≡ true
unfolding contains
IsBacked-closed d [] a b w m e = cc
IsBacked-closed d (k ∷ ks) a b w m e = elim (Bool-cases (k == a)) [
  | inl same ↦ ground (arith, w.0 b (rw ((eq_iff k a).0 same) e))
  | inr other ↦ ground (arith, IsBacked-closed d ks a b w.1 (ground arith) e)
]

Depends-closed :
    (d : Dag) (order : List String) {a b : String}
    → IsBacked d order
    → contains order a ≡ true
    → Depends d a b
    → contains order b ≡ true
Depends-closed d order w m (edge {a} {b} e) = IsBacked-closed d order a b w m e
Depends-closed d order w m (via {a} {b} e p) =
    Depends-closed d order w (IsBacked-closed d order a b w m e) p

-- What a listed key depends on stands further down.
Depends-below :
    (d : Dag) (ks : List String) {a b : String}
    → IsBacked d ks
    → ((e : String) → contains (edges_of d a) e ≡ true → contains ks e ≡ true)
    → Depends d a b
    → contains ks b ≡ true
Depends-below d ks w h (edge {a} {b} e) = h b e
Depends-below d ks w h (via {a} {b} e p) = Depends-closed d ks w (h b e) p

IsBacked-acyclic :
    (d : Dag) (order : List String) (k : String)
    → IsBacked d order
    → contains order k ≡ true
    → ¬ Depends d k k
unfolding contains
IsBacked-acyclic d [] k w m p = cc
IsBacked-acyclic d (j ∷ ks) k w m p = elim (Bool-cases (contains ks k)) [
  | inl below ↦ IsBacked-acyclic d ks k w.1 below p
  | inr above ↦
      let same : j ≡ k = (eq_iff j k).0 (ground arith) in
      let now = Depends-below d ks w.1 (λ e m'. w.0 e (rw same m')) p in cc
]

-- With such an order the sort is never stuck.
IsBacked-placed :
    (d : Dag) (done order : List String) (k : String)
    → IsWellFormed d
    → IsDeadlocked d done
    → IsBacked d order
    → contains order k ≡ true
    → has k d.nodes ≡ true
    → contains done k ≡ true
unfolding contains
IsBacked-placed d done [] k f dead w m node = cc
IsBacked-placed d done (j ∷ ks) k f dead w m node = elim (Bool-cases (j == k)) [
  | inr other ↦ IsBacked-placed d done ks k f dead w.1 (ground arith) node
  | inl same ↦ elim (Bool-cases (contains done k)) [
    | inl placed ↦ placed
    | inr open_key ↦
        let (e, m', new) = dead.blocked k node open_key in
        let below = w.0 e (rw ((eq_iff j k).0 same) m') in
        absurd (ground (arith, IsBacked-placed d done ks e f dead w.1 below (f.closed k e m').1))
  ]
]

-- What the search proves on each side.
abbrev IsDecided : Dag → Option Bool → Type 0
IsDecided d none = ⊥
IsDecided d (some true) = Cyclic d
IsDecided d (some false) = IsOrdered d

verdict-IsDecided : {d : Dag} (s : Search) → Finds d [] (keys d.nodes) s → IsDecided d (verdict s)
verdict-IsDecided s (cycle c) = c
verdict-IsDecided {d} s (finish w a all) = (
  w.order,
  w.backed,
  λ k node. ground (arith, all k (contains-keys k d.nodes ∙ node), w.finished k),
)

has_cycle-IsDecided : (d : Dag) → IsWellFormed d → IsDecided d (has_cycle d)
unfolding has_cycle
has_cycle-IsDecided d f = verdict-IsDecided _ (roots-Finds d f)

IsOrdered-acyclic : (d : Dag) → IsWellFormed d → IsOrdered d → ¬ Cyclic d
IsOrdered-acyclic d f (order, w, all) (k, p) = IsBacked-acyclic d order k w (all k (first_node p)) p
  where
    first_node : {a b : String} → Depends d a b → has a d.nodes ≡ true
    first_node (edge {a} {b} e) = (f.closed a b e).0
    first_node (via {a} {b} e q) = (f.closed a b e).0

-- On a well-formed graph the search ends, and says whether some node depends on itself, directly or
-- through other nodes.
pub has_cycle_correct :
    (d : Dag) → IsWellFormed d → (b : Bool) × (has_cycle d ≡ some b) × ((b ≡ true) ↔ Cyclic d)
has_cycle_correct d f = go (has_cycle d) refl
  where
    go :
        (v : Option Bool)
        → has_cycle d ≡ v
        → (b : Bool) × (has_cycle d ≡ some b) × ((b ≡ true) ↔ Cyclic d)
    go none e = absurd (subst (IsDecided d) e (has_cycle-IsDecided d f))
    go (some true) e =
        (true, e, ((λ _. subst (IsDecided d) e (has_cycle-IsDecided d f)), (λ _. refl)))
    go (some false) e = (
      false,
      e,
      (
        (λ h. absurd (cc)),
        (λ c. absurd (IsOrdered-acyclic d f (subst (IsDecided d) e (has_cycle-IsDecided d f)) c)),
      ),
    )

-- Where the search for a cycle finds none, the topological sort of a well-formed graph returns
-- phases: the two algorithms agree.
pub topological_sort-phases :
    (d : Dag)
    → IsWellFormed d
    → has_cycle d ≡ some false
    → (ps : List (List ResourceRef)) × (topological_sort d ≡ phases ps)
topological_sort-phases d f acyclic = go (topological_sort d) refl
  where
    go :
        (s : Sorted)
        → topological_sort d ≡ s
        → (ps : List (List ResourceRef)) × (topological_sort d ≡ phases ps)
    go (phases ps) e = (ps, e)
    go out_of_fuel e = absurd (topological_sort_terminates d f e)
    go stuck e =
        let (done, dead) = topological_sort-stuck d f e in
        let (order, w, all) = subst (IsDecided d) acyclic (has_cycle-IsDecided d f) in
        let left = dead.left in
        absurd (
          ground (
            arith,
            dead.left_open,
            IsBacked-placed d done order dead.left f dead w (all left dead.left_node)
                dead.left_node,
          ))

-- The keys placed so far, the last one first, are backed.
IsBacked-phase :
    (d : Dag) (p : List ResourceRef) (done : List String)
    → IsBacked d done
    → All
        (λ r. (e : String) → contains (edges_of d (node_key r)) e ≡ true → contains done e ≡ true)
        p
    → IsBacked d (done_after (map node_key p) done)
unfolding contains
IsBacked-phase d [] done w h = w
IsBacked-phase d (r ∷ p) done w h =
    IsBacked-phase d p (node_key r ∷ done) (h.0, w)
      (All-map _ _ (λ r' g e m. ground (arith, g e m)) p h.1)

IsBacked-layers :
    (d : Dag) (ps : List (List ResourceRef)) (done : List String)
    → IsBacked d done
    → IsLayered d done ps
    → IsBacked d (done_after (phase_keys ps) done)
IsBacked-layers d [] done w h = w
IsBacked-layers d (p ∷ ps) done w h =
    rw done_after-append
      (IsBacked-layers d ps (done_after (map node_key p) done) (IsBacked-phase d p done w h.0) h.1)

phases-IsOrdered :
    (d : Dag) (ps : List (List ResourceRef))
    → IsWellFormed d
    → topological_sort d ≡ phases ps
    → IsOrdered d
phases-IsOrdered d ps f e =
    let (layered, _, all) = topological_sort_sound d ps f e in
    (
      done_after (phase_keys ps) [],
      IsBacked-layers d ps [] tt layered,
      λ k node. ground (arith, contains-done_after (phase_keys ps) [] k, all k),
    )

stuck-Cyclic :
    (d : Dag) (f : IsWellFormed d)
    → (b : Bool) × (has_cycle d ≡ some b) × ((b ≡ true) ↔ Cyclic d)
    → topological_sort d ≡ stuck
    → Cyclic d
stuck-Cyclic d f (true, v, both) e = both.0 refl
stuck-Cyclic d f (false, v, both) e = let (ps, e') = topological_sort-phases d f v in absurd (cc)

-- The topological sort of a well-formed graph reports a circular dependency exactly when some node
-- depends on itself, directly or through other nodes.
pub topological_sort-stuck_iff :
    (d : Dag) → IsWellFormed d → (topological_sort d ≡ stuck) ↔ Cyclic d
topological_sort-stuck_iff d f = (to, from)
  where
    to : topological_sort d ≡ stuck → Cyclic d
    to e = stuck-Cyclic d f (has_cycle_correct d f) e

    from : Cyclic d → topological_sort d ≡ stuck
    from c = go (topological_sort d) refl
      where
        go : (s : Sorted) → topological_sort d ≡ s → s ≡ stuck
        go stuck e = refl
        go out_of_fuel e = absurd (topological_sort_terminates d f e)
        go (phases ps) e = absurd (IsOrdered-acyclic d f (phases-IsOrdered d ps f e) c)
