-- ===== src/Dag/Sort.antt =====
-- dag.go, `TopologicalSort`: what the phases are.
use testenv_vm.Prelude.{
  ℕ, zero, suc, ◌+◌, ◌-◌, ◌≤◌, String, ◌≡◌, refl, sym, ap, ◌∙◌, subst, ◌≢◌, inl, inr, true, false,
  not, ◌&&◌, List, [], ◌∷◌, ◌++◌, map, arith, eq_iff, if◌then◌else◌, Bool-cases, length, All,
  All-map, is_empty, length-map, contains, contains-append, Unique, IsFresh, done_after,
  contains-done_after, IsFresh-append, IsFresh-Unique, All-of_contains, All-unmap, is_empty-nil,
  is_empty-pos, keys, has, contains-keys,
}
use testenv_vm.Api.{ResourceRef}
use testenv_vm.Dag.{
  topological_sort, sort_loop, phases, stuck, out_of_fuel, prepend, prepend, phases, ready_keys,
  Sorted, refs_of, Dag, node_key, edges_of,
}
use testenv_vm.Dag.Invariant.{IsWellFormed}
use testenv_vm.Dag.Degrees.{
  length-degrees_at, place-degrees_at, initial_degrees-eq, map-refs_of, ready-IsFresh,
  ready_keys-degrees_at, contains-ready, ready, degrees_at, open_count,
}

-- The keys of all phases, in order.
abbrev pub phase_keys : List (List ResourceRef) → List String
phase_keys [] = []
phase_keys (p ∷ ps) = map node_key p ++ phase_keys ps

-- `done` is what the earlier phases placed: each resource of a phase depends on nothing else.
abbrev pub IsLayered : Dag → List String → List (List ResourceRef) → Type 0
IsLayered d done [] = Unit
IsLayered d done (p ∷ ps) =
    All (λ r. (e : String) → contains (edges_of d (node_key r)) e ≡ true → contains done e ≡ true) p
    × IsLayered d (done_after (map node_key p) done) ps

-- No node outside `done` could be placed next, though there is one.
pub record IsDeadlocked (d : Dag) (done : List String) : Type 0 where
  pub left : String
  pub left_node : has left d.nodes ≡ true
  pub left_open : contains done left ≡ false
  pub blocked :
      (k : String)
      → has k d.nodes ≡ true
      → contains done k ≡ false
      → (e : String) × (contains (edges_of d k) e ≡ true) × (contains done e ≡ false)

-- Every edge of a key of open count zero is done.
open_count-zero :
    (done es : List String) (e : String)
    → open_count done es ≡ 0
    → contains es e ≡ true
    → contains done e ≡ true
unfolding contains
open_count-zero done [] e h m = cc
open_count-zero done (x ∷ es) e h m = ground (arith, eq_iff x e, open_count-zero done es e)

open_count-suc :
    (done es : List String)
    → open_count done es ≢ 0
    → (e : String) × (contains es e ≡ true) × (contains done e ≡ false)
unfolding contains
open_count-suc done [] h = absurd (h refl)
open_count-suc done (x ∷ es) h = elim (Bool-cases (contains done x)) [
  | inr new ↦ (x, ground (arith, eq_iff x x), new)
  | inl was ↦ let (e, m, n) = open_count-suc done es (λ z. h (ground arith)) in (e, ground arith, n)
]

module _ (d : Dag) where
  -- The number of keys that are not placed falls by one with each key placed.
  length-degrees_one :
      (k : String) (done ks : List String)
      → Unique ks
      → contains done k ≡ false
      → length (degrees_at d done ks)
        ≡ (if contains ks k then 1 else 0) + length (degrees_at d (k ∷ done) ks)
  unfolding degrees_at contains
  length-degrees_one k done [] u h = refl
  length-degrees_one k done (j ∷ ks) u h =
      ground (arith, eq_iff j k, eq_iff k j, length-degrees_one k done ks u.1 h)

  length-degrees_after :
      (rs done ks : List String)
      → Unique ks
      → IsFresh done rs
      → All (λ k. contains ks k ≡ true) rs
      → length (degrees_at d done ks) ≡ length rs + length (degrees_at d (done_after rs done) ks)
  length-degrees_after [] done ks u f m = omega arith
  length-degrees_after (r ∷ rs) done ks u f m =
      ground
        (arith, length-degrees_one r done ks u f.0, length-degrees_after rs (r ∷ done) ks u f.1 m.1)

  -- Nothing is left to place when no degree is left.
  degrees_at-nil :
      (done ks : List String) (k : String)
      → length (degrees_at d done ks) ≡ 0
      → contains ks k ≡ true
      → contains done k ≡ true
  unfolding degrees_at contains
  degrees_at-nil done [] k h m = cc
  degrees_at-nil done (j ∷ ks) k h m = ground (arith, eq_iff j k, degrees_at-nil done ks k)

degrees_at_some :
    (d : Dag) (done ks : List String)
    → length (degrees_at d done ks) ≢ 0
    → (k : String) × (contains ks k ≡ true) × (contains done k ≡ false)
unfolding degrees_at contains
degrees_at_some d done [] h = absurd (h refl)
degrees_at_some d done (j ∷ ks) h = elim (Bool-cases (contains done j)) [
  | inr new ↦ (j, ground (arith, eq_iff j j), new)
  | inl was ↦
      let (k, m, n) = degrees_at_some d done ks (λ z. h (ground arith)) in (k, ground arith, n)
]

module _ (d : Dag) (w : IsWellFormed d) where
  abbrev phase_at : List String → List ResourceRef
  phase_at done = refs_of d (ready_keys (degrees_at d done (keys d.nodes)))

  -- What the loop returns when `done` is placed.
  abbrev IsSortedFrom : List String → Sorted → Type 0
  IsSortedFrom done (phases ps) =
      IsLayered d done ps
      × IsFresh done (phase_keys ps)
      × ((k : String) → contains (phase_keys ps) k ≡ (has k d.nodes && not (contains done k)))
  IsSortedFrom done stuck = (placed : List String) × IsDeadlocked d placed
  IsSortedFrom done out_of_fuel = ⊥

  ready-nodes :
      (done : List String)
      → All (λ k. contains (keys d.nodes) k ≡ true) (ready d done (keys d.nodes))
  ready-nodes done =
      All-of_contains (λ k. contains (keys d.nodes) k ≡ true) (ready d done (keys d.nodes))
        (λ k m. ground (arith, contains-ready d done (keys d.nodes) k))

  map-phase_at : (done : List String) → map node_key (phase_at done) ≡ ready d done (keys d.nodes)
  map-phase_at done = rw (ready_keys-degrees_at d done (keys d.nodes)) (
      map-refs_of d w (ready d done (keys d.nodes)) (
        All-map (λ k. contains (keys d.nodes) k ≡ true) (λ k. has k d.nodes ≡ true)
          (λ k m. sym (contains-keys k d.nodes) ∙ m) (ready d done (keys d.nodes))
          (ready-nodes done)))

  phase_at_layer :
      (done : List String)
      → All
          (λ r. (e : String) → contains (edges_of d (node_key r)) e ≡ true → contains done e ≡ true)
          (phase_at done)
  phase_at_layer done =
      All-unmap (λ k. (e : String) → contains (edges_of d k) e ≡ true → contains done e ≡ true)
        node_key (phase_at done)
        (rw (map-phase_at done) (
          All-of_contains
            (λ k. (e : String) → contains (edges_of d k) e ≡ true → contains done e ≡ true)
            (ready d done (keys d.nodes))
            (λ k m e in_edges.
              open_count-zero done (edges_of d k) e
                (ground (arith, contains-ready d done (keys d.nodes) k)) in_edges)))

  prepend-IsSortedFrom :
      (done : List String) (rest : Sorted)
      → IsSortedFrom (done_after (map node_key (phase_at done)) done) rest
      → IsSortedFrom done (prepend (phase_at done) rest)
  prepend-IsSortedFrom done (phases ps) (layered, fresh, all) = (
    (phase_at_layer done, layered),
    IsFresh-append (map node_key (phase_at done)) (phase_keys ps) done
        (rw (map-phase_at done) (ready-IsFresh d done (keys d.nodes) w.unique)) fresh,
    λ k. ground (
      arith,
      contains-append (map node_key (phase_at done)) (phase_keys ps) k,
      contains-done_after (map node_key (phase_at done)) done k,
      all k,
      map-phase_at done,
      contains-ready d done (keys d.nodes) k,
      contains-keys k d.nodes,
    ),
  )
  prepend-IsSortedFrom done stuck h = h
  prepend-IsSortedFrom done out_of_fuel h = h

  -- A node that could be placed shows in the phase.
  phase_at_nil :
      (done : List String) (j : String)
      → phase_at done ≡ []
      → has j d.nodes ≡ true
      → contains done j ≡ false
      → open_count done (edges_of d j) ≢ 0
  unfolding contains
  phase_at_nil done j none_ready node new zero_open = ground (
    arith,
    ap (map node_key) none_ready,
    map-phase_at done,
    contains-ready d done (keys d.nodes) j,
    contains-keys j d.nodes,
  )

  phase_at_stuck :
      (done : List String)
      → is_empty (phase_at done) ≡ true
      → length (degrees_at d done (keys d.nodes)) ≢ 0
      → IsDeadlocked d done
  phase_at_stuck done none_ready some_left =
      let (k, m, n) = degrees_at_some d done (keys d.nodes) some_left in
      record {
        left = k;
        left_node = sym (contains-keys k d.nodes) ∙ m;
        left_open = n;
        blocked = λ j node new.
            open_count-suc done (edges_of d j)
              (phase_at_nil done j (is_empty-nil (phase_at done) none_ready) node new);
      }

  phase_at-IsFresh : (done : List String) → IsFresh done (map node_key (phase_at done))
  phase_at-IsFresh done = rw (map-phase_at done) (ready-IsFresh d done (keys d.nodes) w.unique)

  -- `remaining` after a phase.
  phase_fits :
      (done : List String) (remaining : ℕ)
      → suc remaining ≡ length (degrees_at d done (keys d.nodes))
      → is_empty (phase_at done) ≡ false
      → (suc remaining - length (phase_at done)
          ≡ length (degrees_at d (done_after (map node_key (phase_at done)) done) (keys d.nodes)))
        × (suc remaining - length (phase_at done) ≤ remaining)
  phase_fits done remaining e some_ready =
      let placed =
        length-degrees_after d (map node_key (phase_at done)) done (keys d.nodes) w.unique
          (phase_at-IsFresh done) (rw (map-phase_at done) (ready-nodes done)) in
      let same = length-map node_key (phase_at done) in
      let pos = is_empty-pos (phase_at done) some_ready in omega (arith, placed, same, pos)

  sort_loop_lem :
      (fuel remaining : ℕ) (done : List String)
      → remaining ≡ length (degrees_at d done (keys d.nodes))
      → remaining ≤ fuel
      → IsSortedFrom done (sort_loop d fuel remaining (degrees_at d done (keys d.nodes)))
  unfolding sort_loop contains
  sort_loop_lem fuel zero done e h =
      (tt, tt, λ k. ground (arith, degrees_at-nil d done (keys d.nodes) k, contains-keys k d.nodes))
  sort_loop_lem zero (suc remaining) done e h = absurd (omega arith)
  sort_loop_lem (suc fuel) (suc remaining) done e h =
      let phase = phase_at done in
      let after = done_after (map node_key phase) done in
      elim (Bool-cases (is_empty phase)) [
        | inl none_ready ↦ rw none_ready (done, phase_at_stuck done none_ready (λ z. omega arith))
        | inr some_ready ↦
            let fits = phase_fits done remaining e some_ready in
            rw some_ready (
              prepend-IsSortedFrom done _ (
                rw (place-degrees_at d phase done (keys d.nodes) (phase_at-IsFresh done))
                  (sort_loop_lem fuel (suc remaining - length phase) after fits.0 (omega arith))))
      ]

-- `IsSortedFrom` at the start, where nothing is placed.
pub topological_sort_lem : (d : Dag) (w : IsWellFormed d) → IsSortedFrom d w [] (topological_sort d)
unfolding topological_sort
topological_sort_lem d w = rw (initial_degrees-eq d d.nodes) (
    sort_loop_lem d w (length d.nodes) (length d.nodes) [] (sym (length-degrees_at d d.nodes))
      (omega arith))

-- The sort of a well-formed graph ends by itself: the rounds that the model allows are enough.
pub topological_sort_terminates : (d : Dag) → IsWellFormed d → topological_sort d ≢ out_of_fuel
topological_sort_terminates d w e = subst (IsSortedFrom d w []) e (topological_sort_lem d w)

-- Where the sort of a well-formed graph returns phases, a resource of a phase depends only on
-- resources of earlier phases; no node is placed twice; and the keys placed are those of the nodes.
pub topological_sort_sound :
    (d : Dag) (ps : List (List ResourceRef))
    → IsWellFormed d
    → topological_sort d ≡ phases ps
    → IsLayered d [] ps
      × Unique (phase_keys ps)
      × ((k : String) → contains (phase_keys ps) k ≡ has k d.nodes)
unfolding contains
topological_sort_sound d ps w e =
    let (layered, fresh, all) = subst (IsSortedFrom d w []) e (topological_sort_lem d w) in
    (layered, IsFresh-Unique (phase_keys ps) [] fresh, λ k. ground (arith, all k))

-- Where the sort of a well-formed graph reports a cycle, there are nodes that can never be placed:
-- each of them depends on one of them.
pub topological_sort-stuck :
    (d : Dag)
    → IsWellFormed d
    → topological_sort d ≡ stuck
    → (done : List String) × IsDeadlocked d done
topological_sort-stuck d w e = subst (IsSortedFrom d w []) e (topological_sort_lem d w)
