-- ===== src/Dag/Degrees.antt =====
-- dag.go, `TopologicalSort`: the degrees are a function of the set of placed keys.
use testenv_vm.Prelude.{
  ℕ, suc, ◌+◌, ◌-◌, String, ◌≡◌, refl, ap, inl, inr, true, false, not, ◌&&◌, List, [], ◌∷◌, map,
  arith, ◌==◌, eq_iff, eqb, if◌then◌else◌, Bool-cases, Option-cases, length, All, contains, Unique,
  IsFresh, done_after, Unique-IsFresh, Dict, lookup, remove, keys, has,
}
use testenv_vm.Api.{ResourceRef}
use testenv_vm.Dag.Invariant.{IsWellFormed}
use testenv_vm.Dag.{
  Dag, Node, Degrees, node_key, edges_of, initial_degrees, ready_keys, refs_of, lower, lower_all,
  place,
}

abbrev pub open_count : List String → List String → ℕ
open_count done [] = 0
open_count done (e ∷ es) = if contains done e then open_count done es else suc (open_count done es)

module _ (d : Dag) where
  unfoldable pub degrees_at : List String → List String → Degrees
  degrees_at done [] = []
  degrees_at done (k ∷ ks) =
      let rest = degrees_at done ks in
      if contains done k then rest else (k, open_count done (edges_of d k)) ∷ rest

  unfoldable pub ready : List String → List String → List String
  ready done [] = []
  ready done (k ∷ ks) =
      let rest = ready done ks in
      if not (contains done k) && eqb (open_count done (edges_of d k)) 0 then k ∷ rest else rest

open_count-nil : (es : List String) → open_count [] es ≡ length es
unfolding contains
open_count-nil [] = refl
open_count-nil (e ∷ es) = ap suc (open_count-nil es)

lower-open_count :
    (k : String) (done es : List String) (n m : ℕ)
    → contains done k ≡ false
    → m ≡ open_count done es + n
    → lower k es m ≡ open_count (k ∷ done) es + n
unfolding lower contains
lower-open_count k done [] n m h p = p
lower-open_count k done (e ∷ es) n m h p = elim (Bool-cases (e == k)) [
  | inl same ↦ ground (arith, eq_iff e k, eq_iff k e, lower-open_count k done es n (m - 1))
  | inr other ↦ elim (Bool-cases (contains done e)) [
    | inl was ↦ ground (arith, eq_iff e k, eq_iff k e, lower-open_count k done es n m)
    | inr new ↦ ground (arith, eq_iff e k, eq_iff k e, lower-open_count k done es (suc n) m)
  ]
]

pub initial_degrees-eq :
    (d : Dag) (nodes : Dict Node) → initial_degrees d nodes ≡ degrees_at d [] (keys nodes)
unfolding initial_degrees degrees_at contains keys
initial_degrees-eq d [] = refl
initial_degrees-eq d ((k, n) ∷ nodes) =
    ground (arith, open_count-nil (edges_of d k), initial_degrees-eq d nodes)

module _ (d : Dag) where
  -- Placing one key.
  place_one :
      (k : String) (done ks : List String)
      → contains done k ≡ false
      → lower_all d k (remove k (degrees_at d done ks)) ≡ degrees_at d (k ∷ done) ks
  unfolding lower_all remove degrees_at contains
  place_one k done [] h = refl
  place_one k done (j ∷ ks) h = ground (
    arith,
    eq_iff j k,
    eq_iff k j,
    place_one k done ks h,
    lower-open_count k done (edges_of d j) 0 (open_count done (edges_of d j)),
  )

  -- Placing a phase.
  pub place-degrees_at :
      (phase : List ResourceRef) (done ks : List String)
      → IsFresh done (map node_key phase)
      → place d phase (degrees_at d done ks)
        ≡ degrees_at d (done_after (map node_key phase) done) ks
  unfolding place
  place-degrees_at [] done ks h = refl
  place-degrees_at (r ∷ phase) done ks h =
      rw (place_one (node_key r) done ks h.0) (place-degrees_at phase (node_key r ∷ done) ks h.1)

  pub ready_keys-degrees_at :
      (done ks : List String) → ready_keys (degrees_at d done ks) ≡ ready d done ks
  unfolding ready_keys degrees_at ready
  ready_keys-degrees_at done [] = refl
  ready_keys-degrees_at done (k ∷ ks) = ground (arith, ready_keys-degrees_at done ks)

  pub contains-ready :
      (done ks : List String) (a : String)
      → contains (ready d done ks) a
        ≡ (contains ks a && (not (contains done a) && eqb (open_count done (edges_of d a)) 0))
  unfolding ready contains
  contains-ready done [] a = refl
  contains-ready done (k ∷ ks) a = elim (Bool-cases (k == a)) [
    | inl same ↦ rw (← (eq_iff k a).0 same) (ground (arith, contains-ready done ks k, eq_iff k k))
    | inr other ↦ ground (arith, contains-ready done ks a)
  ]

  ready-Unique : (done ks : List String) → Unique ks → Unique (ready d done ks)
  unfolding ready
  ready-Unique done [] u = tt
  ready-Unique done (k ∷ ks) u = ground (arith, contains-ready done ks k, ready-Unique done ks u.1)

  pub ready-IsFresh : (done ks : List String) → Unique ks → IsFresh done (ready d done ks)
  ready-IsFresh done ks u =
      Unique-IsFresh (ready d done ks) done (ready-Unique done ks u)
        (λ a m. ground (arith, contains-ready done ks a))

  -- The references of a list of nodes are those of its keys, in order.
  pub map-refs_of :
      IsWellFormed d
      → (ks : List String) → All (λ k. has k d.nodes ≡ true) ks
      → map node_key (refs_of d ks) ≡ ks
  unfolding refs_of
  map-refs_of w [] h = refl
  map-refs_of w (k ∷ ks) h = elim (Option-cases (lookup k d.nodes)) [
    | inl missing ↦ ground arith
    | inr (n, found) ↦ ground (arith, w.keyed k n found, map-refs_of w ks h.1)
  ]

-- How many keys are still to be placed.
pub length-degrees_at :
    (d : Dag) (nodes : Dict Node) → length (degrees_at d [] (keys nodes)) ≡ length nodes
unfolding degrees_at keys contains
length-degrees_at d [] = refl
length-degrees_at d (n ∷ nodes) = ap suc (length-degrees_at d nodes)
