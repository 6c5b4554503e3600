-- ===== src/Dag/Reach/Correct.antt =====
-- dag.go, `DependsOn`: the search ends, and it finds exactly what a node depends on.
use testenv_vm.Dag.Reach.{push_all, go_on, walk, depends_on}
use testenv_vm.Dag.{Dag, node_key, edges_of, count_edges, edge_count}
use testenv_vm.Prelude.{
  ℕ, zero, suc, ◌+◌, ◌≤◌, String, ◌≡◌, refl, sym, subst, ◌↔◌, ◌⊎◌, inl, inr, Bool, true, false,
  ◌||◌, Option, none, some, List, [], ◌∷◌, ◌++◌, arith, ◌==◌, eq_iff, if◌then◌else◌, Bool-cases,
  length, length-append, contains, contains-append, Dict, lookup, has,
}
use testenv_vm.Api.{ResourceRef}
use testenv_vm.Dag.Invariant.{IsWellFormed}
use testenv_vm.Dag.Cycle.Invariant.{Depends, edge, via, Depends-snoc}

push_all-none :
    (v : List String) (to : String) (es q : List String)
    → push_all v to es q ≡ none
    → contains es to ≡ true
unfolding push_all contains
push_all-none v to [] q h = absurd (cc)
push_all-none v to (e ∷ es) q h =
    ground (arith, push_all-none v to es (if contains v e then q else q ++ e ∷ []))

-- What the queue holds when no dependency is the target.
record Pushes (v : List String) (to : String) (es q q' : List String) : Type 0 where
  missed : contains es to ≡ false
  held :
      (e : String)
      → contains q' e
        ≡ (if contains q e then true else if contains v e then false else contains es e)
  bounded : length q' ≤ length q + length es

push_all-some :
    (v : List String) (to : String) (es q q' : List String)
    → push_all v to es q ≡ some q'
    → Pushes v to es q q'
unfolding push_all contains
push_all-some v to [] q q' h = record {
  missed = refl;
  held = λ e. ground (arith, h);
  bounded = ground (arith, h);
}
push_all-some v to (e ∷ es) q q' h =
    let old =
      push_all-some v to es (if contains v e then q else q ++ e ∷ []) q' (ground (arith, h)) in
    record {
      missed = ground (arith, old.missed, h);
      held = λ k. ground (arith, old.held k, contains-append q (e ∷ []) k, eq_iff e k);
      bounded = ground (arith, old.bounded, length-append q (e ∷ []));
    }

-- The edges of the keys that are not visited.
abbrev open_edges : List String → Dict (List String) → ℕ
open_edges v [] = 0
open_edges v ((k, es) ∷ m) = if contains v k then open_edges v m else length es + open_edges v m

open_edges-nil : (m : Dict (List String)) → open_edges [] m ≡ count_edges m
unfolding contains count_edges
open_edges-nil [] = refl
open_edges-nil ((k, es) ∷ m) = omega (arith, open_edges-nil m)

open_edges-visit :
    (v : List String) (k : String) (m : Dict (List String)) → open_edges (k ∷ v) m ≤ open_edges v m
unfolding contains
open_edges-visit v k [] = omega arith
open_edges-visit v k ((i, es) ∷ m) = ground (arith, open_edges-visit v k m)

open_edges-edges :
    (v : List String) (k : String) (m : Dict (List String))
    → contains v k ≡ false
    → length (elim (lookup k m) [ none ↦ [] | some es ↦ es ]) + open_edges (k ∷ v) m
      ≤ open_edges v m
unfolding contains lookup
open_edges-edges v k [] n = omega arith
open_edges-edges v k ((i, es) ∷ m) n =
    ground (arith, open_edges-edges v k m n, open_edges-visit v k m, eq_iff i k, eq_iff k i)

-- Nothing that the keys depend on is missing, and none of it is the target.
abbrev Saturates : Dag → String → List String → List String → Type 0
Saturates d to v q =
    (k e : String)
    → contains v k ≡ true
    → contains (edges_of d k) e ≡ true
    → ((contains v e || contains q e) ≡ true) × ((e == to) ≡ false)

Saturates-unreachable :
    (d : Dag) (v : List String) {k to : String}
    → Saturates d to v []
    → contains v k ≡ true
    → ¬ Depends d k to
unfolding contains
Saturates-unreachable d v {k} {to} s m (edge h) = absurd (ground (arith, s k to m h, eq_iff to to))
Saturates-unreachable d v {k} {to} s m (via {b} h p) =
    Saturates-unreachable d v s (ground (arith, s k b m h)) p

-- What an answer of the search from a key says.
abbrev Answers : Dag → String → String → Option Bool → Type 0
Answers d from to none = ⊥
Answers d from to (some true) = Depends d from to
Answers d from to (some false) = ¬ Depends d from to

record IsSearching (d : Dag) (from to : String) (v q : List String) : Type 0 where
  started : (contains v from || contains q from) ≡ true
  reached : (k : String) → contains q k ≡ true → (k ≡ from) ⊎ Depends d from k
  saturated : Saturates d to v q

Depends-next :
    (d : Dag) {from k e : String}
    → (k ≡ from) ⊎ Depends d from k
    → contains (edges_of d k) e ≡ true
    → Depends d from e
Depends-next d {e = e} (inl p) h = edge (subst (λ k. contains (edges_of d k) e ≡ true) p h)
Depends-next d (inr p) h = Depends-snoc d p h

IsSearching-skip :
    (d : Dag) (from to k : String) (v q : List String)
    → IsSearching d from to v (k ∷ q)
    → contains v k ≡ true
    → IsSearching d from to v q
unfolding contains
IsSearching-skip d from to k v q s old = record {
  started = ground (arith, s.started, eq_iff k from);
  reached = λ e m. s.reached e (ground arith);
  saturated = λ j e m h. ground (arith, s.saturated j e m h, eq_iff k e);
}

-- Where the search stands after a visit that has not met the target.
IsSearching-visit :
    (d : Dag) (from to k : String) (v q q' : List String)
    → IsSearching d from to v (k ∷ q)
    → Pushes (k ∷ v) to (edges_of d k) q q'
    → IsSearching d from to (k ∷ v) q'
unfolding contains
IsSearching-visit d from to k v q q' s p = record {
  started = ground (arith, s.started, p.held from, eq_iff k from);
  reached = λ e m. elim (Bool-cases (contains q e)) [
    | inl old ↦ s.reached e (ground (arith, old))
    | inr new ↦ inr (
        Depends-next d (s.reached k (ground (arith, eq_iff k k)))
          (ground (arith, m, new, p.held e)))
  ];
  saturated = λ j e m h. elim (Bool-cases (k == j)) [
    | inl same ↦
        let at_k = subst (λ i. contains (edges_of d i) e ≡ true) (sym ((eq_iff k j).0 same)) h in
        ground (arith, at_k, p.missed, p.held e, eq_iff e to)
    | inr other ↦ ground (arith, other, m, s.saturated j e, h, p.held e, eq_iff k e)
  ];
}

module _ (d : Dag) (from to : String) (fuel : ℕ)
    (go : (v q : List String)
      → IsSearching d from to v q
      → length q + open_edges v d.edges ≤ fuel
      → Answers d from to (walk d to fuel v q)) where
  visit_lem :
      (k : String) (v q : List String) (next : Option (List String))
      → IsSearching d from to v (k ∷ q)
      → contains v k ≡ false
      → suc (length q + open_edges v d.edges) ≤ suc fuel
      → push_all (k ∷ v) to (edges_of d k) q ≡ next
      → Answers d from to (go_on (walk d to fuel (k ∷ v)) next)
  unfolding contains edges_of
  visit_lem k v q none s new b h =
      Depends-next d (s.reached k (ground (arith, eq_iff k k)))
        (push_all-none (k ∷ v) to (edges_of d k) q h)
  visit_lem k v q (some q') s new b h =
      let p = push_all-some (k ∷ v) to (edges_of d k) q q' h in
      go (k ∷ v) q' (IsSearching-visit d from to k v q q' s p)
        (omega (arith, p.bounded, open_edges-edges v k d.edges new))

walk_lem :
    (d : Dag) (from to : String) (fuel : ℕ) (v q : List String)
    → IsSearching d from to v q
    → length q + open_edges v d.edges ≤ fuel
    → Answers d from to (walk d to fuel v q)
unfolding walk contains
walk_lem d from to zero v [] s b = Saturates-unreachable d v s.saturated (ground (arith, s.started))
walk_lem d from to (suc fuel) v [] s b =
    Saturates-unreachable d v s.saturated (ground (arith, s.started))
walk_lem d from to zero v (k ∷ q) s b = absurd (omega arith)
walk_lem d from to (suc fuel) v (k ∷ q) s b = elim (Bool-cases (contains v k)) [
  | inl old ↦
      rw old (walk_lem d from to fuel v q (IsSearching-skip d from to k v q s old) (omega arith))
  | inr new ↦ rw new (
      visit_lem d from to fuel (walk_lem d from to fuel) k v q
        (push_all (k ∷ v) to (edges_of d k) q) s new (omega arith) refl)
]

Answers-decided :
    (d : Dag) (from to : String) (answer : Option Bool)
    → Answers d from to answer
    → (b : Bool) × (answer ≡ some b) × ((b ≡ true) ↔ Depends d from to)
Answers-decided d from to none a = absurd a
Answers-decided d from to (some true) a = (true, refl, ((λ e. a), (λ p. refl)))
Answers-decided d from to (some false) a = (false, refl, ((λ e. absurd (cc)), (λ p. absurd (a p))))

-- The search starts at its first key alone.
IsSearching-start : (d : Dag) (from to : String) → IsSearching d from to [] (from ∷ [])
unfolding contains
IsSearching-start d from to = record {
  started = ground (arith, eq_iff from from);
  reached = λ k m. inl (ground (arith, m, eq_iff from k));
  saturated = λ k e m h. absurd (cc);
}

Depends-has :
    (d : Dag)
    → IsWellFormed d
    → {a b : String} → Depends d a b
    → (has a d.nodes ≡ true) × (has b d.nodes ≡ true)
Depends-has d w {a} {b} (edge h) = w.closed a b h
Depends-has d w {a} (via {b = b} h p) = ((w.closed a b h).0, (Depends-has d w p).1)

depends_on-Answers :
    (from to : ResourceRef) (d : Dag)
    → IsWellFormed d
    → Answers d (node_key from) (node_key to) (depends_on from to d)
unfolding depends_on edge_count
depends_on-Answers from to d w = elim (Bool-cases (has (node_key from) d.nodes)) [
  | inr absent ↦ rw absent (λ p. absurd (ground (arith, Depends-has d w p)))
  | inl present ↦ rw present (elim (Bool-cases (has (node_key to) d.nodes)) [
    | inr absent ↦ rw absent (λ p. absurd (ground (arith, Depends-has d w p)))
    | inl known ↦ rw known (
        walk_lem d (node_key from) (node_key to) (suc (count_edges d.edges)) [] (node_key from ∷ [])
          (IsSearching-start d (node_key from) (node_key to))
          (omega (arith, open_edges-nil d.edges)))
  ])
]

-- In a well-formed graph `DependsOn` ends, and it returns true exactly when the first resource
-- depends on the second, directly or through other nodes.
pub depends_on_correct :
    (from to : ResourceRef) (d : Dag)
    → IsWellFormed d
    → (b : Bool) × (depends_on from to d ≡ some b)
      × ((b ≡ true) ↔ Depends d (node_key from) (node_key to))
depends_on_correct from to d w =
    Answers-decided d (node_key from) (node_key to) (depends_on from to d)
      (depends_on-Answers from to d w)
