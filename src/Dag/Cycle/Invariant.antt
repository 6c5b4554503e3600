-- ===== src/Dag/Cycle/Invariant.antt =====
-- dag.go, `HasCycle`: what the marks say, and what a call may change.
use testenv_vm.Prelude.{
  ℕ, suc, ◌≤◌, ◌<◌, String, ◌≡◌, refl, ◌∙◌, ◌≢◌, true, List, [], ◌∷◌, arith, ◌==◌, eq_iff, eqb,
  if◌then◌else◌, length, contains, lookup, insert, lookup-insert,
}
use testenv_vm.Dag.{Dag, edges_of}
use testenv_vm.Dag.Cycle.{Marks, mark}

-- `a` depends on `b`, directly or through other nodes.
pub data Depends (d : Dag) : String → String → Type 0 where
  edge : {a b : String} → contains (edges_of d a) b ≡ true → Depends d a b
  via : {a b c : String} → contains (edges_of d a) b ≡ true → Depends d b c → Depends d a c

-- Some node depends on itself.
abbrev pub Cyclic : Dag → Type 0
Cyclic d = (k : String) × Depends d k k

pub Depends-snoc :
    (d : Dag) {a b c : String} → Depends d a b → contains (edges_of d b) c ≡ true → Depends d a c
Depends-snoc d (edge h) e = via h (edge e)
Depends-snoc d (via h p) e = via h (Depends-snoc d p e)

-- Each key of the list depends only on keys further down.
abbrev pub IsBacked : Dag → List String → Type 0
IsBacked d [] = Unit
IsBacked d (k ∷ ks) =
    ((e : String) → contains (edges_of d k) e ≡ true → contains ks e ≡ true) × IsBacked d ks

-- `order` lists the finished nodes, the last one first.
pub record IsMarked (d : Dag) (st : Marks) : Type 0 where
  pub order : List String
  pub small : (k : String) → mark st k ≤ 2
  pub finished : (k : String) → eqb (mark st k) 2 ≡ contains order k
  pub backed : IsBacked d order

-- A call that returns leaves the path as it was, and only marks more.
pub record Advances (st st' : Marks) : Type 0 where
  pub same_path : (k : String) → eqb (mark st' k) 1 ≡ eqb (mark st k) 1
  pub fewer : (k : String) → mark st' k ≡ 0 → mark st k ≡ 0
  pub older : (k : String) → mark st k ≡ 2 → mark st' k ≡ 2

pub Advances-refl : (st : Marks) → Advances st st
Advances-refl st = record { same_path = λ k. refl; fewer = λ k h. h; older = λ k h. h }

pub Advances-trans : {s t u : Marks} → Advances s t → Advances t u → Advances s u
Advances-trans a b = record {
  same_path = λ k. b.same_path k ∙ a.same_path k;
  fewer = λ k h. a.fewer k (b.fewer k h);
  older = λ k h. b.older k (a.older k h);
}

pub mark-insert :
    (k j : String) (n : ℕ) (st : Marks) → mark (insert k n st) j ≡ (if k == j then n else mark st j)
unfolding mark
mark-insert k j n st = ground (arith, lookup-insert k j n st)

pub mark-nil : (k : String) → mark [] k ≡ 0
unfolding mark lookup
mark-nil k = refl

-- The nodes that no call has reached.
abbrev pub unvisited : Marks → List String → ℕ
unvisited st [] = 0
unvisited st (k ∷ ks) = if eqb (mark st k) 0 then suc (unvisited st ks) else unvisited st ks

pub unvisited-le :
    (st st' : Marks) (ks : List String)
    → ((k : String) → mark st' k ≡ 0 → mark st k ≡ 0)
    → unvisited st' ks ≤ unvisited st ks
unvisited-le st st' [] h = omega arith
unvisited-le st st' (k ∷ ks) h = ground (arith, h k, unvisited-le st st' ks h)

pub unvisited-insert :
    (st : Marks) (k : String) (n : ℕ) (ks : List String)
    → n ≢ 0
    → mark st k ≡ 0
    → contains ks k ≡ true
    → unvisited (insert k n st) ks < unvisited st ks
unfolding contains
unvisited-insert st k n [] nz h m = cc
unvisited-insert st k n (j ∷ ks) nz h m = ground (
  arith,
  eq_iff j k,
  eq_iff k j,
  mark-insert k j n st,
  unvisited-insert st k n ks nz h,
  unvisited-le st (insert k n st) ks (λ i. ground (arith, mark-insert k i n st)),
)

pub unvisited-length : (st : Marks) (ks : List String) → unvisited st ks ≤ length ks
unvisited-length st [] = omega arith
unvisited-length st (k ∷ ks) = ground (arith, unvisited-length st ks)

-- A key on the path, then the same key finished.
module _ (d : Dag) (st : Marks) (k : String) where
  pub start-IsMarked : mark st k ≡ 0 → IsMarked d st → IsMarked d (insert k 1 st)
  start-IsMarked z w = record {
    order = w.order;
    small = λ j. ground (arith, mark-insert k j 1 st, w.small j);
    finished = λ j. ground (arith, mark-insert k j 1 st, w.finished j, eq_iff k j);
    backed = w.backed;
  }

  pub finish-IsMarked :
      (w : IsMarked d st)
      → ((e : String) → contains (edges_of d k) e ≡ true → mark st e ≡ 2)
      → IsMarked d (insert k 2 st)
  unfolding contains
  finish-IsMarked w done = record {
    order = k ∷ w.order;
    small = λ j. ground (arith, mark-insert k j 2 st, w.small j);
    finished = λ j. ground (arith, mark-insert k j 2 st, w.finished j);
    backed = (λ e m. ground (arith, done e m, w.finished e), w.backed);
  }

pub visit-Advances :
    (st st' : Marks) (k : String)
    → mark st k ≡ 0
    → Advances (insert k 1 st) st'
    → Advances st (insert k 2 st')
visit-Advances st st' k z a = record {
  same_path =
      λ j. ground (arith, mark-insert k j 1 st, mark-insert k j 2 st', a.same_path j, eq_iff k j);
  fewer = λ j. ground (arith, mark-insert k j 1 st, mark-insert k j 2 st', a.fewer j, eq_iff k j);
  older = λ j. ground (arith, mark-insert k j 1 st, mark-insert k j 2 st', a.older j, eq_iff k j);
}
