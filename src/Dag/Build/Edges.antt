-- ===== src/Dag/Build/Edges.antt =====
-- dag.go, `BuildDAG`: what the graph of a specification holds.
use testenv_vm.Prelude.{
  String, ◌≡◌, refl, sym, ◌∙◌, subst, ◌≢◌, inl, inr, true, false, List, [], ◌∷◌, arith, ◌==◌,
  eq_iff, Bool-cases, All, All-map, is_empty, contains, contains-append, has, Result, ◌>>=◌,
  >>=-eq-ok, ok, err,
}
use testenv_vm.Api.{ResourceRef, KeyResource, NetworkResource, VmResource}
use testenv_vm.Dag.{Dag, DagError, node_key, add_edge, edges_of}
use testenv_vm.Dag.Invariant.{
  linked-IsMirrored, linked-IsWellFormed, IsDag, add_edge_cases, linked, linked-lookup,
  linked-edges_of,
}
use testenv_vm.Spec.Texts.{key_resource_texts, network_resource_texts, vm_resource_texts}
use testenv_vm.Spec.Template.{extract_template_refs}
use testenv_vm.Dag.Build.{
  BuildError, edge_failed, attach_to_failed, network_edge_failed, key_ref, network_ref, vm_ref,
  literal_network, wrap_edge, add_edges, add_named, add_all_named, network_names, key_edges,
  network_edges, vm_edges, each,
}

-- `from` depends on `to` in the graph.
abbrev pub HasEdge : Dag → ResourceRef → ResourceRef → Type 0
HasEdge d from to = contains (edges_of d (node_key from)) (node_key to) ≡ true

-- A step that adds edges only.
pub record Grows (d d' : Dag) : Type 0 where
  pub kept : IsDag d → IsDag d'
  pub nodes : (k : String) → has k d'.nodes ≡ has k d.nodes
  pub edges : (k e : String) → contains (edges_of d k) e ≡ true → contains (edges_of d' k) e ≡ true

Grows-refl : (d : Dag) → Grows d d
Grows-refl d = record { kept = λ w. w; nodes = λ k. refl; edges = λ k e h. h }

Grows-trans : {a b c : Dag} → Grows a b → Grows b c → Grows a c
Grows-trans f g = record {
  kept = λ w. g.kept (f.kept w);
  nodes = λ k. g.nodes k ∙ f.nodes k;
  edges = λ k e h. g.edges k e (f.edges k e h);
}

-- A step that adds edges, and ensures `P` of the graph that it returns.
abbrev pub Ensures : Dag → Result BuildError Dag → (Dag → Type 0) → Type 0
Ensures d r P = (d' : Dag) → r ≡ ok d' → Grows d d' × P d'

-- More edges do no harm.
abbrev pub IsStable : (Dag → Type 0) → Type 0
IsStable P = (d d' : Dag) → Grows d d' → P d → P d'

Ensures-ok : (d : Dag) (P : Dag → Type 0) → P d → Ensures d (ok d) P
Ensures-ok d P p d' h = subst (λ e. Grows d e × P e) (cc) (Grows-refl d, p)

pub Ensures-bind :
    (d : Dag) (r : Result BuildError Dag) (f : Dag → Result BuildError Dag) (P Q : Dag → Type 0)
    → IsStable P
    → Ensures d r P
    → ((d' : Dag) → Ensures d' (f d') Q)
    → Ensures d (r >>= f) (λ e. P e × Q e)
Ensures-bind d r f P Q stable hr hf d'' h =
    let (d', first, second) = >>=-eq-ok r f h in
    let (g, p) = hr d' first in
    let (g', q) = hf d' d'' second in (Grows-trans g g', (stable d' d'' g' p, q))

module _ (from to : ResourceRef) (d : Dag) where
  linked-Grows :
      has (node_key from) d.nodes ≡ true
      → has (node_key to) d.nodes ≡ true
      → contains (edges_of d (node_key from)) (node_key to) ≡ false
      → Grows d (linked from to d)
  linked-Grows hf ht new = record {
    kept = λ w. record {
      formed = linked-IsWellFormed from to d w.formed hf ht;
      mirrored = linked-IsMirrored from to d w.mirrored new;
    };
    nodes = λ k. ground (arith, linked-lookup from to d k);
    edges = λ k e h. ground (
      arith,
      linked-edges_of from to d k,
      eq_iff (node_key from) k,
      contains-append (edges_of d (node_key from)) (node_key to ∷ []) e,
    );
  }

  linked-HasEdge : HasEdge (linked from to d) from to
  unfolding contains
  linked-HasEdge = ground (
    arith,
    linked-edges_of from to d (node_key from),
    eq_iff (node_key from) (node_key from),
    eq_iff (node_key to) (node_key to),
    contains-append (edges_of d (node_key from)) (node_key to ∷ []) (node_key to),
  )

  add_edge-Ensures :
      (wrap : DagError → BuildError)
      → Ensures d (wrap_edge wrap (add_edge from to d)) (λ e. HasEdge e from to)
  add_edge-Ensures wrap d' h =
      elim (add_edge_cases from to d (wrap_edge-eq-ok (add_edge from to d) h)) [
        | inl (old, same) ↦
            subst (λ e. Grows d e × HasEdge e from to) (sym same) (Grows-refl d, old)
        | inr (hf, ht, new, same) ↦
            subst (λ e. Grows d e × HasEdge e from to) (sym same)
              (linked-Grows hf ht new, linked-HasEdge)
      ]
    where
      wrap_edge-eq-ok : (r : Result DagError Dag) → wrap_edge wrap r ≡ ok d' → r ≡ ok d'
      wrap_edge-eq-ok (ok e) p = cc
      wrap_edge-eq-ok (err e) p = cc

HasEdge-IsStable : (from to : ResourceRef) → IsStable (λ d. HasEdge d from to)
HasEdge-IsStable from to d d' g h = g.edges (node_key from) (node_key to) h

abbrev pub HasEdges : Dag → ResourceRef → List ResourceRef → Type 0
HasEdges d from deps = All (HasEdge d from) deps

pub All-IsStable :
    {A : Type 0} (P : A → Dag → Type 0) (xs : List A)
    → ((x : A) → IsStable (P x))
    → IsStable (λ d. All (λ x. P x d) xs)
All-IsStable P xs stable d d' g h =
    All-map (λ x. P x d) (λ x. P x d') (λ x p. stable x d d' g p) xs h

-- A `for` loop over resources.
pub each_rule :
    {A : Type 0} (edges : A → Dag → Result BuildError Dag) (P : A → Dag → Type 0)
    → ((x : A) → IsStable (P x))
    → ((x : A) (d : Dag) → Ensures d (edges x d) (P x))
    → (xs : List A) (d : Dag) → Ensures d (each edges xs d) (λ e. All (λ x. P x e) xs)
unfolding each
each_rule edges P stable step [] d = Ensures-ok d (λ e. Unit) tt
each_rule edges P stable step (x ∷ xs) d =
    Ensures-bind d (edges x d) (each edges xs) (P x) (λ e. All (λ y. P y e) xs) (stable x)
      (step x d) (each_rule edges P stable step xs)

add_edges_rule :
    (wrap : DagError → BuildError) (from : ResourceRef) (deps : List ResourceRef) (d : Dag)
    → Ensures d (add_edges wrap from deps d) (λ e. HasEdges e from deps)
unfolding add_edges
add_edges_rule wrap from [] d = Ensures-ok d (λ e. Unit) tt
add_edges_rule wrap from (dep ∷ deps) d =
    Ensures-bind d (wrap_edge wrap (add_edge from dep d)) (add_edges wrap from deps)
      (λ e. HasEdge e from dep) (λ e. HasEdges e from deps) (HasEdge-IsStable from dep)
      (add_edge-Ensures from dep d wrap) (add_edges_rule wrap from deps)

-- A literal network name is an edge.
abbrev pub HasNamed : Dag → ResourceRef → String → Type 0
HasNamed d from name =
    name ≢ "" → extract_template_refs (name ∷ []) ≡ [] → HasEdge d from (literal_network name)

HasNamed-IsStable : (from : ResourceRef) (name : String) → IsStable (λ d. HasNamed d from name)
HasNamed-IsStable from name d d' g h some_name literal =
    HasEdge-IsStable from (literal_network name) d d' g (h some_name literal)

add_named_rule :
    (wrap : DagError → BuildError) (from : ResourceRef) (name : String) (d : Dag)
    → Ensures d (add_named wrap from name d) (λ e. HasNamed e from name)
unfolding add_named
add_named_rule wrap from name d = elim (Bool-cases (name == "")) [
  | inl empty ↦
      rw empty
        (Ensures-ok d (λ e. HasNamed e from name) (λ n _. absurd (n ((eq_iff name "").0 empty))))
  | inr some_name ↦ elim (Bool-cases (is_empty (extract_template_refs (name ∷ [])))) [
    | inl literal ↦
        rw (some_name, literal)
          (λ d' h.
            let (g, e) = add_edge-Ensures from (literal_network name) d wrap d' h in (g, λ _ _. e))
    | inr templated ↦
        rw (some_name, templated)
          (Ensures-ok d (λ e. HasNamed e from name) (λ _ none. absurd (ground arith)))
  ]
]

add_all_named_rule :
    (wrap : DagError → BuildError) (from : ResourceRef) (names : List String) (d : Dag)
    → Ensures d (add_all_named wrap from names d) (λ e. All (HasNamed e from) names)
unfolding add_all_named
add_all_named_rule wrap from [] d = Ensures-ok d (λ e. Unit) tt
add_all_named_rule wrap from (name ∷ names) d =
    Ensures-bind d (add_named wrap from name d) (add_all_named wrap from names)
      (λ e. HasNamed e from name) (λ e. All (HasNamed e from) names) (HasNamed-IsStable from name)
      (add_named_rule wrap from name d) (add_all_named_rule wrap from names)

-- What each resource asks of the graph.
abbrev pub HasKey : KeyResource → Dag → Type 0
HasKey key d = HasEdges d (key_ref key) (extract_template_refs (key_resource_texts key))

abbrev pub HasNetwork : NetworkResource → Dag → Type 0
HasNetwork network d =
    HasEdges d (network_ref network) (extract_template_refs (network_resource_texts network))
    × HasNamed d (network_ref network) network.spec.attach_to

abbrev pub HasVm : VmResource → Dag → Type 0
HasVm vm d =
    HasEdges d (vm_ref vm) (extract_template_refs (vm_resource_texts vm))
    × All (HasNamed d (vm_ref vm)) (network_names vm.spec)

pub HasEdges-IsStable :
    (from : ResourceRef) (deps : List ResourceRef) → IsStable (λ d. HasEdges d from deps)
HasEdges-IsStable from deps = All-IsStable (λ to d. HasEdge d from to) deps (HasEdge-IsStable from)

pub HasNetwork-IsStable : (network : NetworkResource) → IsStable (HasNetwork network)
HasNetwork-IsStable network d d' g (edges, named) = (
  HasEdges-IsStable (network_ref network) (extract_template_refs (network_resource_texts network)) d
      d' g edges,
  HasNamed-IsStable (network_ref network) network.spec.attach_to d d' g named,
)

pub HasVm-IsStable : (vm : VmResource) → IsStable (HasVm vm)
HasVm-IsStable vm d d' g (edges, named) = (
  HasEdges-IsStable (vm_ref vm) (extract_template_refs (vm_resource_texts vm)) d d' g edges,
  All-IsStable (λ name e. HasNamed e (vm_ref vm) name) (network_names vm.spec)
      (HasNamed-IsStable (vm_ref vm)) d d' g named,
)

pub key_edges_rule : (key : KeyResource) (d : Dag) → Ensures d (key_edges key d) (HasKey key)
unfolding key_edges
key_edges_rule key d =
    add_edges_rule (edge_failed "key" key.name) (key_ref key)
      (extract_template_refs (key_resource_texts key)) d

pub network_edges_rule :
    (network : NetworkResource) (d : Dag) → Ensures d (network_edges network d) (HasNetwork network)
unfolding network_edges
network_edges_rule network d =
    let deps = extract_template_refs (network_resource_texts network) in
    Ensures-bind d (add_edges (edge_failed "network" network.name) (network_ref network) deps d)
      (add_named (attach_to_failed network.name) (network_ref network) network.spec.attach_to)
      (λ e. HasEdges e (network_ref network) deps)
      (λ e. HasNamed e (network_ref network) network.spec.attach_to)
      (HasEdges-IsStable (network_ref network) deps)
      (add_edges_rule (edge_failed "network" network.name) (network_ref network) deps d)
      (add_named_rule (attach_to_failed network.name) (network_ref network) network.spec.attach_to)

pub vm_edges_rule : (vm : VmResource) (d : Dag) → Ensures d (vm_edges vm d) (HasVm vm)
unfolding vm_edges
vm_edges_rule vm d =
    let deps = extract_template_refs (vm_resource_texts vm) in
    Ensures-bind d (add_edges (edge_failed "vm" vm.name) (vm_ref vm) deps d)
      (add_all_named (network_edge_failed vm.name) (vm_ref vm) (network_names vm.spec))
      (λ e. HasEdges e (vm_ref vm) deps) (λ e. All (HasNamed e (vm_ref vm)) (network_names vm.spec))
      (HasEdges-IsStable (vm_ref vm) deps)
      (add_edges_rule (edge_failed "vm" vm.name) (vm_ref vm) deps d)
      (add_all_named_rule (network_edge_failed vm.name) (vm_ref vm) (network_names vm.spec))
