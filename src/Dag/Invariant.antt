-- ===== src/Dag/Invariant.antt =====
-- dag.go: what `NewDAG`, `AddNode` and `AddEdge` keep.
use testenv_vm.Prelude.{
  String, ◌≡◌, refl, sym, subst, ◌⊎◌, inl, inr, true, false, none, some, List, [], ◌∷◌, ◌++◌, map,
  map-append, arith, ◌==◌, eq_iff, if◌then◌else◌, Bool-cases, Option-cases, contains,
  contains-append, Unique, Unique-snoc, Dict, lookup, insert, adjust, keys, has, lookup-insert,
  lookup-adjust, keys-adjust, keys-insert, contains-keys, ok,
}
use testenv_vm.Api.{ResourceRef}
use testenv_vm.Dag.{
  Dag, Node, node_key, new_dag, edges_of, add_node, add_edge, add_dependency, add_dependent,
}

-- What every graph built by `add_node` and `add_edge` satisfies.
pub record IsWellFormed (d : Dag) : Type 0 where
  pub unique : Unique (keys d.nodes)
  pub keyed : (k : String) (n : Node) → lookup k d.nodes ≡ some n → node_key n.ref ≡ k
  pub closed :
      (k e : String)
      → contains (edges_of d k) e ≡ true
      → (has k d.nodes ≡ true) × (has e d.nodes ≡ true)

-- The neighbours that a node lists are the edges of the graph, in both directions.
pub record IsMirrored (d : Dag) : Type 0 where
  pub forward :
      (k : String) (n : Node)
      → lookup k d.nodes ≡ some n
      → map node_key n.dependencies ≡ edges_of d k
  pub backward :
      (k : String) (n : Node) (e : String)
      → lookup k d.nodes ≡ some n
      → contains (map node_key n.dependents) e ≡ contains (edges_of d e) k

-- A new graph is well-formed.
pub new_dag-IsWellFormed : IsWellFormed new_dag
unfolding keys lookup edges_of contains
new_dag-IsWellFormed = record {
  unique = tt;
  keyed = λ k n e. absurd (cc);
  closed = λ k e m. absurd (cc);
}

-- Where the edges of a graph are looked up after a write.
edges_of-insert :
    (d : Dag) (nodes : Dict Node) (k j : String) (es : List String)
    → edges_of (record { nodes = nodes; edges = insert k es d.edges }) j
      ≡ (if k == j then es else edges_of d j)
unfolding edges_of
edges_of-insert d nodes k j es = ground (arith, lookup-insert k j es d.edges)

abbrev pub fresh_node : ResourceRef → Node
fresh_node ref = record { ref = ref; dependencies = []; dependents = [] }

pub add_node-IsWellFormed :
    (ref : ResourceRef) (d : Dag) → IsWellFormed d → IsWellFormed (add_node ref d)
unfolding add_node edges_of
add_node-IsWellFormed ref d w = elim (Bool-cases (has (node_key ref) d.nodes)) [
  | inl old ↦ rw old w
  | inr new ↦ rw new (record {
    unique = ground (
      arith,
      keys-insert (node_key ref) (fresh_node ref) d.nodes,
      Unique-snoc (keys d.nodes) (node_key ref) w.unique,
      contains-keys (node_key ref) d.nodes,
    );
    keyed = λ k n e. ground (
      arith,
      lookup-insert (node_key ref) k (fresh_node ref) d.nodes,
      w.keyed k n,
      eq_iff (node_key ref) k,
    );
    closed = λ k e m. ground (
      arith,
      w.closed k e m,
      lookup-insert (node_key ref) k (fresh_node ref) d.nodes,
      lookup-insert (node_key ref) e (fresh_node ref) d.nodes,
    );
  })
]

-- The graph that `add_edge` returns for a new edge.
abbrev pub linked : ResourceRef → ResourceRef → Dag → Dag
linked from to d = record {
  nodes =
      adjust (node_key to) (add_dependent from)
        (adjust (node_key from) (add_dependency to) d.nodes);
  edges = insert (node_key from) (edges_of d (node_key from) ++ node_key to ∷ []) d.edges;
}

pub add_edge_cases :
    (from to : ResourceRef) (d : Dag) {d' : Dag}
    → add_edge from to d ≡ ok d'
    → (contains (edges_of d (node_key from)) (node_key to) ≡ true) × (d' ≡ d)
      ⊎ (has (node_key from) d.nodes ≡ true)
        × (has (node_key to) d.nodes ≡ true)
        × (contains (edges_of d (node_key from)) (node_key to) ≡ false)
        × (d' ≡ linked from to d)
unfolding add_edge
add_edge_cases from to d h = ground arith

module _ (from to : ResourceRef) (d : Dag) where
  -- A node of the linked graph, and the node that it comes from.
  pub linked-lookup :
      (k : String)
      → lookup k (linked from to d).nodes ≡ elim (lookup k d.nodes) [
        | none ↦ none
        | some n ↦
            let n' = if node_key from == k then add_dependency to n else n in
            some (if node_key to == k then add_dependent from n' else n')
      ]
  linked-lookup k = ground (
    arith,
    lookup-adjust (node_key to) k (add_dependent from)
        (adjust (node_key from) (add_dependency to) d.nodes),
    lookup-adjust (node_key from) k (add_dependency to) d.nodes,
  )

  linked-found :
      (k : String) (n : Node)
      → lookup k (linked from to d).nodes ≡ some n
      → (m : Node) × (lookup k d.nodes ≡ some m)
        × (n.ref ≡ m.ref)
        × (n.dependencies
            ≡ (if node_key from == k then m.dependencies ++ to ∷ [] else m.dependencies))
        × (n.dependents ≡ (if node_key to == k then m.dependents ++ from ∷ [] else m.dependents))
  linked-found k n e = elim (Option-cases (lookup k d.nodes)) [
    | inl missing ↦ absurd (ground (arith, linked-lookup k))
    | inr (m, found) ↦ (
      m,
      found,
      ground (arith, linked-lookup k),
      ground (arith, linked-lookup k),
      ground (arith, linked-lookup k),
    )
  ]

  pub linked-edges_of :
      (k : String)
      → edges_of (linked from to d) k ≡ (
          if node_key from == k
          then edges_of d (node_key from) ++ node_key to ∷ []
          else edges_of d k)
  linked-edges_of k = edges_of-insert d _ (node_key from) k _

  pub linked-IsWellFormed :
      IsWellFormed d
      → has (node_key from) d.nodes ≡ true
      → has (node_key to) d.nodes ≡ true
      → IsWellFormed (linked from to d)
  unfolding contains
  linked-IsWellFormed w hf ht = record {
    unique = ground (
      arith,
      keys-adjust (node_key to) (add_dependent from)
          (adjust (node_key from) (add_dependency to) d.nodes),
      keys-adjust (node_key from) (add_dependency to) d.nodes,
      w.unique,
    );
    keyed = λ k n e.
        let (m, found, same, _, _) = linked-found k n e in ground (arith, w.keyed k m found);
    closed = λ k e m. ground (
      arith,
      linked-edges_of k,
      linked-lookup k,
      linked-lookup e,
      contains-append (edges_of d (node_key from)) (node_key to ∷ []) e,
      eq_iff (node_key from) k,
      eq_iff (node_key to) e,
      w.closed k e,
    );
  }

  pub linked-IsMirrored :
      IsMirrored d
      → contains (edges_of d (node_key from)) (node_key to) ≡ false
      → IsMirrored (linked from to d)
  unfolding contains
  linked-IsMirrored w new = record {
    forward = λ k n e.
        let (m, found, _, deps, _) = linked-found k n e in
        ground (
          arith,
          w.forward k m found,
          linked-edges_of k,
          eq_iff (node_key from) k,
          map-append node_key m.dependencies (to ∷ []),
        );
    backward = λ k n e h.
        let (m, found, _, _, deps) = linked-found k n h in
        ground (
          arith,
          w.backward k m e found,
          linked-edges_of e,
          eq_iff (node_key from) e,
          eq_iff (node_key to) k,
          map-append node_key m.dependents (from ∷ []),
          contains-append (map node_key m.dependents) (node_key from ∷ []) e,
          contains-append (edges_of d (node_key from)) (node_key to ∷ []) k,
        );
  }

-- What `BuildDAG` keeps at every step.
pub record IsDag (d : Dag) : Type 0 where
  pub formed : IsWellFormed d
  pub mirrored : IsMirrored d

pub new_dag-IsDag : IsDag new_dag
unfolding lookup edges_of contains
new_dag-IsDag = record {
  formed = new_dag-IsWellFormed;
  mirrored = record { forward = λ k n e. absurd (cc); backward = λ k n e h. absurd (cc) };
}

nil_of_contains : (es : List String) → ((e : String) → contains es e ≡ false) → es ≡ []
unfolding contains
nil_of_contains [] h = refl
nil_of_contains (e ∷ es) h = ground (arith, h e, eq_iff e e)

-- A key that is no node has no edges.
edges_of-nil : (d : Dag) (k : String) → IsWellFormed d → has k d.nodes ≡ false → edges_of d k ≡ []
edges_of-nil d k w new = nil_of_contains (edges_of d k) (λ e. ground (arith, w.closed k e))

add_node-IsMirrored : (ref : ResourceRef) (d : Dag) → IsDag d → IsMirrored (add_node ref d)
unfolding add_node edges_of contains
add_node-IsMirrored ref d w = elim (Bool-cases (has (node_key ref) d.nodes)) [
  | inl old ↦ rw old w.mirrored
  | inr new ↦ rw new (record {
    forward = λ k n e. ground (
      arith,
      w.mirrored.forward k n,
      lookup-insert (node_key ref) k (fresh_node ref) d.nodes,
      eq_iff (node_key ref) k,
      edges_of-nil d k w.formed,
    );
    backward = λ k n e h. ground (
      arith,
      w.mirrored.backward k n e,
      lookup-insert (node_key ref) k (fresh_node ref) d.nodes,
      eq_iff (node_key ref) k,
      w.formed.closed e k,
    );
  })
]

-- Adding a node keeps the graph well-formed and its neighbour lists in step with its edges.
pub add_node-IsDag : (ref : ResourceRef) (d : Dag) → IsDag d → IsDag (add_node ref d)
add_node-IsDag ref d w = record {
  formed = add_node-IsWellFormed ref d w.formed;
  mirrored = add_node-IsMirrored ref d w;
}

-- An edge that is added keeps the graph well-formed and its neighbour lists in step with its edges.
pub add_edge-IsDag :
    (from to : ResourceRef) (d : Dag) {d' : Dag} → IsDag d → add_edge from to d ≡ ok d' → IsDag d'
add_edge-IsDag from to d w h = elim (add_edge_cases from to d h) [
  | inl (_, same) ↦ subst IsDag (sym same) w
  | inr (hf, ht, new, e) ↦ subst IsDag (sym e) (record {
    formed = linked-IsWellFormed from to d w.formed hf ht;
    mirrored = linked-IsMirrored from to d w.mirrored new;
  })
]
