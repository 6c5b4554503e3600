-- ===== src/Dag/Build/References.antt =====
-- dag.go, `BuildDAG`: the references that it accepts.
use testenv_vm.Prelude.{
  ◌≡◌, sym, ◌∙◌, ◌⊎◌, inl, inr, true, false, [], ◌∷◌, map, arith, ◌==◌, eq_iff, Bool-cases, All,
  All-map, is_empty, contains, is_empty-nil, ok,
}
use testenv_vm.Api.{ResourceRef, Spec, NetworkResource}
use testenv_vm.Dag.{Dag, node_key}
use testenv_vm.Spec.Texts.{vm_resource_texts}
use testenv_vm.Spec.Template.{extract_template_refs}
use testenv_vm.Dag.Build.{resource_refs, build_dag, vm_ref, network_ref, literal_network}
use testenv_vm.Dag.Build.Edges.{HasEdge, HasVm, HasNetwork}
use testenv_vm.Dag.Build.Correct.{build_dag_correct, build_dag-nodes}

-- The reference is to a resource of the specification, by its own name.
abbrev pub IsDeclared : Spec → ResourceRef → Type 0
IsDeclared spec ref = contains (map node_key (resource_refs spec)) (node_key ref) ≡ true

module _ (spec : Spec) (d : Dag) (built : build_dag spec ≡ ok d) where
  HasEdge-IsDeclared : (from to : ResourceRef) → HasEdge d from to → IsDeclared spec to
  HasEdge-IsDeclared from to h =
      let (w, _, _) = build_dag_correct spec d built in
      let (_, target) = w.formed.closed (node_key from) (node_key to) h in
      sym (build_dag-nodes spec d built (node_key to)) ∙ target

  -- Every template reference of a VM is to a resource of the specification by its own name: for an
  -- image, its alias is not accepted.
  pub build_dag-IsDeclared :
      All (λ vm. All (IsDeclared spec) (extract_template_refs (vm_resource_texts vm))) spec.vms
  build_dag-IsDeclared =
      let (_, _, held) = build_dag_correct spec d built in
      All-map (λ vm. HasVm vm d)
        (λ vm. All (IsDeclared spec) (extract_template_refs (vm_resource_texts vm)))
        (λ vm has.
          All-map (HasEdge d (vm_ref vm)) (IsDeclared spec) (HasEdge-IsDeclared (vm_ref vm))
            (extract_template_refs (vm_resource_texts vm)) has.0)
        spec.vms held.of_vms

  -- An `attachTo` that is not empty holds a template reference to a resource, or is itself the name of
  -- a network of the specification. A template over the environment alone is neither.
  pub build_dag-attach_to :
      All
        (λ (n : NetworkResource).
          (n.spec.attach_to ≡ "")
          ⊎ (is_empty (extract_template_refs (n.spec.attach_to ∷ [])) ≡ false)
          ⊎ IsDeclared spec (literal_network n.spec.attach_to))
        spec.networks
  build_dag-attach_to =
      let (_, _, held) = build_dag_correct spec d built in
      All-map (λ n. HasNetwork n d)
        (λ (n : NetworkResource).
          (n.spec.attach_to ≡ "")
          ⊎ (is_empty (extract_template_refs (n.spec.attach_to ∷ [])) ≡ false)
          ⊎ IsDeclared spec (literal_network n.spec.attach_to))
        (λ n has. elim (Bool-cases (n.spec.attach_to == "")) [
          | inl empty ↦ inl ((eq_iff n.spec.attach_to "").0 empty)
          | inr named ↦
              elim (Bool-cases (is_empty (extract_template_refs (n.spec.attach_to ∷ [])))) [
                | inr templated ↦ inr (inl templated)
                | inl literal ↦ inr (
                    inr (
                      HasEdge-IsDeclared (network_ref n) (literal_network n.spec.attach_to) (
                        has.1 (λ e. ground (arith, eq_iff n.spec.attach_to ""))
                          (is_empty-nil (extract_template_refs (n.spec.attach_to ∷ [])) literal))))
              ]
        ])
        spec.networks held.of_networks
