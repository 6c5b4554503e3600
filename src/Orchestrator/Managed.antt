-- ===== src/Orchestrator/Managed.antt =====
-- pkg/orchestrator/orchestrator.go, `buildArtifact`: the resources that the artifact lists.
use testenv_vm.Orchestrator.Artifact.{
  TestEnvArtifact, Texts, set_env, set_file, manage, with_text, named, key_state_entries,
  network_state_entries, vm_state_entries, resource_entries, add_resources, empty_artifact,
  build_artifact,
}
use testenv_vm.Executor.Resources.{get_string}
use testenv_vm.Executor.Isolation.{IsolationConfig}
use testenv_vm.Api.{Fields, ResourceState, EnvironmentState}
use testenv_vm.Prelude.{
  String, ◌≡◌, refl, subst, inl, inr, true, Option, none, some, [], ◌∷◌, arith, ◌==◌, eq_iff,
  eq_refl, Bool-cases, contains, contains-append, Dict, lookup, has,
}

unfoldable pub Lists : TestEnvArtifact → String → Type 0
Lists a name = contains a.managed_resources name ≡ true

-- What only adds to the list of resources.
unfoldable Keeps : (TestEnvArtifact → TestEnvArtifact) → Type 0
Keeps f = (a : TestEnvArtifact) (name : String) → Lists a name → Lists (f a) name

Keeps-Lists :
    (f : TestEnvArtifact → TestEnvArtifact) (a : TestEnvArtifact) (name : String)
    → Keeps f
    → Lists a name
    → Lists (f a) name
unfolding Keeps
Keeps-Lists f a name keeps listed = keeps a name listed

same-Keeps :
    (f : TestEnvArtifact → TestEnvArtifact)
    → ((a : TestEnvArtifact) → (f a).managed_resources ≡ a.managed_resources)
    → Keeps f
unfolding Keeps Lists
same-Keeps f same a name listed = rw (same a) listed

module _ (texts : Texts) where
  manage-Keeps : (added : String) → Keeps (manage texts added)
  unfolding Keeps Lists
  manage-Keeps added a name h =
      ground (arith, contains-append a.managed_resources (added ∷ []) name)

  manage-Lists : (name : String) (a : TestEnvArtifact) → Lists (manage texts name a) name
  unfolding contains Lists
  manage-Lists name a =
      ground (arith, contains-append a.managed_resources (name ∷ []) name, eq_refl name)

  with_text-Keeps :
      (key : String) (state : Fields) (use_text : String → TestEnvArtifact → TestEnvArtifact)
      → ((value : String) → Keeps (use_text value))
      → Keeps (with_text texts key state use_text)
  unfolding with_text Keeps
  with_text-Keeps key state use_text h a name listed =
      elim (Bool-cases (get_string state key == "")) [
        | inl absent ↦ rw absent listed
        | inr given ↦ rw given (h (get_string state key) a name listed)
      ]

  module _ (scheme : String) (entries : String → Fields → TestEnvArtifact → TestEnvArtifact)
      (keeps : (name : String) (state : Fields) → Keeps (entries name state)) where
    resource_entries-Keeps :
        (added : String) (state : Option Fields)
        → Keeps (resource_entries texts scheme entries added state)
    unfolding resource_entries Keeps
    resource_entries-Keeps added none a name h = manage-Keeps _ a name h
    resource_entries-Keeps added (some state) a name h =
        Keeps-Lists _ (entries added state a) name (manage-Keeps _)
          (Keeps-Lists _ a name (keeps added state) h)

    resource_entries-Lists :
        (name : String) (state : Option Fields) (a : TestEnvArtifact)
        → Lists (resource_entries texts scheme entries name state a) (named texts scheme name "")
    unfolding resource_entries
    resource_entries-Lists name none a = manage-Lists _ a
    resource_entries-Lists name (some state) a = manage-Lists _ (entries name state a)

    add_resources-Keeps : (m : Dict ResourceState) → Keeps (add_resources texts scheme entries m)
    unfolding add_resources Keeps
    add_resources-Keeps [] a name h = h
    add_resources-Keeps ((added, entry) ∷ rest) a name h =
        add_resources-Keeps rest _ name (resource_entries-Keeps added entry.state a name h)

    add_resources-Lists :
        (m : Dict ResourceState) (a : TestEnvArtifact) (name : String)
        → has name m ≡ true
        → Lists (add_resources texts scheme entries m a) (named texts scheme name "")
    unfolding add_resources lookup
    add_resources-Lists [] a name h = absurd (cc)
    add_resources-Lists ((first, entry) ∷ rest) a name h = elim (Bool-cases (first == name)) [
      | inl same ↦
          Keeps-Lists (add_resources texts scheme entries rest)
            (resource_entries texts scheme entries first entry.state a) _ (add_resources-Keeps rest)
            (subst
              (λ n.
                Lists (resource_entries texts scheme entries first entry.state a)
                  (named texts scheme n ""))
              ((eq_iff first name).0 same) (resource_entries-Lists first entry.state a))
      | inr other ↦ add_resources-Lists rest _ name (rw other at h)
    ]

  with_text-Lists :
      (key : String) (state : Fields) (use_text : String → TestEnvArtifact → TestEnvArtifact)
      (a : TestEnvArtifact) (name : String)
      → ((value : String) → Keeps (use_text value))
      → Lists a name
      → Lists (with_text texts key state use_text a) name
  with_text-Lists key state use_text a name h listed =
      Keeps-Lists (with_text texts key state use_text) a name (with_text-Keeps key state use_text h)
        listed

  key_file-Keeps :
      (key file path shown : String)
      → Keeps (λ a. set_env texts key path (manage texts path (set_file texts file shown a)))
  unfolding Keeps
  key_file-Keeps key file path shown a name h =
      same-Keeps (set_env texts key path) (λ a. refl) _ name
        (manage-Keeps path _ name (same-Keeps (set_file texts file shown) (λ a. refl) a name h))

  key_state_entries-Keeps :
      (dir name : String) (state : Fields) → Keeps (key_state_entries texts dir name state)
  unfolding key_state_entries Keeps
  key_state_entries-Keeps dir name state a other h =
      with_text-Lists "fingerprint" state _ _ other (λ v. same-Keeps _ (λ a. refl))
        (with_text-Lists "publicKeyPath" state _ _ other manage-Keeps
          (with_text-Lists "privateKeyPath" state _ a other (λ path. key_file-Keeps _ _ path _) h))

  network_state_entries-Keeps :
      (name : String) (state : Fields) → Keeps (network_state_entries texts name state)
  unfolding network_state_entries Keeps
  network_state_entries-Keeps name state a other h =
      with_text-Lists "interfaceName" state _ _ other (λ v. same-Keeps _ (λ a. refl))
        (with_text-Lists "ip" state _ a other (λ v. same-Keeps _ (λ a. refl)) h)

  vm_state_entries-Keeps :
      (name : String) (state : Fields) → Keeps (vm_state_entries texts name state)
  unfolding vm_state_entries Keeps
  vm_state_entries-Keeps name state a other h =
      with_text-Lists "mac" state _ _ other (λ v. same-Keeps _ (λ a. refl))
        (with_text-Lists "sshCommand" state _ _ other (λ v. same-Keeps _ (λ a. refl))
          (with_text-Lists "ip" state _ a other (λ v. same-Keeps _ (λ a. refl)) h))

  -- The artifact lists a reference to each key, network and VM that the state holds, whatever the
  -- provider has returned for it.
  pub build_artifact-Lists :
      (test_id : String) (env : EnvironmentState) (iso : Option IsolationConfig) (name : String)
      → let a = build_artifact texts test_id env iso in
        (has name env.resources.keys ≡ true → Lists a (named texts "testenv-vm://key/" name ""))
        × (has name env.resources.networks ≡ true
            → Lists a (named texts "testenv-vm://network/" name ""))
        × (has name env.resources.vms ≡ true → Lists a (named texts "testenv-vm://vm/" name ""))
  unfolding build_artifact
  build_artifact-Lists test_id env iso name =
      let start = empty_artifact texts test_id iso in
      let key_entries = key_state_entries texts env.artifact_dir in
      let add_keys = add_resources texts "testenv-vm://key/" key_entries env.resources.keys in
      let networks = network_state_entries texts in
      let add_networks =
        add_resources texts "testenv-vm://network/" networks env.resources.networks in
      let vms = vm_state_entries texts in
      let add_vms = add_resources texts "testenv-vm://vm/" vms env.resources.vms in
      let vms_keep : Keeps add_vms =
        add_resources-Keeps _ vms vm_state_entries-Keeps env.resources.vms in
      let networks_keep : Keeps add_networks =
        add_resources-Keeps _ networks network_state_entries-Keeps env.resources.networks in
      (
        λ h. Keeps-Lists add_vms (add_networks (add_keys start)) _ vms_keep (
            Keeps-Lists add_networks (add_keys start) _ networks_keep (
              add_resources-Lists _ key_entries (key_state_entries-Keeps env.artifact_dir)
                env.resources.keys start name h)),
        λ h. Keeps-Lists add_vms (add_networks (add_keys start)) _ vms_keep (
            add_resources-Lists _ networks network_state_entries-Keeps env.resources.networks
              (add_keys start) name h),
        λ h.
            add_resources-Lists _ vms vm_state_entries-Keeps env.resources.vms
              (add_networks (add_keys start)) name h,
      )
