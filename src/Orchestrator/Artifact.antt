-- ===== src/Orchestrator/Artifact.antt =====
-- pkg/orchestrator/orchestrator.go: `buildArtifact`. A `for range` visits a map in the order of the
-- association list.
use testenv_vm.Executor.Resources.{get_string}
use testenv_vm.Executor.Isolation.{IsolationConfig, replace_all}
use testenv_vm.Api.{Fields, ResourceState, EnvironmentState}
use testenv_vm.Prelude.{
  String, Option, none, some, List, [], ◌∷◌, ◌++◌, ◌==◌, if◌then◌else◌, Dict, insert,
}
use Prim.Native.String.{◌++◌ as str_append}

pub record TestEnvArtifact : Type 0 where
  pub test_id : String
  pub files : Dict String
  pub metadata : Dict String
  pub managed_resources : List String
  pub env : Dict String

-- `strings.ToUpper`, and `filepath.Rel` with nothing for an error.
pub record Texts : Type 0 where
  pub to_upper : String → String
  pub relative : String → String → Option String

module _ (texts : Texts) where
  unfoldable pub to_env_var_name : String → String
  to_env_var_name s = replace_all (replace_all (texts.to_upper s) "-" "_") "." "_"

  abbrev pub set_metadata : String → String → TestEnvArtifact → TestEnvArtifact
  set_metadata key value a = record a { metadata = insert key value a.metadata }

  abbrev pub set_env : String → String → TestEnvArtifact → TestEnvArtifact
  set_env key value a = record a { env = insert key value a.env }

  abbrev pub set_file : String → String → TestEnvArtifact → TestEnvArtifact
  set_file key value a = record a { files = insert key value a.files }

  abbrev pub manage : String → TestEnvArtifact → TestEnvArtifact
  manage name a = record a { managed_resources = a.managed_resources ++ name ∷ [] }

  -- `if v, ok := state[key].(string); ok && v != ""`
  unfoldable pub with_text :
      String
      → Fields
      → (String → TestEnvArtifact → TestEnvArtifact)
      → TestEnvArtifact
      → TestEnvArtifact
  with_text key state use_text a =
      let value = get_string state key in if value == "" then a else use_text value a

  -- A path is relative to the artifact directory where that can be had.
  unfoldable pub relative_path : String → String → String
  relative_path dir path =
      let rel : String = elim (texts.relative dir path) [ none ↦ path | some short ↦ short ] in
      if dir == "" then path else rel

  abbrev pub named : String → String → String → String
  named before name after = str_append before (str_append name after)

  unfoldable pub key_state_entries : String → String → Fields → TestEnvArtifact → TestEnvArtifact
  key_state_entries dir name state a =
      with_text "fingerprint" state
        (λ f. set_metadata (named "testenv-vm.key." name ".fingerprint") f)
        (with_text "publicKeyPath" state manage (
          with_text "privateKeyPath" state
            (λ path a.
              set_env (named "TESTENV_KEY_" (to_env_var_name name) "_PRIVATE_PATH") path (
                manage path
                  (set_file (named "testenv-vm.key." name "") (relative_path dir path) a)))
            a))

  unfoldable pub network_state_entries : String → Fields → TestEnvArtifact → TestEnvArtifact
  network_state_entries name state a =
      with_text "interfaceName" state
        (λ device a.
          set_env (named "TESTENV_NETWORK_" (to_env_var_name name) "_INTERFACE") device
            (set_metadata (named "testenv-vm.network." name ".interface") device a))
        (with_text "ip" state
          (λ ip a.
            set_env (named "TESTENV_NETWORK_" (to_env_var_name name) "_IP") ip
              (set_metadata (named "testenv-vm.network." name ".ip") ip a))
          a)

  unfoldable pub vm_state_entries : String → Fields → TestEnvArtifact → TestEnvArtifact
  vm_state_entries name state a =
      with_text "mac" state (λ mac. set_metadata (named "testenv-vm.vm." name ".mac") mac)
        (with_text "sshCommand" state
          (λ command. set_env (named "TESTENV_VM_" (to_env_var_name name) "_SSH") command)
          (with_text "ip" state
            (λ ip a.
              set_env (named "TESTENV_VM_" (to_env_var_name name) "_IP") ip
                (set_metadata (named "testenv-vm.vm." name ".ip") ip a))
            a))

  -- One `for range` over a map of the state: the entries of a resource, and then its reference.
  module _ (scheme : String) (entries : String → Fields → TestEnvArtifact → TestEnvArtifact) where
    unfoldable pub resource_entries : String → Option Fields → TestEnvArtifact → TestEnvArtifact
    resource_entries name none a = manage (named scheme name "") a
    resource_entries name (some state) a = manage (named scheme name "") (entries name state a)

    unfoldable pub add_resources : Dict ResourceState → TestEnvArtifact → TestEnvArtifact
    unfolding resource_entries
    add_resources [] a = a
    add_resources ((name, entry) ∷ rest) a =
        add_resources rest (resource_entries name entry.state a)

  abbrev pub empty_artifact : String → Option IsolationConfig → TestEnvArtifact
  empty_artifact test_id iso = record {
    test_id = test_id;
    files = [];
    metadata = [];
    managed_resources = [];
    env = elim iso [ none ↦ [] | some c ↦ ("TESTENV_VM_NAME_PREFIX", c.name_prefix) ∷ [] ];
  }

  unfoldable pub build_artifact :
      String → EnvironmentState → Option IsolationConfig → TestEnvArtifact
  unfolding add_resources key_state_entries network_state_entries vm_state_entries
  build_artifact test_id env iso =
      add_resources "testenv-vm://vm/" vm_state_entries env.resources.vms (
        add_resources "testenv-vm://network/" network_state_entries env.resources.networks (
          add_resources "testenv-vm://key/" (key_state_entries env.artifact_dir) env.resources.keys
            (empty_artifact test_id iso)))
