-- ===== src/Tests/Orchestration.antt =====
-- Runs of the orchestrator over the world that counts the calls of providers.
use testenv_vm.Tests.Fixtures.{sample, counting, created_env}
use testenv_vm.Orchestrator.Managed.{Lists, build_artifact-Lists}
use testenv_vm.Store.{Files, FileError, not_exist, load, parse}
use testenv_vm.Orchestrator.Stored.{with_store, delete_environment-absent, delete_environment-twice}
use testenv_vm.Orchestrator.Artifact.{Texts, named, build_artifact}
use testenv_vm.Orchestrator.{
  LoadError, Services, Config, CreateInput, delete_from, delete_environment,
}
use testenv_vm.Executor.Prefix.{Digests}
use testenv_vm.Codec.ToMap.{spec_to_map}
use testenv_vm.Codec.{find}
use testenv_vm.Api.{EnvironmentState}
use testenv_vm.Prelude.{
  ℕ, zero, suc, String, ◌≡◌, refl, true, false, none, some, [], ◌∷◌, contains, has, Result, ok, err,
  pos,
}

abbrev missing_state : LoadError
missing_state = record { is_not_exist = true; message = "state not found" }

-- The state is there as long as nothing has changed.
abbrev stored : ℕ → Result LoadError EnvironmentState
stored zero = ok created_env
stored (suc n) = err missing_state

abbrev identity_digests : Digests
identity_digests = record {
  sha256_hex = λ s. s;
  sha256_head = λ s. 0;
  crc32 = λ s. 0;
  decimal = λ n. "2";
}

abbrev services : Services ℕ
services = record {
  backend = counting;
  digests = identity_digests;
  truncate = λ s. pos 0;
  make_dir = λ dir n. (none, n);
  remove_all = λ dir n. (none, n);
  to_lower = λ s. s;
  start = λ config n. (none, n);
  is_known = λ name n. false;
  load = λ id n. stored n;
  remove_state = λ id n. (none, suc n);
}

abbrev settings : Config
settings = record { state_dir = "/s"; image_cache_dir = ""; cleanup_on_failure = true }

abbrev request : CreateInput
request = record {
  test_id = "t1";
  stage = "e2e";
  tmp_dir = "/tmp";
  spec = find (spec_to_map sample);
  env = ("HOME", "/root") ∷ [];
}

-- The file of the state is there as long as nothing has changed.
abbrev read_while_new : ℕ → Result FileError String
read_while_new zero = ok "{}"
read_while_new (suc n) = err not_exist

abbrev files : Files ℕ
files = record {
  mkdir_all = λ dir n. (ok tt, n);
  write_file = λ at bytes n. (ok tt, n);
  rename = λ from to n. (ok tt, n);
  remove_file = λ at n. (ok tt, suc n);
  read_file = λ path n. read_while_new n;
  join_path = λ dir name. name;
  marshal = λ state. some "{}";
  unmarshal = λ bytes. some created_env;
}

abbrev over_files : Services ℕ
over_files = with_store files "/s" (λ id. id) (λ e. "broken") services

delete_environment-absent_example : delete_environment over_files settings "t1" 1 ≡ (none, 1)
delete_environment-absent_example =
    delete_environment-absent files "/s" (λ id. id) (λ e. "broken") services settings
      (λ rest. (rest, refl)) "t1" refl 1 refl

first_delete : (delete_environment over_files settings "t1" 0).0 ≡ none
unfolding delete_environment delete_from load parse
first_delete = refl

delete_environment-twice_example :
    delete_environment over_files settings "t1" (delete_environment over_files settings "t1" 0).1
    ≡ (none, (delete_environment over_files settings "t1" 0).1)
delete_environment-twice_example =
    delete_environment-twice files "/s" (λ id. id) (λ e. "broken") services settings
      (λ rest. (rest, refl)) "t1" refl (λ n. refl) (λ dir n h. h) 0 first_delete

abbrev plain_texts : Texts
plain_texts = record { to_upper = λ s. s; relative = λ dir path. none }

build_artifact-Lists_example :
    let a = build_artifact plain_texts "t1" created_env none in
    (has "ssh" created_env.resources.keys ≡ true
      → contains a.managed_resources (named plain_texts "testenv-vm://key/" "ssh" "") ≡ true)
    × (has "ssh" created_env.resources.networks ≡ true
        → contains a.managed_resources (named plain_texts "testenv-vm://network/" "ssh" "") ≡ true)
    × (has "ssh" created_env.resources.vms ≡ true
        → contains a.managed_resources (named plain_texts "testenv-vm://vm/" "ssh" "") ≡ true)
unfolding Lists
build_artifact-Lists_example = build_artifact-Lists plain_texts "t1" created_env none "ssh"
