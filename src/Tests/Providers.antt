-- ===== src/Tests/Providers.antt =====
-- A provider manager with a stub provider, over a world that counts the processes.
use testenv_vm.Tests.Fixtures.{stub_provider, ssh_ref, counting, created}
use testenv_vm.Executor.Delete.{already_gone, finish_delete}
use testenv_vm.Api.{returned_error}
use testenv_vm.Api.Provider.{
  OperationResult, new_not_found_error, new_already_exists_error, KeySpec,
}
use Prim.Native.String.{◌++◌ as str_append}
use testenv_vm.Stub.Transport.{ResultJson, transport, key_delete-finish_delete}
use testenv_vm.Stub.Refinement.{
  AnyRequest, on_key, on_network, perform, specification, tables_of, results, perform-specification,
  create, fetch, drop,
}
use testenv_vm.Provider.Resolution.{IsGoRun, resolve_engine-IsGoRun, is_workspace_module-ends}
use testenv_vm.Provider.Stopped.{IsStopped, stop_all-IsStopped}
use testenv_vm.Provider.Running.{get-Reachable, fresh, started}
use testenv_vm.Provider.Registry.{get_provider_for_resource, Serves, get_provider_for_resource_lem}
use testenv_vm.Provider.Engine.{Host, is_workspace_module, resolve_engine}
use testenv_vm.Provider.{
  CapabilitiesResponse, Processes, System, running_in, start, stop_all, get, no_client,
}
use testenv_vm.Stub.{Provider, key_create, key_get, key_delete, network_get, get_in}
use testenv_vm.Prelude.{
  ℕ, suc, String, ◌≡◌, refl, ◌≢◌, inl, true, false, none, some, List, [], ◌∷◌, map, lookup, insert,
  remove, ok, err, pos,
}

abbrev bare_host : Host
bare_host = record {
  run_local = true;
  working_directory = some "/";
  exists = λ path. true;
  in_path = λ name. true;
  read_file = λ path. none;
  is_absolute = λ path. true;
  join_path = λ dir name. dir;
  parent = λ dir. dir;
  lines = λ s. s ∷ [];
  trim_space = λ s. s;
}

abbrev stub_capabilities : CapabilitiesResponse
stub_capabilities = record {
  provider_name = "stub";
  version = "dev";
  resources = record { kind = "key"; operations = "create" ∷ [] } ∷ [];
}

abbrev processes : Processes ℕ ℕ
processes = record {
  new_client = λ command n. (ok n, suc n);
  capabilities = λ client n. (ok stub_capabilities, n);
  close = λ client n. (none, n);
  call = λ client tool request n. (err "closed", n);
}

abbrev no_providers : System ℕ ℕ
no_providers = record { providers = []; world = 0 }

abbrev with_stub : System ℕ ℕ
with_stub = (start bare_host processes stub_provider no_providers).1

get-Reachable_example :
    (running_in bare_host processes (lookup "stub" with_stub.providers) ≡ true
      → (client : ℕ) × (get bare_host processes "stub" with_stub ≡ ok client))
    × (get bare_host processes "stub" with_stub ≢ err (no_client "stub"))
get-Reachable_example =
    get-Reachable bare_host processes with_stub "stub"
      (started stub_provider no_providers (fresh 0))

stub_is_running : running_in bare_host processes (lookup "stub" with_stub.providers) ≡ true
unfolding start resolve_engine lookup insert
stub_is_running = refl

stop_all-IsStopped_example :
    IsStopped bare_host processes (stop_all bare_host processes with_stub).1 "stub"
stop_all-IsStopped_example = stop_all-IsStopped bare_host processes with_stub "stub"

get_provider_for_resource_lem_example :
    Serves "key"
      (stub_provider ∷ [])
      "stub"
      with_stub
      (get_provider_for_resource "key" (stub_provider ∷ []) "stub" with_stub)
get_provider_for_resource_lem_example =
    get_provider_for_resource_lem "key" (stub_provider ∷ []) "stub" with_stub

resolve_engine-IsGoRun_example :
    IsGoRun bare_host (resolve_engine bare_host "go://cmd/providers/stub")
resolve_engine-IsGoRun_example = resolve_engine-IsGoRun bare_host "go://cmd/providers/stub" refl

is_workspace_module-ends_example : is_workspace_module bare_host "example.com/tool" ≢ none
is_workspace_module-ends_example =
    is_workspace_module-ends bare_host "example.com/tool" "/" (λ d rooted. (rooted, inl refl)) refl
      refl

abbrev ed25519 : KeySpec
ed25519 = record { type = ""; bits = pos 0; comment = "me"; output_dir = "" }

abbrev empty_stub : Provider
empty_stub = record { keys = []; networks = []; vms = []; version = "" }

-- `%q` of a name without escapes.
abbrev quoted : String → String
quoted s = str_append "\"" (str_append s "\"")

abbrev mixed_requests : List AnyRequest
mixed_requests =
    on_key (create "ssh" ed25519)
    ∷ on_network (fetch "ssh")
    ∷ on_key (create "ssh" ed25519)
    ∷ on_key (drop "ssh")
    ∷ on_key (fetch "ssh")
    ∷ []

perform-specification_example :
    results (perform quoted) mixed_requests empty_stub
    ≡ results (specification quoted) mixed_requests (tables_of empty_stub)
perform-specification_example = perform-specification quoted empty_stub mixed_requests

mixed-perform :
    map (λ (r : OperationResult). r.success) (results (perform quoted) mixed_requests empty_stub)
    ≡ true ∷ false ∷ false ∷ true ∷ false ∷ []
unfolding key_create key_get key_delete new_already_exists_error new_not_found_error lookup insert
    remove network_get get_in
mixed-perform = refl

abbrev no_json : ResultJson
no_json = record { marshal = λ r. none; unmarshal = λ s. none }

key_delete-finish_delete_example :
    let r = (key_delete quoted "ssh" empty_stub).0 in
    (already_gone r ≡ true)
    × (finish_delete counting none ssh_ref "stub" (ok (transport no_json r)) created
        ≡ (some (returned_error (new_not_found_error quoted "key" "ssh").message), created))
unfolding lookup
key_delete-finish_delete_example =
    key_delete-finish_delete no_json counting none ssh_ref "stub" "ssh" quoted empty_stub created
      refl
