-- ===== src/Provider.antt =====
-- pkg/provider/manager.go: the provider manager. Engines are in Provider/Engine.antt, and
-- pkg/provider/registry.go is in Provider/Registry.antt. The read-write mutex is not modelled: each
-- operation but `StopAll` holds it from its first line to its last.
use testenv_vm.Prelude.{
  if◌then◌else◌, Dict, lookup, insert, adjust, keys, Result, ok, err, String, Bool, true, false,
  Option, none, some, List, [], ◌∷◌,
}
use testenv_vm.Provider.Engine.{Command, EngineError, Host, resolve_engine}
use testenv_vm.Api.Provider.{OperationResult, Request}
use testenv_vm.Api.{ProviderConfig}
pub mod Engine
pub mod Registry
pub mod Running
pub mod Stopped
pub mod Resolution

pub record ResourceCapability : Type 0 where
  pub kind : String
  pub operations : List String

pub record CapabilitiesResponse : Type 0 where
  pub provider_name : String
  pub version : String
  pub resources : List ResourceCapability

pub data ProviderStatus : Type 0 where
  running stopped failed : ProviderStatus

-- A running process, over the type `C` of clients.
pub record ProviderInfo (C : Type 0) : Type 0 where
  pub config : ProviderConfig
  pub client : Option C
  pub capabilities : Option CapabilitiesResponse
  pub status : ProviderStatus

pub data ManagerError : Type 0 where
  already_running not_found no_client : String → ManagerError
  not_running : String → ProviderStatus → ManagerError
  engine_unresolved : String → EngineError → ManagerError
  not_started no_capabilities not_stopped : String → String → ManagerError
  call_failed : String → ManagerError

-- pkg/provider/client.go, over the state `W` of the processes: `NewClient`, `Capabilities`, `Close`
-- and `Call`, each with the text of its error.
pub record Processes (W C : Type 0) : Type 0 where
  pub new_client : Command → W → Result String C × W
  pub capabilities : C → W → Result String CapabilitiesResponse × W
  pub close : C → W → Option String × W
  pub call : C → String → Request → W → Result String OperationResult × W

abbrev pub is_running : ProviderStatus → Bool
is_running running = true
is_running _ = false

-- What the manager and its providers are.
pub record System (W C : Type 0) : Type 0 where
  pub providers : Dict (ProviderInfo C)
  pub world : W

module _ {W C : Type 0} (host : Host) (p : Processes W C) where
  abbrev pub Step : Type 0
  Step = Option ManagerError × System W C

  abbrev pub failed_info : ProviderConfig → ProviderInfo C
  failed_info config = record {
    config = config;
    client = none;
    capabilities = none;
    status = failed;
  }

  -- The entry of a provider that could not be started.
  abbrev give_up : ProviderConfig → ManagerError → Dict (ProviderInfo C) → W → Step
  give_up config e providers w =
      (some e, record { providers = insert config.name (failed_info config) providers; world = w })

  unfoldable pub with_capabilities :
      ProviderConfig → Dict (ProviderInfo C) → C → Result String CapabilitiesResponse × W → Step
  with_capabilities config providers client (err e, w) =
      give_up config (no_capabilities config.name e) providers (p.close client w).1
  with_capabilities config providers client (ok caps, w) =
      let info : ProviderInfo C = record {
        config = config;
        client = some client;
        capabilities = some caps;
        status = running;
      } in
      (none, record { providers = insert config.name info providers; world = w })

  unfoldable pub with_client : ProviderConfig → Dict (ProviderInfo C) → Result String C × W → Step
  unfolding with_capabilities
  with_client config providers (err e, w) = give_up config (not_started config.name e) providers w
  with_client config providers (ok client, w) =
      with_capabilities config providers client (p.capabilities client w)

  unfoldable pub with_command : ProviderConfig → Result EngineError Command → System W C → Step
  unfolding with_client
  with_command config (err e) s =
      give_up config (engine_unresolved config.name e) s.providers s.world
  with_command config (ok command) s = with_client config s.providers (p.new_client command s.world)

  abbrev pub running_in : Option (ProviderInfo C) → Bool
  running_in none = false
  running_in (some info) = is_running info.status

  unfoldable pub start : ProviderConfig → System W C → Step
  unfolding with_command
  start config s =
      let started = with_command config (resolve_engine host config.engine) s in
      if running_in (lookup config.name s.providers)
      then (some (already_running config.name), s)
      else started

  -- `info.Status = status`, through the pointer in the map.
  abbrev pub set_status : ProviderStatus → ProviderInfo C → ProviderInfo C
  set_status status info = record info { status = status }

  unfoldable pub closed : String → Dict (ProviderInfo C) → Option String × W → Step
  closed name providers (none, w) =
      (none, record { providers = adjust name (set_status stopped) providers; world = w })
  closed name providers (some e, w) = (
    some (not_stopped name e),
    record { providers = adjust name (set_status failed) providers; world = w },
  )

  abbrev pub close_client : Option C → W → Option String × W
  close_client none w = (none, w)
  close_client (some client) w = p.close client w

  unfoldable pub stop_found : String → Option (ProviderInfo C) → System W C → Step
  unfolding closed
  stop_found name none s = (some (not_found name), s)
  stop_found name (some info) s =
      let done = closed name s.providers (close_client info.client s.world) in
      if is_running info.status then done else (none, s)

  unfoldable pub stop : String → System W C → Step
  unfolding stop_found
  stop name s = stop_found name (lookup name s.providers) s

  -- The loop of `StopAll` over the names that it has collected.
  unfoldable pub stop_each : List String → System W C → List ManagerError × System W C
  unfolding stop
  stop_each [] s = ([], s)
  stop_each (name ∷ names) s =
      let (e, s₁) = stop name s in
      let (es, s₂) = stop_each names s₁ in (elim e [ none ↦ es | some failure ↦ failure ∷ es ], s₂)

  unfoldable pub stop_all : System W C → List ManagerError × System W C
  unfolding stop_each
  stop_all s = stop_each (keys s.providers) s

  unfoldable pub client_of : String → Option (ProviderInfo C) → Result ManagerError C
  client_of name none = err (not_found name)
  client_of name (some info) =
      let found : Result ManagerError C = elim info.client [
        | none ↦ err (no_client name)
        | some client ↦ ok client
      ] in
      if is_running info.status then found else err (not_running name info.status)

  unfoldable pub get : String → System W C → Result ManagerError C
  unfolding client_of
  get name s = client_of name (lookup name s.providers)

  unfoldable pub sent :
      System W C
      → Result String OperationResult × W
      → Result ManagerError OperationResult × System W C
  sent s (ok result, w) = (ok result, record s { world = w })
  sent s (err e, w) = (err (call_failed e), record s { world = w })

  unfoldable pub call_with :
      Result ManagerError C
      → String
      → Request
      → System W C
      → Result ManagerError OperationResult × System W C
  unfolding sent
  call_with (err e) tool request s = (err e, s)
  call_with (ok client) tool request s = sent s (p.call client tool request s.world)

  unfoldable pub call :
      String → String → Request → System W C → Result ManagerError OperationResult × System W C
  unfolding call_with get
  call provider tool request s = call_with (get provider s) tool request s

  unfoldable get_info : String → System W C → Option (ProviderInfo C)
  get_info name s = lookup name s.providers

  unfoldable list : System W C → List String
  list s = keys s.providers
