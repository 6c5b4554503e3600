-- ===== src/Provider/Running.antt =====
-- pkg/provider/manager.go: the states that a manager reaches.
use testenv_vm.Provider.Registry.{added, register_capabilities}
use testenv_vm.Provider.{
  CapabilitiesResponse, ProviderInfo, ManagerError, Processes, is_running, System,
  with_capabilities, with_client, with_command, running_in, start, set_status, closed, stop_found,
  stop, client_of, get, sent, call_with, call, stopped, failed, no_client,
}
use testenv_vm.Provider.Engine.{Command, EngineError, Host}
use testenv_vm.Api.Provider.{OperationResult, Request}
use testenv_vm.Api.{ProviderConfig, failed}
use testenv_vm.Prelude.{
  String, ◌≡◌, refl, sym, subst, ◌≢◌, inl, inr, Bool, true, not, ◌||◌, Option, none, some, [], ◌==◌,
  Bool-cases, Option-cases, is_some, Dict, lookup, insert, adjust, has, lookup-insert,
  lookup-adjust, Result, ok, err,
}

module _ {W C : Type 0} (host : Host) (p : Processes W C) where
  -- The operations that change the manager, in any order.
  pub data Reachable : System W C → Type 0 where
    fresh : (w : W) → Reachable (record { providers = []; world = w })
    started :
        (config : ProviderConfig) (s : System W C)
        → Reachable s
        → Reachable (start host p config s).1
    ended : (name : String) (s : System W C) → Reachable s → Reachable (stop host p name s).1
    called :
        (name tool : String) (request : Request) (s : System W C)
        → Reachable s
        → Reachable (call host p name tool request s).1
    registered :
        (name : String) (caps : Option CapabilitiesResponse) (s : System W C)
        → Reachable s
        → Reachable (register_capabilities name caps s)

  -- A provider that is running has a client.
  abbrev has_client : Option (ProviderInfo C) → Bool
  has_client none = true
  has_client (some info) = not (is_running info.status) || is_some info.client

  abbrev IsSound : Dict (ProviderInfo C) → Type 0
  IsSound m = (name : String) → has_client (lookup name m) ≡ true

  insert-IsSound :
      (name : String) (info : ProviderInfo C) (m : Dict (ProviderInfo C))
      → has_client (some info) ≡ true
      → IsSound m
      → IsSound (insert name info m)
  insert-IsSound name info m here sound other =
      rw (lookup-insert name other info m) (elim (Bool-cases (name == other)) [
        | inl same ↦ rw same here
        | inr apart ↦ rw apart (sound other)
      ])

  adjust-IsSound :
      (name : String) (f : ProviderInfo C → ProviderInfo C) (m : Dict (ProviderInfo C))
      → ((info : ProviderInfo C)
          → has_client (some info) ≡ true
          → has_client (some (f info)) ≡ true)
      → IsSound m
      → IsSound (adjust name f m)
  adjust-IsSound name f m here sound other =
      rw (lookup-adjust name other f m) (elim (Bool-cases (name == other)) [
        | inl same ↦ rw same (adjusted (lookup other m) (sound other))
        | inr apart ↦ rw apart (sound other)
      ])
    where
      adjusted :
          (found : Option (ProviderInfo C))
          → has_client found ≡ true
          → has_client (elim found [ none ↦ none | some info ↦ some (f info) ]) ≡ true
      adjusted none h = refl
      adjusted (some info) h = here info h

  with_capabilities-IsSound :
      (config : ProviderConfig) (m : Dict (ProviderInfo C)) (client : C)
      (caps : Result String CapabilitiesResponse × W)
      → IsSound m
      → IsSound (with_capabilities host p config m client caps).1.providers
  unfolding with_capabilities
  with_capabilities-IsSound config m client (err e, w) = insert-IsSound config.name _ m refl
  with_capabilities-IsSound config m client (ok caps, w) = insert-IsSound config.name _ m refl

  with_client-IsSound :
      (config : ProviderConfig) (m : Dict (ProviderInfo C)) (made : Result String C × W)
      → IsSound m
      → IsSound (with_client host p config m made).1.providers
  unfolding with_client
  with_client-IsSound config m (err e, w) = insert-IsSound config.name _ m refl
  with_client-IsSound config m (ok client, w) = with_capabilities-IsSound config m client _

  with_command-IsSound :
      (config : ProviderConfig) (command : Result EngineError Command) (s : System W C)
      → IsSound s.providers
      → IsSound (with_command host p config command s).1.providers
  unfolding with_command
  with_command-IsSound config (err e) s = insert-IsSound config.name _ s.providers refl
  with_command-IsSound config (ok command) s = with_client-IsSound config s.providers _

  start-IsSound :
      (config : ProviderConfig) (s : System W C)
      → IsSound s.providers
      → IsSound (start host p config s).1.providers
  unfolding start
  start-IsSound config s sound =
      elim (Bool-cases (running_in host p (lookup config.name s.providers))) [
        | inl busy ↦ rw busy sound
        | inr idle ↦ rw idle (with_command-IsSound config _ s sound)
      ]

  closed-IsSound :
      (name : String) (m : Dict (ProviderInfo C)) (result : Option String × W)
      → IsSound m
      → IsSound (closed host p name m result).1.providers
  unfolding closed
  closed-IsSound name m (none, w) =
      adjust-IsSound name (set_status host p stopped) m (λ info h. refl)
  closed-IsSound name m (some e, w) =
      adjust-IsSound name (set_status host p failed) m (λ info h. refl)

  stop_found-IsSound :
      (name : String) (found : Option (ProviderInfo C)) (s : System W C)
      → IsSound s.providers
      → IsSound (stop_found host p name found s).1.providers
  unfolding stop_found
  stop_found-IsSound name none s sound = sound
  stop_found-IsSound name (some info) s sound = elim (Bool-cases (is_running info.status)) [
    | inl busy ↦ rw busy (closed-IsSound name s.providers _ sound)
    | inr idle ↦ rw idle sound
  ]

  call_with-same :
      (client : Result ManagerError C) (tool : String) (request : Request) (s : System W C)
      → (call_with host p client tool request s).1.providers ≡ s.providers
  unfolding call_with sent
  call_with-same (err e) tool request s = refl
  call_with-same (ok client) tool request s = sent-same (p.call client tool request s.world)
    where
      sent-same :
          (result : Result String OperationResult × W)
          → (sent host p s result).1.providers ≡ s.providers
      sent-same (ok r, w) = refl
      sent-same (err e, w) = refl

  register_capabilities-IsSound :
      (name : String) (caps : Option CapabilitiesResponse) (s : System W C)
      → IsSound s.providers
      → IsSound (register_capabilities name caps s).providers
  unfolding register_capabilities
  register_capabilities-IsSound name caps s sound = elim (Bool-cases (has name s.providers)) [
    | inl known ↦ rw known (
        adjust-IsSound name (λ info. record info { capabilities = caps }) s.providers (λ info h. h)
          sound)
    | inr unknown ↦ rw unknown (insert-IsSound name (added caps) s.providers refl sound)
  ]

  Reachable-IsSound : (s : System W C) → Reachable s → IsSound s.providers
  unfolding lookup stop call
  Reachable-IsSound _ (fresh w) = λ name. refl
  Reachable-IsSound _ (started config s r) = start-IsSound config s (Reachable-IsSound s r)
  Reachable-IsSound _ (ended name s r) = stop_found-IsSound name _ s (Reachable-IsSound s r)
  Reachable-IsSound _ (called name tool request s r) =
      subst IsSound (sym (call_with-same (get host p name s) tool request s))
        (Reachable-IsSound s r)
  Reachable-IsSound _ (registered name caps s r) =
      register_capabilities-IsSound name caps s (Reachable-IsSound s r)

  -- In a manager that its operations have built in any order, a provider that is running has a client,
  -- which `Get` returns: `Get` never fails for want of one.
  pub get-Reachable :
      (s : System W C) (name : String)
      → Reachable s
      → (running_in host p (lookup name s.providers) ≡ true
          → (client : C) × (get host p name s ≡ ok client))
        × (get host p name s ≢ err (no_client name))
  unfolding get client_of
  get-Reachable s name r = client_of-lem (lookup name s.providers) (Reachable-IsSound s r name)
    where
      client_of-lem :
          (found : Option (ProviderInfo C))
          → has_client found ≡ true
          → (running_in host p found ≡ true
              → (client : C) × (client_of host p name found ≡ ok client))
            × (client_of host p name found ≢ err (no_client name))
      client_of-lem none h = (λ b. absurd cc, λ e. absurd cc)
      client_of-lem (some info) h = elim (Bool-cases (is_running info.status)) [
        | inr idle ↦ (λ b. absurd cc, rw idle (λ e. absurd cc))
        | inl busy ↦ elim (Option-cases info.client) [
          | inl missing ↦ absurd (let h' = rw (busy, missing) at h in cc)
          | inr (client, here) ↦ rw (busy, here) (λ b. (client, refl), λ e. absurd cc)
        ]
      ]
