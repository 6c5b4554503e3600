-- ===== src/Provider/Stopped.antt =====
-- pkg/provider/manager.go: `StopAll`.
use testenv_vm.Provider.{
  ProviderStatus, ProviderInfo, Processes, is_running, System, running_in, set_status, closed,
  stop_found, stop, stop_each, stop_all, stopped, failed,
}
use testenv_vm.Provider.Engine.{Host}
use testenv_vm.Api.{failed}
use testenv_vm.Prelude.{
  String, ◌≡◌, refl, ap, ◌∙◌, subst, ◌⊎◌, inl, inr, true, false, Option, none, some, List, [], ◌∷◌,
  ◌==◌, eq_iff, Bool-cases, Option-cases, is_some, contains, Dict, lookup, adjust, keys,
  lookup-adjust, contains-keys,
}

module _ {W C : Type 0} (host : Host) (p : Processes W C) where
  abbrev pub IsStopped : System W C → String → Type 0
  IsStopped s name = running_in host p (lookup name s.providers) ≡ false

  -- A status other than running is written at one name.
  adjust-stopped :
      (name other : String) (status : ProviderStatus) (m : Dict (ProviderInfo C))
      → is_running status ≡ false
      → (name == other ≡ true) ⊎ (running_in host p (lookup other m) ≡ false)
      → running_in host p (lookup other (adjust name (set_status host p status) m)) ≡ false
  adjust-stopped name other status m quiet h =
      rw (lookup-adjust name other (set_status host p status) m)
        (elim (Bool-cases (name == other)) [
          | inl same ↦ rw same (adjusted (lookup other m))
          | inr apart ↦
              rw apart
                (elim h [ inl same ↦ absurd (let h' = rw apart at same in cc) | inr was ↦ was ])
        ])
    where
      adjusted :
          (found : Option (ProviderInfo C))
          → running_in host p (elim found as (λ _. Option (ProviderInfo C)) [
            | none ↦ none
            | some info ↦ some (set_status host p status info)
          ])
            ≡ false
      adjusted none = refl
      adjusted (some info) = quiet

  closed-IsStopped :
      (name other : String) (s : System W C) (result : Option String × W)
      → (name == other ≡ true) ⊎ IsStopped s other
      → IsStopped (closed host p name s.providers result).1 other
  unfolding closed
  closed-IsStopped name other s (none, w) h = adjust-stopped name other stopped s.providers refl h
  closed-IsStopped name other s (some e, w) h = adjust-stopped name other failed s.providers refl h

  -- Where the provider was not running, the manager stays as it is.
  idle-IsStopped :
      (name other : String) (s : System W C)
      → IsStopped s name
      → (name == other ≡ true) ⊎ IsStopped s other
      → IsStopped s other
  idle-IsStopped name other s idle (inl same) =
      subst (IsStopped s) ((eq_iff name other).0 same) idle
  idle-IsStopped name other s idle (inr was) = was

  stop_found-IsStopped :
      (name other : String) (found : Option (ProviderInfo C)) (s : System W C)
      → lookup name s.providers ≡ found
      → (name == other ≡ true) ⊎ IsStopped s other
      → IsStopped (stop_found host p name found s).1 other
  unfolding stop_found
  stop_found-IsStopped name other none s is h =
      idle-IsStopped name other s (ap (running_in host p) is) h
  stop_found-IsStopped name other (some info) s is h = elim (Bool-cases (is_running info.status)) [
    | inl busy ↦ rw busy (closed-IsStopped name other s _ h)
    | inr idle ↦ rw idle (idle-IsStopped name other s (ap (running_in host p) is ∙ idle) h)
  ]

  stop-IsStopped :
      (name other : String) (s : System W C)
      → (name == other ≡ true) ⊎ IsStopped s other
      → IsStopped (stop host p name s).1 other
  unfolding stop
  stop-IsStopped name other s h = stop_found-IsStopped name other (lookup name s.providers) s refl h

  stop_each-IsStopped :
      (names : List String) (other : String) (s : System W C)
      → (contains names other ≡ true) ⊎ IsStopped s other
      → IsStopped (stop_each host p names s).1 other
  unfolding stop_each contains
  stop_each-IsStopped [] other s (inl absent) = absurd cc
  stop_each-IsStopped [] other s (inr was) = was
  stop_each-IsStopped (name ∷ names) other s (inr was) =
      stop_each-IsStopped names other _ (inr (stop-IsStopped name other s (inr was)))
  stop_each-IsStopped (name ∷ names) other s (inl listed) = elim (Bool-cases (name == other)) [
    | inl same ↦ stop_each-IsStopped names other _ (inr (stop-IsStopped name other s (inl same)))
    | inr apart ↦ stop_each-IsStopped names other _ (inl (rw apart at listed))
  ]

  -- After `StopAll` no provider is running, also where the stop of one has failed.
  pub stop_all-IsStopped : (s : System W C) (name : String) → IsStopped (stop_all host p s).1 name
  unfolding stop_all
  stop_all-IsStopped s name = elim (Option-cases (lookup name s.providers)) [
    | inl absent ↦
        stop_each-IsStopped (keys s.providers) name s (inr (ap (running_in host p) absent))
    | inr (info, known) ↦
        stop_each-IsStopped (keys s.providers) name s
          (inl (contains-keys name s.providers ∙ ap is_some known))
  ]
