-- ===== src/Provider/Registry.antt =====
-- pkg/provider/registry.go.
use testenv_vm.Provider.{ResourceCapability, CapabilitiesResponse, ProviderInfo, System, stopped}
use testenv_vm.Api.{ProviderConfig, end}
use testenv_vm.Prelude.{
  String, ◌≡◌, refl, subst, ◌⊎◌, inl, inr, Bool, true, false, not, ◌&&◌, ◌||◌, Option, none, some,
  List, [], ◌∷◌, map, arith, ◌==◌, eq_iff, eq_refl, if◌then◌else◌, Bool-cases, is_some, contains,
  lookup, insert, adjust, has, lookup-insert, lookup-adjust,
}

unfoldable pub has_kind : String → List ResourceCapability → Bool
has_kind kind [] = false
has_kind kind (c ∷ cs) = c.kind == kind || has_kind kind cs

-- The first entry of the kind decides.
unfoldable has_operation : String → String → List ResourceCapability → Bool
has_operation kind operation [] = false
has_operation kind operation (c ∷ cs) =
    let rest = has_operation kind operation cs in
    if c.kind == kind then contains c.operations operation else rest

abbrev blank_config : ProviderConfig
blank_config = record { default = false; engine = ""; name = ""; spec = end }

abbrev capabilities_in : {C : Type 0} → Option (ProviderInfo C) → List ResourceCapability
capabilities_in none = []
capabilities_in (some info) = elim info.capabilities [ none ↦ [] | some caps ↦ caps.resources ]

abbrev pub names_of : List ProviderConfig → List String
names_of ps = map (λ (p : ProviderConfig). p.name) ps

-- The second loop: the default provider, where it is in the list.
abbrev pub fallback : List ProviderConfig → String → String
fallback ps default = if not (default == "") && contains (names_of ps) default then default else ""

abbrev pub chosen : List ProviderConfig → String → Option String → String
chosen ps default none = fallback ps default
chosen ps default (some name) = name

abbrev pub added : {C : Type 0} → Option CapabilitiesResponse → ProviderInfo C
added caps = record { config = blank_config; client = none; capabilities = caps; status = stopped }

module _ {W C : Type 0} where
  unfoldable pub register_capabilities :
      String → Option CapabilitiesResponse → System W C → System W C
  register_capabilities name caps s =
      let known = adjust name (λ info. record info { capabilities = caps }) s.providers in
      record s {
        providers = if has name s.providers then known else insert name (added caps) s.providers;
      }

  unfoldable pub supports_resource : String → String → System W C → Bool
  unfolding has_kind
  supports_resource provider kind s = has_kind kind (capabilities_in (lookup provider s.providers))

  unfoldable supports_operation : String → String → String → System W C → Bool
  unfolding has_operation
  supports_operation provider kind operation s =
      has_operation kind operation (capabilities_in (lookup provider s.providers))

  -- The first loop: the first provider that supports the kind.
  unfoldable pub supporting : String → List ProviderConfig → System W C → Option String
  supporting kind [] s = none
  supporting kind (p ∷ ps) s =
      let rest = supporting kind ps s in
      if supports_resource p.name kind s then some p.name else rest

  unfoldable pub get_provider_for_resource :
      String → List ProviderConfig → String → System W C → String
  unfolding supporting
  get_provider_for_resource kind ps default s = chosen ps default (supporting kind ps s)

  abbrev pub some_supports : String → List ProviderConfig → System W C → Bool
  some_supports kind [] s = false
  some_supports kind (p ∷ ps) s = supports_resource p.name kind s || some_supports kind ps s

  abbrev Supported : String → List ProviderConfig → System W C → Option String → Type 0
  Supported kind ps s none = some_supports kind ps s ≡ false
  Supported kind ps s (some name) =
      (some_supports kind ps s ≡ true)
      × (supports_resource name kind s ≡ true)
      × (contains (names_of ps) name ≡ true)

  supporting-Supported :
      (kind : String) (ps : List ProviderConfig) (s : System W C)
      → Supported kind ps s (supporting kind ps s)
  unfolding supporting contains
  supporting-Supported kind [] s = refl
  supporting-Supported kind (p ∷ ps) s = elim (Bool-cases (supports_resource p.name kind s)) [
    | inl here ↦ rw here (ground arith, here, ground (arith, eq_refl p.name))
    | inr absent ↦ rw absent (later absent (supporting kind ps s) (supporting-Supported kind ps s))
  ]
    where
      later :
          supports_resource p.name kind s ≡ false
          → (found : Option String) → Supported kind ps s found
          → Supported kind (p ∷ ps) s found
      later absent none nowhere = ground arith
      later absent (some name) (here, supports, listed) = (ground arith, supports, ground arith)

  abbrev pub Serves : String → List ProviderConfig → String → System W C → String → Type 0
  Serves kind ps default s name =
      ((some_supports kind ps s ≡ true)
        × (supports_resource name kind s ≡ true)
        × (contains (names_of ps) name ≡ true))
      ⊎ ((some_supports kind ps s ≡ false) × (name ≡ fallback ps default))

  -- A provider that is chosen for a kind supports it where any of the list does; else it is the
  -- default provider, or none where that is not in the list.
  pub get_provider_for_resource_lem :
      (kind : String) (ps : List ProviderConfig) (default : String) (s : System W C)
      → Serves kind ps default s (get_provider_for_resource kind ps default s)
  unfolding get_provider_for_resource
  get_provider_for_resource_lem kind ps default s =
      split (supporting kind ps s) (supporting-Supported kind ps s)
    where
      split :
          (found : Option String)
          → Supported kind ps s found
          → Serves kind ps default s (chosen ps default found)
      split none h = inr (h, refl)
      split (some name) h = inl h

  -- A provider supports what was registered for it last, and the registration changes nothing for the
  -- others.
  register_capabilities-supports_resource :
      (name other kind : String) (caps : CapabilitiesResponse) (s : System W C)
      → supports_resource other kind (register_capabilities name (some caps) s)
        ≡ (if name == other then has_kind kind caps.resources else supports_resource other kind s)
  unfolding register_capabilities supports_resource
  register_capabilities-supports_resource name other kind caps s =
      elim (Bool-cases (has name s.providers)) [
        | inl known ↦
            rw
              (
                known,
                lookup-adjust name other
                    (λ (info : ProviderInfo C). record info { capabilities = some caps })
                    s.providers,
              )
              (elim (Bool-cases (name == other)) [
                | inl same ↦ rw same (
                    adjusted (lookup other s.providers) (
                      subst (λ n. is_some (lookup n s.providers) ≡ true)
                        ((eq_iff name other).0 same) known))
                | inr apart ↦ rw apart refl
              ])
        | inr unknown ↦
            rw (unknown, lookup-insert name other (added (some caps)) s.providers)
              (elim (Bool-cases (name == other)) [
                | inl same ↦ rw same refl
                | inr apart ↦ rw apart refl
              ])
      ]
    where
      adjusted :
          (found : Option (ProviderInfo C))
          → is_some found ≡ true
          → has_kind kind (
              capabilities_in (elim found as (λ _. Option (ProviderInfo C)) [
                | none ↦ none
                | some info ↦ some (record info { capabilities = some caps })
              ]))
            ≡ has_kind kind caps.resources
      adjusted none h = absurd (cc)
      adjusted (some info) h = refl
