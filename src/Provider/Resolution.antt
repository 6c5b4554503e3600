-- ===== src/Provider/Resolution.antt =====
-- pkg/provider/manager.go: `stripVersion`, `resolveEngine` and the walk of `isWorkspaceModule`.
use testenv_vm.Provider.Engine.{
  Command, EngineError, Host, trim_prefix, strip_version, has_char, is_external_module,
  find_go_work, in_work_file, is_workspace_module, go_run, is_local_copy, resolve_external,
  resolve_internal, resolve_go_engine, resolve_engine,
}
use testenv_vm.Prelude.{
  ℕ, zero, suc, ◌<◌, String, ◌≡◌, refl, ap, ◌∙◌, ◌≢◌, ◌⊎◌, inl, inr, true, false, Option, none,
  some, arith, ◌==◌, eq_iff, eqb, Bool-cases, Result, ok, err,
}
use mathlib.Core.Option
use Prim.Native.String.{◌++◌ as str_append, count}
use Prim.Native.Char.{code}
use text.Mathlib.Text.{starts_with}
use text.Mathlib.TextLemmas.{nil-append, cons-append}

-- The path and the version make up the text, and the path holds no `@`.
strip_version_lem :
    (s : String)
    → let (path, version) = strip_version s in
      (str_append path version ≡ s) × (has_char b'@' path ≡ false)
unfolding strip_version
strip_version_lem String.[] = (nil-append _, refl)
strip_version_lem (String.◌∷◌ c s) =
    let (joined, plain) = strip_version_lem s in
    elim (Bool-cases (eqb (code c) b'@')) [
      | inl at_sign ↦ rw at_sign (nil-append _, refl)
      | inr other ↦ rw other (cons-append c _ _ ∙ ap (λ t. String.◌∷◌ c t) joined, rw other plain)
    ]

map-none : {A B : Type 0} (f : A → B) (found : Option A) → Option.map f found ≡ none → found ≡ none
map-none f none e = refl
map-none f (some x) e = absurd cc

module _ (host : Host) where
  abbrev pub IsGoRun : Result EngineError Command → Type 0
  IsGoRun (err e) = Unit
  IsGoRun (ok command) = (path : String) × (command ≡ go_run host path)

  resolve_internal-IsGoRun :
      (engine path version : String) → IsGoRun (resolve_internal host engine path version)
  unfolding resolve_internal
  resolve_internal-IsGoRun engine path version = elim (Bool-cases (version == "")) [
    | inr versioned ↦ rw versioned tt
    | inl plain ↦ elim (Bool-cases host.run_local) [
      | inl enabled ↦ rw (plain, enabled) (_, refl)
      | inr disabled ↦ rw (plain, disabled) tt
    ]
  ]

  resolve_external-IsGoRun :
      (path version : String) → IsGoRun (ok (resolve_external host path version))
  unfolding resolve_external
  resolve_external-IsGoRun path version = elim (Bool-cases (is_local_copy host path)) [
    | inl copy ↦ rw copy (_, refl)
    | inr fetched ↦ rw fetched (_, refl)
  ]

  -- An engine that starts with `go://` is never looked up as a binary: what it resolves to is `go run` of
  -- one package.
  pub resolve_engine-IsGoRun :
      (engine : String) → starts_with engine "go://" ≡ true → IsGoRun (resolve_engine host engine)
  unfolding resolve_engine resolve_go_engine
  resolve_engine-IsGoRun engine go =
      let (path, version) = strip_version (trim_prefix engine "go://") in
      elim (Bool-cases (is_external_module path)) [
        | inl external ↦ rw (go, external) (resolve_external-IsGoRun path version)
        | inr internal ↦ rw (go, internal) (resolve_internal-IsGoRun engine path version)
      ]

  -- `filepath.Dir` of an absolute path is absolute, and shorter but at the root.
  abbrev pub IsClimbing : Type 0
  IsClimbing =
      (d : String)
      → host.is_absolute d ≡ true
      → (host.is_absolute (host.parent d) ≡ true)
        × ((host.parent d ≡ d) ⊎ (count (host.parent d) < count d))

  find_go_work-ends :
      (climbs : IsClimbing) (fuel : ℕ) (d : String)
      → host.is_absolute d ≡ true
      → count d < fuel
      → find_go_work host fuel d ≢ none
  unfolding find_go_work
  find_go_work-ends climbs zero d rooted enough = absurd (omega arith)
  find_go_work-ends climbs (suc fuel) d rooted enough =
      let (rooted_up, up) = climbs d rooted in
      elim (Bool-cases (host.exists (host.join_path d "go.work"))) [
        | inl here ↦ rw here (λ e. absurd cc)
        | inr not_here ↦ elim (Bool-cases (host.parent d == d)) [
          | inl root ↦ rw (not_here, root) (λ e. absurd cc)
          | inr below ↦
              rw (not_here, below)
                (elim up [
                  | inl same ↦ absurd (let h = (eq_iff (host.parent d) d).1 same in cc)
                  | inr shorter ↦
                      find_go_work-ends climbs fuel (host.parent d) rooted_up (omega arith)
                ])
        ]
      ]

  -- From an absolute working directory the search for go.work ends within the fuel that it is given.
  pub is_workspace_module-ends :
      (module_path d : String)
      → IsClimbing
      → host.working_directory ≡ some d
      → host.is_absolute d ≡ true
      → is_workspace_module host module_path ≢ none
  unfolding is_workspace_module
  is_workspace_module-ends module_path d climbs here rooted = rw here (λ e.
      find_go_work-ends climbs (suc (count d)) d rooted (omega arith)
        (map-none (in_work_file host module_path) _ e))
