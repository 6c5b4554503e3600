-- ===== src/Orchestrator/Deleted.antt =====
-- pkg/orchestrator/orchestrator.go, `Delete`: what it does where the state is missing, and what it
-- leaves.
use testenv_vm.Orchestrator.{
  LoadError, Services, Config, is_not_found_error, clean_up, delete_loaded, delete_from,
  delete_environment,
}
use testenv_vm.Api.{EnvironmentState}
use testenv_vm.Prelude.{
  String, ◌≡◌, refl, inl, inr, Bool, true, ◌||◌, none, ◌==◌, Bool-cases, Result, ok, err,
}

module _ {W : Type 0} (s : Services W) (config : Config) where
  abbrev pub is_absent : LoadError → Bool
  is_absent e = e.is_not_exist || is_not_found_error s config e

  -- The state cannot be loaded, since it is missing.
  abbrev pub IsMissing : String → W → Type 0
  IsMissing id w = (e : LoadError) × (s.load id w ≡ err e) × (is_absent e ≡ true)

  pub missing-delete_environment :
      (id : String) (w : W) → IsMissing id w → delete_environment s config id w ≡ (none, w)
  unfolding delete_environment delete_from
  missing-delete_environment id w (e, loads, absent) = rw (loads, absent) refl

  -- `Gone` says of a world that it holds nothing of the state.
  module _ (id : String) (Gone : W → Type 0) (missing : (w : W) → Gone w → IsMissing id w)
      (removed : (w : W) → Gone (s.remove_state id w).1)
      (kept : (dir : String) (w : W) → Gone w → Gone (s.remove_all dir w).1) where
    clean_up-Gone : (dir : String) (w : W) → Gone (clean_up s config id dir w)
    unfolding clean_up
    clean_up-Gone dir w = elim (Bool-cases (dir == "")) [
      | inl nowhere ↦ rw nowhere (removed w)
      | inr somewhere ↦ rw somewhere (kept dir (s.remove_state id w).1 (removed w))
    ]

    delete_loaded-IsMissing :
        (env : EnvironmentState) (w : W) → IsMissing id (delete_loaded s config id env w)
    unfolding delete_loaded
    delete_loaded-IsMissing env w = missing _ (clean_up-Gone _ _)

    delete_from-IsMissing :
        (loaded : Result LoadError EnvironmentState) (w : W)
        → s.load id w ≡ loaded
        → (delete_from s config id loaded w).0 ≡ none
        → IsMissing id (delete_from s config id loaded w).1
    unfolding delete_from
    delete_from-IsMissing (ok env) w loads returns = delete_loaded-IsMissing env w
    delete_from-IsMissing (err e) w loads returns = elim (Bool-cases (is_absent e)) [
      | inl absent ↦ rw absent (e, loads, absent)
      | inr broken ↦ absurd (let h = rw broken at returns in cc)
    ]

    pub delete_environment-IsMissing :
        (w : W)
        → (delete_environment s config id w).0 ≡ none
        → IsMissing id (delete_environment s config id w).1
    unfolding delete_environment
    delete_environment-IsMissing w returns = delete_from-IsMissing (s.load id w) w refl returns
