-- ===== src/Executor/Completion.antt =====
-- pkg/orchestrator/executor.go: how a run of `ExecuteCreate` ends.
use testenv_vm.Prelude.{
  ◌≡◌, refl, Bool, true, not, ◌||◌, Option, none, some, List, [], ◌∷◌, arith, eq_refl, All,
}
use testenv_vm.Api.{ResourceRef, EnvironmentState, Failure, create_failed}
use testenv_vm.Executor.Backend.{Backend, Run}
use testenv_vm.Executor.Create.{Plan, create_resource}
use testenv_vm.Executor.Phases.{append_failure, create_all}
use testenv_vm.Executor.States.{is_tracked, same_resource}
use testenv_vm.Executor.Readiness.{is_ready, create_resource-is_ready}

-- Ready in the state, or of a kind that has no entry there.
abbrev pub is_done : EnvironmentState → ResourceRef → Bool
is_done env r = not (is_tracked r) || is_ready r env

abbrev pub IsDone : EnvironmentState → ResourceRef → Type 0
IsDone env r = is_done env r ≡ true

pub append_failure-nil :
    (wrap : Failure → Failure) (e : Option Failure) (es : List Failure)
    → append_failure wrap e es ≡ []
    → (e ≡ none) × (es ≡ [])
append_failure-nil wrap none es h = (refl, h)
append_failure-nil wrap (some e) es h = absurd cc

same_resource_refl : (r : ResourceRef) → same_resource r r ≡ true
same_resource_refl r = ground (arith, eq_refl r.kind, eq_refl r.name)

module _ {W : Type 0} (b : Backend W) (p : Plan) where
  create_resource-keeps :
      (ref r : ResourceRef) (s : Run W)
      → (create_resource b p ref s).0 ≡ none
      → IsDone s.env r
      → IsDone (create_resource b p ref s).1.env r
  create_resource-keeps ref r s h done =
      let now = create_resource-is_ready b p ref r s h in ground arith

  create_resource-IsDone :
      (ref : ResourceRef) (s : Run W)
      → (create_resource b p ref s).0 ≡ none
      → IsDone (create_resource b p ref s).1.env ref
  create_resource-IsDone ref s h =
      let now = create_resource-is_ready b p ref ref s h in
      let same = same_resource_refl ref in ground arith

  pub create_all-keeps :
      (refs : List ResourceRef) (r : ResourceRef) (s : Run W)
      → (create_all b p refs s).0 ≡ []
      → IsDone s.env r
      → IsDone (create_all b p refs s).1.env r
  unfolding create_all
  create_all-keeps [] r s h done = done
  create_all-keeps (ref ∷ refs) r s h done =
      let (e, s₁) = create_resource b p ref s in
      let (no_e, no_es) = append_failure-nil (create_failed ref) e (create_all b p refs s₁).0 h in
      create_all-keeps refs r s₁ no_es (create_resource-keeps ref r s no_e done)

  pub create_all-IsDone :
      (refs : List ResourceRef) (s : Run W)
      → (create_all b p refs s).0 ≡ []
      → All (IsDone (create_all b p refs s).1.env) refs
  unfolding create_all
  create_all-IsDone [] s h = tt
  create_all-IsDone (ref ∷ refs) s h =
      let (e, s₁) = create_resource b p ref s in
      let (no_e, no_es) = append_failure-nil (create_failed ref) e (create_all b p refs s₁).0 h in
      (
        create_all-keeps refs ref s₁ no_es (create_resource-IsDone ref s no_e),
        create_all-IsDone refs s₁ no_es,
      )
