-- ===== src/Executor/Reports.antt =====
-- pkg/orchestrator/executor.go: what `ExecuteCreate` reports of an error.
use testenv_vm.Prelude.{◌≡◌, refl, inl, inr, false, none, some, List, [], ◌∷◌, Bool-cases, is_empty}
use testenv_vm.Api.{ResourceRef, ErrorRecord, Failure, failed, create_failed}
use testenv_vm.Executor.Backend.{Backend, Run}
use testenv_vm.Executor.Create.{Plan, create_resource}
use testenv_vm.Executor.Phases.{
  ExecutionResult, record_errors, create_all, execute_phase, abandon, execute_create,
}

module _ {W : Type 0} (b : Backend W) (p : Plan) where
  abbrev pub IsReported : ExecutionResult W → Type 0
  IsReported r = (is_empty r.errors ≡ false) × (r.run.env.status ≡ failed)

  abandon-IsReported :
      (phase : List ResourceRef) (es : List Failure) (s : Run W)
      → is_empty es ≡ false
      → IsReported (abandon b p phase es s)
  unfolding abandon
  abandon-IsReported phase [] s h = absurd cc
  abandon-IsReported phase (e ∷ es) s h = (refl, refl)

  -- A run without success has an error to show, and leaves the environment marked as failed.
  pub execute_create-IsReported :
      (plan : List (List ResourceRef)) (s : Run W)
      → (execute_create b p plan s).success ≡ false
      → IsReported (execute_create b p plan s)
  unfolding execute_create
  execute_create-IsReported [] s h = absurd cc
  execute_create-IsReported ([] ∷ plan) s h = execute_create-IsReported plan s h
  execute_create-IsReported ((ref ∷ refs) ∷ plan) s h =
      let (es, s₁) = execute_phase b p (ref ∷ refs) s in
      elim (Bool-cases (is_empty es)) [
        | inl passes ↦ rw passes (execute_create-IsReported plan s₁ (rw passes at h))
        | inr fails ↦ rw fails (abandon-IsReported (ref ∷ refs) es s₁ fails)
      ]

  abbrev pub blamed : ResourceRef → ResourceRef → Failure → ErrorRecord
  blamed ref culprit e = record {
    resource = ref;
    operation = "create";
    error = create_failed culprit e;
  }

  -- Of two resources in a phase, the second of which alone fails, the record names the first: its
  -- text is about the second.
  pub record_errors-create_all :
      (first second : ResourceRef) (e : Failure) (s : Run W)
      → (create_resource b p first s).0 ≡ none
      → (create_resource b p second (create_resource b p first s).1).0 ≡ some e
      → record_errors (first ∷ second ∷ []) (create_all b p (first ∷ second ∷ []) s).0
        ≡ blamed first second e ∷ []
  unfolding record_errors create_all
  record_errors-create_all first second e s passes fails = rw (passes, fails) refl
