-- ===== src/Executor/Phases.antt =====
-- pkg/orchestrator/executor.go: `ExecuteCreate` and `executePhase`.
use testenv_vm.Prelude.{
  Bool, true, false, Option, none, some, List, [], ◌∷◌, ◌++◌, if◌then◌else◌, is_empty,
}
use mathlib.Core.Option
use testenv_vm.Api.{ResourceRef, ErrorRecord, failed, Failure, create_failed, save_failed}
use testenv_vm.Executor.Backend.{Backend, Run}
use testenv_vm.Executor.Create.{Plan, create_resource}

pub record ExecutionResult (W : Type 0) : Type 0 where
  pub success : Bool
  pub errors : List Failure
  pub run : Run W

abbrev pub append_failure : (Failure → Failure) → Option Failure → List Failure → List Failure
append_failure wrap none es = es
append_failure wrap (some e) es = wrap e ∷ es

-- `if i < len(phase)`: the i-th error is recorded with the i-th resource of the phase.
unfoldable pub record_errors : List ResourceRef → List Failure → List ErrorRecord
record_errors (ref ∷ phase) (e ∷ es) =
    record { resource = ref; operation = "create"; error = e } ∷ record_errors phase es
record_errors _ _ = []

module _ {W : Type 0} (b : Backend W) (p : Plan) where
  -- The goroutines of a phase, each in its turn.
  unfoldable pub create_all : List ResourceRef → Run W → List Failure × Run W
  create_all [] s = ([], s)
  create_all (ref ∷ refs) s =
      let (e, s₁) = create_resource b p ref s in
      let (es, s₂) = create_all refs s₁ in (append_failure (create_failed ref) e es, s₂)

  unfoldable pub execute_phase : List ResourceRef → Run W → List Failure × Run W
  unfolding create_all
  execute_phase phase s = create_all (b.schedule phase) s

  -- The errors of a phase end the run: they are recorded, and the state is saved as failed.
  unfoldable pub abandon : List ResourceRef → List Failure → Run W → ExecutionResult W
  unfolding record_errors
  abandon phase es s =
      let env' = record s.env {
        errors = s.env.errors ++ record_errors phase es;
        status = failed;
      } in
      let (saved, w) = b.save env' s.world in
      record {
        success = false;
        errors = es ++ append_failure (λ e. e) (Option.map save_failed saved) [];
        run = record s { env = env'; world = w };
      }

  unfoldable pub execute_create : List (List ResourceRef) → Run W → ExecutionResult W
  unfolding execute_phase abandon
  execute_create [] s = record { success = true; errors = []; run = s }
  execute_create (phase ∷ plan) s =
      let (es, s') = execute_phase phase s in
      let rest = execute_create plan s' in
      let skipped = execute_create plan s in
      if is_empty phase then skipped else if is_empty es then rest else abandon phase es s'
