-- ===== src/Executor/Outcome.antt =====
-- pkg/orchestrator/executor.go, `ExecuteCreate`: its two outcomes.
use testenv_vm.Prelude.{
  ◌≡◌, refl, ap, ◌∙◌, ◌⊎◌, inl, inr, true, false, List, [], ◌∷◌, ◌++◌, Bool-cases, All, All-map,
  is_empty, is_empty-nil,
}
use testenv_vm.Api.{ResourceRef}
use testenv_vm.Executor.Backend.{Backend, Run, IsFair}
use testenv_vm.Executor.Create.{Plan}
use testenv_vm.Executor.Phases.{ExecutionResult, execute_phase, abandon, execute_create}
use testenv_vm.Executor.Completion.{IsDone, create_all-keeps, create_all-IsDone}

abbrev pub completed : {W : Type 0} → Run W → ExecutionResult W
completed s = record { success = true; errors = []; run = s }

module _ {W : Type 0} (b : Backend W) (p : Plan) where
  -- Every phase ran, and every resource of the plan is done.
  abbrev pub Completes : List (List ResourceRef) → Run W → Run W → Type 0
  Completes plan s s' =
      (execute_create b p plan s ≡ completed s')
      × ((r : ResourceRef) → IsDone s.env r → IsDone s'.env r)
      × All (All (IsDone s'.env)) plan

  -- The phases of `before` completed, a resource of `phase` failed, and nothing later was started.
  abbrev pub StopsAt :
      List (List ResourceRef)
      → Run W
      → List (List ResourceRef)
      → List ResourceRef
      → List (List ResourceRef)
      → Run W
      → Type 0
  StopsAt plan s before phase after s' =
      (plan ≡ before ++ phase ∷ after)
      × Completes before s s'
      × (is_empty (execute_phase b p phase s').0 ≡ false)
      × (execute_create b p plan s
          ≡ abandon b p phase (execute_phase b p phase s').0 (execute_phase b p phase s').1)

  module _ (fair : IsFair b) where
    execute_phase-Completes :
        (phase : List ResourceRef) (s : Run W)
        → (execute_phase b p phase s).0 ≡ []
        → ((r : ResourceRef) → IsDone s.env r → IsDone (execute_phase b p phase s).1.env r)
          × All (IsDone (execute_phase b p phase s).1.env) phase
    unfolding execute_phase
    execute_phase-Completes phase s h = (
      λ r. create_all-keeps b p (b.schedule phase) r s h,
      fair.covers phase (IsDone (execute_phase b p phase s).1.env)
          (create_all-IsDone b p (b.schedule phase) s h),
    )

    -- A phase that passes goes before what the rest of the plan does.
    pass :
        (phase : List ResourceRef) (plan : List (List ResourceRef)) (s s₁ s' : Run W)
        → execute_create b p (phase ∷ plan) s ≡ execute_create b p plan s₁
        → ((r : ResourceRef) → IsDone s.env r → IsDone s₁.env r) × All (IsDone s₁.env) phase
        → Completes plan s₁ s'
        → Completes (phase ∷ plan) s s'
    pass phase plan s s₁ s' step (keeps, done) (runs, keeps', done') = (
      step ∙ runs,
      λ r h. keeps' r (keeps r h),
      (All-map (IsDone s₁.env) (IsDone s'.env) keeps' phase done, done'),
    )

    pass-StopsAt :
        (first : List ResourceRef) (plan : List (List ResourceRef)) (s s₁ s' : Run W)
        (before after : List (List ResourceRef)) (phase : List ResourceRef)
        → ((rest : List (List ResourceRef))
            → execute_create b p (first ∷ rest) s ≡ execute_create b p rest s₁)
        → ((r : ResourceRef) → IsDone s.env r → IsDone s₁.env r) × All (IsDone s₁.env) first
        → StopsAt plan s₁ before phase after s'
        → StopsAt (first ∷ plan) s (first ∷ before) phase after s'
    pass-StopsAt first plan s s₁ s' before after phase step effect (split, passed, fails, ends) = (
      ap (λ rest. first ∷ rest) split,
      pass first before s s₁ s' (step before) effect passed,
      fails,
      step plan ∙ ends,
    )

    step-nil : (s : Run W) → execute_create b p [] s ≡ completed s
    unfolding execute_create
    step-nil s = refl

    -- An empty phase is skipped, and a phase without errors is followed by the rest.
    step-skip :
        (s : Run W) (rest : List (List ResourceRef))
        → execute_create b p ([] ∷ rest) s ≡ execute_create b p rest s
    unfolding execute_create
    step-skip s rest = refl

    step-pass :
        (phase : List ResourceRef) (s : Run W)
        → is_empty phase ≡ false
        → (execute_phase b p phase s).0 ≡ []
        → (rest : List (List ResourceRef))
        → execute_create b p (phase ∷ rest) s
          ≡ execute_create b p rest (execute_phase b p phase s).1
    unfolding execute_create
    step-pass phase s some_phase no_errors rest = rw (some_phase, no_errors) refl

    step-abandon :
        (phase : List ResourceRef) (s : Run W)
        → is_empty phase ≡ false
        → is_empty (execute_phase b p phase s).0 ≡ false
        → (rest : List (List ResourceRef))
        → execute_create b p (phase ∷ rest) s
          ≡ abandon b p phase (execute_phase b p phase s).0 (execute_phase b p phase s).1
    unfolding execute_create
    step-abandon phase s some_phase errors rest = rw (some_phase, errors) refl

    abbrev pub Ends : List (List ResourceRef) → Run W → Type 0
    Ends plan s =
        ((s' : Run W) × Completes plan s s')
        ⊎ ((before : List (List ResourceRef)) × (phase : List ResourceRef) × (after : List
              (List ResourceRef))
            × (s' : Run W) × StopsAt plan s before phase after s')

    pass-Ends :
        (first : List ResourceRef) (plan : List (List ResourceRef)) (s s₁ : Run W)
        → ((rest : List (List ResourceRef))
            → execute_create b p (first ∷ rest) s ≡ execute_create b p rest s₁)
        → ((r : ResourceRef) → IsDone s.env r → IsDone s₁.env r) × All (IsDone s₁.env) first
        → Ends plan s₁
        → Ends (first ∷ plan) s
    pass-Ends first plan s s₁ step effect (inl (s', completes)) =
        inl (s', pass first plan s s₁ s' (step plan) effect completes)
    pass-Ends first plan s s₁ step effect (inr (before, phase, after, s', stops)) = inr (
      first ∷ before,
      phase,
      after,
      s',
      pass-StopsAt first plan s s₁ s' before after phase step effect stops,
    )

    -- Where every goroutine takes its turn, a run either completes its whole plan, with every key, network
    -- and VM of it ready and none that was ready lost, or stops at the first phase with an error, with the
    -- phases before it completed and none after it started.
    pub execute_create-Ends : (plan : List (List ResourceRef)) (s : Run W) → Ends plan s
    execute_create-Ends [] s = inl (s, (step-nil s, (λ r h. h), tt))
    execute_create-Ends ([] ∷ plan) s =
        pass-Ends [] plan s s (step-skip s) (λ r h. h, tt) (execute_create-Ends plan s)
    execute_create-Ends ((ref ∷ refs) ∷ plan) s =
        let phase : List ResourceRef = ref ∷ refs in
        let s₁ = (execute_phase b p phase s).1 in
        elim (Bool-cases (is_empty (execute_phase b p phase s).0)) [
          | inl passes ↦
              let none_left = is_empty-nil (execute_phase b p phase s).0 passes in
              pass-Ends phase plan s s₁ (step-pass phase s refl none_left)
                (execute_phase-Completes phase s none_left) (execute_create-Ends plan s₁)
          | inr fails ↦ inr (
            [],
            phase,
            plan,
            s,
            (refl, (step-nil s, (λ r h. h), tt), fails, step-abandon phase s refl fails plan),
          )
        ]
