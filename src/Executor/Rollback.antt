-- ===== src/Executor/Rollback.antt =====
-- pkg/orchestrator/executor.go, `ExecuteDelete`, and rollback.go, `Rollback`: whole runs.
use testenv_vm.Prelude.{
  ◌≡◌, refl, ◌⊎◌, inl, inr, true, false, Option, none, some, List, [], ◌∷◌, ◌++◌, arith, Bool-cases,
  All, All-map, is_empty, is_empty-nil,
}
use mathlib.Core.List.{reverse, reverse_aux}
use testenv_vm.Api.{
  destroying, failed, destroyed, Failure, ResourceRef, ResourceState, EnvironmentState,
}
use testenv_vm.Executor.Isolation.{IsolationConfig}
use testenv_vm.Executor.Backend.{Backend, IsFair}
use testenv_vm.Executor.Resources.{get_resource_state}
use testenv_vm.Executor.Delete.{
  close_rollback, rollback, Teardown, phases_of, delete_all, delete_phases, execute_delete,
  save_state, to_roll_back, still_there, rollback_phase, rollback_phases,
}
use testenv_vm.Executor.Removal.{IsGone, no_longer, delete_all-IsGone}

All-reverse_aux {ℓ κ} :
    {A : Type ℓ} (P : A → Type κ) (xs acc : List A)
    → All P (reverse_aux xs acc)
    → All P xs × All P acc
All-reverse_aux P [] acc h = (tt, h)
All-reverse_aux P (x ∷ xs) acc h =
    let (rest, (hx, hacc)) = All-reverse_aux P xs (x ∷ acc) h in ((hx, rest), hacc)

reverse_aux-not_empty {ℓ} :
    {A : Type ℓ} (xs acc : List A) → is_empty acc ≡ false → is_empty (reverse_aux xs acc) ≡ false
reverse_aux-not_empty [] acc h = h
reverse_aux-not_empty (x ∷ xs) acc h = reverse_aux-not_empty xs (x ∷ acc) refl

reverse-not_empty {ℓ} :
    {A : Type ℓ} (xs : List A) → is_empty xs ≡ false → is_empty (reverse xs) ≡ false
reverse-not_empty [] h = h
reverse-not_empty (x ∷ xs) h = reverse_aux-not_empty xs (x ∷ []) refl

append-nil_both {ℓ} : {A : Type ℓ} (xs ys : List A) → xs ++ ys ≡ [] → (xs ≡ []) × (ys ≡ [])
append-nil_both [] ys h = (refl, h)
append-nil_both (x ∷ xs) ys h = absurd cc

still_there-no_longer :
    (entry : Option ResourceState) → still_there entry ≡ false → no_longer entry ≡ true
unfolding still_there
still_there-no_longer none h = refl
still_there-no_longer (some e) h = ground arith

-- What leaves a resource alone that the state does not hold keeps the selection's complement gone.
to_roll_back-IsGone :
    (refs : List ResourceRef) (env env' : EnvironmentState)
    → ((r : ResourceRef) → IsGone env r → IsGone env' r)
    → All (IsGone env') (to_roll_back env refs)
    → All (IsGone env') refs
unfolding to_roll_back
to_roll_back-IsGone [] env env' keeps h = tt
to_roll_back-IsGone (ref ∷ refs) env env' keeps h =
    elim (Bool-cases (still_there (get_resource_state ref env))) [
      | inl there ↦
          let both : All (IsGone env') (ref ∷ to_roll_back env refs) = rw there at h in
          (both.0, to_roll_back-IsGone refs env env' keeps both.1)
      | inr gone ↦
          let others : All (IsGone env') (to_roll_back env refs) = rw gone at h in
          (
            keeps ref (still_there-no_longer (get_resource_state ref env) gone),
            to_roll_back-IsGone refs env env' keeps others,
          )
    ]

module _ {W : Type 0} (b : Backend W) (iso : Option IsolationConfig) (fair : IsFair b) where
  delete_phases-IsGone :
      (phases : List (List ResourceRef)) (s : Teardown W)
      → (delete_phases b iso phases s).0 ≡ []
      → All (All (IsGone (delete_phases b iso phases s).1.env)) phases
        × ((r : ResourceRef) → IsGone s.env r → IsGone (delete_phases b iso phases s).1.env r)
  unfolding delete_phases
  delete_phases-IsGone [] s h = (tt, λ r gone. gone)
  delete_phases-IsGone ([] ∷ phases) s h =
      let (all_gone, keeps) = delete_phases-IsGone phases s h in ((tt, all_gone), keeps)
  delete_phases-IsGone ((ref ∷ refs) ∷ phases) s h =
      let phase : List ResourceRef = ref ∷ refs in
      let (es, s₁) = delete_all b iso (b.schedule phase) s in
      let s₂ = (delete_phases b iso phases s₁).1 in
      let (no_es, no_rest) = append-nil_both es (delete_phases b iso phases s₁).0 h in
      let (gone, keeps) = delete_all-IsGone b iso (b.schedule phase) s no_es in
      let (all_gone, all_keeps) = delete_phases-IsGone phases s₁ no_rest in
      let phase_gone = fair.covers phase (IsGone s₁.env) gone in
      (
        (All-map (IsGone s₁.env) (IsGone s₂.env) all_keeps phase phase_gone, all_gone),
        λ r was. all_keeps r (keeps r was),
      )

  -- Where every goroutine takes its turn, a deletion without errors leaves no resource of the plan in the
  -- state but as destroyed.
  pub execute_delete-IsGone :
      (s : Teardown W)
      → (execute_delete b iso s).0 ≡ []
      → All (All (IsGone (execute_delete b iso s).1.env)) (phases_of s.env)
  unfolding execute_delete
  execute_delete-IsGone s h =
      (All-reverse_aux (All (IsGone (execute_delete b iso s).1.env)) (phases_of s.env) []
        (delete_phases-IsGone (reverse (phases_of s.env)) s h).0).0

  rollback_phase-IsGone :
      (phase : List ResourceRef) (s : Teardown W)
      → (rollback_phase b iso phase s).0 ≡ []
      → All (IsGone (rollback_phase b iso phase s).1.env) phase
        × ((r : ResourceRef) → IsGone s.env r → IsGone (rollback_phase b iso phase s).1.env r)
  unfolding rollback_phase save_state
  rollback_phase-IsGone [] s h = (tt, λ r gone. gone)
  rollback_phase-IsGone (ref ∷ refs) s h =
      let todo = to_roll_back s.env (ref ∷ refs) in
      let (es, s₁) = delete_all b iso (b.schedule todo) s in
      let (no_es, no_save) = append-nil_both es (save_state b iso s₁).0 h in
      let (gone, keeps) = delete_all-IsGone b iso (b.schedule todo) s no_es in
      (
        to_roll_back-IsGone (ref ∷ refs) s.env s₁.env keeps (fair.covers todo (IsGone s₁.env) gone),
        keeps,
      )

  rollback_phases-IsGone :
      (phases : List (List ResourceRef)) (s : Teardown W)
      → (rollback_phases b iso phases s).0 ≡ []
      → All (All (IsGone (rollback_phases b iso phases s).1.env)) phases
        × ((r : ResourceRef) → IsGone s.env r → IsGone (rollback_phases b iso phases s).1.env r)
  unfolding rollback_phases
  rollback_phases-IsGone [] s h = (tt, λ r gone. gone)
  rollback_phases-IsGone (phase ∷ phases) s h =
      let (es, s₁) = rollback_phase b iso phase s in
      let s₂ = (rollback_phases b iso phases s₁).1 in
      let (no_es, no_rest) = append-nil_both es (rollback_phases b iso phases s₁).0 h in
      let (gone, keeps) = rollback_phase-IsGone phase s no_es in
      let (all_gone, all_keeps) = rollback_phases-IsGone phases s₁ no_rest in
      (
        (All-map (IsGone s₁.env) (IsGone s₂.env) all_keeps phase gone, all_gone),
        λ r was. all_keeps r (keeps r was),
      )

  -- Each resource of the plan is gone, as `IsGone` says, or an error is reported and the environment stays marked as failed.
  abbrev pub RollsBack : Teardown W → Type 0
  RollsBack s =
      let (es, s') = rollback b iso s in
      ((s'.env.status ≡ destroyed) × All (All (IsGone s'.env)) (phases_of s.env))
      ⊎ ((s'.env.status ≡ failed) × (is_empty es ≡ false))

  not_empty-append : (xs ys : List Failure) → is_empty xs ≡ false → is_empty (xs ++ ys) ≡ false
  not_empty-append [] ys h = absurd cc
  not_empty-append (x ∷ xs) ys h = refl

  -- Where every goroutine takes its turn, the rollback of a plan with phases either marks the
  -- environment as destroyed, with no resource of the plan left but as destroyed, or marks it as failed and
  -- returns an error.
  pub rollback_ends : (s : Teardown W) → is_empty (phases_of s.env) ≡ false → RollsBack s
  unfolding rollback close_rollback save_state get_resource_state
  rollback_ends s planned =
      let phases = reverse (phases_of s.env) in
      let some_phases = reverse-not_empty (phases_of s.env) planned in
      let (es₁, s₁) = save_state b iso (record s { env = record s.env { status = destroying } }) in
      let (es₂, s₂) = rollback_phases b iso phases s₁ in
      elim (Bool-cases (is_empty (es₁ ++ es₂))) [
        | inl none_left ↦
            let clean = append-nil_both es₁ es₂ (is_empty-nil (es₁ ++ es₂) none_left) in
            let gone = (rollback_phases-IsGone phases s₁ clean.1).0 in
            inl (
              rw (some_phases, none_left)
                (refl, (All-reverse_aux (All (IsGone s₂.env)) (phases_of s.env) [] gone).0))
        | inr some_left ↦
            inr (rw (some_phases, some_left) (refl, not_empty-append (es₁ ++ es₂) _ some_left))
      ]
