-- ===== src/Executor/Removal.antt =====
-- pkg/orchestrator/executor.go, `ExecuteDelete`, and rollback.go: what a deletion leaves in the state.
use testenv_vm.Prelude.{
  String, ◌≡◌, refl, ap, inl, inr, Bool, true, ◌||◌, Option, none, some, List, [], ◌∷◌, arith, ◌==◌,
  eq_refl, Bool-cases, All, Result, ok, err,
}
use testenv_vm.Api.{ResourceRef, ResourceState, EnvironmentState, destroyed, delete_failed}
use testenv_vm.Api.Provider.{delete, OperationResult}
use testenv_vm.Executor.Isolation.{prefixed_name, IsolationConfig}
use testenv_vm.Executor.Backend.{Backend}
use testenv_vm.Executor.Resources.{get_resource_state, update_resource_state}
use testenv_vm.Executor.Completion.{append_failure-nil}
use testenv_vm.Executor.Delete.{
  is_destroyed, Teardown, already_gone, delete_tool, finish_delete, send_delete, call_delete,
  delete_found, delete_resource, delete_all,
}
use testenv_vm.Executor.States.{is_tracked, get-update_resource_state}

abbrev pub no_longer : Option ResourceState → Bool
no_longer none = true
no_longer (some e) = is_destroyed e.status

-- The state has no entry for the resource, or one that is destroyed.
abbrev pub is_gone : EnvironmentState → ResourceRef → Bool
is_gone env r = no_longer (get_resource_state r env)

abbrev pub IsGone : EnvironmentState → ResourceRef → Type 0
IsGone env r = is_gone env r ≡ true

module _ {W : Type 0} (b : Backend W) (iso : Option IsolationConfig) where
  -- The step takes the environment only further to being gone, and its own resource all the way.
  abbrev Removes : ResourceRef → EnvironmentState → EnvironmentState → Type 0
  Removes ref env env' = IsGone env' ref × ((r : ResourceRef) → IsGone env r → IsGone env' r)

  mark_destroyed-Removes :
      (ref : ResourceRef) (provider : String) (env : EnvironmentState)
      → is_tracked ref ≡ true
      → Removes ref env (update_resource_state ref provider destroyed none "" env)
  mark_destroyed-Removes ref provider env tracked = (
    ground (
      arith,
      get-update_resource_state ref ref provider destroyed none "" env tracked,
      eq_refl ref.kind,
      eq_refl ref.name,
    ),
    λ r h. ground (arith, get-update_resource_state ref r provider destroyed none "" env tracked),
  )

  finish_delete-Removes :
      (ref : ResourceRef) (provider : String) (result : Result String OperationResult)
      (s : Teardown W)
      → is_tracked ref ≡ true
      → (finish_delete b iso ref provider result s).0 ≡ none
      → Removes ref s.env (finish_delete b iso ref provider result s).1.env
  unfolding finish_delete
  finish_delete-Removes ref provider (err e) s tracked h = absurd cc
  finish_delete-Removes ref provider (ok r) s tracked h =
      elim (Bool-cases (r.success || already_gone r)) [
        | inl gone ↦ rw gone (mark_destroyed-Removes ref provider s.env tracked)
        | inr stays ↦ absurd (cc (rw stays at h))
      ]

  delete_tool-tracked :
      (ref : ResourceRef) (tool : String) → delete_tool ref.kind ≡ some tool → is_tracked ref ≡ true
  unfolding delete_tool
  delete_tool-tracked ref tool h = ground arith

  send_delete-Removes :
      (ref : ResourceRef) (provider : String) (tool : Option String) (s : Teardown W)
      → delete_tool ref.kind ≡ tool
      → (send_delete b iso ref provider tool s).0 ≡ none
      → Removes ref s.env (send_delete b iso ref provider tool s).1.env
  unfolding send_delete
  send_delete-Removes ref provider none s kind h = absurd cc
  send_delete-Removes ref provider (some tool) s kind h =
      let (result, w) = b.call provider tool (delete (prefixed_name iso ref.name)) s.world in
      finish_delete-Removes ref provider result (record s { world = w })
        (delete_tool-tracked ref tool kind) h

  delete_found-Removes :
      (ref : ResourceRef) (found : Option ResourceState) (s : Teardown W)
      → get_resource_state ref s.env ≡ found
      → (delete_found b iso ref found s).0 ≡ none
      → Removes ref s.env (delete_found b iso ref found s).1.env
  unfolding delete_found call_delete
  delete_found-Removes ref none s found h = (ap no_longer found, λ r gone. gone)
  delete_found-Removes ref (some entry) s found h = elim (Bool-cases (entry.provider == "")) [
    | inl unknown ↦ absurd (cc (rw unknown at h))
    | inr known ↦
        rw known
          (send_delete-Removes ref entry.provider (delete_tool ref.kind) s refl (rw known at h))
  ]

  delete_resource-Removes :
      (ref : ResourceRef) (s : Teardown W)
      → (delete_resource b iso ref s).0 ≡ none
      → Removes ref s.env (delete_resource b iso ref s).1.env
  unfolding delete_resource
  delete_resource-Removes ref s h = delete_found-Removes ref (get_resource_state ref s.env) s refl h

  pub delete_all-IsGone :
      (refs : List ResourceRef) (s : Teardown W)
      → (delete_all b iso refs s).0 ≡ []
      → All (IsGone (delete_all b iso refs s).1.env) refs
        × ((r : ResourceRef) → IsGone s.env r → IsGone (delete_all b iso refs s).1.env r)
  unfolding delete_all
  delete_all-IsGone [] s h = (tt, λ r gone. gone)
  delete_all-IsGone (ref ∷ refs) s h =
      let (e, s₁) = delete_resource b iso ref s in
      let (no_e, no_es) = append_failure-nil (delete_failed ref) e (delete_all b iso refs s₁).0 h in
      let (gone, keeps) = delete_resource-Removes ref s no_e in
      let (all_gone, all_keeps) = delete_all-IsGone refs s₁ no_es in
      ((all_keeps ref gone, all_gone), λ r was. all_keeps r (keeps r was))
