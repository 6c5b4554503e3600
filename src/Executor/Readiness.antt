-- ===== src/Executor/Readiness.antt =====
-- pkg/orchestrator/executor.go: what a successful creation leaves in the state.
use testenv_vm.Api.{
  Fields, ResourceRef, ImageResource, Status, ResourceState, Failure, EnvironmentState, ready,
  unknown_kind,
}
use testenv_vm.Executor.States.{is_tracked, same_resource, entry_of, get-update_resource_state}
use testenv_vm.Prelude.{
  String, ◌≡◌, refl, ap, inl, inr, Bool, true, false, ◌&&◌, ◌||◌, Option, none, some, arith, ◌==◌,
  eq_iff, if◌then◌else◌, Bool-cases, Result, ok, err,
}
use testenv_vm.Api.Provider.{OperationResult}
use testenv_vm.Executor.Backend.{Backend, Run}
use testenv_vm.Executor.Resources.{get_resource_state, convert_resource_to_map, find_image_spec}
use testenv_vm.Executor.Create.{
  prepare_vm, prepare_network, Plan, Prepared, or_else, flagged_provider, store_converted,
  image_found, run_prepared, prepare, create_image, image_done, store_ready, finish_create,
  call_create, create_resource,
}

abbrev is_ready_status : Status → Bool
is_ready_status ready = true
is_ready_status _ = false

abbrev pub is_ready : ResourceRef → EnvironmentState → Bool
is_ready r env = elim (get_resource_state r env) [
  | none ↦ false
  | some e ↦ is_ready_status e.status
]

module _ {W : Type 0} (b : Backend W) (p : Plan) (ref r : ResourceRef) where
  -- The entry of the one resource is ready, and that of any other is as it was.
  abbrev Writes : EnvironmentState → EnvironmentState → Type 0
  Writes before after =
      (e : ResourceState) × (e.status ≡ ready)
      × (e.error ≡ "")
      × (get_resource_state r after
          ≡ (if same_resource ref r then some e else get_resource_state r before))

  store_ready-Writes :
      (provider : String) (state : Option Fields) (s : Run W)
      → is_tracked ref ≡ true
      → Writes s.env (store_ready b p ref provider state s).1.env
  unfolding store_ready
  store_ready-Writes provider state s tracked = (
    entry_of provider ready state "",
    refl,
    refl,
    get-update_resource_state ref r provider ready state "" s.env tracked,
  )

  store_converted-Writes :
      (provider : String) (m : Option (Option Fields)) (s : Run W)
      → is_tracked ref ≡ true
      → (store_converted b p ref provider m s).0 ≡ none
      → Writes s.env (store_converted b p ref provider m s).1.env
  unfolding store_converted
  store_converted-Writes provider none s tracked h = absurd cc
  store_converted-Writes provider (some state) s tracked h =
      store_ready-Writes provider state s tracked

  finish_create-Writes :
      (provider : String) (result : Result String OperationResult) (s : Run W)
      → is_tracked ref ≡ true
      → (finish_create b p ref provider result s).0 ≡ none
      → Writes s.env (finish_create b p ref provider result s).1.env
  unfolding finish_create
  finish_create-Writes provider (err e) s tracked h = absurd cc
  finish_create-Writes provider (ok result) s tracked h = elim (Bool-cases result.success) [
    | inr failed_result ↦ absurd (cc (rw failed_result at h))
    | inl succeeded ↦ rw succeeded (
        store_converted-Writes provider (convert_resource_to_map result.resource) s tracked
          (rw succeeded at h))
  ]

  image_done-env :
      (image : ImageResource) (s : Run W) (done : Result String String × W)
      → (image_done b p ref image s done).1.env ≡ s.env
  unfolding image_done
  image_done-env image s (err e, w) = refl
  image_done-env image s (ok path, w) = refl

  image_found-env :
      (found : Result Failure ImageResource) (s : Run W)
      → (image_found b p ref found s).1.env ≡ s.env
  unfolding image_found
  image_found-env (err e) s = refl
  image_found-env (ok image) s = image_done-env image s (b.ensure_image ref.name image.spec s.world)

  call_create-Writes :
      (prepared : Prepared) (s : Run W)
      → is_tracked ref ≡ true
      → (call_create b p ref prepared s).0 ≡ none
      → Writes s.env (call_create b p ref prepared s).1.env
  unfolding call_create
  call_create-Writes prepared s tracked h =
      let provider = or_else prepared.provider (flagged_provider p.spec.providers) in
      let (result, w) = b.call provider prepared.tool prepared.request s.world in
      elim (Bool-cases (provider == "")) [
        | inl none_left ↦ absurd (cc (rw none_left at h))
        | inr chosen ↦
            rw chosen (
              finish_create-Writes provider result (record s { world = w }) tracked
                (rw chosen at h))
      ]

  run_prepared-Writes :
      (prepared : Result Failure Prepared) (s : Run W)
      → is_tracked ref ≡ true
      → (run_prepared b p ref prepared s).0 ≡ none
      → Writes s.env (run_prepared b p ref prepared s).1.env
  unfolding run_prepared
  run_prepared-Writes (err e) s tracked h = absurd cc
  run_prepared-Writes (ok prepared) s tracked h = call_create-Writes prepared s tracked h

  image-not_tracked : (ref.kind == "image") ≡ true → is_tracked ref ≡ false
  image-not_tracked image = rw ((eq_iff ref.kind "image").0 image) refl

  -- A preparation succeeds for tracked kinds only.
  run_prepared-tracked :
      (s : Run W)
      → (run_prepared b p ref (prepare b p ref s.ctx) s).0 ≡ none
      → is_tracked ref ≡ true
  unfolding run_prepared prepare
  run_prepared-tracked s h = elim (Bool-cases (ref.kind == "key")) [
    | inl key ↦ rw key refl
    | inr no_key ↦
        let h₁ : (run_prepared b p ref
              (if ref.kind == "network"
                then prepare_network b p ref s.ctx
                else if ref.kind == "vm"
                then prepare_vm b p ref s.ctx
                else err (unknown_kind ref.kind))
              s).0
            ≡ none =
          rw no_key at h in
        elim (Bool-cases (ref.kind == "network")) [
          | inl network ↦ ground arith
          | inr no_network ↦ elim (Bool-cases (ref.kind == "vm")) [
            | inl vm ↦ ground arith
            | inr no_vm ↦ let h₂ = rw no_network at h₁ in let h₃ = rw no_vm at h₂ in absurd cc
          ]
        ]
  ]

  -- A successful creation of a key, a network or a VM leaves a ready entry without an error for it, and
  -- the entries of all other resources as they were. That of an image leaves every entry as it was.
  pub create_resource-writes :
      (s : Run W)
      → (create_resource b p ref s).0 ≡ none
      → (e : ResourceState) × (e.status ≡ ready)
        × (e.error ≡ "")
        × (get_resource_state r (create_resource b p ref s).1.env ≡ (
            if is_tracked ref && same_resource ref r then some e else get_resource_state r s.env))
  unfolding create_resource create_image
  create_resource-writes s h = elim (Bool-cases (ref.kind == "image")) [
    | inl image ↦ (
      entry_of "" ready none "",
      refl,
      refl,
      rw image (
          rw (image-not_tracked image) (
            ap (λ env. get_resource_state r env)
              (image_found-env (find_image_spec p.spec ref.name) s))),
    )
    | inr other ↦
        let h' : (run_prepared b p ref (prepare b p ref s.ctx) s).0 ≡ none = rw other at h in
        let tracked = run_prepared-tracked s h' in
        rw other (rw tracked (run_prepared-Writes (prepare b p ref s.ctx) s tracked h'))
  ]

  -- In terms of readiness alone.
  pub create_resource-is_ready :
      (s : Run W)
      → (create_resource b p ref s).0 ≡ none
      → is_ready r (create_resource b p ref s).1.env
        ≡ (is_tracked ref && same_resource ref r || is_ready r s.env)
  create_resource-is_ready s h =
      let (e, status, _, now) = create_resource-writes s h in ground arith
