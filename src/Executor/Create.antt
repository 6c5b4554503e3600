-- ===== src/Executor/Create.antt =====
-- pkg/orchestrator/executor.go: `createResource`.
use testenv_vm.Prelude.{
  String, not, ◌&&◌, Option, none, some, List, [], ◌∷◌, ◌==◌, if◌then◌else◌, Result, ◌>>=◌, ok, err,
}
use testenv_vm.Api.{
  ResourceRef, ready, failed, Failure, Spec, ImageResource, ProviderConfig, Fields, render_failed,
  image_failed, unknown_kind, no_provider, call_failed, returned_error, convert_failed, save_failed,
}
use mathlib.Core.Option
use testenv_vm.Api.Provider.{OperationResult, Request, key_create, network_create, vm_create}
use testenv_vm.Spec.Context.{TemplateContext, render_string}
use testenv_vm.Spec.Render.{render_key_resource, render_network_resource, render_vm_resource}
use testenv_vm.Spec.Validator.References.{TemplatedFields}
use testenv_vm.Spec.Validator.Phases.{validate_network_late, validate_vm_late}
use testenv_vm.Executor.Isolation.{IsolationConfig, prefixed_name}
use testenv_vm.Executor.Convert.{convert_network_spec, isolate_network, convert_vm_spec, isolate_vm}
use testenv_vm.Executor.Backend.{Backend, Run}
use testenv_vm.Executor.Resources.{
  find_key_spec, find_network_spec, find_vm_spec, find_image_spec, convert_resource_to_map,
  update_resource_state, update_template_context, register_image,
}

-- A provider call that is ready to be made. An empty provider is still to be chosen.
pub record Prepared : Type 0 where
  pub tool : String
  pub request : Request
  pub provider : String

abbrev pub wrap_render : {A : Type 0} → String → Result String A → Result Failure A
wrap_render kind (ok a) = ok a
wrap_render kind (err e) = err (render_failed kind e)

-- The first name that is not empty.
abbrev pub or_else : String → String → String
or_else a b = if a == "" then b else a

-- The first provider that is marked as the default.
unfoldable pub flagged_provider : List ProviderConfig → String
flagged_provider [] = ""
flagged_provider (p ∷ ps) = let rest = flagged_provider ps in if p.default then p.name else rest

-- The message of a result without success.
abbrev pub error_message : OperationResult → String
error_message r = elim r.error [ none ↦ "unknown error" | some e ↦ e.message ]

-- What the parameters of `ExecuteCreate` fix for a whole run.
pub record Plan : Type 0 where
  pub spec : Spec
  pub templated : Option TemplatedFields
  pub iso : Option IsolationConfig

module _ {W : Type 0} (b : Backend W) (p : Plan) where
  abbrev pub rendered : TemplateContext → String → Result String String
  rendered = render_string b.execute_template

  -- The reference's provider, else the specification's default.
  abbrev pub named_provider : ResourceRef → String
  named_provider ref = or_else ref.provider p.spec.default_provider

  -- `OutputDir` defaults to the key directory below the state directory.
  unfoldable pub key_output_dir : String → String
  key_output_dir dir =
      if dir == "" && not (p.spec.state_dir == "") then b.join_path p.spec.state_dir "keys" else dir

  unfoldable pub prepare_key : ResourceRef → TemplateContext → Result Failure Prepared
  unfolding key_output_dir
  prepare_key ref ctx = do
    found ← find_key_spec p.spec ref.name
    key ← wrap_render "key" (b.copy_key found >>= render_key_resource (rendered ctx))
    ok (record {
      tool = "key_create";
      request =
          key_create (prefixed_name p.iso ref.name)
            (record {
              type = key.spec.type;
              bits = key.spec.bits;
              comment = key.spec.comment;
              output_dir = key_output_dir key.spec.output_dir;
            })
            key.provider_spec;
      provider = or_else (named_provider ref) key.provider;
    })

  unfoldable pub prepare_network : ResourceRef → TemplateContext → Result Failure Prepared
  prepare_network ref ctx = do
    found ← find_network_spec p.spec ref.name
    network ←
        wrap_render "network" (b.copy_network found >>= render_network_resource (rendered ctx))
    checked ← validate_network_late ref.name network p.templated
    ok (record {
      tool = "network_create";
      request =
          network_create (prefixed_name p.iso ref.name) network.kind
            (isolate_network p.iso (convert_network_spec network.spec)) network.provider_spec;
      provider = or_else (named_provider ref) network.provider;
    })

  unfoldable pub prepare_vm : ResourceRef → TemplateContext → Result Failure Prepared
  prepare_vm ref ctx = do
    found ← find_vm_spec p.spec ref.name
    vm ← wrap_render "vm" (b.copy_vm found >>= render_vm_resource (rendered ctx))
    checked ← validate_vm_late p.spec ref.name vm p.templated
    ok (record {
      tool = "vm_create";
      request =
          vm_create (prefixed_name p.iso ref.name) (isolate_vm p.iso (convert_vm_spec vm.spec))
            vm.provider_spec;
      provider = or_else (named_provider ref) vm.provider;
    })

  unfoldable pub prepare : ResourceRef → TemplateContext → Result Failure Prepared
  unfolding prepare_key prepare_network prepare_vm
  prepare ref ctx =
      if ref.kind == "key"
      then prepare_key ref ctx
      else if ref.kind == "network"
      then prepare_network ref ctx
      else if ref.kind == "vm"
      then prepare_vm ref ctx
      else err (unknown_kind ref.kind)

  -- The `image` case: no provider is called, and the state gets no entry.
  unfoldable pub image_done :
      ResourceRef → ImageResource → Run W → Result String String × W → Option Failure × Run W
  image_done ref image s (err e, w) = (some (image_failed ref.name e), record s { world = w })
  image_done ref image s (ok path, w) =
      (none, record s { world = w; ctx = register_image image ref.name path s.ctx })

  unfoldable pub image_found :
      ResourceRef → Result Failure ImageResource → Run W → Option Failure × Run W
  unfolding image_done
  image_found ref (err e) s = (some e, s)
  image_found ref (ok image) s = image_done ref image s (b.ensure_image ref.name image.spec s.world)

  unfoldable pub create_image : ResourceRef → Run W → Option Failure × Run W
  unfolding image_found
  create_image ref s = image_found ref (find_image_spec p.spec ref.name) s

  abbrev mark_failed : ResourceRef → String → String → Run W → Run W
  mark_failed ref provider message s = record s {
    env = update_resource_state ref provider failed none message s.env;
  }

  -- The state is ready, and then persisted.
  unfoldable pub store_ready : ResourceRef → String → Option Fields → Run W → Option Failure × Run W
  store_ready ref provider state s =
      let env' = update_resource_state ref provider ready state "" s.env in
      let ctx' = update_template_context ref state s.ctx in
      let (saved, w) = b.save env' s.world in
      (Option.map save_failed saved, record { env = env'; ctx = ctx'; world = w })

  unfoldable pub store_converted :
      ResourceRef → String → Option (Option Fields) → Run W → Option Failure × Run W
  unfolding store_ready
  store_converted ref provider none s = (some convert_failed, s)
  store_converted ref provider (some state) s = store_ready ref provider state s

  unfoldable pub finish_create :
      ResourceRef → String → Result String OperationResult → Run W → Option Failure × Run W
  unfolding store_converted
  finish_create ref provider (err e) s = (some (call_failed e), mark_failed ref provider e s)
  finish_create ref provider (ok r) s =
      if not r.success
      then (some (returned_error (error_message r)), mark_failed ref provider (error_message r) s)
      else store_converted ref provider (convert_resource_to_map r.resource) s

  unfoldable pub call_create : ResourceRef → Prepared → Run W → Option Failure × Run W
  unfolding finish_create flagged_provider
  call_create ref prepared s =
      let provider = or_else prepared.provider (flagged_provider p.spec.providers) in
      if provider == ""
      then (some (no_provider ref), s)
      else (let (result, w) = b.call provider prepared.tool prepared.request s.world in
          finish_create ref provider result (record s { world = w }))

  unfoldable pub run_prepared :
      ResourceRef → Result Failure Prepared → Run W → Option Failure × Run W
  unfolding call_create
  run_prepared ref (err e) s = (some e, s)
  run_prepared ref (ok prepared) s = call_create ref prepared s

  unfoldable pub create_resource : ResourceRef → Run W → Option Failure × Run W
  unfolding prepare create_image run_prepared
  create_resource ref s =
      if ref.kind == "image" then create_image ref s else run_prepared ref (prepare ref s.ctx) s
