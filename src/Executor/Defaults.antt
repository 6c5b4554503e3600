-- ===== src/Executor/Defaults.antt =====
-- pkg/spec/validator.go, `ValidateProviders`, beside the default provider of executor.go.
use testenv_vm.Api.{ProviderConfig, ResourceRef, KeyResource, Failure, no_provider}
use testenv_vm.Spec.Render.{render_fields, render_key_spec, render_key_resource}
use testenv_vm.Executor.Create.{
  Prepared, wrap_render, flagged_provider, Plan, rendered, prepare_key, prepare, call_create,
  run_prepared, create_resource,
}
use testenv_vm.Prelude.{
  String, ◌≡◌, refl, sym, ap, ◌∙◌, true, false, Option, some, [], ◌∷◌, ◌==◌, eq_iff, contains,
  Result, ◌>>=◌, >>=-eq-ok, ok, err,
}
use testenv_vm.Spec.Context.{TemplateContext, render_string}
use testenv_vm.Spec.Template.{is_templated}
use testenv_vm.Spec.Validator.{valid, count_default, validate_providers, check_providers}
use testenv_vm.Executor.Resources.{find_key_spec}
use testenv_vm.Executor.Backend.{Backend, Run}

wrap_render-ok :
    {A : Type 0} (kind : String) (r : Result String A) {a : A}
    → wrap_render kind r ≡ ok a
    → r ≡ ok a
wrap_render-ok kind (ok a) h = cc
wrap_render-ok kind (err e) h = absurd cc

ok-eq : {E A : Type 0} {a c : A} → Path (Result E A) (ok a) (ok c) → a ≡ c
ok-eq h = cc

render_string-empty :
    (execute : TemplateContext → String → Result String String) (ctx : TemplateContext) (s : String)
    {out : String}
    → s ≡ ""
    → render_string execute ctx s ≡ ok out
    → out ≡ ""
unfolding render_string is_templated
render_string-empty execute ctx s empty h =
    let h' : render_string execute ctx "" ≡ ok _ = rw empty at h in sym (ok-eq h')

-- A provider that is not given is not given after rendering.
render_key_resource-provider :
    (execute : TemplateContext → String → Result String String) (ctx : TemplateContext)
    (key : KeyResource) {out : KeyResource}
    → key.provider ≡ ""
    → render_key_resource (render_string execute ctx) key ≡ ok out
    → out.provider ≡ ""
unfolding render_key_resource render_string is_templated
render_key_resource-provider execute ctx key {out} none_given h =
    let (name, _, h₁) = >>=-eq-ok (render_string execute ctx key.name) _ h in
    let (provider, second, h₂) = >>=-eq-ok (render_string execute ctx key.provider) _ h₁ in
    let (fields, _, h₃) =
      >>=-eq-ok (render_fields (render_string execute ctx) key.provider_spec) _ h₂ in
    let (spec, _, last) = >>=-eq-ok (render_key_spec (render_string execute ctx) key.spec) _ h₃ in
    ap (λ (k : KeyResource). k.provider) (sym (ok-eq last))
    ∙ render_string-empty execute ctx key.provider none_given second

module _ {W : Type 0} (b : Backend W) (p : Plan) (ref : ResourceRef) where
  -- What the creation of a resource without any provider returns: the error of its preparation, or that
  -- no provider is left. Nothing is called, and the run is as it was.
  abbrev pub Refuses : Run W → Option Failure × Run W → Type 0
  Refuses s out =
      (e : Failure) × (out ≡ (some e, s))
      × ((prepared : Prepared) → prepare b p ref s.ctx ≡ ok prepared → e ≡ no_provider ref)

  run_prepared-Refuses :
      (s : Run W) (sole : ProviderConfig) (result : Result Failure Prepared)
      → p.spec.providers ≡ sole ∷ []
      → sole.default ≡ false
      → prepare b p ref s.ctx ≡ result
      → ((prepared : Prepared) → result ≡ ok prepared → prepared.provider ≡ "")
      → Refuses s (run_prepared b p ref result s)
  unfolding run_prepared call_create flagged_provider
  run_prepared-Refuses s sole (err e) only unmarked h none_given =
      (e, refl, λ prepared h'. absurd cc)
  run_prepared-Refuses s sole (ok prepared) only unmarked h none_given =
      (no_provider ref, rw (none_given prepared refl, only, unmarked) refl, λ _ h'. refl)

  module _ (keeps : (k c : KeyResource) → b.copy_key k ≡ ok c → c.provider ≡ k.provider) where
    prepare_key-provider :
        (ctx : TemplateContext) (key : KeyResource) {prepared : Prepared}
        → ref.provider ≡ ""
        → p.spec.default_provider ≡ ""
        → find_key_spec p.spec ref.name ≡ ok key
        → key.provider ≡ ""
        → prepare_key b p ref ctx ≡ ok prepared
        → prepared.provider ≡ ""
    unfolding prepare_key
    prepare_key-provider ctx key unnamed no_default found none_given h =
        let (key', found', h₁) = >>=-eq-ok (find_key_spec p.spec ref.name) _ h in
        let (out, second, last) =
          >>=-eq-ok (wrap_render "key" (b.copy_key key' >>= render_key_resource (rendered b p ctx)))
            _ h₁ in
        let (copy, third, fourth) =
          >>=-eq-ok (b.copy_key key') (render_key_resource (rendered b p ctx))
            (wrap_render-ok "key" _ second) in
        let empty : key'.provider ≡ "" =
          ap (λ (k : KeyResource). k.provider) (sym (ok-eq (sym found ∙ found'))) ∙ none_given in
        let given =
          render_key_resource-provider b.execute_template ctx copy (keeps key' copy third ∙ empty)
            fourth in
        ap (λ (c : Prepared). c.provider) (sym (ok-eq last)) ∙ rw (unnamed, no_default) given

    -- Where the deep copy of a key keeps its provider: a single provider that is not marked as the
    -- default passes validation. And yet, where the
    -- specification names no default provider, it serves no key that names no provider: its creation fails,
    -- for want of a provider if the key can be rendered, and no provider is called.
    pub validate_providers-create_resource :
        (s : Run W) (sole : ProviderConfig) (key : KeyResource)
        → p.spec.providers ≡ sole ∷ []
        → (sole.name == "") ≡ false
        → (sole.engine == "") ≡ false
        → sole.default ≡ false
        → p.spec.default_provider ≡ ""
        → ref.kind ≡ "key"
        → ref.provider ≡ ""
        → find_key_spec p.spec ref.name ≡ ok key
        → key.provider ≡ ""
        → (validate_providers p.spec.providers ≡ valid) × Refuses s (create_resource b p ref s)
    unfolding validate_providers check_providers count_default contains create_resource prepare
    validate_providers-create_resource s sole key only named engine unmarked no_default is_key
          unnamed found none_given =
        let yes_key : (ref.kind == "key") ≡ true = (eq_iff ref.kind "key").1 is_key in
        let no_image : (ref.kind == "image") ≡ false = rw is_key refl in
        let as_key : prepare b p ref s.ctx ≡ prepare_key b p ref s.ctx = rw yes_key refl in
        let (e, out, why) =
          run_prepared-Refuses s sole (prepare_key b p ref s.ctx) only unmarked as_key
            (λ prepared h. prepare_key-provider s.ctx key unnamed no_default found none_given h) in
        (
          rw (only, named, engine, unmarked) refl,
          rw (no_image, yes_key) (e, out, λ prepared h. why prepared (as_key ∙ h)),
        )
