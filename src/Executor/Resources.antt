-- ===== src/Executor/Resources.antt =====
-- pkg/orchestrator/executor.go: the resources of the specification, of the state and of the template
-- context, by name.
use testenv_vm.Prelude.{
  String, Option, none, some, List, [], ◌∷◌, ◌==◌, if◌then◌else◌, lookup, insert, Result, ok, err,
}
use testenv_vm.Api.{
  ResourceRef, ResourceState, ResourceMap, EnvironmentState, Status, Failure, Spec, KeyResource,
  NetworkResource, VmResource, ImageResource, Value, Fields, text, object, null, end, field,
  key_not_found, network_not_found, vm_not_found, image_not_found,
}
use testenv_vm.Spec.Context.{TemplateContext, ImageTemplateData}

-- The loop of `findKeySpec` and its like.
unfoldable pub find_named :
    {A : Type 0} → (A → String) → Failure → String → List A → Result Failure A
find_named name_of missing name [] = err missing
find_named name_of missing name (x ∷ xs) =
    let rest = find_named name_of missing name xs in if name_of x == name then ok x else rest

unfoldable pub find_key_spec : Spec → String → Result Failure KeyResource
unfolding find_named
find_key_spec spec name = find_named (λ r. r.name) (key_not_found name) name spec.keys

unfoldable pub find_network_spec : Spec → String → Result Failure NetworkResource
unfolding find_named
find_network_spec spec name = find_named (λ r. r.name) (network_not_found name) name spec.networks

unfoldable pub find_vm_spec : Spec → String → Result Failure VmResource
unfolding find_named
find_vm_spec spec name = find_named (λ r. r.name) (vm_not_found name) name spec.vms

unfoldable pub find_image_spec : Spec → String → Result Failure ImageResource
unfolding find_named
find_image_spec spec name = find_named (λ r. r.name) (image_not_found name) name spec.images

-- A resource that JSON cannot turn into an object is an error.
unfoldable pub convert_resource_to_map : Option Value → Option (Option Fields)
convert_resource_to_map none = some none
convert_resource_to_map (some (object fs)) = some (some fs)
convert_resource_to_map (some null) = some none
convert_resource_to_map (some _) = none

unfoldable pub get_resource_state : ResourceRef → EnvironmentState → Option ResourceState
get_resource_state ref env =
    if ref.kind == "key"
    then lookup ref.name env.resources.keys
    else if ref.kind == "network"
    then lookup ref.name env.resources.networks
    else if ref.kind == "vm"
    then lookup ref.name env.resources.vms
    else none

unfoldable pub set_resource : ResourceRef → ResourceState → ResourceMap → ResourceMap
set_resource ref state m =
    if ref.kind == "key"
    then record m { keys = insert ref.name state m.keys }
    else if ref.kind == "network"
    then record m { networks = insert ref.name state m.networks }
    else if ref.kind == "vm"
    then record m { vms = insert ref.name state m.vms }
    else m

unfoldable pub update_resource_state :
    ResourceRef → String → Status → Option Fields → String → EnvironmentState → EnvironmentState
unfolding set_resource
update_resource_state ref provider status state error env =
    let entry : ResourceState = record {
      provider = provider;
      status = status;
      state = state;
      error = error;
    } in
    record env { resources = set_resource ref entry env.resources }

-- A missing key, or a value that is no text, gives the empty text.
unfoldable pub get_string : Fields → String → String
get_string end k = ""
get_string (field j v fs) k =
    let rest = get_string fs k in if j == k then elim v [ text s ↦ s | _ ↦ "" ] else rest

unfoldable pub update_template_context :
    ResourceRef → Option Fields → TemplateContext → TemplateContext
unfolding get_string
update_template_context ref none ctx = ctx
update_template_context ref (some fs) ctx =
    if ref.kind == "key"
    then record ctx {
      keys =
          insert ref.name
            (record {
              public_key = get_string fs "publicKey";
              private_key_path = get_string fs "privateKeyPath";
              public_key_path = get_string fs "publicKeyPath";
              fingerprint = get_string fs "fingerprint";
            })
            ctx.keys;
    }
    else if ref.kind == "network"
    then record ctx {
      networks =
          insert ref.name
            (record {
              name = get_string fs "name";
              ip = get_string fs "ip";
              cidr = get_string fs "cidr";
              interface_name = get_string fs "interfaceName";
              uuid = get_string fs "uuid";
            })
            ctx.networks;
    }
    else if ref.kind == "vm"
    then record ctx {
      vms =
          insert ref.name
            (record {
              name = get_string fs "name";
              ip = get_string fs "ip";
              mac = get_string fs "mac";
              ssh_command = get_string fs "sshCommand";
            })
            ctx.vms;
    }
    else ctx

-- The `image` case of `createResource`: the image is found by its name and by its alias.
unfoldable pub register_image : ImageResource → String → String → TemplateContext → TemplateContext
register_image image name path ctx =
    let entry : ImageTemplateData = record { path = path; name = name } in
    let images = insert name entry ctx.images in
    record ctx {
      images = if image.spec.alias == "" then images else insert image.spec.alias entry images;
    }
