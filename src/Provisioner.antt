-- ===== src/Provisioner.antt =====
-- pkg/client/provisioner.go: `RuntimeProvisioner`, which creates and deletes VMs in an environment
-- that is ready. The mutex is not modelled, nor what another goroutine does while `CreateVM` has
-- released it; time stamps are left out.
use testenv_vm.Prelude.{
  leb, eqb, if◌then◌else◌, is_empty, contains, Dict, lookup, insert, remove, adjust, keys, has,
  Result, ◌>>=◌, ◌>>◌, ok, err, is_positive, ℕ, ◌+◌, String, Bool, true, false, not, ◌&&◌, ◌||◌,
  Option, none, some, List, [], ◌∷◌, ◌++◌, map, ◌==◌,
}
use testenv_vm.Api.{
  Value, Fields, ResourceRef, text, end, field, Status, ResourceState, EnvironmentState, creating,
  ready, failed, destroyed,
}
use testenv_vm.Api.Provider.{OperationResult, Request, timeout, vm_create, delete}
use testenv_vm.Spec.Render.{render_vm_spec}
use testenv_vm.Spec.Context.{KeyTemplateData, TemplateContext, render_string}
use testenv_vm.Executor.Resources.{convert_resource_to_map, get_string}
use testenv_vm.Executor.Backend.{Backend, Run}
use testenv_vm.Executor.Create.{or_else, error_message}
pub mod Refused
pub mod Names
pub mod Created
use testenv_vm.Api
use testenv_vm.Api.Provider
use Prim.Native.Char.{code}

pub data ProvisionerError : Type 0 where
  already_exists no_such_vm vm_not_ready no_state_data missing_ip missing_user :
      String → ProvisionerError
  missing_key_path key_not_read : String → ProvisionerError
  memory_not_positive vcpus_not_positive size_required size_invalid : ProvisionerError
  network_required no_such_network network_not_ready no_such_provider : ProvisionerError
  not_copied not_rendered : String → ProvisionerError
  call_error result_error : String → ProvisionerError
  -- The same two, where the save of the failure fails as well; the second text is that of the save.
  call_unsaved result_unsaved : String → String → ProvisionerError
  not_converted : ProvisionerError
  not_saved : String → ProvisionerError
  name_required : ProvisionerError

-- `VMInfo`; the port is always 22.
pub record VmInfo : Type 0 where
  pub host : String
  pub user : String
  pub private_key : String

abbrev is_ready_status : Status → Bool
is_ready_status ready = true
is_ready_status _ = false

abbrev is_digit : ℕ → Bool
is_digit n = leb b'0' n && leb n b'9'

abbrev is_unit : ℕ → Bool
is_unit n = eqb n b'G' || eqb n b'M' || eqb n b'T' || eqb n b'K'

unfoldable pub digits_and_unit : String → Bool
digits_and_unit String.[] = false
digits_and_unit (String.◌∷◌ c s) =
    let rest = digits_and_unit s in if is_digit (code c) then rest else is_unit (code c) && s == ""

-- `^[1-9][0-9]*[GMTK]$`
unfoldable pub is_disk_size : String → Bool
unfolding digits_and_unit
is_disk_size String.[] = false
is_disk_size (String.◌∷◌ c s) = leb b'1' (code c) && leb (code c) b'9' && digits_and_unit s

-- `m[key] = value`
unfoldable pub set_field : String → Value → Fields → Fields
set_field k v end = field k v end
set_field k v (field j w fs) =
    let rest = set_field k v fs in if j == k then field j v fs else field j w rest

abbrev pub user_spec : Api.UserSpec → Provider.UserSpec
user_spec u = record { name = u.name; sudo = u.sudo; ssh_authorized_keys = u.ssh_authorized_keys }

abbrev has_content : Api.CloudInitSpec → Bool
has_content c = not (c.hostname == "") || not (is_empty c.users) || not (is_empty c.packages)

unfoldable pub client_vm_spec : Api.VmSpec → Provider.VmSpec
client_vm_spec spec = record {
  memory = spec.memory;
  vcpus = spec.vcpus;
  network = spec.network;
  networks = [];
  disk = record { base_image = spec.disk.base_image; size = spec.disk.size };
  boot = record { order = spec.boot.order; firmware = spec.boot.firmware };
  cloud_init =
      if has_content spec.cloud_init
      then some (record {
        hostname = spec.cloud_init.hostname;
        users = map user_spec spec.cloud_init.users;
        packages = spec.cloud_init.packages;
        write_files = [];
        runcmd = [];
        network_config = none;
      })
      else none;
  readiness =
      if spec.readiness.ssh.enabled
      then some (record {
        ssh = some (record {
          enabled = spec.readiness.ssh.enabled;
          timeout = spec.readiness.ssh.timeout;
          user = spec.readiness.ssh.user;
          private_key = spec.readiness.ssh.private_key;
        });
        tcp = none;
        cloud_init = none;
      })
      else none;
}

-- The first user's name, or `root`.
abbrev ssh_user : List Api.UserSpec → String
ssh_user [] = "root"
ssh_user (u ∷ us) = if u.name == "" then "root" else u.name

-- The private key beside the first public key that the user is authorized with.
unfoldable pub find_key_path : Dict KeyTemplateData → List String → String
find_key_path [] authorized = ""
find_key_path ((name, key) ∷ keys) authorized =
    let rest = find_key_path keys authorized in
    if contains authorized key.public_key && not (key.private_key_path == "")
    then key.private_key_path
    else rest

abbrev key_path : Dict KeyTemplateData → List Api.UserSpec → String
key_path keys [] = ""
key_path keys (u ∷ us) = find_key_path keys u.ssh_authorized_keys

-- What the provisioner calls, and its default provider.
pub record Runtime (W : Type 0) : Type 0 where
  pub backend : Backend W
  -- `manager.GetInfo`
  pub is_known : String → W → Bool
  -- the deep copy through encoding/json, with the text of its error
  pub copy : Api.VmSpec → Result String Api.VmSpec
  -- `os.ReadFile`
  pub read_file : String → Option String
  pub default_provider : String

abbrev pub with_vms :
    (Dict ResourceState → Dict ResourceState) → EnvironmentState → EnvironmentState
with_vms f env = record env { resources = record env.resources { vms = f env.resources.vms } }

module _ {W : Type 0} (rt : Runtime W) where
  abbrev pub Step : Type 0 → Type 0
  Step A = Result ProvisionerError A × Run W

  abbrev pub on_env : (EnvironmentState → EnvironmentState) → Run W → Run W
  on_env f s = record s { env = f s.env }

  unfoldable pub render_vm : TemplateContext → Api.VmSpec → Result ProvisionerError Api.VmSpec
  render_vm ctx spec = elim (rt.copy spec) [
    | err e ↦ err (not_copied e)
    | ok copied ↦ elim (render_vm_spec (render_string rt.backend.execute_template ctx) copied) [
      | err e ↦ err (not_rendered e)
      | ok rendered ↦ ok rendered
    ]
  ]

  abbrev checked : Bool → ProvisionerError → Result ProvisionerError (Unit {0})
  checked passes e = if passes then ok tt else err e

  abbrev network_ready : Option ResourceState → Result ProvisionerError (Unit {0})
  network_ready none = err no_such_network
  network_ready (some entry) = checked (is_ready_status entry.status) network_not_ready

  unfoldable pub validate_runtime_vm : Api.VmSpec → Run W → Result ProvisionerError (Unit {0})
  unfolding is_disk_size
  validate_runtime_vm spec s =
      checked (is_positive spec.memory) memory_not_positive
      >> checked (is_positive spec.vcpus) vcpus_not_positive
      >> checked (not (spec.disk.size == "")) size_required
      >> checked (is_disk_size spec.disk.size) size_invalid
      >> checked (not (spec.network == "")) network_required
      >> network_ready (lookup spec.network s.env.resources.networks)
      >> checked (rt.is_known rt.default_provider s.world) no_such_provider

  abbrev pub entry : Status → Option Fields → String → ResourceState
  entry status state error = record {
    provider = rt.default_provider;
    status = status;
    state = state;
    error = error;
  }

  unfoldable pub vm_request : String → Api.VmSpec → Request
  unfolding client_vm_spec
  vm_request name spec = vm_create name (client_vm_spec spec) end

  -- The error that is returned, by that of the save.
  abbrev pub saved_error :
      ProvisionerError → (String → ProvisionerError) → Option String → ProvisionerError
  saved_error e unsaved none = e
  saved_error e unsaved (some reason) = unsaved reason

  -- The placeholder becomes a failure, and the state is saved.
  unfoldable pub fail_vm :
      String → String → ProvisionerError → (String → ProvisionerError) → Run W → Step (Unit {0})
  fail_vm name message e unsaved s =
      let env = with_vms (adjust name (λ v. record v { status = failed; error = message })) s.env in
      let (saved, w) = rt.backend.save env s.world in
      (err (saved_error e unsaved saved), record s { env = env; world = w })

  -- The entries that `GetVMInfo` reads.
  abbrev vm_state : Api.VmSpec → TemplateContext → Option Fields → Fields
  vm_state spec ctx state =
      let fields = elim state as (λ _. Fields) [ none ↦ end | some fs ↦ fs ] in
      set_field "privateKeyPath" (text (key_path ctx.keys spec.cloud_init.users))
        (set_field "sshUser" (text (ssh_user spec.cloud_init.users)) fields)

  abbrev pub add_phase :
      ResourceRef → Option (List (List ResourceRef)) → Option (List (List ResourceRef))
  add_phase ref none = some ((ref ∷ []) ∷ [])
  add_phase ref (some phases) = some (phases ++ (ref ∷ []) ∷ [])

  abbrev pub vm_ref : String → ResourceRef
  vm_ref name = record { kind = "vm"; name = name; provider = rt.default_provider }

  unfoldable pub ready_env : String → Fields → EnvironmentState → EnvironmentState
  ready_env name state env = record (with_vms (insert name (entry ready (some state) "")) env) {
    execution_plan = add_phase (vm_ref name) env.execution_plan;
  }

  unfoldable pub ready_ctx : String → Fields → TemplateContext → TemplateContext
  ready_ctx name state ctx = record ctx {
    vms =
        insert name
          (record {
            name = name;
            ip = get_string state "ip";
            mac = get_string state "mac";
            ssh_command = get_string state "sshCommand";
          })
          ctx.vms;
  }

  -- The save, and then `NewClient`.
  unfoldable pub attach_client : String → Option String → Run W → Step (Unit {0})
  attach_client name (some e) s = (err (not_saved e), s)
  attach_client name none s = if name == "" then (err name_required, s) else (ok tt, s)

  unfoldable pub store_vm : String → Fields → Run W → Step (Unit {0})
  unfolding ready_env ready_ctx attach_client
  store_vm name state s =
      let env = ready_env name state s.env in
      let (saved, w) = rt.backend.save env s.world in
      attach_client name saved (record { env = env; ctx = ready_ctx name state s.ctx; world = w })

  unfoldable pub store_result :
      String → Api.VmSpec → Option (Option Fields) → Run W → Step (Unit {0})
  unfolding store_vm fail_vm find_key_path set_field
  store_result name spec none s =
      fail_vm name "conversion failed" not_converted (λ _. not_converted) s
  store_result name spec (some state) s = store_vm name (vm_state spec s.ctx state) s

  unfoldable pub finish_vm :
      String → Api.VmSpec → Result String OperationResult → Run W → Step (Unit {0})
  unfolding store_result fail_vm
  finish_vm name spec (err e) s = fail_vm name e (call_error e) (call_unsaved e) s
  finish_vm name spec (ok r) s =
      let stored = store_result name spec (convert_resource_to_map r.resource) s in
      let message = error_message r in
      let refused = fail_vm name message (result_error message) (result_unsaved message) s in
      if r.success then stored else refused

  unfoldable pub call_vm : String → Api.VmSpec → Run W → Step (Unit {0})
  unfolding finish_vm vm_request
  call_vm name spec s =
      let (result, w) =
        rt.backend.call rt.default_provider "vm_create" (vm_request name spec) s.world in
      finish_vm name spec result (record s { world = w })

  -- After the placeholder is set: an error before the call takes it away again.
  unfoldable pub create_checked :
      String → Result ProvisionerError Api.VmSpec → Run W → Step (Unit {0})
  unfolding call_vm
  create_checked name (err e) s = (err e, on_env (with_vms (remove name)) s)
  create_checked name (ok spec) s = call_vm name spec s

  unfoldable pub prepared_vm : Api.VmSpec → Run W → Result ProvisionerError Api.VmSpec
  unfolding render_vm validate_runtime_vm
  prepared_vm spec s =
      render_vm s.ctx spec >>= λ rendered. validate_runtime_vm rendered s >> ok rendered

  unfoldable pub create_vm : String → Api.VmSpec → Run W → Step (Unit {0})
  unfolding create_checked prepared_vm
  create_vm name spec s =
      let reserved = on_env (with_vms (insert name (entry creating none ""))) s in
      let created = create_checked name (prepared_vm spec reserved) reserved in
      if has name s.env.resources.vms then (err (already_exists name), s) else created

  abbrev text_or : String → ProvisionerError → Result ProvisionerError String
  text_or value e = if value == "" then err e else ok value

  abbrev read_key : String → Option String → Result ProvisionerError String
  read_key name none = err (key_not_read name)
  read_key name (some content) = ok content

  unfoldable pub info_from : String → Option Fields → Result ProvisionerError VmInfo
  info_from name none = err (no_state_data name)
  info_from name (some state) = do
    ip ← text_or (get_string state "ip") (missing_ip name)
    user ← text_or (get_string state "sshUser") (missing_user name)
    path ← text_or (get_string state "privateKeyPath") (missing_key_path name)
    key ← read_key name (rt.read_file path)
    ok (record { host = ip; user = user; private_key = key })

  unfoldable pub vm_info : String → Option ResourceState → Result ProvisionerError VmInfo
  unfolding info_from
  vm_info name none = err (no_such_vm name)
  vm_info name (some v) =
      let info = info_from name v.state in
      if is_ready_status v.status then info else err (vm_not_ready name)

  unfoldable pub get_vm_info : String → EnvironmentState → Result ProvisionerError VmInfo
  unfolding vm_info
  get_vm_info name env = vm_info name (lookup name env.resources.vms)

  -- The error of the call is returned where the save has none; a result without success is not read.
  abbrev delete_error : Option String → Result String OperationResult → Option ProvisionerError
  delete_error (some e) result = some (not_saved e)
  delete_error none (err e) = some (call_error e)
  delete_error none (ok r) = none

  unfoldable pub delete_known :
      String → Option ResourceState → Run W → Option ProvisionerError × Run W
  delete_known name none s = (some (no_such_vm name), s)
  delete_known name (some v) s =
      let (result, w) =
        rt.backend.call (or_else v.provider rt.default_provider) "vm_delete" (delete name)
          s.world in
      let env = with_vms (adjust name (λ u. record u { status = destroyed })) s.env in
      let (saved, w') = rt.backend.save env w in
      (delete_error saved result, record s { env = env; world = w' })

  unfoldable pub delete_vm : String → Run W → Option ProvisionerError × Run W
  unfolding delete_known
  delete_vm name s = delete_known name (lookup name s.env.resources.vms) s
