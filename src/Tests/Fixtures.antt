-- ===== src/Tests/Fixtures.antt =====
-- A specification with a key, a network and a VM that uses both, and a world without failures.
use testenv_vm.Prelude.{ℕ, ◌+◌, true, false, none, some, List, [], ◌∷◌, ok, pos}
use testenv_vm.Api.{
  Spec, KeyResource, NetworkResource, VmResource, ProviderConfig, ResourceRef, EnvironmentState,
  ready, end, ResourceState,
}
use testenv_vm.Spec.Context.{new_template_context}
use testenv_vm.Executor.Backend.{Backend, IsFair, Run}
use testenv_vm.Executor.Create.{Plan}
use testenv_vm.Executor.Delete.{Teardown}

abbrev pub ssh_key : KeyResource
ssh_key = record {
  name = "ssh";
  provider = "";
  provider_spec = end;
  spec = record { bits = pos 0; comment = ""; output_dir = ""; type = "ed25519" };
}

abbrev pub lan : NetworkResource
lan = record {
  kind = "bridge";
  name = "lan";
  provider = "";
  provider_spec = end;
  spec = record {
    attach_to = "";
    cidr = "192.168.100.0/24";
    dhcp = none;
    dns = none;
    gateway = "";
    mtu = pos 0;
    tftp = none;
  };
}

abbrev pub web : VmResource
web = record {
  name = "web";
  provider = "";
  provider_spec = end;
  spec = record {
    boot = record { firmware = ""; order = [] };
    cloud_init = record {
      hostname = "web";
      network_config = record { ethernets = [] };
      packages = [];
      runcmd = [];
      users =
          record {
            name = "root";
            ssh_authorized_keys = "{{ .Keys.ssh.PublicKey }}" ∷ [];
            sudo = "";
          }
          ∷ [];
      write_files = [];
    };
    disk = record { base_image = "/img"; size = "20G" };
    memory = pos 2048;
    network = "lan";
    networks = [];
    readiness = record {
      cloud_init = record { enabled = false; timeout = "" };
      ssh = record { enabled = false; private_key = ""; timeout = ""; user = "" };
      tcp = record { port = pos 0; timeout = "" };
    };
    vcpus = pos 2;
  };
}

abbrev pub stub_provider : ProviderConfig
stub_provider = record { default = true; engine = "stub"; name = "stub"; spec = end }

abbrev pub unmarked_provider : ProviderConfig
unmarked_provider = record stub_provider { default = false }

abbrev pub sample : Spec
sample = record {
  artifact_dir = "";
  cleanup_on_failure = true;
  default_base_image = "";
  default_provider = "";
  image_cache_dir = "";
  images = [];
  keys = ssh_key ∷ [];
  networks = lan ∷ [];
  providers = stub_provider ∷ [];
  state_dir = "";
  vms = web ∷ [];
}

abbrev pub ssh_ref : ResourceRef
ssh_ref = record { kind = "key"; name = "ssh"; provider = "" }

abbrev pub lan_ref : ResourceRef
lan_ref = record { kind = "network"; name = "lan"; provider = "" }

abbrev pub web_ref : ResourceRef
web_ref = record { kind = "vm"; name = "web"; provider = "" }

-- A reference that the specification does not have.
abbrev pub missing_ref : ResourceRef
missing_ref = record { kind = "network"; name = "wan"; provider = "" }

-- The world counts the calls of providers. Every call succeeds.
abbrev pub counting : Backend ℕ
counting = record {
  call = λ provider tool request n.
      (ok (record { success = true; error = none; resource = none }), n + 1);
  save = λ env n. (none, n);
  ensure_image = λ name image n. (ok name, n);
  execute_template = λ ctx s. ok s;
  copy_key = λ key. ok key;
  copy_network = λ network. ok network;
  copy_vm = λ vm. ok vm;
  join_path = λ dir name. dir;
  schedule = λ phase. phase;
}

abbrev pub counting_is_fair : IsFair counting
counting_is_fair = record { covers = λ phase P h. h }

abbrev pub sample_plan : Plan
sample_plan = record { spec = sample; templated = none; iso = none }

abbrev pub sample_phases : List (List ResourceRef)
sample_phases = (ssh_ref ∷ lan_ref ∷ []) ∷ (web_ref ∷ []) ∷ []

abbrev pub new_env : EnvironmentState
new_env = record {
  id = "t1";
  stage = "";
  status = ready;
  spec = some sample;
  resources = record { keys = []; networks = []; vms = [] };
  execution_plan = some sample_phases;
  errors = [];
  artifact_dir = "";
}

abbrev pub new_run : Run ℕ
new_run = record { env = new_env; ctx = new_template_context; world = 0 }

-- What a creation by the stub provider leaves.
abbrev pub stub_entry : ResourceState
stub_entry = record { provider = "stub"; status = ready; state = none; error = "" }

abbrev pub created_env : EnvironmentState
created_env = record new_env {
  resources = record {
    keys = ("ssh", stub_entry) ∷ [];
    networks = ("lan", stub_entry) ∷ [];
    vms = ("web", stub_entry) ∷ [];
  };
}

abbrev pub created : Teardown ℕ
created = record { env = created_env; world = 3 }
