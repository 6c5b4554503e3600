-- ===== src/Spec/Context.antt =====
-- pkg/spec/template.go: the data that templates read.
use testenv_vm.Prelude.{String, [], if◌then◌else◌, Dict, Result, ok}
use testenv_vm.Spec.Template.{is_templated}

pub record KeyTemplateData : Type 0 where
  pub public_key : String
  pub private_key_path : String
  pub public_key_path : String
  pub fingerprint : String

pub record NetworkTemplateData : Type 0 where
  pub name : String
  pub ip : String
  pub cidr : String
  pub interface_name : String
  pub uuid : String

pub record VmTemplateData : Type 0 where
  pub name : String
  pub ip : String
  pub mac : String
  pub ssh_command : String

pub record ImageTemplateData : Type 0 where
  pub path : String
  pub name : String

pub record TemplateContext : Type 0 where
  pub keys : Dict KeyTemplateData
  pub networks : Dict NetworkTemplateData
  pub vms : Dict VmTemplateData
  pub images : Dict ImageTemplateData
  pub default_base_image : String
  pub env : Dict String

abbrev pub new_template_context : TemplateContext
new_template_context = record {
  keys = [];
  networks = [];
  vms = [];
  images = [];
  default_base_image = "";
  env = [];
}

-- `RenderString`: `execute` stands for the preprocessing of hyphenated names and for text/template.
unfoldable pub render_string :
    (TemplateContext → String → Result String String)
    → TemplateContext
    → String
    → Result String String
render_string execute ctx tmpl =
    let out = execute ctx tmpl in if is_templated tmpl then out else ok tmpl
