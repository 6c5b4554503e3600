-- ===== src/Api/State.antt =====
-- api/v1/state.go: the persisted state of a test environment. Time stamps are left out: no decision
-- of the code reads one. A nil map and an empty one are one value, since both read the same.
use testenv_vm.Prelude.{String, Option, List, Dict}
use testenv_vm.Api.Config.{ResourceRef, Fields, Spec}

pub data Status : Type 0 where
  pending creating ready failed destroying destroyed : Status

pub record ResourceState : Type 0 where
  pub provider : String
  pub status : Status
  pub state : Option Fields
  pub error : String

pub record ResourceMap : Type 0 where
  pub keys : Dict ResourceState
  pub networks : Dict ResourceState
  pub vms : Dict ResourceState

-- The errors of the executor, by their messages.
pub data Failure : Type 0 where
  state_nil : Failure
  key_not_found network_not_found vm_not_found image_not_found : String → Failure
  render_failed : String → String → Failure
  attach_to_self : String → Failure
  network_unknown : String → String → Failure
  image_failed : String → String → Failure
  unknown_kind : String → Failure
  no_provider : ResourceRef → Failure
  call_failed : String → Failure
  returned_error : String → Failure
  convert_failed : Failure
  save_failed : String → Failure
  create_failed : ResourceRef → Failure → Failure
  delete_failed : ResourceRef → Failure → Failure

-- `Resource` is the zero reference where the code gives none.
pub record ErrorRecord : Type 0 where
  pub resource : ResourceRef
  pub operation : String
  pub error : Failure

pub record EnvironmentState : Type 0 where
  pub id : String
  pub stage : String
  pub status : Status
  pub spec : Option Spec
  pub resources : ResourceMap
  pub execution_plan : Option (List (List ResourceRef))
  pub errors : List ErrorRecord
  pub artifact_dir : String
