-- ===== src/Executor/Backend.antt =====
-- pkg/orchestrator/executor.go: what the executor calls. The provider manager, the state store, the
-- image cache and text/template are a parameter over the state `W` of the world outside.
use testenv_vm.Prelude.{String, Option, List, All, Result}
use testenv_vm.Api.{
  ResourceRef, EnvironmentState, ImageSpec, KeyResource, NetworkResource, VmResource,
}
use testenv_vm.Api.Provider.{OperationResult, Request}
use testenv_vm.Spec.Context.{TemplateContext}

pub record Backend (W : Type 0) : Type 0 where
  -- `manager.Call(provider, tool, request)`, with the text of its error
  pub call : String → String → Request → W → Result String OperationResult × W
  -- `store.Save`, with the text of its error
  pub save : EnvironmentState → W → Option String × W
  -- `imageMgr.EnsureImage`: the local path, or the text of the error
  pub ensure_image : String → ImageSpec → W → Result String String × W
  -- text/template, behind the rewriting of names with hyphens
  pub execute_template : TemplateContext → String → Result String String
  -- The deep copies of resources by `json.Marshal` and `json.Unmarshal`, or the text of the error
  pub copy_key : KeyResource → Result String KeyResource
  pub copy_network : NetworkResource → Result String NetworkResource
  pub copy_vm : VmResource → Result String VmResource
  -- `filepath.Join`
  pub join_path : String → String → String
  -- The order in which the goroutines of a phase take their turns. A goroutine is modelled as one
  -- turn: rendering, the provider call and the update of the state.
  pub schedule : List ResourceRef → List ResourceRef

-- Every goroutine that is started takes its turn.
pub record IsFair {W : Type 0} (b : Backend W) : Type 1 where
  pub covers :
      (phase : List ResourceRef) (P : ResourceRef → Type 0) → All P (b.schedule phase) → All P phase

-- What a run of the executor changes.
pub record Run (W : Type 0) : Type 0 where
  pub env : EnvironmentState
  pub ctx : TemplateContext
  pub world : W
