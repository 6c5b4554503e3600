-- ===== src/Stub/Transport.antt =====
-- A result on its way from a provider to the executor: `toMCPResult` of
-- cmd/providers/testenv-vm-provider-stub/main.go, and the end of `CallWithContext` of
-- pkg/provider/client.go.
-- `mcp.CallToolResult`, with its text contents.
use testenv_vm.Stub.{Provider, delete_in, key_delete}
use testenv_vm.Executor.Delete.{already_gone, Teardown, finish_delete}
use testenv_vm.Executor.Isolation.{IsolationConfig}
use testenv_vm.Executor.Backend.{Backend}
use testenv_vm.Api.{ResourceRef, text, returned_error}
use testenv_vm.Api.Provider.{
  OperationError, OperationResult, new_not_found_error, error_result, success_result,
  provider_error,
}
use testenv_vm.Prelude.{
  String, ◌≡◌, refl, Bool, true, false, Option, none, some, List, [], ◌∷◌, if◌then◌else◌, has, ok,
}

pub record ToolResult : Type 0 where
  pub is_error : Bool
  pub content : List String

-- encoding/json on results: a value that cannot be written, or a text that cannot be read, is `none`.
pub record ResultJson : Type 0 where
  pub marshal : OperationResult → Option String
  pub unmarshal : String → Option OperationResult

abbrev pub tool_error : String → ToolResult
tool_error message = record { is_error = true; content = message ∷ [] }

abbrev pub new_provider_error : String → OperationError
new_provider_error message = record { code = provider_error; message = message; retryable = false }

abbrev message_of : Option OperationError → String
message_of none = "operation failed"
message_of (some e) = e.message

module _ (json : ResultJson) where
  unfoldable pub to_mcp_result : OperationResult → ToolResult
  to_mcp_result r =
      let written = elim (json.marshal r) as (λ _. ToolResult) [
        | none ↦ tool_error "failed to serialize result: unsupported value"
        | some body ↦ record { is_error = false; content = body ∷ [] }
      ] in
      if r.success then written else tool_error (message_of r.error)

  abbrev read_body : String → Option OperationResult → OperationResult
  read_body body none = success_result (some (text body))
  read_body body (some r) = r

  unfoldable pub read_content : List String → OperationResult
  read_content [] = error_result (new_provider_error "empty response from provider")
  read_content (body ∷ rest) = read_body body (json.unmarshal body)

  abbrev first_or : String → List String → String
  first_or default [] = default
  first_or default (s ∷ rest) = s

  unfoldable pub from_mcp_result : ToolResult → OperationResult
  unfolding read_content
  from_mcp_result t =
      let read = read_content t.content in
      if t.is_error
      then error_result (new_provider_error (first_or "unknown error" t.content))
      else read

  -- What the executor receives for what a provider returns.
  abbrev pub transport : OperationResult → OperationResult
  transport r = from_mcp_result (to_mcp_result r)

  -- A result that succeeds arrives as it was sent, where encoding/json reads what it has written.
  transport-success :
      (r : OperationResult) (body : String)
      → json.marshal r ≡ some body
      → json.unmarshal body ≡ some r
      → r.success ≡ true
      → transport r ≡ r
  unfolding to_mcp_result from_mcp_result read_content
  transport-success r body written read passes = simp (written, passes, read)

  transport-failure :
      (r : OperationResult)
      → r.success ≡ false
      → transport r ≡ error_result (new_provider_error (message_of r.error))
  unfolding to_mcp_result from_mcp_result
  transport-failure r fails = rw fails refl

  -- On the way from the stub provider to the executor a failure loses its code. So the deletion of a key
  -- that the provider does not have is an error to the executor, which would take the provider's own result
  -- for done: the key stays in the state.
  pub key_delete-finish_delete :
      {W : Type 0} (b : Backend W) (iso : Option IsolationConfig) (ref : ResourceRef)
      (provider name : String) (quote : String → String) (stub : Provider) (s : Teardown W)
      → has name stub.keys ≡ false
      → let r = (key_delete quote name stub).0 in
        (already_gone r ≡ true)
        × (finish_delete b iso ref provider (ok (transport r)) s
            ≡ (some (returned_error (new_not_found_error quote "key" name).message), s))
  unfolding key_delete delete_in already_gone finish_delete new_not_found_error to_mcp_result
      from_mcp_result
  key_delete-finish_delete b iso ref provider name quote stub s absent = rw absent (refl, refl)
