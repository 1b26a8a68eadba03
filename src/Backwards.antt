-- ===== src/Backwards.antt =====
-- Calls from a plugin back into Dify: internal/core/io_tunnel/backwards_invocation/task.go and
-- request.go, with the permissions of pkg/entities/plugin_entities/plugin_declaration.go.
-- JSON, the validator and the tasks themselves are arguments. The routine that InvokeDify submits is
-- run to its end. What the writer is told is the list of a call's outputs, in order.
pub mod Permission
pub mod RequestFields
pub mod Access
pub mod Identity
mod Tests
use Prim.Native.String.{String}
use dify_plugin_daemon.Common.{
  Bool, true, false, Option, none, some, List, [], ◌∷◌, ◌++◌, ◌⊎◌, inl, inr, if◌then◌else◌,
}
use Permission.{InvokeType, PluginPermissionRequirement, Denial, permission_mapping}
use RequestFields.{Fields, delete_identity, put}

-- The executeDifyInvocation… functions.
pub data Task : Type 0 where
  tool_task llm_task llm_structured_output_task text_embedding_task multimodal_embedding_task : Task
  rerank_task multimodal_rerank_task tts_task speech2text_task moderation_task app_task : Task
  parameter_extractor question_classifier storage_task system_summary_task : Task
  upload_file_task fetch_app_task : Task

-- dispatchMapping
pub dispatch_mapping : InvokeType → Option Task
dispatch_mapping InvokeType.tool = some tool_task
dispatch_mapping InvokeType.llm = some llm_task
dispatch_mapping InvokeType.text_embedding = some text_embedding_task
dispatch_mapping InvokeType.multimodal_embedding = some multimodal_embedding_task
dispatch_mapping InvokeType.rerank = some rerank_task
dispatch_mapping InvokeType.multimodal_rerank = some multimodal_rerank_task
dispatch_mapping InvokeType.tts = some tts_task
dispatch_mapping InvokeType.speech2text = some speech2text_task
dispatch_mapping InvokeType.moderation = some moderation_task
dispatch_mapping InvokeType.app = some app_task
dispatch_mapping InvokeType.node_parameter_extractor = some parameter_extractor
dispatch_mapping InvokeType.node_question_classifier = some question_classifier
dispatch_mapping InvokeType.storage = some storage_task
dispatch_mapping InvokeType.system_summary = some system_summary_task
dispatch_mapping InvokeType.upload_file = some upload_file_task
dispatch_mapping InvokeType.fetch_app = some fetch_app_task
dispatch_mapping InvokeType.llm_structured_output = some llm_structured_output_task
dispatch_mapping InvokeType.encrypt = none
dispatch_mapping (InvokeType.unknown s) = none

-- The errors that are written to the plugin.
pub data WrittenError : Type 0 where
  invoked_from_model no_tenant no_user marshal_failed unmarshal_failed invalid_struct : WrittenError
  unsupported : InvokeType → WrittenError
  permission : Denial → WrittenError

-- The error that InvokeDify returns for a payload that is not correct.
pub data PayloadError : Type 0 where
  unmarshal_request missing_type missing_request_id missing_request : PayloadError

pub record Session : Type 0 where
  pub tenant_id : String
  pub user_id : String

module _ (Raw Request : Type 0) where
  -- What a call tells the writer, and the task that it runs.
  pub data Output : Type 0 where
    write_error : WrittenError → Output
    execute : Task → Request → Output
    end_response : Output

  -- BackwardsInvocation, without its writer.
  pub record Handle : Type 0 where
    pub typ : InvokeType
    pub id : String
    pub detailed_request : Fields Raw
    pub session : Option Session

  -- The outer struct of InvokeDify; `none` is a field that is missing.
  pub record Payload : Type 0 where
    pub typ : Option InvokeType
    pub backwards_request_id : Option String
    pub request : Option (Fields Raw)

  -- What genericDispatchTask makes of the fields for a task.
  pub data Decoded : Type 0 where
    decoded : Request → Decoded
    not_marshalled not_unmarshalled not_valid : Decoded

-- PluginAccessType, of which InvokeDify singles out the model.
pub data AccessType : Type 0 where
  tool model endpoint agent_strategy oauth datasource dynamic_parameter trigger : AccessType

abbrev pub is_model : AccessType → Bool
is_model model = true
is_model tool = false
is_model endpoint = false
is_model agent_strategy = false
is_model oauth = false
is_model datasource = false
is_model dynamic_parameter = false
is_model trigger = false

module _ {Raw Request : Type 0} (marshal_text : String → Raw) (marshal_type : InvokeType → Raw)
    (decode : Task → Fields Raw → Decoded Raw Request) where
  -- genericDispatchTask
  pub generic_dispatch_task : Task → Fields Raw → List (Output Raw Request)
  generic_dispatch_task task fields = elim (decode task fields) [
    | decoded request ↦ execute task request ∷ []
    | not_marshalled ↦ write_error marshal_failed ∷ []
    | not_unmarshalled ↦ write_error unmarshal_failed ∷ []
    | not_valid ↦ write_error invalid_struct ∷ []
  ]

  -- The request with the trusted identity: aliases removed, then the session's values put in.
  pub trusted_fields : InvokeType → Session → Fields Raw → Fields Raw
  unfolding delete_identity put
  trusted_fields typ session fields = put "type" (marshal_type typ) (
      put "user_id" (marshal_text session.user_id)
        (put "tenant_id" (marshal_text session.tenant_id) (delete_identity fields)))

  -- dispatchDifyInvocationTask
  pub dispatch_dify_invocation_task : Handle Raw Request → List (Output Raw Request)
  unfolding trusted_fields generic_dispatch_task dispatch_mapping
  dispatch_dify_invocation_task handle = elim handle.session [
    | none ↦ write_error no_tenant ∷ []
    | some session ↦ elim (dispatch_mapping handle.typ) [
      | some task ↦
          generic_dispatch_task task (trusted_fields handle.typ session handle.detailed_request)
      | none ↦ write_error (unsupported handle.typ) ∷ []
    ]
  ]

  -- checkPermission
  pub check_permission :
      Option PluginPermissionRequirement → Handle Raw Request → Option WrittenError
  unfolding permission_mapping
  check_permission permissions handle = elim (permission_mapping handle.typ) [
    | none ↦ some (unsupported handle.typ)
    | some rule ↦ if rule.allows permissions then none else some (permission rule.denial)
  ]

  -- What follows the checks of the payload.
  pub invoke_handle :
      Option PluginPermissionRequirement
      → AccessType
      → Handle Raw Request
      → List (Output Raw Request)
  unfolding check_permission dispatch_dify_invocation_task
  invoke_handle permissions invoke_from handle =
      if is_model invoke_from
      then write_error invoked_from_model ∷ end_response ∷ []
      else elim (check_permission permissions handle) [
        | some e ↦ write_error e ∷ end_response ∷ []
        | none ↦ dispatch_dify_invocation_task handle ++ end_response ∷ []
      ]

  -- The checks of the payload's fields.
  pub invoke_fields :
      Option PluginPermissionRequirement
      → AccessType
      → Session
      → Option InvokeType
      → Option String
      → Option (Fields Raw)
      → PayloadError ⊎ List (Output Raw Request)
  unfolding invoke_handle
  invoke_fields permissions invoke_from session none id request = inl missing_type
  invoke_fields permissions invoke_from session (some typ) none request = inl missing_request_id
  invoke_fields permissions invoke_from session (some typ) (some id) none = inl missing_request
  invoke_fields permissions invoke_from session (some typ) (some id) (some fields) = inr (
      invoke_handle permissions invoke_from
        (record { typ = typ; id = id; detailed_request = fields; session = some session }))

  -- InvokeDify; `payload` is what the outer unmarshalling gives.
  pub invoke_dify :
      Option PluginPermissionRequirement
      → AccessType
      → Session
      → Option (Payload Raw Request)
      → PayloadError ⊎ List (Output Raw Request)
  unfolding invoke_fields
  invoke_dify permissions invoke_from session none = inl unmarshal_request
  invoke_dify permissions invoke_from session (some p) =
      invoke_fields permissions invoke_from session p.typ p.backwards_request_id p.request
