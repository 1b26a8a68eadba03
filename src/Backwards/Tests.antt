-- ===== src/Backwards/Tests.antt =====
-- Calls with a forged identity, with and without the permission.
use Prim.Native.String.{String}
use dify_plugin_daemon.Common.{true, false, none, some, List, [], ◌∷◌, ◌≡◌, inl, refl, All, ◌↔◌}
use dify_plugin_daemon.Backwards.Permission.{
  InvokeType, PluginPermissionRequirement, permission_mapping, allow_invoke_llm,
}
use dify_plugin_daemon.Backwards.RequestFields.{Fields}
use dify_plugin_daemon.Backwards.{
  Task, llm_task, Session, Output, execute, end_response, Payload, Decoded, decoded, AccessType,
  is_model, trusted_fields, dispatch_mapping, generic_dispatch_task, dispatch_dify_invocation_task,
  check_permission, invoke_handle, invoke_fields, invoke_dify,
}
use dify_plugin_daemon.Backwards.Access.{
  named_type, sent_fields, Granted, EndsOnce, dispatch_mapping-permission_mapping,
  invoke_dify-Granted, invoke_dify-EndsOnce,
}
use dify_plugin_daemon.Backwards.Identity.{Only, Has, trusted_fields-Only}

abbrev marshal_text : String → String
marshal_text s = s

abbrev marshal_type : InvokeType → String
marshal_type typ = "llm"

abbrev decode : Task → Fields String → Decoded String String
decode task fields = decoded "request"

abbrev session : Session
session = record { tenant_id = "tenant"; user_id = "user" }

abbrev forged : Fields String
forged = ("Tenant_ID", "other") ∷ ("prompt", "hello") ∷ []

abbrev permissions : PluginPermissionRequirement
permissions = record {
  tool = none;
  model = some (record {
    enabled = true;
    llm = true;
    text_embedding = false;
    rerank = false;
    tts = false;
    speech2text = false;
    moderation = false;
  });
  node = none;
  endpoint = none;
  app = none;
  storage = none;
}

abbrev payload : Payload String String
payload = record {
  typ = some InvokeType.llm;
  backwards_request_id = some "id";
  request = some forged;
}

abbrev outputs : List (Output String String)
outputs = execute llm_task "request" ∷ end_response ∷ []

trusted_fields-Only_example :
    let trusted = trusted_fields marshal_text marshal_type decode InvokeType.llm session forged in
    All (Only "tenant_id" "tenant") trusted
    × All (Only "user_id" "user") trusted
    × All (Only "type" "llm") trusted
    × Has ("tenant_id", "tenant") trusted
    × Has ("user_id", "user") trusted
    × Has ("type", "llm") trusted
trusted_fields-Only_example =
    trusted_fields-Only marshal_text marshal_type decode InvokeType.llm session forged

dispatch_mapping-permission_mapping_example :
    (dispatch_mapping InvokeType.llm ≡ none) ↔ (permission_mapping InvokeType.llm ≡ none)
dispatch_mapping-permission_mapping_example = dispatch_mapping-permission_mapping InvokeType.llm

invoke_dify-Granted_example :
    (typ : InvokeType) × (fields : Fields String) × (named_type (some payload) ≡ some typ)
    × (sent_fields (some payload) ≡ some fields)
    × (is_model AccessType.tool ≡ false)
    × (dispatch_mapping typ ≡ some llm_task)
    × Granted llm_task (some permissions)
    × (decode llm_task (trusted_fields marshal_text marshal_type decode typ session fields)
        ≡ decoded "request")
unfolding invoke_dify invoke_fields invoke_handle check_permission dispatch_dify_invocation_task
    generic_dispatch_task dispatch_mapping permission_mapping allow_invoke_llm
invoke_dify-Granted_example =
    invoke_dify-Granted marshal_text marshal_type decode (some permissions) AccessType.tool session
      (some payload) outputs llm_task "request" refl (inl (refl, refl))

invoke_dify-EndsOnce_example : EndsOnce outputs
unfolding invoke_dify invoke_fields invoke_handle check_permission dispatch_dify_invocation_task
    generic_dispatch_task dispatch_mapping permission_mapping allow_invoke_llm
invoke_dify-EndsOnce_example =
    invoke_dify-EndsOnce marshal_text marshal_type decode (some permissions) AccessType.tool session
      (some payload) outputs refl
