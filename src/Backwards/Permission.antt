-- ===== src/Backwards/Permission.antt =====
-- The permissions of a plugin's manifest (pkg/entities/plugin_entities/plugin_declaration.go), the
-- kinds of invocation (internal/core/dify_invocation/types.go) and the table that joins them
-- (permissionMapping of internal/core/io_tunnel/backwards_invocation/task.go). A nil pointer is `none`.
use Prim.Native.String.{String}
use dify_plugin_daemon.Common.{Bool, true, false, ◌&&◌, Option, none, some}

-- InvokeType; `unknown` is any other text.
pub data InvokeType : Type 0 where
  llm llm_structured_output text_embedding multimodal_embedding rerank multimodal_rerank :
      InvokeType
  tts speech2text moderation tool node_parameter_extractor node_question_classifier : InvokeType
  app storage encrypt system_summary upload_file fetch_app : InvokeType
  unknown : String → InvokeType

-- The requirements that have one switch.
pub record Switch : Type 0 where
  pub enabled : Bool

pub record PluginPermissionModelRequirement : Type 0 where
  pub enabled : Bool
  pub llm : Bool
  pub text_embedding : Bool
  pub rerank : Bool
  pub tts : Bool
  pub speech2text : Bool
  pub moderation : Bool

pub record PluginPermissionRequirement : Type 0 where
  pub tool : Option Switch
  pub model : Option PluginPermissionModelRequirement
  pub node : Option Switch
  pub endpoint : Option Switch
  pub app : Option Switch
  pub storage : Option Switch

-- `p != nil && p.X != nil && …` for the part `part` of the requirement.
abbrev pub part_allows :
    {P : Type 0}
    → (PluginPermissionRequirement → Option P)
    → (P → Bool)
    → Option PluginPermissionRequirement
    → Bool
part_allows part test none = false
part_allows part test (some p) = elim (part p) [ none ↦ false | some x ↦ test x ]

pub allow_invoke_tool : Option PluginPermissionRequirement → Bool
allow_invoke_tool = part_allows (λ p. p.tool) (λ x. x.enabled)

pub allow_invoke_model : Option PluginPermissionRequirement → Bool
allow_invoke_model = part_allows (λ p. p.model) (λ x. x.enabled)

unfoldable pub allow_invoke_llm : Option PluginPermissionRequirement → Bool
allow_invoke_llm = part_allows (λ p. p.model) (λ x. x.enabled && x.llm)

pub allow_invoke_text_embedding : Option PluginPermissionRequirement → Bool
allow_invoke_text_embedding = part_allows (λ p. p.model) (λ x. x.enabled && x.text_embedding)

pub allow_invoke_rerank : Option PluginPermissionRequirement → Bool
allow_invoke_rerank = part_allows (λ p. p.model) (λ x. x.enabled && x.rerank)

pub allow_invoke_tts : Option PluginPermissionRequirement → Bool
allow_invoke_tts = part_allows (λ p. p.model) (λ x. x.enabled && x.tts)

pub allow_invoke_speech2text : Option PluginPermissionRequirement → Bool
allow_invoke_speech2text = part_allows (λ p. p.model) (λ x. x.enabled && x.speech2text)

pub allow_invoke_moderation : Option PluginPermissionRequirement → Bool
allow_invoke_moderation = part_allows (λ p. p.model) (λ x. x.enabled && x.moderation)

pub allow_invoke_node : Option PluginPermissionRequirement → Bool
allow_invoke_node = part_allows (λ p. p.node) (λ x. x.enabled)

pub allow_invoke_app : Option PluginPermissionRequirement → Bool
allow_invoke_app = part_allows (λ p. p.app) (λ x. x.enabled)

pub allow_invoke_storage : Option PluginPermissionRequirement → Bool
allow_invoke_storage = part_allows (λ p. p.storage) (λ x. x.enabled)

-- The access that the error text asks to enable in the plugin manifest.
pub data Denial : Type 0 where
  tool_access llm_access text_embedding_access rerank_access tts_access speech2text_access : Denial
  moderation_access node_access app_access storage_access : Denial

-- An entry of permissionMapping.
pub record PermissionRule : Type 0 where
  pub allows : Option PluginPermissionRequirement → Bool
  pub denial : Denial

abbrev rule : (Option PluginPermissionRequirement → Bool) → Denial → Option PermissionRule
rule allows denial = some (record { allows = allows; denial = denial })

-- permissionMapping
unfoldable pub permission_mapping : InvokeType → Option PermissionRule
unfolding allow_invoke_tool allow_invoke_llm allow_invoke_text_embedding allow_invoke_rerank
    allow_invoke_tts allow_invoke_speech2text allow_invoke_moderation allow_invoke_node
    allow_invoke_app allow_invoke_storage
permission_mapping tool = rule allow_invoke_tool tool_access
permission_mapping llm = rule allow_invoke_llm llm_access
permission_mapping text_embedding = rule allow_invoke_text_embedding text_embedding_access
permission_mapping multimodal_embedding = rule allow_invoke_text_embedding text_embedding_access
permission_mapping rerank = rule allow_invoke_rerank rerank_access
permission_mapping multimodal_rerank = rule allow_invoke_rerank rerank_access
permission_mapping tts = rule allow_invoke_tts tts_access
permission_mapping speech2text = rule allow_invoke_speech2text speech2text_access
permission_mapping moderation = rule allow_invoke_moderation moderation_access
permission_mapping node_parameter_extractor = rule allow_invoke_node node_access
permission_mapping node_question_classifier = rule allow_invoke_node node_access
permission_mapping app = rule allow_invoke_app app_access
permission_mapping storage = rule allow_invoke_storage storage_access
permission_mapping system_summary = rule allow_invoke_llm llm_access
permission_mapping upload_file = rule (λ p. true) storage_access
permission_mapping fetch_app = rule allow_invoke_app app_access
permission_mapping llm_structured_output = rule allow_invoke_llm llm_access
permission_mapping encrypt = none
permission_mapping (unknown s) = none
