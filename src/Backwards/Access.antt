-- ===== src/Backwards/Access.antt =====
-- Who may run a task of Dify, and what every call is answered with.
use dify_plugin_daemon.Common.{
  Bool, true, false, ◌&&◌, Option, none, some, List, [], ◌∷◌, ◌++◌, ◌≡◌, refl, ◌↔◌, ◌⊎◌, inl, inr,
  arith, ◌∙◌, ap, Bool-cases, Option-cases, sym, subst,
}
use dify_plugin_daemon.Backwards.Permission.{
  InvokeType, PluginPermissionModelRequirement, PluginPermissionRequirement, PermissionRule,
  part_allows, permission_mapping,
}
use dify_plugin_daemon.Backwards.RequestFields.{Fields}
use dify_plugin_daemon.Backwards.{
  marshal_failed, unmarshal_failed, invalid_struct, Task, tool_task, llm_task,
  llm_structured_output_task, text_embedding_task, multimodal_embedding_task, rerank_task,
  multimodal_rerank_task, tts_task, speech2text_task, moderation_task, app_task,
  parameter_extractor, question_classifier, storage_task, system_summary_task, upload_file_task,
  fetch_app_task, Output, write_error, execute, end_response, Handle, Payload, Decoded, decoded,
  not_marshalled, not_unmarshalled, not_valid, AccessType, is_model, Session, dispatch_mapping,
  generic_dispatch_task, trusted_fields, dispatch_dify_invocation_task, invoke_handle,
  invoke_fields, invoke_dify,
}
use Prim.Native.String.{String}

-- A kind of invocation has a task exactly when it has a permission rule, so that no permitted call
-- ends without a task and no task is out of reach.
pub dispatch_mapping-permission_mapping :
    (typ : InvokeType) → (dispatch_mapping typ ≡ none) ↔ (permission_mapping typ ≡ none)
unfolding dispatch_mapping permission_mapping
dispatch_mapping-permission_mapping InvokeType.llm = ((λ h. cc), (λ h. cc))
dispatch_mapping-permission_mapping InvokeType.llm_structured_output = ((λ h. cc), (λ h. cc))
dispatch_mapping-permission_mapping InvokeType.text_embedding = ((λ h. cc), (λ h. cc))
dispatch_mapping-permission_mapping InvokeType.multimodal_embedding = ((λ h. cc), (λ h. cc))
dispatch_mapping-permission_mapping InvokeType.rerank = ((λ h. cc), (λ h. cc))
dispatch_mapping-permission_mapping InvokeType.multimodal_rerank = ((λ h. cc), (λ h. cc))
dispatch_mapping-permission_mapping InvokeType.tts = ((λ h. cc), (λ h. cc))
dispatch_mapping-permission_mapping InvokeType.speech2text = ((λ h. cc), (λ h. cc))
dispatch_mapping-permission_mapping InvokeType.moderation = ((λ h. cc), (λ h. cc))
dispatch_mapping-permission_mapping InvokeType.tool = ((λ h. cc), (λ h. cc))
dispatch_mapping-permission_mapping InvokeType.node_parameter_extractor = ((λ h. cc), (λ h. cc))
dispatch_mapping-permission_mapping InvokeType.node_question_classifier = ((λ h. cc), (λ h. cc))
dispatch_mapping-permission_mapping InvokeType.app = ((λ h. cc), (λ h. cc))
dispatch_mapping-permission_mapping InvokeType.storage = ((λ h. cc), (λ h. cc))
dispatch_mapping-permission_mapping InvokeType.encrypt = ((λ h. refl), (λ h. refl))
dispatch_mapping-permission_mapping InvokeType.system_summary = ((λ h. cc), (λ h. cc))
dispatch_mapping-permission_mapping InvokeType.upload_file = ((λ h. cc), (λ h. cc))
dispatch_mapping-permission_mapping InvokeType.fetch_app = ((λ h. cc), (λ h. cc))
dispatch_mapping-permission_mapping (InvokeType.unknown s) = ((λ h. refl), (λ h. refl))

-- The manifest has the part `part` of the permissions, with the switch `test` on.
abbrev pub Switched :
    {P : Type 0}
    → (PluginPermissionRequirement → Option P)
    → (P → Bool)
    → Option PluginPermissionRequirement
    → Type 0
Switched part test none = ⊥
Switched part test (some p) = (x : _) × (part p ≡ some x) × (test x ≡ true)

-- A model task needs the model part enabled, and its own switch.
abbrev ModelSwitched :
    (PluginPermissionModelRequirement → Bool) → Option PluginPermissionRequirement → Type 0
ModelSwitched test = Switched (λ p. p.model) (λ x. x.enabled && test x)

-- What the manifest has to grant for a task to run.
abbrev pub Granted : Task → Option PluginPermissionRequirement → Type 0
Granted tool_task = Switched (λ p. p.tool) (λ x. x.enabled)
Granted llm_task = ModelSwitched (λ x. x.llm)
Granted llm_structured_output_task = ModelSwitched (λ x. x.llm)
Granted system_summary_task = ModelSwitched (λ x. x.llm)
Granted text_embedding_task = ModelSwitched (λ x. x.text_embedding)
Granted multimodal_embedding_task = ModelSwitched (λ x. x.text_embedding)
Granted rerank_task = ModelSwitched (λ x. x.rerank)
Granted multimodal_rerank_task = ModelSwitched (λ x. x.rerank)
Granted tts_task = ModelSwitched (λ x. x.tts)
Granted speech2text_task = ModelSwitched (λ x. x.speech2text)
Granted moderation_task = ModelSwitched (λ x. x.moderation)
Granted parameter_extractor = Switched (λ p. p.node) (λ x. x.enabled)
Granted question_classifier = Switched (λ p. p.node) (λ x. x.enabled)
Granted app_task = Switched (λ p. p.app) (λ x. x.enabled)
Granted fetch_app_task = Switched (λ p. p.app) (λ x. x.enabled)
Granted storage_task = Switched (λ p. p.storage) (λ x. x.enabled)
Granted upload_file_task = λ p. Unit

part_allows-Switched :
    {P : Type 0} (part : PluginPermissionRequirement → Option P) (test : P → Bool)
    (p : Option PluginPermissionRequirement)
    → part_allows part test p ≡ true
    → Switched part test p
part_allows-Switched {P = P} part test none h = cc
part_allows-Switched {P = P} part test (some p) h = go (part p) refl h
  where
    go :
        (o : Option P)
        → part p ≡ o
        → elim o [ none ↦ false | some x ↦ test x ] ≡ true
        → (x : P) × (part p ≡ some x) × (test x ≡ true)
    go none e k = cc
    go (some x) e k = (x, e, k)

abbrev AllowedBy : Option PermissionRule → Option PluginPermissionRequirement → Type 0
AllowedBy none p = ⊥
AllowedBy (some rule) p = rule.allows p ≡ true

abbrev TaskGranted : Option Task → Option PluginPermissionRequirement → Type 0
TaskGranted none p = Unit
TaskGranted (some t) p = Granted t p

-- The rule of a kind of invocation that allows it grants the task.
rule-Granted :
    (typ : InvokeType) (p : Option PluginPermissionRequirement)
    → AllowedBy (permission_mapping typ) p
    → TaskGranted (dispatch_mapping typ) p
unfolding dispatch_mapping permission_mapping
rule-Granted InvokeType.llm p h = part_allows-Switched _ _ p h
rule-Granted InvokeType.llm_structured_output p h = part_allows-Switched _ _ p h
rule-Granted InvokeType.text_embedding p h = part_allows-Switched _ _ p h
rule-Granted InvokeType.multimodal_embedding p h = part_allows-Switched _ _ p h
rule-Granted InvokeType.rerank p h = part_allows-Switched _ _ p h
rule-Granted InvokeType.multimodal_rerank p h = part_allows-Switched _ _ p h
rule-Granted InvokeType.tts p h = part_allows-Switched _ _ p h
rule-Granted InvokeType.speech2text p h = part_allows-Switched _ _ p h
rule-Granted InvokeType.moderation p h = part_allows-Switched _ _ p h
rule-Granted InvokeType.tool p h = part_allows-Switched _ _ p h
rule-Granted InvokeType.node_parameter_extractor p h = part_allows-Switched _ _ p h
rule-Granted InvokeType.node_question_classifier p h = part_allows-Switched _ _ p h
rule-Granted InvokeType.app p h = part_allows-Switched _ _ p h
rule-Granted InvokeType.storage p h = part_allows-Switched _ _ p h
rule-Granted InvokeType.encrypt p h = tt
rule-Granted InvokeType.system_summary p h = part_allows-Switched _ _ p h
rule-Granted InvokeType.upload_file p h = tt
rule-Granted InvokeType.fetch_app p h = part_allows-Switched _ _ p h
rule-Granted (InvokeType.unknown s) p h = tt

task-Granted :
    (typ : InvokeType) (rule : PermissionRule) (task : Task)
    (p : Option PluginPermissionRequirement)
    → permission_mapping typ ≡ some rule
    → dispatch_mapping typ ≡ some task
    → rule.allows p ≡ true
    → Granted task p
task-Granted typ rule task p m d a =
    subst (λ o. TaskGranted o p) d (rule-Granted typ p (subst (λ o. AllowedBy o p) (sym m) a))

module _ {Raw Request : Type 0} where
  -- The task `t` runs on the request `r` in some output.
  abbrev pub Executes : Task → Request → List (Output Raw Request) → Type 0
  Executes t r [] = ⊥
  Executes t r (write_error e ∷ os) = Executes t r os
  Executes t r (end_response ∷ os) = Executes t r os
  Executes t r (execute t' r' ∷ os) = ((t' ≡ t) × (r' ≡ r)) ⊎ Executes t r os

  -- The end is told once, and last.
  abbrev pub EndsOnce : List (Output Raw Request) → Type 0
  EndsOnce [] = ⊥
  EndsOnce (write_error e ∷ os) = EndsOnce os
  EndsOnce (execute t r ∷ os) = EndsOnce os
  EndsOnce (end_response ∷ []) = Unit
  EndsOnce (end_response ∷ o ∷ os) = ⊥

  -- The kind that a payload names, and the fields of its request.
  abbrev pub named_type : Option (Payload Raw Request) → Option InvokeType
  named_type none = none
  named_type (some p) = p.typ

  abbrev pub sent_fields : Option (Payload Raw Request) → Option (Fields Raw)
  sent_fields none = none
  sent_fields (some p) = p.request

  module _ (marshal_text : String → Raw) (marshal_type : InvokeType → Raw)
      (decode : Task → Fields Raw → Decoded Raw Request) where
    generic_Executes :
        (task t : Task) (r : Request) (fields : Fields Raw)
        → Executes t r (
            generic_dispatch_task marshal_text marshal_type decode task fields ++ end_response ∷ [])
        → (task ≡ t) × (decode task fields ≡ decoded r)
    unfolding generic_dispatch_task
    generic_Executes task t r fields h = go (decode task fields) refl h
      where
        go :
            (d : Decoded Raw Request)
            → decode task fields ≡ d
            → Executes t r (
                elim d [
                  | decoded request ↦ execute task request ∷ []
                  | not_marshalled ↦ write_error marshal_failed ∷ []
                  | not_unmarshalled ↦ write_error unmarshal_failed ∷ []
                  | not_valid ↦ write_error invalid_struct ∷ []
                ]
                ++ end_response ∷ [])
            → (task ≡ t) × (decode task fields ≡ decoded r)
        go (decoded request) e (inl k) = (k.0, e ∙ ap decoded k.1)
        go (decoded request) e (inr k) = absurd k
        go not_marshalled e k = absurd k
        go not_unmarshalled e k = absurd k
        go not_valid e k = absurd k

    handle_Executes :
        (permissions : Option PluginPermissionRequirement) (from : AccessType) (typ : InvokeType)
        (id : String) (fields : Fields Raw) (session : Session) (t : Task) (r : Request)
        → Executes t r (
            invoke_handle marshal_text marshal_type decode permissions from
              (record { typ = typ; id = id; detailed_request = fields; session = some session }))
        → (is_model from ≡ false)
          × (dispatch_mapping typ ≡ some t)
          × Granted t permissions
          × (decode t (trusted_fields marshal_text marshal_type decode typ session fields)
              ≡ decoded r)
    unfolding invoke_handle
    handle_Executes permissions from typ id fields session t r h =
        elim (Bool-cases (is_model from)) [
          | inl e ↦ absurd (rw (e, invoke_handle) at h)
          | inr e ↦
              let h1 = rw (e, invoke_handle) at h in
              elim (Option-cases (permission_mapping typ)) [
                | inl m ↦ absurd (rw (m, invoke_handle) at h1)
                | inr (rule, m) ↦
                    let h2 = rw (m, invoke_handle) at h1 in
                    elim (Bool-cases (rule.allows permissions)) [
                      | inr a ↦ absurd (rw a at h2)
                      | inl a ↦
                          let h3 = rw a at h2 in
                          elim (Option-cases (dispatch_mapping typ)) [
                            | inl d ↦ absurd (rw (d, dispatch_dify_invocation_task) at h3)
                            | inr (task, d) ↦
                                let (same, dec) =
                                  generic_Executes task t r _
                                    (rw (d, dispatch_dify_invocation_task) at h3) in
                                (
                                  e,
                                  d ∙ ap some same,
                                  subst (λ u. Granted u permissions) same
                                      (task-Granted typ rule task permissions m d a),
                                  subst
                                      (λ u.
                                        decode u (
                                          trusted_fields marshal_text marshal_type decode typ
                                            session fields)
                                        ≡ decoded r)
                                      same dec,
                                )
                          ]
                    ]
              ]
        ]

    -- A correct payload is handled with the session's handle.
    abbrev HandledAs :
        Option PluginPermissionRequirement
        → AccessType
        → Session
        → Option InvokeType
        → Option (Fields Raw)
        → List (Output Raw Request)
        → Type 0
    HandledAs permissions from session named request os =
        (typ : InvokeType) × (id : String) × (fields : Fields Raw) × (named ≡ some typ)
        × (request ≡ some fields)
        × (invoke_handle marshal_text marshal_type decode permissions from
              (record { typ = typ; id = id; detailed_request = fields; session = some session })
            ≡ os)

    fields_ok :
        (permissions : Option PluginPermissionRequirement) (from : AccessType) (session : Session)
        (typ : Option InvokeType) (id : Option String) (request : Option (Fields Raw))
        (os : List (Output Raw Request))
        → invoke_fields marshal_text marshal_type decode permissions from session typ id request
          ≡ inr os
        → HandledAs permissions from session typ request os
    unfolding invoke_fields
    fields_ok permissions from session none id request os e = cc
    fields_ok permissions from session (some typ) none request os e = cc
    fields_ok permissions from session (some typ) (some id) none os e = cc
    fields_ok permissions from session (some typ) (some id) (some fields) os e =
        (typ, id, fields, refl, refl, cc e)

    invoke_dify_ok :
        (permissions : Option PluginPermissionRequirement) (from : AccessType) (session : Session)
        (payload : Option (Payload Raw Request)) (os : List (Output Raw Request))
        → invoke_dify marshal_text marshal_type decode permissions from session payload ≡ inr os
        → HandledAs permissions from session (named_type payload) (sent_fields payload) os
    unfolding invoke_dify
    invoke_dify_ok permissions from session none os e = cc
    invoke_dify_ok permissions from session (some p) os e =
        fields_ok permissions from session p.typ p.backwards_request_id p.request os e

    -- Whatever payload a plugin sends: a task runs only if the call does not come from a model
    -- invocation, and the manifest has the switch of the task on, if the task has one, as all but the
    -- upload of a file have; it is the task of the kind that the payload names, and its request is
    -- what was decoded for it from the fields that the payload has, with the session's identity.
    pub invoke_dify-Granted :
        (permissions : Option PluginPermissionRequirement) (from : AccessType) (session : Session)
        (payload : Option (Payload Raw Request)) (os : List (Output Raw Request)) (t : Task)
        (r : Request)
        → invoke_dify marshal_text marshal_type decode permissions from session payload ≡ inr os
        → Executes t r os
        → (typ : InvokeType) × (fields : Fields Raw) × (named_type payload ≡ some typ)
          × (sent_fields payload ≡ some fields)
          × (is_model from ≡ false)
          × (dispatch_mapping typ ≡ some t)
          × Granted t permissions
          × (decode t (trusted_fields marshal_text marshal_type decode typ session fields)
              ≡ decoded r)
    invoke_dify-Granted permissions from session payload os t r e h =
        let (typ, id, fields, named, sent, same) =
          invoke_dify_ok permissions from session payload os e in
        let (m, d, g, k) =
          handle_Executes permissions from typ id fields session t r
            (subst (Executes t r) (sym same) h) in
        (typ, fields, named, sent, m, d, g, k)

    EndsOnce-generic :
        (task : Task) (fields : Fields Raw)
        → EndsOnce (
            generic_dispatch_task marshal_text marshal_type decode task fields ++ end_response ∷ [])
    unfolding generic_dispatch_task
    EndsOnce-generic task fields = ground arith

    EndsOnce-handle :
        (permissions : Option PluginPermissionRequirement) (from : AccessType)
        (handle : Handle Raw Request)
        → EndsOnce (invoke_handle marshal_text marshal_type decode permissions from handle)
    unfolding invoke_handle
    EndsOnce-handle permissions from handle = ground arith

    -- A payload that is correct gets just one end of its response, and nothing after it, whether the
    -- call is refused, fails or runs.
    pub invoke_dify-EndsOnce :
        (permissions : Option PluginPermissionRequirement) (from : AccessType) (session : Session)
        (payload : Option (Payload Raw Request)) (os : List (Output Raw Request))
        → invoke_dify marshal_text marshal_type decode permissions from session payload ≡ inr os
        → EndsOnce os
    invoke_dify-EndsOnce permissions from session payload os e =
        let (typ, id, fields, named, sent, same) =
          invoke_dify_ok permissions from session payload os e in
        subst EndsOnce same (EndsOnce-handle permissions from _)
