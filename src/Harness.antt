-- ===== src/Harness.antt =====
-- harness/node_executor.py. JSON values are those of Graph/Values. What the executor calls and does
-- not implement is the record `Environment`: the schema validator, the JSON codec and the gateway,
-- whose answer may differ from one attempt to the next.
pub mod Execute
use mathlib.Core.List.{reverse}
use trail_signal_os.Prelude.{
  ℕ, zero, suc, ◌+◌, Bool, true, false, not, ◌&&◌, ◌||◌, Option, none, some, List, [], ◌∷◌, ◌++◌,
  if◌then◌else◌, any, ltb, ◌==◌, is_null,
}
use trail_signal_os.Guards.{
  Result, ok, err, ◌>>=◌, ◌>>◌, hook_injection_error, packed_input_error, executor_error,
  iteration_ceiling_error, validation_error, law1_error, value_error,
}
use trail_signal_os.Graph.Texts.{Text, codes, text_eq, has_text, is_empty}
use trail_signal_os.Graph.Values.{Value, str, mapping, Fields, end, field, find_key}

pub record Completion : Type 0 where
  pub parsed : Option Value
  pub text : Text
  pub replayed : Bool

pub record Environment : Type 0 where
  pub is_instance : Text → Value → Bool
  pub loads : Text → Option Value
  pub dumps : Value → Text
  pub generate : ℕ → Option Text → List Fields → Option Text → Option Fields → Result Completion

pub record VerifierResult : Type 0 where
  pub passed : Bool
  pub violations : List Text

pub data NodeKind : Type 0 where
  llm deterministic : NodeKind

pub record NodeDefinition : Type 0 where
  pub node_id : Text
  pub kind : NodeKind
  pub input_schema : Text
  pub output_schema : Text
  pub verifier : Fields → Fields → VerifierResult
  pub max_iterations : ℕ
  pub role : Option Text
  pub prompt : Option Text
  pub cassette_kind : Option Text

pub data Verdict : Type 0 where
  pass ceiling : Verdict

pub record NodeExecutionResult : Type 0 where
  pub node_id : Text
  pub verdict : Verdict
  pub attempts : ℕ
  pub output : Option Fields
  pub violations : List Text
  pub replayed : Option Bool

abbrev starts_with : Text → Text → Bool
starts_with [] t = true
starts_with (c ∷ cs) [] = false
starts_with (c ∷ cs) (d ∷ ds) = let rest = starts_with cs ds in c == d && rest

-- `t.endswith(suffix)`
unfoldable pub ends_with : Text → Text → Bool
ends_with suffix t = starts_with (reverse suffix) (reverse t)

unfoldable pub schema_name : Text → Text
unfolding ends_with
schema_name schema_ref =
    if ends_with (codes ".schema.json") schema_ref
    then schema_ref
    else if ends_with (codes ".v1") schema_ref
    then schema_ref ++ codes ".schema.json"
    else schema_ref

abbrev pub law1_forbidden_llm_output_schemas : List Text
law1_forbidden_llm_output_schemas = codes "opportunity.v1.schema.json" ∷ codes "opportunity.v1" ∷ []

-- Whether the schema is an opportunity's, which holds scores (LAW 1).
unfoldable pub is_scored : Text → Bool
unfolding schema_name
is_scored output_schema = has_text (schema_name output_schema) law1_forbidden_llm_output_schemas

abbrev pub is_llm : NodeKind → Bool
is_llm llm = true
is_llm deterministic = false

-- `not role`
abbrev pub lacks_role : Option Text → Bool
lacks_role none = true
lacks_role (some r) = is_empty r

-- `__post_init__`; a verifier is always there.
unfoldable pub post_init : NodeDefinition → Result NodeDefinition
post_init node =
    if ltb node.max_iterations 1
    then err value_error
    else if is_llm node.kind && lacks_role node.role
    then err value_error
    else if is_llm node.kind && is_scored node.output_schema
    then err law1_error
    else ok node

abbrev has_key : Text → Fields → Bool
has_key k fs = not (is_null (find_key k fs))

unfoldable pub reject_hook_injection : Option Fields → Result (Unit {0})
reject_hook_injection none = ok tt
reject_hook_injection (some payload) =
    if has_key (codes "hooks") payload then err hook_injection_error else ok tt

abbrev pub forbidden_context_keys : List Text
forbidden_context_keys =
    codes "hooks"
    ∷ codes "transcript"
    ∷ codes "conversation_history"
    ∷ codes "shared_context"
    ∷ codes "memory"
    ∷ codes "terminal"
    ∷ codes "spawn"
    ∷ codes "tool_registry"
    ∷ codes "plugin_state"
    ∷ []

-- `FORBIDDEN_CONTEXT_KEYS.intersection(packed_input.keys())` is not empty.
abbrev pub has_forbidden_key : Fields → Bool
has_forbidden_key fs = any (λ (k : Text). has_key k fs) forbidden_context_keys

abbrev as_object : Value → Result Fields
as_object (mapping fs) = ok fs
as_object _ = err packed_input_error

unfoldable pub validate_packed_input : Environment → Value → Text → Result Fields
unfolding reject_hook_injection
validate_packed_input env packed_input input_schema = do
  fields ← as_object packed_input
  reject_hook_injection (some fields)
  if has_forbidden_key fields
      then err packed_input_error
      else if env.is_instance (schema_name input_schema) (mapping fields)
      then ok fields
      else err packed_input_error

unfoldable pub validate_output_schema : Environment → Fields → Text → Result (Unit {0})
validate_output_schema env output output_schema =
    if env.is_instance (schema_name output_schema) (mapping output)
    then ok tt
    else err validation_error

abbrev message : Text → Text → Fields
message role content = field (codes "role") (str role) (field (codes "content") (str content) end)

abbrev prompt_or_default : Text → Option Text → Text
prompt_or_default node_id none =
    codes "Execute node " ++ (node_id ++ codes " on the packed input artifact.")
prompt_or_default node_id (some []) =
    codes "Execute node " ++ (node_id ++ codes " on the packed input artifact.")
prompt_or_default node_id (some (c ∷ cs)) = c ∷ cs

abbrev user_content : NodeDefinition → Fields → Value
user_content node packed_input = mapping (
    field (codes "node_id") (str node.node_id) (
      field (codes "input_schema") (str node.input_schema) (
        field (codes "output_schema") (str node.output_schema)
          (field (codes "packed_input") (mapping packed_input) end))))

-- The lines "- …" joined by newlines.
abbrev bullets : List Text → Text
bullets [] = []
bullets (v ∷ []) = codes "- " ++ v
bullets (v ∷ w ∷ vs) = codes "- " ++ (v ++ (10 ∷ bullets (w ∷ vs)))

abbrev repair_messages : Environment → Option Fields → List Text → List Fields
repair_messages env (some prior) (v ∷ vs) =
    message (codes "assistant") (env.dumps (mapping prior))
    ∷ message (codes "user")
        (codes "Repair the output. Verifier violations:" ++ (10 ∷ bullets (v ∷ vs)))
    ∷ []
repair_messages env _ _ = []

unfoldable pub build_messages :
    Environment → NodeDefinition → Fields → Option Fields → List Text → List Fields
build_messages env node packed_input prior_output violations =
    message (codes "system") (prompt_or_default node.node_id node.prompt)
    ∷ message (codes "user") (env.dumps (user_content node packed_input))
    ∷ repair_messages env prior_output violations

abbrev parsed_object : Option Value → Result Fields
parsed_object (some (mapping fs)) = ok fs
parsed_object _ = err executor_error

unfoldable pub extract_llm_output : Environment → Completion → Result Fields
extract_llm_output env completion = elim completion.parsed [
  | some (mapping fs) ↦ ok fs
  | _ ↦ parsed_object (env.loads completion.text)
]

abbrev pub reject_all : List Fields → Result (Unit {0})
reject_all [] = ok tt
reject_all (m ∷ ms) = do reject_hook_injection (some m); reject_all ms
