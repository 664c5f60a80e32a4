-- ===== src/Request/Convert/Outcome.antt =====
-- The fields of the request that goes upstream.
use free_claude_desktop.Prelude.{
  String, ◌≡◌, refl, sym, ap, ◌∙◌, Bool, true, false, Option, none, some, List, [], ◌∷◌, map, arith,
  unwrap_or, if◌then◌else◌, ok, >>=-eq-ok, ◌or_else◌, ◌==◌, eq_iff, Option-cases, inl, inr,
  ok-injective,
}
use mathlib.Core.Path.{subst}
use free_claude_desktop.Json.{
  Value, string, bool, number, unsigned, array_of, Fields, insert, obj, set_some, float_value,
  get_field,
}
use free_claude_desktop.Json.Laws.{get_field-insert, get_field-set_some}
use free_claude_desktop.Claude.{ClaudeMessagesRequest}
use free_claude_desktop.Settings.{Settings}
use free_claude_desktop.Request.Effort.Mapping.{get_field-apply_thinking_mapping}
use free_claude_desktop.Request.Routes.{apply_model_mapping, resolve_model_route}
use free_claude_desktop.Request.Images.{validate_tool_result_images}
use free_claude_desktop.Request.Tools.{
  apply_tools_mapping, apply_tool_choice_mapping, new_choice, tools_of,
}
use free_claude_desktop.Request.Convert.{
  initial_fields, is_stream, stop_value, mapped_fields, openai_messages, request_fields, map_option,
  set_stream, set_sampling,
}

-- The stop sequences as they are sent: all of them in order, and no field where none are given.
abbrev pub stops_sent : Option (List String) → Option Value
stops_sent none = none
stops_sent (some stops) = some (array_of (map string stops))

stop_value-stops_sent :
    (req : ClaudeMessagesRequest) → stop_value req ≡ stops_sent req.stop_sequences
stop_value-stops_sent req = elim (Option-cases req.stop_sequences) [
  | inl absent_stops ↦ rw absent_stops
  | inr (stops, given) ↦ rw given
]

-- What is sent, field by field.
pub record IsConverted (print : Value → String) (settings : Settings) (req : ClaudeMessagesRequest)
    (fields : Fields) : Type 0 where
  pub model :
      get_field "model" fields
      ≡ some (string (unwrap_or req.model (resolve_model_route req.model settings)))
  pub messages : get_field "messages" fields ≡ some (array_of (openai_messages print req))
  pub max_tokens :
      get_field "max_tokens" fields ≡ some (number (unsigned (unwrap_or 4096 req.max_tokens)))
  pub reasoning_effort :
      get_field "reasoning_effort" fields
      ≡ get_field "reasoning_effort" (mapped_fields settings req)
  pub stop : get_field "stop" fields ≡ stops_sent req.stop_sequences
  pub tool_choice : get_field "tool_choice" fields ≡ new_choice req.tool_choice
  pub stream : get_field "stream" fields ≡ (if is_stream req then some (bool true) else none)
  pub stream_options :
      get_field "stream_options" fields
      ≡ (if is_stream req then some (obj (("include_usage", bool true) ∷ [])) else none)
  pub temperature : get_field "temperature" fields ≡ map_option float_value req.temperature
  pub top_p : get_field "top_p" fields ≡ map_option float_value req.top_p

get_field-set_stream :
    (b : Bool) (j : String) (m : Fields)
    → get_field j (set_stream b m) ≡ (
        if b
        then (if "stream_options" == j
            then some (obj (("include_usage", bool true) ∷ []))
            else if "stream" == j
            then some (bool true)
            else get_field j m)
        else get_field j m)
get_field-set_stream false j m = refl
get_field-set_stream true j m = simp get_field-insert

module _ (settings : Settings) (req : ClaudeMessagesRequest) where
  model-mapping :
      get_field "model" (apply_model_mapping (initial_fields req) req.model settings)
      ≡ some (string (unwrap_or req.model (resolve_model_route req.model settings)))
  unfolding apply_model_mapping get_field insert
  model-mapping = elim (Option-cases (resolve_model_route req.model settings)) [
    | inl as_is ↦ rw as_is
    | inr (m, mapped) ↦ rw mapped
  ]

  other-mapping :
      (k : String)
      → ("model" == k) ≡ false
      → get_field k (apply_model_mapping (initial_fields req) req.model settings)
        ≡ get_field k (initial_fields req)
  unfolding apply_model_mapping
  other-mapping k other = elim (Option-cases (resolve_model_route req.model settings)) [
    | inl as_is ↦ rw as_is
    | inr (m, mapped) ↦ rw mapped (simp get_field-insert (rw other))
  ]

  mapped_get_field :
      (k : String)
      → ("model" == k) ≡ false
      → ("reasoning_effort" == k) ≡ false
      → get_field k (mapped_fields settings req) ≡ get_field k (initial_fields req)
  mapped_get_field k a b =
      get_field-apply_thinking_mapping _ req settings k
        (λ e. ground (arith, eq_iff "reasoning_effort" k))
      ∙ other-mapping k a

  absent :
      (k : String)
      → ("model" == k) ≡ false
      → ("reasoning_effort" == k) ≡ false
      → get_field k (initial_fields req) ≡ none
      → get_field k (mapped_fields settings req) ≡ none
  absent k a b h = mapped_get_field k a b ∙ h

  model_field :
      get_field "model" (mapped_fields settings req)
      ≡ some (string (unwrap_or req.model (resolve_model_route req.model settings)))
  model_field =
      get_field-apply_thinking_mapping _ req settings "model"
        (λ e. ground (arith, eq_iff "reasoning_effort" "model"))
      ∙ model-mapping

-- The fields as they are built, over the tools that are sent.
abbrev pub built : (Value → String) → Settings → ClaudeMessagesRequest → Option Value → Fields
built print settings req tools = set_sampling req (
    set_stream (is_stream req) (
      apply_tool_choice_mapping
        (set_some "tools" tools (
          set_some "stop" (stop_value req) (
            insert "messages" (array_of (openai_messages print req)) (mapped_fields settings req))))
        req.tool_choice))

pub request_fields-built :
    (print : Value → String) (settings : Settings) (req : ClaudeMessagesRequest) {fields : Fields}
    → request_fields print settings req ≡ ok fields
    → (tools : Option Value) × (tools_of req.tools ≡ ok tools)
      × (fields ≡ built print settings req tools)
unfolding request_fields apply_tools_mapping
request_fields-built print settings req h =
    let (_, valid, rest) = >>=-eq-ok (validate_tool_result_images req.messages) _ h in
    let (fs, mapped, last) = >>=-eq-ok (apply_tools_mapping _ req) _ rest in
    let (tools, given, same) = >>=-eq-ok (tools_of req.tools) _ mapped in
    (
      tools,
      given,
      sym (ok-injective last)
          ∙ ap
              (λ f.
                set_sampling req
                  (set_stream (is_stream req) (apply_tool_choice_mapping f req.tool_choice)))
              (sym (ok-injective same)),
    )

if_same : {A : Type 0} (b : Bool) (x : A) → (if b then x else x) ≡ x
if_same true x = refl
if_same false x = refl

or_else_none : (o : Option Value) → (o or_else none) ≡ o
or_else_none none = refl
or_else_none (some v) = refl

ruleset field_laws =
    (get_field-insert, get_field-set_some, get_field-set_stream, if_same, or_else_none)

built-IsConverted :
    (print : Value → String) (settings : Settings) (req : ClaudeMessagesRequest)
    (tools : Option Value)
    → IsConverted print settings req (built print settings req tools)
unfolding apply_tool_choice_mapping get_field insert
built-IsConverted print settings req tools = record {
  model = simp (field_laws, model_field settings req);
  messages = simp field_laws;
  max_tokens = simp (field_laws, mapped_get_field settings req "max_tokens" refl refl);
  reasoning_effort = simp field_laws;
  stop = simp (field_laws, absent settings req "stop" refl refl refl) (stop_value-stops_sent req);
  tool_choice = simp (field_laws, absent settings req "tool_choice" refl refl refl);
  stream = simp (field_laws, absent settings req "stream" refl refl refl);
  stream_options = simp (field_laws, absent settings req "stream_options" refl refl refl);
  temperature = simp (field_laws, absent settings req "temperature" refl refl refl);
  top_p = simp (field_laws, absent settings req "top_p" refl refl refl);
}

-- A conversion that succeeds sends the resolved model, the converted messages, the limit of
-- tokens (4096 if none is asked for), the mapped effort, the stop sequences, the choice of a
-- tool, the two stream fields exactly for a stream, the temperature and top_p.
pub request_fields-IsConverted :
    (print : Value → String) (settings : Settings) (req : ClaudeMessagesRequest) (fields : Fields)
    → request_fields print settings req ≡ ok fields
    → IsConverted print settings req fields
request_fields-IsConverted print settings req fields h =
    let (tools, _, same) = request_fields-built print settings req h in
    subst (IsConverted print settings req) (sym same) (built-IsConverted print settings req tools)

-- If the conversion of a request succeeds, then the tools field that is sent is what the
-- conversion of the request's tools gives, absent where it gives none.
request_fields-tools :
    (print : Value → String) (settings : Settings) (req : ClaudeMessagesRequest) (fields : Fields)
    → request_fields print settings req ≡ ok fields
    → tools_of req.tools ≡ ok (get_field "tools" fields)
unfolding apply_tool_choice_mapping get_field insert
request_fields-tools print settings req fields h =
    let (tools, given, same) = request_fields-built print settings req h in
    given
    ∙ ap ok (
        sym (
          ap (get_field "tools") same
          ∙ simp (field_laws, absent settings req "tools" refl refl refl)))
