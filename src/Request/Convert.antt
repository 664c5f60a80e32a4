-- ===== src/Request/Convert.antt =====
-- `anthropic_to_openai_request`, from the text of a request to the text that goes upstream.
-- `parse_request` and `print` stand for the JSON reader and printer of the serde_json crate.
pub mod Outcome
pub mod Errors
use free_claude_desktop.Prelude.{
  ℕ, String, Bool, true, false, Option, none, some, List, [], ◌∷◌, ◌++◌, map, unwrap_or,
  if◌then◌else◌, Result, ok, err, ◌>>=◌,
}
use free_claude_desktop.Json.{
  Value, string, bool, number, unsigned, array, nil, array_of, object, Fields, end, insert,
  insert_all, obj, set_some, float_value,
}
use free_claude_desktop.Claude.{ClaudeMessagesRequest}
use free_claude_desktop.Settings.{Settings}
use free_claude_desktop.Request.Effort.{apply_thinking_mapping}
use free_claude_desktop.Request.Routes.{apply_model_mapping}
use free_claude_desktop.Request.Images.{validate_tool_result_images}
use free_claude_desktop.Request.Blocks.{build_system_message}
use free_claude_desktop.Request.Messages.{option_list, convert_claude_messages}
use free_claude_desktop.Request.Tools.{apply_tools_mapping, apply_tool_choice_mapping}

abbrev pub map_option {ℓ κ} : {A : Type ℓ} {B : Type κ} → (A → B) → Option A → Option B
map_option f none = none
map_option f (some a) = some (f a)

abbrev pub initial_fields : ClaudeMessagesRequest → Fields
initial_fields req = insert_all end (
    ("model", string req.model)
    ∷ ("messages", array nil)
    ∷ ("max_tokens", number (unsigned (unwrap_or 4096 req.max_tokens)))
    ∷ [])

abbrev pub is_stream : ClaudeMessagesRequest → Bool
is_stream req = unwrap_or false req.stream

abbrev pub set_stream : Bool → Fields → Fields
set_stream false fields = fields
set_stream true fields =
    insert "stream_options" (obj (("include_usage", bool true) ∷ []))
      (insert "stream" (bool true) fields)

abbrev pub stop_value : ClaudeMessagesRequest → Option Value
stop_value req = map_option (λ stops. array_of (map string stops)) req.stop_sequences

-- The model and the effort, before the messages are put in.
abbrev pub mapped_fields : Settings → ClaudeMessagesRequest → Fields
mapped_fields settings req =
    apply_thinking_mapping (apply_model_mapping (initial_fields req) req.model settings) req
      settings

-- The parameters of the sampling, after all else.
abbrev pub set_sampling : ClaudeMessagesRequest → Fields → Fields
set_sampling req fields =
    set_some "top_p" (map_option float_value req.top_p)
      (set_some "temperature" (map_option float_value req.temperature) fields)

module _ (print : Value → String) where
  abbrev pub openai_messages : ClaudeMessagesRequest → List Value
  openai_messages req =
      option_list (build_system_message req.system) ++ convert_claude_messages print req.messages

  unfoldable pub request_fields : Settings → ClaudeMessagesRequest → Result Fields String
  request_fields settings req = do
    _ ← validate_tool_result_images req.messages
    let mapped = mapped_fields settings req
    let with_messages = insert "messages" (array_of (openai_messages req)) mapped
    let with_stop = set_some "stop" (stop_value req) with_messages
    with_tools ← apply_tools_mapping with_stop req
    let with_choice = apply_tool_choice_mapping with_tools req.tool_choice
    ok (set_sampling req (set_stream (is_stream req) with_choice))

  module _ (parse_request : String → Result ClaudeMessagesRequest String) where
    unfoldable pub anthropic_to_openai_request : String → Settings → Result (String × Bool) String
    anthropic_to_openai_request body settings = do
      req ← parse_request body
      fields ← request_fields settings req
      ok (print (object fields), is_stream req)
