-- ===== src/Response/Convert.antt =====
-- `openai_to_anthropic_response`. `from_str` stands for the JSON reader of the serde_json crate
-- and `now` for the milliseconds of the clock.
pub mod Outcome
use free_claude_desktop.Prelude.{
  ℕ, String, Bool, true, false, not, ◌||◌, ◌==◌, Option, none, some, List, [], ◌∷◌, ◌++◌, map,
  first, and_then, ltb, if◌then◌else◌, is_empty, unwrap_or, ◌or_else◌, Result, ok, err,
}
use free_claude_desktop.Prelude.Texts.{trim, trim_start_bom, is_empty_text, concat, decimal}
use free_claude_desktop.Json.{
  Value, string, number, unsigned, array_of, object, Fields, end, insert, insert_all, obj, get,
  get_str, as_str, as_u64, as_array,
}

abbrev first_choice : Value → Option Value
first_choice data_value = and_then (and_then (get "choices" data_value) as_array) first

abbrev pub message_of : Value → Option Value
message_of data_value = and_then (first_choice data_value) (get "message")

abbrev pub content_text : Value → String
content_text data_value = unwrap_or "" (and_then (message_of data_value) (get_str "content"))

-- A `reasoning_content` that is no text hides `reasoning`.
abbrev pub reasoning_text : Value → String
reasoning_text data_value = unwrap_or "" (
    and_then
      (and_then (message_of data_value)
        (λ msg. get "reasoning_content" msg or_else get "reasoning" msg))
      as_str)

abbrev pub tool_calls : Value → List Value
tool_calls data_value =
    unwrap_or [] (and_then (and_then (message_of data_value) (get "tool_calls")) as_array)

abbrev pub thinking_blocks : String → List Value
thinking_blocks reasoning =
    if is_empty_text reasoning
    then []
    else obj (
        ("type", string "thinking")
        ∷ ("thinking", string reasoning)
        ∷ ("signature", string "")
        ∷ [])
      ∷ []

abbrev pub content_text_blocks : String → List Value
content_text_blocks text =
    if is_empty_text text
    then []
    else obj (("type", string "text") ∷ ("text", string text) ∷ []) ∷ []

abbrev function_text : String → Value → Option String
function_text key tc = and_then (get "function" tc) (get_str key)

abbrev ok_or : Value → Result Value String → Value
ok_or default (ok v) = v
ok_or default (err e) = default

abbrev pub token_count : Option Value → String → ℕ
token_count none key = 0
token_count (some usage) key = unwrap_or 0 (and_then (get key usage) as_u64)

abbrev pub cached_tokens : Value → ℕ
cached_tokens usage = token_count (get "prompt_tokens_details" usage) "cached_tokens"

abbrev set_cached : Option Value → Fields → Fields
set_cached none fields = fields
set_cached (some usage) fields =
    let cached = cached_tokens usage in
    if ltb 0 cached
    then insert "cache_read_input_tokens" (number (unsigned cached)) fields
    else fields

unfoldable pub usage_json : Option Value → Value
usage_json usage = object (
    set_cached usage (
      insert_all end (
        ("input_tokens", number (unsigned (token_count usage "prompt_tokens")))
        ∷ ("output_tokens", number (unsigned (token_count usage "completion_tokens")))
        ∷ [])))

abbrev pub finish_reason : Value → String
finish_reason data_value =
    unwrap_or "" (and_then (first_choice data_value) (get_str "finish_reason"))

unfoldable pub stop_reason : Value → String
stop_reason data_value =
    let by_calls = if is_empty (tool_calls data_value) then "end_turn" else "tool_use" in
    let reason = finish_reason data_value in
    if reason == "tool_calls" || reason == "function_call" then "tool_use" else by_calls

-- `trim_start_matches('\u{feff}').trim()`
abbrev pub normalized_body : String → String
normalized_body openai_body = trim (trim_start_bom openai_body)

module _ (from_str : String → Result Value String) where
  unfoldable pub tool_use_block : Value → Value
  tool_use_block tc = obj (
      ("type", string "tool_use")
      ∷ ("id", string (unwrap_or "" (get_str "id" tc)))
      ∷ ("name", string (unwrap_or "" (function_text "name" tc)))
      ∷ ("input", ok_or (obj []) (from_str (unwrap_or "{}" (function_text "arguments" tc))))
      ∷ [])

  unfoldable pub content_blocks : Value → List Value
  content_blocks data_value =
      thinking_blocks (reasoning_text data_value)
      ++ content_text_blocks (content_text data_value)
      ++ map tool_use_block (tool_calls data_value)

  abbrev pub response_of : ℕ → String → Value → Value
  response_of now req_model data_value = obj (
      ("id", string (concat ("msg_" ∷ decimal now ∷ [])))
      ∷ ("type", string "message")
      ∷ ("role", string "assistant")
      ∷ ("content", array_of (content_blocks data_value))
      ∷ ("model", string req_model)
      ∷ ("stop_reason", string (stop_reason data_value))
      ∷ ("usage", usage_json (get "usage" data_value))
      ∷ [])

  abbrev pub parsed_response : ℕ → String → Result Value String → Result Value String
  parsed_response now req_model (err e) =
      err (concat ("Upstream OpenAI response is not valid JSON: " ∷ e ∷ []))
  parsed_response now req_model (ok data_value) = ok (response_of now req_model data_value)

  unfoldable pub openai_to_anthropic_response : ℕ → String → String → Result Value String
  openai_to_anthropic_response now openai_body req_model =
      if is_empty_text (normalized_body openai_body)
      then err "Upstream OpenAI response body is empty"
      else parsed_response now req_model (from_str (normalized_body openai_body))
