-- ===== src/Optimization/Answers.antt =====
-- core/src/optimization/mod.rs: the handlers in their order, and the answers that they give.
-- `from_str` and `print` stand for the JSON reader and printer of serde_json, `now` for the
-- milliseconds of the clock, `to_lowercase` for the method, which follows Unicode.
pub mod Allowed
pub mod Thinking
mod Tests
use free_claude_desktop.Prelude.{
  ℕ, String, Bool, true, false, not, ◌&&◌, ◌||◌, Option, none, some, List, [], ◌∷◌, if◌then◌else◌,
  unwrap_or, and_then, ◌or_else◌, is_some,
}
use free_claude_desktop.Prelude.Texts.{concat, decimal}
use free_claude_desktop.Json.{
  Value, null, string, number, unsigned, array_of, object, Fields, obj, get, get_str, get_field,
  remove, as_bool,
}
use free_claude_desktop.Settings.{Settings}
use free_claude_desktop.Optimization.Detection.{
  is_quota_check_request, extract_command_prefix, is_title_generation_request,
  is_safety_classifier_request, is_suggestion_mode_request, extract_filepaths,
}
use free_claude_desktop.Optimization.WebTools.Policy.{WebFetchEgressPolicy, policy_from_settings}
use free_claude_desktop.Optimization.WebTools.Fetch.{Network, Outcome, Connection}
use free_claude_desktop.Optimization.WebTools.Calls.{
  WebToolCall, extract_latest_web_tool_call, execute_web_tool,
}

pub data OptimizationResponse : Type 0 where
  json : Value → OptimizationResponse
  sse : List String → OptimizationResponse

abbrev usage : ℕ → ℕ → Value
usage input_tokens output_tokens = obj (
    ("input_tokens", number (unsigned input_tokens))
    ∷ ("output_tokens", number (unsigned output_tokens))
    ∷ [])

abbrev text_block : String → Value
text_block text = obj (("type", string "text") ∷ ("text", string text) ∷ [])

unfoldable pub build_text_response : ℕ → String → String → ℕ → ℕ → Value
build_text_response now model text input_tokens output_tokens = obj (
    ("id", string (concat ("msg_opt_" ∷ decimal now ∷ [])))
    ∷ ("type", string "message")
    ∷ ("role", string "assistant")
    ∷ ("model", string model)
    ∷ ("content", array_of (text_block text ∷ []))
    ∷ ("stop_reason", string "end_turn")
    ∷ ("usage", usage input_tokens output_tokens)
    ∷ [])

module _ (print : Value → String) where
  abbrev sse_event : String → Value → String
  sse_event name payload = concat ("event: " ∷ name ∷ "\ndata: " ∷ print payload ∷ "\n\n" ∷ [])

  abbrev message_start : ℕ → String → ℕ → Value
  message_start now model input_tokens = obj (
      ("type", string "message_start")
      ∷ (
        "message",
        obj (
            ("id", string (concat ("msg_opt_sse_" ∷ decimal now ∷ [])))
            ∷ ("type", string "message")
            ∷ ("role", string "assistant")
            ∷ ("content", array_of [])
            ∷ ("model", string model)
            ∷ ("stop_reason", null)
            ∷ ("usage", usage input_tokens 0)
            ∷ []),
      )
      ∷ [])

  unfoldable pub build_text_sse : ℕ → String → String → ℕ → ℕ → List String
  build_text_sse now model text input_tokens output_tokens =
      sse_event "message_start" (message_start now model input_tokens)
      ∷ sse_event "content_block_start" (
          obj (
            ("type", string "content_block_start")
            ∷ ("index", number (unsigned 0))
            ∷ ("content_block", text_block "")
            ∷ []))
      ∷ sse_event "content_block_delta" (
          obj (
            ("type", string "content_block_delta")
            ∷ ("index", number (unsigned 0))
            ∷ ("delta", obj (("type", string "text_delta") ∷ ("text", string text) ∷ []))
            ∷ []))
      ∷ "event: content_block_stop\ndata: {\"type\":\"content_block_stop\",\"index\":0}\n\n"
      ∷ sse_event "message_delta" (
          obj (
            ("type", string "message_delta")
            ∷ ("delta", obj (("stop_reason", string "end_turn") ∷ ("stop_sequence", null) ∷ []))
            ∷ ("usage", usage input_tokens output_tokens)
            ∷ []))
      ∷ "event: message_stop\ndata: {\"type\":\"message_stop\"}\n\n"
      ∷ []

abbrev pub had : String → Fields → Bool
had key fields = is_some (get_field key fields)

abbrev pub stripped : (Value → String) → Fields → Option String
stripped print fields =
    let rest = remove "budget_tokens" (remove "thinking" fields) in
    if had "thinking" fields
      || had "budget_tokens" (remove "thinking" fields)
      || had "thinking" rest
    then some (print (object rest))
    else none

abbrev pub stripped_value : (Value → String) → Value → Option String
stripped_value print (object fields) = stripped print fields
stripped_value print v = none

module _ (from_str : String → Option Value) where
  unfoldable pub request_is_stream : String → Bool
  request_is_stream body_str =
      unwrap_or false (and_then (from_str body_str) (λ v. and_then (get "stream" v) as_bool))

  unfoldable pub extract_model : String → String
  extract_model body_str = unwrap_or "unknown" (and_then (from_str body_str) (get_str "model"))

  -- The text of an answer with its counts of tokens.
  abbrev pub Answer : Type 0
  Answer = String × ℕ × ℕ

  unfoldable pub build_optimized_text_response :
      (Value → String) → ℕ → String → String → Answer → OptimizationResponse
  build_optimized_text_response print now body_str model (text, input_tokens, output_tokens) =
      if request_is_stream body_str
      then sse (build_text_sse print now model text input_tokens output_tokens)
      else json (build_text_response now model text input_tokens output_tokens)

  module _ (to_lowercase : String → String) where
    abbrev answer_if : Bool → Answer → Option Answer
    answer_if b answer = if b then some answer else none

    abbrev text_if : Bool → Option String → ℕ → Option Answer
    text_if b text output_tokens =
        if b then and_then text (λ t. some (t, 100, output_tokens)) else none

    -- The first of the handlers 1 to 5 that is switched on and takes the request. The sixth only
    -- writes to the log.
    unfoldable pub local_answer : String → Settings → Option Answer
    local_answer body_str settings =
        answer_if
          (settings.optimizations.enable_quota_check_mock
            && is_quota_check_request from_str to_lowercase body_str)
          ("Quota check passed.", 10, 5)
        or_else text_if settings.optimizations.enable_prefix_detection
            (extract_command_prefix from_str to_lowercase body_str) 5
        or_else answer_if
            (settings.optimizations.enable_title_generation_skip
              && is_title_generation_request from_str to_lowercase body_str)
            ("Conversation", 100, 5)
        or_else answer_if
            (settings.optimizations.enable_suggestion_mode_skip
              && is_suggestion_mode_request from_str to_lowercase body_str)
            ("", 100, 1)
        or_else text_if settings.optimizations.enable_filepath_extraction_mock
            (extract_filepaths from_str to_lowercase body_str) 10

    module _ (net : Network) where
      -- The connections made, and the answer; `none` stands for `unreachable!()`.
      abbrev pub Tried : Settings → Type 0
      Tried settings =
          Option (List (Connection net (policy_from_settings settings)) × Option Answer)

      abbrev pub web_text :
          (settings : Settings) → Outcome net (policy_from_settings settings) → Tried settings
      web_text settings none = none
      web_text settings (some (connections, text)) = some (connections, some (text, 100, 100))

      abbrev pub executed :
          (settings : Settings)
          → Option (Outcome net (policy_from_settings settings))
          → Tried settings
      executed settings none = some ([], none)
      executed settings (some outcome) = web_text settings outcome

      abbrev pub called : (settings : Settings) → Option WebToolCall → Tried settings
      called settings none = some ([], none)
      called settings (some (id, name, input)) =
          executed settings (execute_web_tool net (policy_from_settings settings) name input)

      abbrev pub web_answer : String → (settings : Settings) → Tried settings
      web_answer body_str settings =
          if settings.optimizations.enable_web_server_tools
          then called settings (extract_latest_web_tool_call to_lowercase from_str body_str)
          else some ([], none)

      abbrev pub tried : String → (settings : Settings) → Option Answer → Tried settings
      tried body_str settings (some answer) = some ([], some answer)
      tried body_str settings none = web_answer body_str settings

      abbrev pub responded :
          (Value → String)
          → ℕ
          → String
          → (settings : Settings) → Tried settings
          → Option
              (List (Connection net (policy_from_settings settings)) × Option OptimizationResponse)
      responded print now body_str settings none = none
      responded print now body_str settings (some (connections, none)) = some (connections, none)
      responded print now body_str settings (some (connections, some answer)) = some (
        connections,
        some (build_optimized_text_response print now body_str (extract_model body_str) answer),
      )

      unfoldable pub try_optimizations :
          (Value → String)
          → ℕ
          → String
          → (settings : Settings)
          → Option
              (List (Connection net (policy_from_settings settings)) × Option OptimizationResponse)
      try_optimizations print now body_str settings =
          responded print now body_str settings
            (tried body_str settings (local_answer body_str settings))

    unfoldable pub maybe_strip_safety_thinking :
        (Value → String) → String → Settings → Option String
    maybe_strip_safety_thinking print body_str settings =
        if not settings.optimizations.enable_safety_check_skip
        then none
        else if not (is_safety_classifier_request from_str to_lowercase body_str)
        then none
        else and_then (from_str body_str) (stripped_value print)
