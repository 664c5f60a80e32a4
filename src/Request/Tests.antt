-- ===== src/Request/Tests.antt =====
-- A conversation, its settings and a printer of JSON, on which the theorems are run.
mod Effort
mod Routes
mod Messages
mod Convert
use free_claude_desktop.Prelude.{
  String, true, none, some, List, [], ◌∷◌, Result, ok, err, ◌==◌, if◌then◌else◌,
}
use free_claude_desktop.Prelude.Texts.{concat}
use free_claude_desktop.Json.{
  Value, null, bool, number, string, array, object, Items, nil, cons, Fields, end, field, obj,
}
use free_claude_desktop.Claude.{
  ClaudeMessagesRequest, ClaudeMessage, ClaudeMessageContent, ClaudeContentBlock, ClaudeRole,
  ClaudeSystem, ClaudeTool, ClaudeThinkingConfig, ClaudeToolResultContent,
}
use free_claude_desktop.Settings.{Settings, HashMap}

-- A printer that writes no numbers.
mutual
  print_value : Value → String
  print_value null = "null"
  print_value (bool b) = if b then "true" else "false"
  print_value (number n) = "0"
  print_value (string s) = concat ("'" ∷ s ∷ "'" ∷ [])
  print_value (array vs) = concat ("[" ∷ print_items vs ∷ "]" ∷ [])
  print_value (object m) = concat ("{" ∷ print_fields m ∷ "}" ∷ [])

  print_items : Items → String
  print_items nil = ""
  print_items (cons v vs) = concat (print_value v ∷ "," ∷ print_items vs ∷ [])

  print_fields : Fields → String
  print_fields end = ""
  print_fields (field k v m) = concat (k ∷ ":" ∷ print_value v ∷ "," ∷ print_fields m ∷ [])

abbrev question : ClaudeMessage
question = record { role = ClaudeRole.user; content = ClaudeMessageContent.text "List the files." }

abbrev call : ClaudeMessage
call = record {
  role = ClaudeRole.assistant;
  content =
      ClaudeMessageContent.blocks (
        ClaudeContentBlock.text "I look."
        ∷ ClaudeContentBlock.tool_use "call-1" "ls" (obj [])
        ∷ []);
}

abbrev screenshot : Value
screenshot = obj (
    ("type", string "image")
    ∷ ("source", obj (("type", string "url") ∷ ("url", string "https://a.b/c.png") ∷ []))
    ∷ [])

abbrev answer_blocks : List ClaudeContentBlock
answer_blocks =
    ClaudeContentBlock.tool_result "call-1"
      (some (ClaudeToolResultContent.blocks (screenshot ∷ [])))
    ∷ ClaudeContentBlock.text "Go on."
    ∷ []

abbrev answer : ClaudeMessage
answer = record { role = ClaudeRole.user; content = ClaudeMessageContent.blocks answer_blocks }

abbrev conversation : List ClaudeMessage
conversation = question ∷ call ∷ answer ∷ []

abbrev list_files : ClaudeTool
list_files = record { name = "ls"; description = some "Lists files."; input_schema = some (obj []) }

abbrev built_in : ClaudeTool
built_in = record { name = "bash"; description = none; input_schema = none }

abbrev unnamed : ClaudeTool
unnamed = record { name = "  "; description = none; input_schema = none }

abbrev thinking_config : ClaudeThinkingConfig
thinking_config = record { kind = some "enabled"; enabled = none; budget_tokens = some 4096 }

abbrev off_config : ClaudeThinkingConfig
off_config = record { kind = some "disabled"; enabled = none; budget_tokens = none }

abbrev request : ClaudeMessagesRequest
request = record {
  model = "claude-sonnet-4[1m]";
  max_tokens = none;
  messages = conversation;
  system = some (ClaudeSystem.text " Be brief. ");
  stop_sequences = none;
  stream = some true;
  temperature = none;
  top_p = none;
  top_k = none;
  metadata = none;
  tools = some (list_files ∷ unnamed ∷ []);
  tool_choice = some (obj (("type", string "any") ∷ []));
  thinking = some thinking_config;
  output_config = none;
}

abbrev routes : HashMap String
routes = ("claude-haiku", "vendor/small") ∷ ("claude-sonnet-4", "vendor/large") ∷ []

abbrev routes_again : HashMap String
routes_again = ("claude-sonnet-4", "vendor/large") ∷ ("claude-haiku", "vendor/small") ∷ []

abbrev levels : List String
levels = "none" ∷ "low" ∷ "max" ∷ []

abbrev settings_of : HashMap (List String) → Settings
settings_of efforts = record {
  gateway = record {
    real_base_url = "";
    real_api_key = "";
    real_auth_scheme = "";
    transport_type = "";
    proxy_auth_token = "";
  };
  models = record {
    real_model = none;
    real_model_sonnet = none;
    real_model_opus = none;
    real_model_haiku = none;
    real_model_routes = routes;
    real_model_reasoning_efforts = efforts;
    discovered_models = "vendor/other" ∷ [];
    model_reasoning_overrides = [];
    model_1m_overrides = [];
    model_1m_prefer_overrides = [];
    model_visibility_overrides = [];
    reasoning_replay_mode = "";
  };
  optimizations = record {
    enable_quota_check_mock = true;
    enable_prefix_detection = true;
    enable_title_generation_skip = true;
    enable_suggestion_mode_skip = true;
    enable_filepath_extraction_mock = true;
    enable_safety_check_skip = true;
    enable_api_call_logging = true;
    enable_web_server_tools = true;
    web_fetch_allowed_schemes = "https";
    web_fetch_allow_private_networks = true;
  };
  desktop = record { custom_claude_path = none; active_port = none };
  ui = record { theme_mode = "dark"; language = "en" };
}

abbrev settings : Settings
settings = settings_of (("claude-sonnet-4", levels) ∷ [])

abbrev parse : String → Result ClaudeMessagesRequest String
parse body = if body == "a request" then ok request else err "no request"
