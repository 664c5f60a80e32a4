-- ===== src/Claude.antt =====
-- core/src/models/claude.rs: an Anthropic Messages request after it is deserialised.
-- A float is held by its 64 bits.
use free_claude_desktop.Prelude.{ℕ, String, Bool, Option, List}
use free_claude_desktop.Json.{Value}

pub record ClaudeImageSource : Type 0 where
  pub source_type : String
  pub media_type : String
  pub content : String

pub data ClaudeToolResultContent : Type 0 where
  text : String → ClaudeToolResultContent
  blocks : List Value → ClaudeToolResultContent
  object : Value → ClaudeToolResultContent

pub data ClaudeContentBlock : Type 0 where
  text : String → ClaudeContentBlock
  thinking : String → ClaudeContentBlock
  image : ClaudeImageSource → ClaudeContentBlock
  tool_use : (id name : String) → Value → ClaudeContentBlock
  tool_result : (tool_use_id : String) → Option ClaudeToolResultContent → ClaudeContentBlock
  tool_reference : Value → ClaudeContentBlock

pub record ClaudeSystemContent : Type 0 where
  pub kind : String
  pub text : String

pub data ClaudeRole : Type 0 where
  user assistant system : ClaudeRole

pub data ClaudeMessageContent : Type 0 where
  text : String → ClaudeMessageContent
  blocks : List ClaudeContentBlock → ClaudeMessageContent

pub record ClaudeMessage : Type 0 where
  pub role : ClaudeRole
  pub content : ClaudeMessageContent

pub record ClaudeTool : Type 0 where
  pub name : String
  pub description : Option String
  pub input_schema : Option Value

pub record ClaudeThinkingConfig : Type 0 where
  pub kind : Option String
  pub enabled : Option Bool
  pub budget_tokens : Option ℕ

pub record ClaudeOutputConfig : Type 0 where
  pub effort : Option String

pub data ClaudeSystem : Type 0 where
  text : String → ClaudeSystem
  blocks : List ClaudeSystemContent → ClaudeSystem

pub record ClaudeMessagesRequest : Type 0 where
  pub model : String
  pub max_tokens : Option ℕ
  pub messages : List ClaudeMessage
  pub system : Option ClaudeSystem
  pub stop_sequences : Option (List String)
  pub stream : Option Bool
  pub temperature : Option ℕ
  pub top_p : Option ℕ
  pub top_k : Option ℕ
  pub metadata : Option Value
  pub tools : Option (List ClaudeTool)
  pub tool_choice : Option Value
  pub thinking : Option ClaudeThinkingConfig
  pub output_config : Option ClaudeOutputConfig
