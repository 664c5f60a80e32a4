-- ===== src/Request/Tools.antt =====
-- The tools that the request offers, and its choice among them.
pub mod Laws
use free_claude_desktop.Prelude.{
  String, Bool, true, false, not, ◌||◌, Option, none, some, List, [], ◌∷◌, ◌==◌, if◌then◌else◌,
  and_then, is_some, unwrap_or, cons_some, Result, ok, err, ◌>>=◌,
}
use free_claude_desktop.Prelude.Texts.{concat, trim, is_empty_text}
use free_claude_desktop.Json.{Value, string, array_of, obj, get, get_str, Fields, set_some}
use free_claude_desktop.Claude.{ClaudeTool, ClaudeMessagesRequest}

abbrev pub schema_error : String → String
schema_error name = concat (
    "Anthropic-native tool '" ∷ name
    ∷ "' cannot be converted to OpenAI-compatible function calling. Use an Anthropic-compatible gateway for Claude Desktop built-in tools."
    ∷ [])

abbrev pub has_blank_name : ClaudeTool → Bool
has_blank_name tool = is_empty_text (trim tool.name)

abbrev pub openai_tool : ClaudeTool → Value → Value
openai_tool tool input_schema = obj (
    ("type", string "function")
    ∷ (
      "function",
      obj (
          ("name", string tool.name)
          ∷ ("description", string (unwrap_or "" tool.description))
          ∷ ("parameters", input_schema)
          ∷ []),
    )
    ∷ [])

unfoldable pub build_single_openai_tool : ClaudeTool → Result Value String
build_single_openai_tool tool =
    if has_blank_name tool then ok (obj []) else elim tool.input_schema [
      | none ↦ err (schema_error tool.name)
      | some input_schema ↦ ok (openai_tool tool input_schema)
    ]

-- `if v.get("type").is_some() { openai_tools.push(v) }`
abbrev with_type : Value → Option Value
with_type v = if is_some (get "type" v) then some v else none

unfoldable pub build_openai_tools : List ClaudeTool → Result (List Value) String
build_openai_tools [] = ok []
build_openai_tools (tool ∷ tools) = do
  v ← build_single_openai_tool tool
  vs ← build_openai_tools tools
  ok (cons_some (with_type v) vs)

abbrev pub non_empty : List Value → Option Value
non_empty [] = none
non_empty (v ∷ vs) = some (array_of (v ∷ vs))

abbrev pub tools_of : Option (List ClaudeTool) → Result (Option Value) String
tools_of none = ok none
tools_of (some tools) = do openai_tools ← build_openai_tools tools; ok (non_empty openai_tools)

unfoldable pub apply_tools_mapping : Fields → ClaudeMessagesRequest → Result Fields String
apply_tools_mapping fields req = do tools ← tools_of req.tools; ok (set_some "tools" tools fields)

unfoldable pub map_tool_choice_type : String → Value → Value
map_tool_choice_type choice_type tool_choice_val =
    if choice_type == "auto"
    then string "auto"
    else if choice_type == "any"
    then string "required"
    else if choice_type == "tool"
    then elim (get_str "name" tool_choice_val) [
      | some name ↦
          obj (("type", string "function") ∷ ("function", obj (("name", string name) ∷ [])) ∷ [])
      | none ↦ string "auto"
    ]
    else string "auto"

abbrev pub new_choice : Option Value → Option Value
new_choice tool_choice = and_then tool_choice (λ val.
    and_then (get_str "type" val) (λ choice_type. some (map_tool_choice_type choice_type val)))

unfoldable pub apply_tool_choice_mapping : Fields → Option Value → Fields
apply_tool_choice_mapping fields tool_choice =
    set_some "tool_choice" (new_choice tool_choice) fields
