-- ===== src/Request/Blocks.antt =====
-- The content of one message: system text, assistant parts, user parts and tool results.
-- `print` stands for the JSON printer of the serde_json crate.
use free_claude_desktop.Prelude.{
  String, Bool, true, false, not, Option, none, some, List, [], ◌∷◌, ◌++◌, map, ◌==◌, if◌then◌else◌,
  and_then, filter_map, keep, is_empty,
}
use free_claude_desktop.Prelude.Texts.{concat, trim, is_empty_text, join}
use free_claude_desktop.Json.{
  Value, null, string, array_of, object, Fields, obj, get_str, insert, insert_all, end,
}
use free_claude_desktop.Claude.{
  ClaudeContentBlock, ClaudeToolResultContent, ClaudeMessageContent, ClaudeMessage, ClaudeRole,
  ClaudeSystem, ClaudeImageSource,
}
use free_claude_desktop.Request.Images.{has_text, is_image, tool_result_images}

abbrev some_text : String → Option String
some_text text = if is_empty_text text then none else some text

unfoldable pub extract_system_text : ClaudeSystem → Option String
extract_system_text (ClaudeSystem.text s) = some_text (trim s)
extract_system_text (ClaudeSystem.blocks blocks) =
    some_text (join "\n\n" (keep (λ s. not (is_empty_text s)) (map (λ b. trim b.text) blocks)))

unfoldable pub build_system_message : Option ClaudeSystem → Option Value
build_system_message system = and_then system (λ sys.
    and_then (extract_system_text sys)
      (λ text. some (obj (("role", string "system") ∷ ("content", string text) ∷ []))))

-- The text, the thinking and the tool calls of an assistant message so far.
pub record AssistantParts : Type 0 where
  pub thinking : String
  pub text : String
  pub tool_calls : List Value

module _ (print : Value → String) where
  abbrev pub tool_call : String → String → Value → Value
  tool_call id name input = obj (
      ("id", string id)
      ∷ ("type", string "function")
      ∷ ("function", obj (("name", string name) ∷ ("arguments", string (print input)) ∷ []))
      ∷ [])

  abbrev add_part : AssistantParts → ClaudeContentBlock → AssistantParts
  add_part parts (ClaudeContentBlock.text t) = record parts { text = concat (parts.text ∷ t ∷ []) }
  add_part parts (ClaudeContentBlock.thinking t) = record parts {
    thinking = concat (parts.thinking ∷ t ∷ []);
  }
  add_part parts (ClaudeContentBlock.tool_use id name input) = record parts {
    tool_calls = parts.tool_calls ++ tool_call id name input ∷ [];
  }
  add_part parts _ = parts

  unfoldable pub add_parts : AssistantParts → List ClaudeContentBlock → AssistantParts
  add_parts parts [] = parts
  add_parts parts (block ∷ blocks) = add_parts (add_part parts block) blocks

  unfoldable pub collect_assistant_parts : ClaudeMessageContent → AssistantParts
  collect_assistant_parts (ClaudeMessageContent.text t) = record {
    thinking = "";
    text = t;
    tool_calls = [];
  }
  collect_assistant_parts (ClaudeMessageContent.blocks blocks) =
      add_parts (record { thinking = ""; text = ""; tool_calls = [] }) blocks

abbrev text_or_null : String → Value
text_or_null s = if is_empty_text s then null else string s

abbrev pub set_calls : Fields → List Value → Fields
set_calls fields [] = fields
set_calls fields (call ∷ calls) = insert "tool_calls" (array_of (call ∷ calls)) fields

unfoldable pub build_assistant_message : AssistantParts → Value
build_assistant_message parts =
    let final_content =
      if is_empty_text parts.thinking
      then parts.text
      else concat ("<think>" ∷ parts.thinking ∷ "</think>" ∷ parts.text ∷ []) in
    object (
      set_calls
        (insert "content" (text_or_null final_content)
          (insert_all end (("role", string "assistant") ∷ [])))
        parts.tool_calls)

module _ (print : Value → String) where
  abbrev result_text : Value → Option String
  result_text res_block = elim (get_str "text" res_block) [
    | some t ↦ some t
    | none ↦
        if has_text "type" "text" res_block
        then get_str "text" res_block
        else if is_image res_block
        then none
        else some (print res_block)
  ]

  unfoldable pub tool_result_content_to_text : Option ClaudeToolResultContent → String
  tool_result_content_to_text none = ""
  tool_result_content_to_text (some (ClaudeToolResultContent.text t)) = t
  tool_result_content_to_text (some (ClaudeToolResultContent.object v)) = print v
  tool_result_content_to_text (some (ClaudeToolResultContent.blocks results)) =
      join "\n" (filter_map result_text results)

  abbrev pub tool_message : String → String → Value
  tool_message tool_use_id text = obj (
      ("role", string "tool")
      ∷ ("tool_call_id", string tool_use_id)
      ∷ ("content", string text)
      ∷ [])

  unfoldable pub build_tool_messages : List ClaudeContentBlock → List Value
  build_tool_messages [] = []
  build_tool_messages (ClaudeContentBlock.tool_result tool_use_id content ∷ blocks) =
      tool_message tool_use_id (trim (tool_result_content_to_text content))
      ∷ build_tool_messages blocks
  build_tool_messages (_ ∷ blocks) = build_tool_messages blocks

abbrev block_text : ClaudeContentBlock → Option String
block_text (ClaudeContentBlock.text t) = some t
block_text _ = none

unfoldable pub text_blocks : List ClaudeContentBlock → List String
text_blocks blocks = filter_map block_text blocks

abbrev pub text_part : String → Value
text_part t = obj (("type", string "text") ∷ ("text", string t) ∷ [])

abbrev pub image_part : ClaudeImageSource → Value
image_part source = obj (
    ("type", string "image_url")
    ∷ (
      "image_url",
      obj (
          ("url", string (concat ("data:" ∷ source.media_type ∷ ";base64," ∷ source.content ∷ [])))
          ∷ []),
    )
    ∷ [])

-- The content parts, and whether one of them is an image.
abbrev pub is_base64 : ClaudeImageSource → Bool
is_base64 source = source.source_type == "base64"

unfoldable pub convert_user_blocks : List ClaudeContentBlock → List Value × Bool
convert_user_blocks [] = ([], false)
convert_user_blocks (ClaudeContentBlock.text t ∷ blocks) =
    let (content, has_image) = convert_user_blocks blocks in (text_part t ∷ content, has_image)
convert_user_blocks (ClaudeContentBlock.image source ∷ blocks) =
    let (content, has_image) = convert_user_blocks blocks in
    if is_base64 source then (image_part source ∷ content, true) else (content, has_image)
convert_user_blocks (_ ∷ blocks) = convert_user_blocks blocks

abbrev pub message_of : String → Value → Value
message_of role content = obj (("role", string role) ∷ ("content", content) ∷ [])

abbrev pub text_message : String → String → Option Value
text_message role text = if is_empty_text text then none else some (message_of role (string text))

unfoldable pub extract_after_tools_user_text : List ClaudeContentBlock → Option Value
extract_after_tools_user_text blocks =
    let images = tool_result_images blocks in
    let (user_parts, has_image) = convert_user_blocks blocks in
    if not (is_empty images)
    then some (message_of "user" (array_of (images ++ user_parts)))
    else if has_image
    then some (message_of "user" (array_of user_parts))
    else text_message "user" (trim (join "\n" (text_blocks blocks)))

abbrev pub is_role_system : ClaudeRole → Bool
is_role_system ClaudeRole.system = true
is_role_system _ = false

abbrev pub role_string : ClaudeRole → String
role_string role = if is_role_system role then "system" else "user"

unfoldable pub combined_text_from_content : List Value → String
combined_text_from_content openai_content =
    trim (concat (filter_map (get_str "text") openai_content))

unfoldable pub convert_user_content : ClaudeMessageContent → ClaudeRole → Option Value
convert_user_content (ClaudeMessageContent.text text) role = text_message "user" (trim text)
convert_user_content (ClaudeMessageContent.blocks blocks) role =
    let (openai_content, has_image) = convert_user_blocks blocks in
    if has_image
    then some (message_of (role_string role) (array_of openai_content))
    else text_message (role_string role) (combined_text_from_content openai_content)

unfoldable pub convert_single_user_message : ClaudeMessage → Option Value
unfolding convert_user_content
convert_single_user_message msg = convert_user_content msg.content msg.role
