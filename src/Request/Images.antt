-- ===== src/Request/Images.antt =====
-- Images inside tool results: their conversion, and the check that rejects what cannot be converted.
pub mod Complete
pub mod Supported
pub mod Accepted
use free_claude_desktop.Prelude.{
  String, Bool, true, false, not, ◌||◌, ◌&&◌, Option, none, some, List, [], ◌∷◌, ◌++◌, ◌==◌,
  if◌then◌else◌, and_then, ◌or_else◌, unwrap_or, is_some, any, Result, ok, err,
}
use free_claude_desktop.Prelude.Texts.{concat}
use free_claude_desktop.Json.{Value, string, obj, get, get_str, as_str}
use free_claude_desktop.Claude.{
  ClaudeContentBlock, ClaudeToolResultContent, ClaudeMessageContent, ClaudeMessage,
}

-- `value.get(key).and_then(Value::as_str) == Some(text)`
abbrev pub has_text : String → String → Value → Bool
has_text key text v = elim (get_str key v) [ none ↦ false | some s ↦ s == text ]

abbrev pub is_image : Value → Bool
is_image v = has_text "type" "image" v

abbrev image_url : String → Value
image_url url =
    obj (("type", string "image_url") ∷ ("image_url", obj (("url", string url) ∷ [])) ∷ [])

-- The `match` on the source's type; `source.get(key)?.as_str()?` is a chain of `and_then`.
unfoldable pub image_source_url : Value → Option String
image_source_url source =
    if has_text "type" "url" source
    then get_str "url" source
    else if has_text "type" "base64" source || has_text "type" "image" source
    then and_then (and_then (get "media_type" source or_else get "mimeType" source) as_str)
        (λ media_type.
          and_then (get_str "data" source)
            (λ content. some (concat ("data:" ∷ media_type ∷ ";base64," ∷ content ∷ []))))
    else none

unfoldable pub tool_result_image : Value → Option Value
tool_result_image block =
    and_then (image_source_url (unwrap_or block (get "source" block))) (λ url. some (image_url url))

unfoldable pub has_unsupported_tool_result_image : List Value → Bool
has_unsupported_tool_result_image results =
    any (λ result. is_image result && not (is_some (tool_result_image result))) results

-- The images of one block's tool result, each behind a caption.
abbrev caption : String → Value
caption tool_use_id = obj (
    ("type", string "text")
    ∷ ("text", string (concat ("Image from tool result " ∷ tool_use_id ∷ ":" ∷ [])))
    ∷ [])

abbrev push_some : Option Value → List Value → List Value
push_some none rest = rest
push_some (some v) rest = v ∷ rest

unfoldable pub result_images : String → List Value → List Value
result_images tool_use_id [] = []
result_images tool_use_id (result ∷ results) =
    let rest = result_images tool_use_id results in
    if is_image result
    then caption tool_use_id ∷ push_some (tool_result_image result) rest
    else rest

unfoldable pub tool_result_images : List ClaudeContentBlock → List Value
unfolding result_images
tool_result_images [] = []
tool_result_images
      (ClaudeContentBlock.tool_result tool_use_id (some (ClaudeToolResultContent.blocks results))
        ∷ blocks) =
    result_images tool_use_id results ++ tool_result_images blocks
tool_result_images (_ ∷ blocks) = tool_result_images blocks

abbrev block_is_unsupported : ClaudeContentBlock → Bool
block_is_unsupported
      (ClaudeContentBlock.tool_result tool_use_id (some (ClaudeToolResultContent.blocks results))) =
    has_unsupported_tool_result_image results
block_is_unsupported _ = false

abbrev content_is_unsupported : ClaudeMessageContent → Bool
content_is_unsupported (ClaudeMessageContent.text t) = false
content_is_unsupported (ClaudeMessageContent.blocks blocks) = any block_is_unsupported blocks

abbrev pub message_has_unsupported_tool_result_image : ClaudeMessage → Bool
message_has_unsupported_tool_result_image message = content_is_unsupported message.content

abbrev pub image_error : String
image_error = "Unsupported or incomplete image in tool_result"

unfoldable pub validate_tool_result_images : List ClaudeMessage → Result (Unit {0}) String
validate_tool_result_images messages =
    if any message_has_unsupported_tool_result_image messages then err image_error else ok tt
