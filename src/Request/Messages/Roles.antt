-- ===== src/Request/Messages/Roles.antt =====
-- The roles of the messages that the conversion builds.
use free_claude_desktop.Prelude.{
  String, inl, inr, ◌≡◌, refl, Bool, true, false, some, List, [], ◌∷◌, arith, ◌==◌, Bool-cases, All,
  is_empty,
}
use free_claude_desktop.Prelude.Texts.{is_empty_text, trim}
use free_claude_desktop.Json.{Value, get, get_str, get_field, insert, string, insert_all, end}
use free_claude_desktop.Claude.{ClaudeMessage, ClaudeMessageContent, ClaudeContentBlock, ClaudeRole}
use free_claude_desktop.Request.Images.{has_text, tool_result_images}
use free_claude_desktop.Request.Blocks.{
  AssistantParts, build_assistant_message, build_tool_messages, message_of, text_message,
  extract_after_tools_user_text, convert_user_content, convert_single_user_message,
  convert_user_blocks, role_string, set_calls,
}
use free_claude_desktop.Request.Messages.{option_list}

abbrev pub is_tool : Value → Bool
is_tool v = has_text "role" "tool" v

abbrev pub says_assistant : Value → Bool
says_assistant v = has_text "role" "assistant" v

-- Neither a tool result nor an assistant message.
abbrev pub IsPlain : Value → Type 0
IsPlain v = (is_tool v ≡ false) × (says_assistant v ≡ false)

message_of-IsPlain_user : (content : Value) → IsPlain (message_of "user" content)
unfolding get_str get get_field insert
message_of-IsPlain_user content = (refl, refl)

message_of-IsPlain :
    (role : ClaudeRole) (content : Value) → IsPlain (message_of (role_string role) content)
unfolding get_str get get_field insert
message_of-IsPlain ClaudeRole.user content = (refl, refl)
message_of-IsPlain ClaudeRole.assistant content = (refl, refl)
message_of-IsPlain ClaudeRole.system content = (refl, refl)

text_message-IsPlain_user : (text : String) → All IsPlain (option_list (text_message "user" text))
text_message-IsPlain_user text = elim (Bool-cases (is_empty_text text)) [
  | inl blank ↦ rw blank tt
  | inr full ↦ rw full (message_of-IsPlain_user (string text), tt)
]

text_message-IsPlain :
    (role : ClaudeRole) (text : String)
    → All IsPlain (option_list (text_message (role_string role) text))
text_message-IsPlain role text = elim (Bool-cases (is_empty_text text)) [
  | inl blank ↦ rw blank tt
  | inr full ↦ rw full (message_of-IsPlain role (string text), tt)
]

single-IsPlain_content :
    (content : ClaudeMessageContent) (role : ClaudeRole)
    → All IsPlain (option_list (convert_user_content content role))
unfolding convert_user_content
single-IsPlain_content (ClaudeMessageContent.text t) role = text_message-IsPlain_user (trim t)
single-IsPlain_content (ClaudeMessageContent.blocks blocks) role =
    elim (Bool-cases (convert_user_blocks blocks).1) [
      | inl image ↦ rw image (message_of-IsPlain role _, tt)
      | inr no_image ↦ rw no_image (text_message-IsPlain role _)
    ]

pub single-IsPlain :
    (msg : ClaudeMessage) → All IsPlain (option_list (convert_single_user_message msg))
unfolding convert_single_user_message
single-IsPlain msg = single-IsPlain_content msg.content msg.role

pub after_tools-IsPlain :
    (blocks : List ClaudeContentBlock)
    → All IsPlain (option_list (extract_after_tools_user_text blocks))
unfolding extract_after_tools_user_text
after_tools-IsPlain blocks = elim (Bool-cases (is_empty (tool_result_images blocks))) [
  | inr images ↦ rw images (message_of-IsPlain_user _, tt)
  | inl no_images ↦ rw no_images (elim (Bool-cases (convert_user_blocks blocks).1) [
    | inl image ↦ rw image (message_of-IsPlain_user _, tt)
    | inr no_image ↦ rw no_image (text_message-IsPlain_user _)
  ])
]

pub tools-All :
    (print : Value → String) (blocks : List ClaudeContentBlock)
    → All (λ v. is_tool v ≡ true) (build_tool_messages print blocks)
unfolding build_tool_messages get_str get get_field insert
tools-All print [] = tt
tools-All print (ClaudeContentBlock.tool_result id content ∷ blocks) =
    (refl, tools-All print blocks)
tools-All print (_ ∷ blocks) = tools-All print blocks

calls_role :
    (content : Value) (calls : List Value)
    → get_field "role" (
        set_calls
          (insert "content" content (insert_all end (("role", string "assistant") ∷ [])))
          calls)
      ≡ some (string "assistant")
unfolding get_field insert
calls_role content [] = refl
calls_role content (call ∷ calls) = refl

assistant_role :
    (parts : AssistantParts) → get_str "role" (build_assistant_message parts) ≡ some "assistant"
unfolding build_assistant_message get_str get
assistant_role parts = rw (calls_role _ parts.tool_calls)

has_text_of : (key s t : String) (v : Value) → get_str key v ≡ some s → has_text key t v ≡ (s == t)
has_text_of key s t v h = ground arith

pub assistant_roles :
    (parts : AssistantParts)
    → (is_tool (build_assistant_message parts) ≡ false)
      × (says_assistant (build_assistant_message parts) ≡ true)
assistant_roles parts = (
  has_text_of "role" "assistant" "tool" _ (assistant_role parts),
  has_text_of "role" "assistant" "assistant" _ (assistant_role parts),
)
