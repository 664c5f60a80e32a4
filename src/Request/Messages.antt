-- ===== src/Request/Messages.antt =====
-- The conversation: an index walks over the messages, and an assistant message takes the tool
-- results of the message behind it along.
pub mod Spec
pub mod Roles
pub mod Pairing
pub mod Results
use free_claude_desktop.Prelude.{
  ℕ, zero, suc, ◌+◌, String, Bool, true, false, not, ◌&&◌, Option, none, some, List, [], ◌∷◌, ◌++◌,
  if◌then◌else◌, any, length, get_elem?,
}
use free_claude_desktop.Json.{Value}
use free_claude_desktop.Claude.{ClaudeContentBlock, ClaudeMessageContent, ClaudeMessage, ClaudeRole}
use free_claude_desktop.Request.Blocks.{
  collect_assistant_parts, build_assistant_message, build_tool_messages,
  extract_after_tools_user_text, convert_single_user_message,
}

abbrev pub is_assistant : ClaudeRole → Bool
is_assistant ClaudeRole.assistant = true
is_assistant _ = false

abbrev pub is_user : ClaudeRole → Bool
is_user ClaudeRole.user = true
is_user _ = false

abbrev pub is_tool_result : ClaudeContentBlock → Bool
is_tool_result (ClaudeContentBlock.tool_result tool_use_id content) = true
is_tool_result _ = false

-- The blocks of a message that holds a tool result, where its content is a list of blocks.
abbrev pub followup_blocks : ClaudeMessageContent → Option (List ClaudeContentBlock)
followup_blocks (ClaudeMessageContent.text t) = none
followup_blocks (ClaudeMessageContent.blocks blocks) =
    if any is_tool_result blocks then some blocks else none

abbrev pub followup_of : ClaudeMessage → Option (List ClaudeContentBlock)
followup_of next = if is_user next.role then followup_blocks next.content else none

abbrev pub option_list : Option Value → List Value
option_list none = []
option_list (some v) = v ∷ []

module _ (print : Value → String) where
  abbrev pub assistant_message : ClaudeMessage → Value
  assistant_message msg = build_assistant_message (collect_assistant_parts print msg.content)

  -- `out` grows at its end.
  unfoldable pub handle_assistant_message : ClaudeMessage → List Value → List Value
  handle_assistant_message msg out = out ++ assistant_message msg ∷ []

  abbrev pub followup : List ClaudeContentBlock → List Value
  followup next_blocks =
      build_tool_messages print next_blocks
      ++ option_list (extract_after_tools_user_text next_blocks)

  abbrev take_followup : Option (List ClaudeContentBlock) → ℕ → List Value → ℕ × List Value
  take_followup none i out = (i, out)
  take_followup (some next_blocks) i out = (i + 1, out ++ followup next_blocks)

  abbrev at_next : Option ClaudeMessage → ℕ → List Value → ℕ × List Value
  at_next none i out = (i, out)
  at_next (some next) i out = take_followup (followup_of next) i out

  -- The index and the output afterwards.
  unfoldable pub try_handle_tool_followup : List ClaudeMessage → ℕ → List Value → ℕ × List Value
  try_handle_tool_followup messages i out = at_next (get_elem? messages (i + 1)) i out

  -- One round of the loop: the index, advanced, and the output.
  unfoldable pub convert_step : List ClaudeMessage → ClaudeMessage → ℕ → List Value → ℕ × List Value
  convert_step messages msg i out =
      if is_assistant msg.role
      then (let (j, out') =
            try_handle_tool_followup messages i (handle_assistant_message msg out) in
          (j + 1, out'))
      else (i + 1, out ++ option_list (convert_single_user_message msg))

  -- `while i < messages.len()`; the fuel bounds the rounds.
  unfoldable pub convert_loop : ℕ → List ClaudeMessage → ℕ → List Value → List Value
  convert_loop zero messages i out = out
  convert_loop (suc fuel) messages i out = elim (get_elem? messages i) [
    | none ↦ out
    | some msg ↦
        let (j, out') = convert_step messages msg i out in convert_loop fuel messages j out'
  ]

  unfoldable pub convert_claude_messages : List ClaudeMessage → List Value
  convert_claude_messages messages = convert_loop (length messages) messages 0 []
