-- ===== src/Stream.antt =====
-- proxy/src/server/streaming.rs: a stream of Chat Completions chunks becomes a stream of Messages
-- events. The state holds the variables of `convert_stream_inner` and the events sent so far.
pub mod Events
mod State
mod ToolCalls
pub mod Balance
pub mod Ending
pub mod Steps
pub mod Whole
pub mod Texts
pub mod Begin
mod Tests
pub mod Lines
unfoldable pub use State.*
unfoldable pub use ToolCalls.*
use free_claude_desktop.Prelude.{
  ℕ, ◌+◌, ◌%◌, ◌^◌, String, Bool, true, false, not, ◌||◌, ◌&&◌, Option, none, some, List, [], ◌∷◌,
  ◌++◌, ◌==◌, eqb, if◌then◌else◌, and_then, ◌or_else◌, unwrap_or, is_empty, first,
}
use free_claude_desktop.Prelude.Texts.{concat, trim, is_empty_text, strip_prefix}
use free_claude_desktop.Json.{Value, get, get_str, as_str, as_u64, as_array}
use free_claude_desktop.Stream.Events.{Block, Delta, Event}

abbrev is_reason : String → Option String → Bool
is_reason reason none = false
is_reason reason (some r) = r == reason

abbrev pub stop_reason_of : StreamState → String
stop_reason_of s =
    if not (is_empty s.active_tools)
      || is_reason "tool_calls" s.detected_finish_reason
      || is_reason "function_call" s.detected_finish_reason
    then "tool_use"
    else "end_turn"

-- The end of a message, behind the guard.
abbrev finish_message : StreamState → StreamState
finish_message s =
    let closed = close_text_if_needed (close_thinking_if_needed s) in
    let finished = finish_active_tools s.active_tools closed in
    record (send Event.message_stop
      (send (Event.message_delta (stop_reason_of s) s.final_usage) finished)) { sent_stop = true }

-- The state afterwards, and whether the message was ended.
unfoldable pub handle_done_event : StreamState → StreamState × Bool
handle_done_event s =
    if not s.sent_start || s.sent_stop then (s, false) else (finish_message s, true)

abbrev pub first_choice : Value → Option Value
first_choice chunk = and_then (and_then (get "choices" chunk) as_array) first

abbrev pub delta_of : Value → Option Value
delta_of chunk =
    and_then (first_choice chunk) (get "delta")
    or_else and_then (first_choice chunk) (get "message")

abbrev pub content_of : Value → String
content_of chunk = unwrap_or "" (and_then (delta_of chunk) (get_str "content"))

abbrev pub reasoning_of : Value → String
reasoning_of chunk = unwrap_or "" (
    and_then (and_then (delta_of chunk) (λ d. get "reasoning_content" d or_else get "reasoning" d))
      as_str)

abbrev pub tool_calls_of : Value → List Value
tool_calls_of chunk =
    unwrap_or [] (and_then (and_then (delta_of chunk) (get "tool_calls")) as_array)

abbrev pub finish_reason_of : Value → Option String
finish_reason_of chunk = and_then (first_choice chunk) (get_str "finish_reason")

abbrev note_usage : Option Value → StreamState → StreamState
note_usage none s = s
note_usage (some u) s = record s { final_usage = some u }

abbrev note_reason : Option String → StreamState → StreamState
note_reason none s = s
note_reason (some fr) s = record s { detected_finish_reason = some fr }

module _ (msg_id req_model : String) where
  unfoldable pub ensure_message_start : StreamState → StreamState
  ensure_message_start s =
      if s.sent_start
      then s
      else record (send (Event.message_start msg_id req_model) s) { sent_start = true }

  unfoldable pub handle_text_delta : String → StreamState → StreamState
  handle_text_delta delta s =
      if is_empty_text delta
      then s
      else send_delta (Delta.text delta)
          (emit_text_block_start (close_thinking_if_needed (ensure_message_start s)))

  unfoldable pub handle_reasoning_delta : String → ReasoningReplayMode → StreamState → StreamState
  handle_reasoning_delta delta ReasoningReplayMode.inline s =
      if is_empty_text delta
      then s
      else send_delta (Delta.text (concat ("<antThinking>" ∷ delta ∷ "</antThinking>" ∷ [])))
          (emit_text_block_start (ensure_message_start s))
  handle_reasoning_delta delta ReasoningReplayMode.separate s =
      if is_empty_text delta
      then s
      else send_delta (Delta.thinking delta)
          (emit_thinking_block_start (close_text_if_needed (ensure_message_start s)))

  module _ (reasoning_mode : ReasoningReplayMode) where
    unfoldable pub process_chunk : Value → StreamState → StreamState
    process_chunk chunk s = note_reason (finish_reason_of chunk) (
        handle_tool_calls_delta (tool_calls_of chunk) (
          handle_text_delta (content_of chunk) (
            handle_reasoning_delta (reasoning_of chunk) reasoning_mode
              (note_usage (get "usage" chunk) s))))

    module _ (parse_json : String → Option Value) where
      -- The state afterwards, and whether the stream is at its end.
      unfoldable pub process_data_line : String → StreamState → StreamState × Bool
      process_data_line data_str s =
          if data_str == "[DONE]"
          then ((handle_done_event s).0, true)
          else elim (parse_json data_str) [
            | none ↦ (s, false)
            | some chunk ↦ (process_chunk chunk s, false)
          ]

      -- One line of the stream, without its end.
      unfoldable pub process_line : String → StreamState → StreamState × Bool
      process_line line s = elim (strip_prefix "data:" (trim line)) [
        | none ↦ (s, false)
        | some rest ↦ process_data_line (trim rest) s
      ]
