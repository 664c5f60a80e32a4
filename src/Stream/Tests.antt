-- ===== src/Stream/Tests.antt =====
-- A stream with thinking, text and a tool call, on which the theorems are run.
use free_claude_desktop.Prelude.{
  String, ◌≡◌, refl, true, false, not, ◌||◌, Option, none, some, List, [], ◌∷◌, ◌++◌, if◌then◌else◌,
  ◌==◌, eqb, ap,
}
use free_claude_desktop.Prelude.Texts.{
  trim, trim_start, trim_end, is_whitespace, strip_prefix, is_empty_text,
}
use free_claude_desktop.Json.{
  Value, string, obj, number, unsigned, array_of, get, get_str, get_field, insert,
}
use free_claude_desktop.Stream.{
  StreamState, ReasoningReplayMode, initial_state, emit_text_block_start, emit_thinking_block_start,
  close_thinking_if_needed, close_text_if_needed, find_tool, put_tool, handle_tool_call,
  handle_tool_calls, handle_tool_calls_delta, finish_active_tools, handle_done_event,
  ensure_message_start, handle_text_delta, handle_reasoning_delta, process_chunk, process_data_line,
  process_line, content_of, reasoning_of,
}
use free_claude_desktop.Stream.Lines.{
  Bytes, split_line, read_lines, read_chunk, read_stream, convert_stream_inner,
}
use free_claude_desktop.Stream.Lines.Boundaries.{received, convert_stream_inner-flatten}
use free_claude_desktop.Stream.Ending.{IsEnded}
use free_claude_desktop.Stream.Whole.{convert_stream_inner-IsEnded}
use free_claude_desktop.Stream.Texts.{texts, thoughts}
use free_claude_desktop.Stream.Texts.Kept.{text_due, thinking_due}
use free_claude_desktop.Stream.Texts.Chunk.{process_chunk-texts}
use free_claude_desktop.Stream.Begin.{process_chunk-sent_start}

abbrev chunk_of : Value → Value
chunk_of delta = obj (("choices", array_of (obj (("delta", delta) ∷ []) ∷ [])) ∷ [])

abbrev thinking_chunk : Value
thinking_chunk = chunk_of (obj (("reasoning_content", string "Hm.") ∷ []))

abbrev text_chunk : Value
text_chunk = chunk_of (obj (("content", string "I look.") ∷ []))

abbrev call_chunk : Value
call_chunk = chunk_of (
    obj (
      (
        "tool_calls",
        array_of (
            obj (
              ("index", number (unsigned 0))
              ∷ ("id", string "call-1")
              ∷ ("function", obj (("name", string "ls") ∷ ("arguments", string "{}") ∷ []))
              ∷ [])
            ∷ []),
      )
      ∷ []))

abbrev parse : String → Option Value
parse t =
    if t == "1"
    then some thinking_chunk
    else if t == "2"
    then some text_chunk
    else if t == "3"
    then some call_chunk
    else none

-- One byte stands for one line of the upstream.
abbrev decode : Bytes → String
decode [] = "data: [DONE]"
decode (b ∷ line) =
    if eqb b 49
    then "data: 1"
    else if eqb b 50
    then "data: 2"
    else if eqb b 51
    then "data: 3"
    else "data: [DONE]"

abbrev bytes : Bytes
bytes = 49 ∷ 10 ∷ 50 ∷ 10 ∷ 51 ∷ 10 ∷ 52 ∷ 10 ∷ []

abbrev cut : List Bytes
cut = (49 ∷ 10 ∷ 50 ∷ []) ∷ (10 ∷ 51 ∷ 10 ∷ 52 ∷ []) ∷ (10 ∷ []) ∷ []

convert_stream_inner-flatten_example :
    convert_stream_inner "msg_1" "claude" ReasoningReplayMode.separate parse decode
      (received (bytes ∷ []))
    ≡ convert_stream_inner "msg_1" "claude" ReasoningReplayMode.separate parse decode (received cut)
convert_stream_inner-flatten_example =
    convert_stream_inner-flatten "msg_1" "claude" ReasoningReplayMode.separate parse decode
      (bytes ∷ []) cut refl

abbrev outcome : StreamState × Option String
outcome =
    convert_stream_inner "msg_1" "claude" ReasoningReplayMode.separate parse decode (received cut)

ends_well : (outcome.1 ≡ none) × (outcome.0.sent_start ≡ true)
unfolding convert_stream_inner read_stream read_chunk read_lines split_line process_line
    process_data_line process_chunk handle_done_event handle_reasoning_delta handle_text_delta
    handle_tool_calls_delta handle_tool_calls handle_tool_call find_tool put_tool
    finish_active_tools ensure_message_start emit_text_block_start emit_thinking_block_start
    close_text_if_needed close_thinking_if_needed strip_prefix trim trim_start trim_end
    is_whitespace get get_str get_field insert
ends_well = (refl, refl)

convert_stream_inner-IsEnded_example : IsEnded outcome.0
convert_stream_inner-IsEnded_example =
    convert_stream_inner-IsEnded "msg_1" "claude" ReasoningReplayMode.separate parse decode
      (received cut) outcome.0 (ap (λ (o : Option String). (outcome.0, o)) ends_well.0) ends_well.1

process_chunk-texts_example :
    (texts
        (process_chunk "msg_1" "claude" ReasoningReplayMode.inline thinking_chunk
          initial_state).events
      ≡ texts initial_state.events ++ text_due ReasoningReplayMode.inline thinking_chunk)
    × (thoughts
          (process_chunk "msg_1" "claude" ReasoningReplayMode.inline thinking_chunk
            initial_state).events
        ≡ thoughts initial_state.events ++ thinking_due ReasoningReplayMode.inline thinking_chunk)
process_chunk-texts_example =
    process_chunk-texts "msg_1" "claude" ReasoningReplayMode.inline thinking_chunk initial_state

process_chunk-sent_start_example :
    (process_chunk "msg_1" "claude" ReasoningReplayMode.separate call_chunk
      initial_state).sent_start
    ≡ (false
        || not (is_empty_text (reasoning_of call_chunk))
        || not (is_empty_text (content_of call_chunk)))
process_chunk-sent_start_example =
    process_chunk-sent_start "msg_1" "claude" ReasoningReplayMode.separate call_chunk initial_state
