-- ===== src/Stream/Begin.antt =====
-- Which chunks begin a message.
use free_claude_desktop.Prelude.{
  ◌+◌, ◌%◌, ◌^◌, ◌≡◌, refl, ◌∙◌, String, Bool, true, not, ◌||◌, ◌&&◌, Option, none, some, List, [],
  ◌∷◌, arith, if◌then◌else◌, if-elim, is_empty, unwrap_or,
}
use free_claude_desktop.Prelude.Texts.{is_empty_text}
use free_claude_desktop.Json.{Value, get, get_str}
use free_claude_desktop.Stream.{
  StreamState, ReasoningReplayMode, emit_text_block_start, emit_thinking_block_start,
  close_thinking_if_needed, close_text_if_needed, handle_tool_call, handle_tool_calls,
  handle_tool_calls_delta, ready, start_tool, entry_of, note_usage, note_reason,
  ensure_message_start, handle_text_delta, handle_reasoning_delta, process_chunk, content_of,
  reasoning_of, tool_calls_of, finish_reason_of, find_tool, of_function, tool_index,
}

abbrev Same : StreamState → StreamState → Type 0
Same s t = t.sent_start ≡ s.sent_start

emit_text-Same : (s : StreamState) → Same s (emit_text_block_start s)
unfolding emit_text_block_start
emit_text-Same s = if-elim (Same s) s.text_open (λ _. refl) (λ _. refl)

emit_thinking-Same : (s : StreamState) → Same s (emit_thinking_block_start s)
unfolding emit_thinking_block_start
emit_thinking-Same s = if-elim (Same s) s.thinking_open (λ _. refl) (λ _. refl)

close_thinking-Same : (s : StreamState) → Same s (close_thinking_if_needed s)
unfolding close_thinking_if_needed
close_thinking-Same s = if-elim (Same s) s.thinking_open (λ _. refl) (λ _. refl)

close_text-Same : (s : StreamState) → Same s (close_text_if_needed s)
unfolding close_text_if_needed
close_text-Same s = if-elim (Same s) s.text_open (λ _. refl) (λ _. refl)

tool_call-Same : (tc : Value) (s : StreamState) → Same s (handle_tool_call tc s)
unfolding handle_tool_call
tool_call-Same tc s =
    let tool =
      entry_of (get_str "id" tc) (of_function "name" tc)
        (find_tool (tool_index tc) s.active_tools) in
    let n = (s.content_block_index + tool_index tc) % 2 ^ 64 in
    let begun : Same s (start_tool n tool s) =
      if-elim (Same s) (ready tool) (λ _. refl) (λ _. refl) in
    if-elim (Same s)
      (not (is_empty_text (unwrap_or "" (of_function "arguments" tc)))
        && (ready tool || tool.started))
      (λ _. begun) (λ _. begun)

tool_calls-Same :
    (tool_calls : List Value) (s : StreamState) → Same s (handle_tool_calls tool_calls s)
unfolding handle_tool_calls
tool_calls-Same [] s = refl
tool_calls-Same (tc ∷ tool_calls) s =
    tool_calls-Same tool_calls (handle_tool_call tc s) ∙ tool_call-Same tc s

tools_delta-Same :
    (tool_calls : List Value) (s : StreamState) → Same s (handle_tool_calls_delta tool_calls s)
unfolding handle_tool_calls_delta
tools_delta-Same tool_calls s =
    if-elim (Same s) (is_empty tool_calls) (λ _. refl)
      λ _.
        tool_calls-Same tool_calls _
        ∙ close_text-Same (close_thinking_if_needed s)
        ∙ close_thinking-Same s

usage-Same : (o : Option Value) (s : StreamState) → Same s (note_usage o s)
usage-Same none s = refl
usage-Same (some u) s = refl

reason-Same : (o : Option String) (s : StreamState) → Same s (note_reason o s)
reason-Same none s = refl
reason-Same (some r) s = refl

-- A text that is not empty begins the message.
begins :
    (b : Bool) (s x : StreamState)
    → x.sent_start ≡ true
    → (if b then s else x).sent_start ≡ (s.sent_start || not b)
begins b s x h = ground arith

module _ (msg_id req_model : String) where
  begun : (s : StreamState) → (ensure_message_start msg_id req_model s).sent_start ≡ true
  unfolding ensure_message_start
  begun s = if-elim (λ (t : StreamState). t.sent_start ≡ true) s.sent_start (λ h. h) (λ _. refl)

  text_delta-begins :
      (delta : String) (s : StreamState)
      → (handle_text_delta msg_id req_model delta s).sent_start
        ≡ (s.sent_start || not (is_empty_text delta))
  unfolding handle_text_delta
  text_delta-begins delta s =
      let start = ensure_message_start msg_id req_model s in
      begins (is_empty_text delta) s _
        (emit_text-Same (close_thinking_if_needed start) ∙ close_thinking-Same start ∙ begun s)

  reasoning_delta-begins :
      (delta : String) (mode : ReasoningReplayMode) (s : StreamState)
      → (handle_reasoning_delta msg_id req_model delta mode s).sent_start
        ≡ (s.sent_start || not (is_empty_text delta))
  unfolding handle_reasoning_delta
  reasoning_delta-begins delta ReasoningReplayMode.inline s =
      begins (is_empty_text delta) s _
        (emit_text-Same (ensure_message_start msg_id req_model s) ∙ begun s)
  reasoning_delta-begins delta ReasoningReplayMode.separate s =
      let start = ensure_message_start msg_id req_model s in
      begins (is_empty_text delta) s _
        (emit_thinking-Same (close_text_if_needed start) ∙ close_text-Same start ∙ begun s)

  -- After a chunk a message is begun exactly if it was begun before or the chunk has reasoning or
  -- content that is not empty; tool calls alone never begin it.
  pub process_chunk-sent_start :
      (mode : ReasoningReplayMode) (chunk : Value) (s : StreamState)
      → (process_chunk msg_id req_model mode chunk s).sent_start ≡ (
          s.sent_start
          || not (is_empty_text (reasoning_of chunk))
          || not (is_empty_text (content_of chunk)))
  unfolding process_chunk
  process_chunk-sent_start mode chunk s =
      let noted = note_usage (get "usage" chunk) s in
      let reasoned = handle_reasoning_delta msg_id req_model (reasoning_of chunk) mode noted in
      let spoken = handle_text_delta msg_id req_model (content_of chunk) reasoned in
      reason-Same (finish_reason_of chunk) (handle_tool_calls_delta (tool_calls_of chunk) spoken)
      ∙ tools_delta-Same (tool_calls_of chunk) spoken
      ∙ text_delta-begins (content_of chunk) reasoned
      ∙ ground (
        arith,
        reasoning_delta-begins (reasoning_of chunk) mode noted,
        usage-Same (get "usage" chunk) s,
      )
