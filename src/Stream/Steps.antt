-- ===== src/Stream/Steps.antt =====
-- The steps of a chunk keep the blocks and the messages balanced.
use free_claude_desktop.Prelude.{
  ap, String, Option, none, some, List, [], ◌∷◌, arith, if-elim, is_empty, is_empty,
}
use free_claude_desktop.Prelude.Texts.{is_empty_text}
use free_claude_desktop.Json.{Value}
use free_claude_desktop.Stream.Events.{Event}
use free_claude_desktop.Stream.{
  StreamState, ReasoningReplayMode, handle_tool_calls, handle_tool_calls_delta, note_usage,
  note_reason, ensure_message_start, handle_text_delta, handle_reasoning_delta,
}
use free_claude_desktop.Stream.Balance.{
  bit, count-append, is_start, is_stop, is_message_start, is_message_stop, IsRunning,
  emit_text-IsRunning, emit_thinking-IsRunning, send_delta-IsRunning, close_thinking-IsRunning,
  close_text-IsRunning, handle_tool_call-IsRunning,
}

module _ (msg_id req_model : String) where
  start-IsRunning :
      (s : StreamState) → IsRunning s → IsRunning (ensure_message_start msg_id req_model s)
  unfolding ensure_message_start
  start-IsRunning s h =
      if-elim IsRunning s.sent_start (λ _. h)
        λ unsent.
          let e = Event.message_start msg_id req_model in
          record {
            balanced = omega (
              arith,
              h.balanced,
              count-append is_start s.events e,
              count-append is_stop s.events e,
            );
            one_start =
                omega (arith, h.one_start, count-append is_message_start s.events e, ap bit unsent);
            no_stop = omega (arith, h.no_stop, count-append is_message_stop s.events e);
            running = h.running;
          }

  pub text-IsRunning :
      (delta : String) (s : StreamState)
      → IsRunning s
      → IsRunning (handle_text_delta msg_id req_model delta s)
  unfolding handle_text_delta
  text-IsRunning delta s h =
      if-elim IsRunning (is_empty_text delta) (λ _. h)
        λ _.
          send_delta-IsRunning _ _
            (emit_text-IsRunning _ (close_thinking-IsRunning _ (start-IsRunning s h)))

  pub reasoning-IsRunning :
      (delta : String) (mode : ReasoningReplayMode) (s : StreamState)
      → IsRunning s
      → IsRunning (handle_reasoning_delta msg_id req_model delta mode s)
  unfolding handle_reasoning_delta
  reasoning-IsRunning delta ReasoningReplayMode.inline s h =
      if-elim IsRunning (is_empty_text delta) (λ _. h)
        λ _. send_delta-IsRunning _ _ (emit_text-IsRunning _ (start-IsRunning s h))
  reasoning-IsRunning delta ReasoningReplayMode.separate s h =
      if-elim IsRunning (is_empty_text delta) (λ _. h)
        λ _.
          send_delta-IsRunning _ _
            (emit_thinking-IsRunning _ (close_text-IsRunning _ (start-IsRunning s h)))

calls-IsRunning :
    (tool_calls : List Value) (s : StreamState)
    → IsRunning s
    → IsRunning (handle_tool_calls tool_calls s)
unfolding handle_tool_calls
calls-IsRunning [] s h = h
calls-IsRunning (tc ∷ tool_calls) s h =
    calls-IsRunning tool_calls _ (handle_tool_call-IsRunning tc s h)

pub tools_delta-IsRunning :
    (tool_calls : List Value) (s : StreamState)
    → IsRunning s
    → IsRunning (handle_tool_calls_delta tool_calls s)
unfolding handle_tool_calls_delta
tools_delta-IsRunning tool_calls s h =
    if-elim IsRunning (is_empty tool_calls) (λ _. h)
      λ _. calls-IsRunning tool_calls _ (close_text-IsRunning _ (close_thinking-IsRunning s h))

pub usage-IsRunning :
    (o : Option Value) (s : StreamState) → IsRunning s → IsRunning (note_usage o s)
usage-IsRunning none s h = h
usage-IsRunning (some u) s h = record {
  balanced = h.balanced;
  one_start = h.one_start;
  no_stop = h.no_stop;
  running = h.running;
}

pub reason-IsRunning :
    (o : Option String) (s : StreamState) → IsRunning s → IsRunning (note_reason o s)
reason-IsRunning none s h = h
reason-IsRunning (some r) s h = record {
  balanced = h.balanced;
  one_start = h.one_start;
  no_stop = h.no_stop;
  running = h.running;
}
