-- ===== src/Stream/Texts.antt =====
-- What the steps of a stream leave alone: the text and the thinking sent so far.
pub mod Kept
pub mod Chunk
use mathlib.Core.List.{append-nil, append_assoc}
use free_claude_desktop.Prelude.{
  ℕ, ◌+◌, ◌%◌, ◌^◌, ◌≡◌, refl, sym, ap, ◌∙◌, String, Bool, true, false, not, ◌||◌, ◌&&◌, Option,
  none, some, List, [], ◌∷◌, ◌++◌, map, arith, if◌then◌else◌, if-elim, is_empty, Bool-cases, inl,
  inr, unwrap_or,
}
use free_claude_desktop.Prelude.Texts.{concat, is_empty_text}
use free_claude_desktop.Json.{Value, get, get_str}
use free_claude_desktop.Stream.Events.{Event, Block, Delta}
use free_claude_desktop.Stream.{
  StreamState, ToolCallState, ReasoningReplayMode, send, send_delta, emit_text_block_start,
  emit_thinking_block_start, close_thinking_if_needed, close_text_if_needed, handle_tool_call,
  handle_tool_calls, handle_tool_calls_delta, ready, start_tool, send_args, entry_of, note_usage,
  note_reason, ensure_message_start, handle_text_delta, handle_reasoning_delta, process_chunk,
  content_of, reasoning_of, tool_calls_of, finish_reason_of, find_tool, of_function, tool_index,
}

abbrev pub text_in : Event → List String
text_in (Event.block_delta n (Delta.text t)) = t ∷ []
text_in _ = []

abbrev pub thinking_in : Event → List String
thinking_in (Event.block_delta n (Delta.thinking t)) = t ∷ []
thinking_in _ = []

unfoldable pub gather : (Event → List String) → List Event → List String
gather q [] = []
gather q (e ∷ es) = q e ++ gather q es

-- The text deltas and the thinking deltas of the events, in their order.
unfoldable pub texts : List Event → List String
unfolding gather
texts es = gather text_in es

unfoldable pub thoughts : List Event → List String
unfolding gather
thoughts es = gather thinking_in es

gather-append :
    (q : Event → List String) (es : List Event) (e : Event)
    → gather q (es ++ e ∷ []) ≡ gather q es ++ q e
unfolding gather
gather-append q [] e = append-nil (q e)
gather-append q (x ∷ es) e =
    ap (λ (ts : List String). q x ++ ts) (gather-append q es e)
    ∙ sym (append_assoc (q x) (gather q es) (q e))

-- What is neither text nor thinking.
pub record IsQuiet (q : Event → List String) : Type 0 where
  pub message : (msg_id req_model : String) → q (Event.message_start msg_id req_model) ≡ []
  pub start : (n : ℕ) (block : Block) → q (Event.block_start n block) ≡ []
  pub stop : (n : ℕ) → q (Event.block_stop n) ≡ []
  pub sign : (n : ℕ) → q (Event.block_delta n Delta.signature) ≡ []
  pub args : (n : ℕ) (t : String) → q (Event.block_delta n (Delta.input_json t)) ≡ []

module _ (q : Event → List String) (quiet : IsQuiet q) where
  abbrev Same : StreamState → StreamState → Type 0
  Same s t = gather q t.events ≡ gather q s.events

  sent_quiet : (s : StreamState) (e : Event) → q e ≡ [] → Same s (send e s)
  sent_quiet s e h =
      gather-append q s.events e
      ∙ ap (λ (ts : List String). gather q s.events ++ ts) h
      ∙ append-nil (gather q s.events)

  pub emit_text-Same : (s : StreamState) → Same s (emit_text_block_start s)
  unfolding emit_text_block_start
  emit_text-Same s =
      if-elim (Same s) s.text_open (λ _. refl) (λ _. sent_quiet s _ (quiet.start _ _))

  pub emit_thinking-Same : (s : StreamState) → Same s (emit_thinking_block_start s)
  unfolding emit_thinking_block_start
  emit_thinking-Same s =
      if-elim (Same s) s.thinking_open (λ _. refl) (λ _. sent_quiet s _ (quiet.start _ _))

  pub close_thinking-Same : (s : StreamState) → Same s (close_thinking_if_needed s)
  unfolding close_thinking_if_needed
  close_thinking-Same s =
      if-elim (Same s) s.thinking_open
        (λ _.
          sent_quiet (send_delta Delta.signature s) _ (quiet.stop _)
          ∙ sent_quiet s _ (quiet.sign _))
        (λ _. refl)

  pub close_text-Same : (s : StreamState) → Same s (close_text_if_needed s)
  unfolding close_text_if_needed
  close_text-Same s = if-elim (Same s) s.text_open (λ _. sent_quiet s _ (quiet.stop _)) (λ _. refl)

  pub begin-Same :
      (msg_id req_model : String) (s : StreamState)
      → Same s (ensure_message_start msg_id req_model s)
  unfolding ensure_message_start
  begin-Same msg_id req_model s =
      if-elim (Same s) s.sent_start (λ _. refl) (λ _. sent_quiet s _ (quiet.message _ _))

  start_tool-Same : (n : ℕ) (tool : ToolCallState) (s : StreamState) → Same s (start_tool n tool s)
  start_tool-Same n tool s =
      if-elim (Same s) (ready tool) (λ _. sent_quiet s _ (quiet.start _ _)) (λ _. refl)

  send_args-Same :
      (n : ℕ) (args : String) (started : Bool) (s : StreamState)
      → Same s (send_args n args started s)
  send_args-Same n args started s =
      if-elim (Same s) (not (is_empty_text args) && started) (λ _. sent_quiet s _ (quiet.args _ _))
        (λ _. refl)

  tool_call-Same : (tc : Value) (s : StreamState) → Same s (handle_tool_call tc s)
  unfolding handle_tool_call
  tool_call-Same tc s =
      let tool =
        entry_of (get_str "id" tc) (of_function "name" tc)
          (find_tool (tool_index tc) s.active_tools) in
      let n = (s.content_block_index + tool_index tc) % 2 ^ 64 in
      send_args-Same n (unwrap_or "" (of_function "arguments" tc)) (ready tool || tool.started)
        (start_tool n tool s)
      ∙ start_tool-Same n tool s

  tool_calls-Same :
      (tool_calls : List Value) (s : StreamState) → Same s (handle_tool_calls tool_calls s)
  unfolding handle_tool_calls
  tool_calls-Same [] s = refl
  tool_calls-Same (tc ∷ tool_calls) s =
      tool_calls-Same tool_calls (handle_tool_call tc s) ∙ tool_call-Same tc s

  pub tools_delta-Same :
      (tool_calls : List Value) (s : StreamState) → Same s (handle_tool_calls_delta tool_calls s)
  unfolding handle_tool_calls_delta
  tools_delta-Same tool_calls s =
      if-elim (Same s) (is_empty tool_calls) (λ _. refl)
        λ _.
          tool_calls-Same tool_calls _
          ∙ close_text-Same (close_thinking_if_needed s)
          ∙ close_thinking-Same s

  pub usage-Same : (o : Option Value) (s : StreamState) → Same s (note_usage o s)
  usage-Same none s = refl
  usage-Same (some u) s = refl

  pub reason-Same : (o : Option String) (s : StreamState) → Same s (note_reason o s)
  reason-Same none s = refl
  reason-Same (some r) s = refl

  pub sent_delta :
      (delta : Delta) (s : StreamState) (t : List String)
      → ((n : ℕ) → q (Event.block_delta n delta) ≡ t)
      → gather q (send_delta delta s).events ≡ gather q s.events ++ t
  sent_delta delta s t h =
      gather-append q s.events _ ∙ ap (λ (ts : List String). gather q s.events ++ ts) (h _)
