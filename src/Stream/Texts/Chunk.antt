-- ===== src/Stream/Texts/Chunk.antt =====
-- The text and the thinking of a chunk arrive complete and in order.
use mathlib.Core.List.{append-nil, append_assoc}
use free_claude_desktop.Prelude.{◌≡◌, sym, ap, ◌∙◌, String, List, ◌++◌}
use free_claude_desktop.Json.{Value, get}
use free_claude_desktop.Stream.Events.{Event}
use free_claude_desktop.Stream.{
  StreamState, ReasoningReplayMode, handle_tool_calls_delta, note_usage, handle_text_delta,
  handle_reasoning_delta, process_chunk, content_of, reasoning_of, tool_calls_of, finish_reason_of,
}
use free_claude_desktop.Stream.Texts.{
  text_in, thinking_in, gather, texts, thoughts, IsQuiet, tools_delta-Same, usage-Same, reason-Same,
}
use free_claude_desktop.Stream.Texts.Kept.{
  text_in-IsQuiet, thinking_in-IsQuiet, present, text_due, thinking_due, text_delta-text,
  text_delta-thinking, inline-text, inline-thinking, separate-text, separate-thinking,
}

module _ (msg_id req_model : String) where
  -- The steps around those of the text and the thinking.
  outer-Same :
      (q : Event → List String)
      → IsQuiet q
      → (mode : ReasoningReplayMode) → (chunk : Value) (s : StreamState)
      → gather q (process_chunk msg_id req_model mode chunk s).events
        ≡ gather q
            (handle_text_delta msg_id req_model (content_of chunk) (
              handle_reasoning_delta msg_id req_model
                (reasoning_of chunk)
                mode
                (note_usage (get "usage" chunk) s))).events
  unfolding process_chunk
  outer-Same q quiet mode chunk s =
      let spoken = handle_text_delta msg_id req_model (content_of chunk) (
        handle_reasoning_delta msg_id req_model (reasoning_of chunk) mode
          (note_usage (get "usage" chunk) s)) in
      reason-Same q quiet (finish_reason_of chunk)
        (handle_tool_calls_delta (tool_calls_of chunk) spoken)
      ∙ tools_delta-Same q quiet (tool_calls_of chunk) spoken

  reasoning-text :
      (mode : ReasoningReplayMode) (chunk : Value) (s : StreamState)
      → gather text_in (handle_reasoning_delta msg_id req_model (reasoning_of chunk) mode s).events
          ++ present (content_of chunk)
        ≡ gather text_in s.events ++ text_due mode chunk
  reasoning-text ReasoningReplayMode.inline chunk s =
      ap (λ (ts : List String). ts ++ present (content_of chunk))
        (inline-text msg_id req_model (reasoning_of chunk) s)
      ∙ append_assoc (gather text_in s.events) _ _
  reasoning-text ReasoningReplayMode.separate chunk s =
      ap (λ (ts : List String). ts ++ present (content_of chunk))
        (separate-text msg_id req_model (reasoning_of chunk) s)

  reasoning-thinking :
      (mode : ReasoningReplayMode) (chunk : Value) (s : StreamState)
      → gather thinking_in
          (handle_reasoning_delta msg_id req_model (reasoning_of chunk) mode s).events
        ≡ gather thinking_in s.events ++ thinking_due mode chunk
  reasoning-thinking ReasoningReplayMode.inline chunk s =
      inline-thinking msg_id req_model (reasoning_of chunk) s
      ∙ sym (append-nil (gather thinking_in s.events))
  reasoning-thinking ReasoningReplayMode.separate chunk s =
      separate-thinking msg_id req_model (reasoning_of chunk) s

  -- A chunk adds exactly its own text and thinking to the deltas sent so far: its content, where
  -- it is not empty, as one text delta, behind its reasoning, which is a thinking delta in the
  -- separate mode and a tagged text delta in the inline mode.
  pub process_chunk-texts :
      (mode : ReasoningReplayMode) (chunk : Value) (s : StreamState)
      → (texts (process_chunk msg_id req_model mode chunk s).events
          ≡ texts s.events ++ text_due mode chunk)
        × (thoughts (process_chunk msg_id req_model mode chunk s).events
            ≡ thoughts s.events ++ thinking_due mode chunk)
  unfolding texts thoughts
  process_chunk-texts mode chunk s =
      let noted = note_usage (get "usage" chunk) s in
      let reasoned = handle_reasoning_delta msg_id req_model (reasoning_of chunk) mode noted in
      (
        outer-Same text_in text_in-IsQuiet mode chunk s
            ∙ text_delta-text msg_id req_model (content_of chunk) reasoned
            ∙ reasoning-text mode chunk noted
            ∙ ap (λ (ts : List String). ts ++ text_due mode chunk)
                (usage-Same text_in text_in-IsQuiet (get "usage" chunk) s),
        outer-Same thinking_in thinking_in-IsQuiet mode chunk s
            ∙ text_delta-thinking msg_id req_model (content_of chunk) reasoned
            ∙ reasoning-thinking mode chunk noted
            ∙ ap (λ (ts : List String). ts ++ thinking_due mode chunk)
                (usage-Same thinking_in thinking_in-IsQuiet (get "usage" chunk) s),
      )
