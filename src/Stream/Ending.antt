-- ===== src/Stream/Ending.antt =====
-- A message that was begun is ended once, with all its blocks stopped.
use free_claude_desktop.Prelude.{
  ℕ, ◌+◌, ◌%◌, ◌^◌, ◌≡◌, refl, ap, ◌∙◌, Bool, true, false, List, [], ◌∷◌, ◌++◌, arith, Bool-cases,
  inl, inr,
}
use free_claude_desktop.Stream.Events.{Event}
use free_claude_desktop.Stream.{
  StreamState, Tools, send, close_thinking_if_needed, close_text_if_needed, finish_active_tools,
  finish_message, stop_reason_of,
}
use free_claude_desktop.Stream.Balance.{
  bit, count, count-append, is_start, is_stop, is_message_start, is_message_stop, count_started,
  IsRunning, close_thinking-IsRunning, close_text-IsRunning,
}

-- A message that was ended.
pub record IsEnded (s : StreamState) : Type 0 where
  pub stopped : count is_start s.events ≡ count is_stop s.events
  pub one_start : count is_message_start s.events ≡ 1
  pub one_stop : count is_message_stop s.events ≡ 1
  pub last : (before : List Event) × (s.events ≡ before ++ Event.message_stop ∷ [])

-- The tool calls' blocks are stopped, and nothing else changes.
record HasStopped (n : ℕ) (s s' : StreamState) : Type 0 where
  starts : count is_start s'.events ≡ count is_start s.events
  stops : count is_stop s'.events ≡ n + count is_stop s.events
  begun : count is_message_start s'.events ≡ count is_message_start s.events
  ended : count is_message_stop s'.events ≡ count is_message_stop s.events

finish_active_tools-HasStopped :
    (tools : Tools) (s : StreamState)
    → HasStopped (count_started tools) s (finish_active_tools tools s)
unfolding finish_active_tools count_started
finish_active_tools-HasStopped [] s = record {
  starts = refl;
  stops = omega arith;
  begun = refl;
  ended = refl;
}
finish_active_tools-HasStopped ((idx, tool) ∷ tools) s = elim (Bool-cases tool.started) [
  | inr waits ↦
      let rest = finish_active_tools-HasStopped tools s in
      rw waits (record {
        starts = rest.starts;
        stops = rest.stops ∙ omega arith;
        begun = rest.begun;
        ended = rest.ended;
      })
  | inl started ↦
      let e = Event.block_stop ((s.content_block_index + idx) % 2 ^ 64) in
      let rest = finish_active_tools-HasStopped tools (send e s) in
      rw started (record {
        starts = rest.starts ∙ count-append is_start s.events e ∙ omega arith;
        stops = rest.stops ∙ omega (arith, count-append is_stop s.events e);
        begun = rest.begun ∙ count-append is_message_start s.events e ∙ omega arith;
        ended = rest.ended ∙ count-append is_message_stop s.events e ∙ omega arith;
      })
]

thinking_closed :
    (s : StreamState)
    → ((close_thinking_if_needed s).thinking_open ≡ false)
      × ((close_thinking_if_needed s).active_tools ≡ s.active_tools)
      × ((close_thinking_if_needed s).sent_start ≡ s.sent_start)
unfolding close_thinking_if_needed
thinking_closed s = elim (Bool-cases s.thinking_open) [
  | inl is_open ↦ (ground arith, ground arith, ground arith)
  | inr shut ↦ (ground arith, ground arith, ground arith)
]

text_closed :
    (s : StreamState)
    → ((close_text_if_needed s).text_open ≡ false)
      × ((close_text_if_needed s).thinking_open ≡ s.thinking_open)
      × ((close_text_if_needed s).active_tools ≡ s.active_tools)
      × ((close_text_if_needed s).sent_start ≡ s.sent_start)
unfolding close_text_if_needed
text_closed s = elim (Bool-cases s.text_open) [
  | inl is_open ↦ (ground arith, ground arith, ground arith, ground arith)
  | inr shut ↦ (ground arith, ground arith, ground arith, ground arith)
]

count-two :
    (p : Event → Bool) (es : List Event) (a b : Event)
    → count p ((es ++ a ∷ []) ++ b ∷ []) ≡ count p es + bit (p a) + bit (p b)
count-two p es a b = omega (arith, count-append p (es ++ a ∷ []) b, count-append p es a)

pub finish_message-IsEnded :
    (s : StreamState) → IsRunning s → s.sent_start ≡ true → IsEnded (finish_message s)
finish_message-IsEnded s h begun =
    let c = close_text_if_needed (close_thinking_if_needed s) in
    let running : IsRunning c =
      close_text-IsRunning (close_thinking_if_needed s) (close_thinking-IsRunning s h) in
    let (thinking, tools, start) = thinking_closed s in
    let (text, thinking', tools', start') = text_closed (close_thinking_if_needed s) in
    let f = finish_active_tools s.active_tools c in
    let stop = finish_active_tools-HasStopped s.active_tools c in
    let e = Event.message_delta (stop_reason_of s) s.final_usage in
    record {
      stopped = omega (
        arith,
        running.balanced,
        count-two is_start f.events e Event.message_stop,
        count-two is_stop f.events e Event.message_stop,
        stop.starts,
        stop.stops,
        ap bit text,
        ap bit (thinking' ∙ thinking),
        ap count_started (tools' ∙ tools),
      );
      one_start = omega (
        arith,
        running.one_start,
        count-two is_message_start f.events e Event.message_stop,
        stop.begun,
        ap bit (start' ∙ start ∙ begun),
      );
      one_stop = omega (
        arith,
        running.no_stop,
        count-two is_message_stop f.events e Event.message_stop,
        stop.ended,
      );
      last = (_, refl);
    }
