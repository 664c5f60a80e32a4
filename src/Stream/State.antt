-- ===== src/Stream/State.antt =====
-- The state of a stream, and the start and the stop of its text and thinking blocks.
use free_claude_desktop.Prelude.{
  ℕ, ◌+◌, ◌%◌, ◌^◌, String, Bool, true, false, Option, none, List, [], ◌∷◌, ◌++◌, if◌then◌else◌,
}
use free_claude_desktop.Json.{Value}
use free_claude_desktop.Stream.Events.{Block, Delta, Event}

pub record ToolCallState : Type 0 where
  pub id : String
  pub name : String
  pub started : Bool

pub data ReasoningReplayMode : Type 0 where
  inline separate : ReasoningReplayMode

abbrev pub Tools : Type 0
Tools = List (ℕ × ToolCallState)

pub record StreamState : Type 0 where
  pub sent_start : Bool
  pub sent_stop : Bool
  pub thinking_open : Bool
  pub text_open : Bool
  pub content_block_index : ℕ
  pub active_tools : Tools
  pub detected_finish_reason : Option String
  pub final_usage : Option Value
  pub events : List Event

abbrev pub initial_state : StreamState
initial_state = record {
  sent_start = false;
  sent_stop = false;
  thinking_open = false;
  text_open = false;
  content_block_index = 0;
  active_tools = [];
  detected_finish_reason = none;
  final_usage = none;
  events = [];
}

-- `tx.send`
abbrev pub send : Event → StreamState → StreamState
send e s = record s { events = s.events ++ e ∷ [] }

-- `*content_block_index += 1`
abbrev pub advance : StreamState → StreamState
advance s = record s { content_block_index = (s.content_block_index + 1) % 2 ^ 64 }

unfoldable pub emit_text_block_start : StreamState → StreamState
emit_text_block_start s =
    if s.text_open
    then s
    else record (send (Event.block_start s.content_block_index Block.text) s) { text_open = true }

unfoldable pub emit_thinking_block_start : StreamState → StreamState
emit_thinking_block_start s =
    if s.thinking_open
    then s
    else record (send (Event.block_start s.content_block_index Block.thinking) s) {
      thinking_open = true;
    }

abbrev pub finish_thinking_block : StreamState → StreamState
finish_thinking_block s =
    send (Event.block_stop s.content_block_index)
      (send (Event.block_delta s.content_block_index Delta.signature) s)

unfoldable pub close_thinking_if_needed : StreamState → StreamState
close_thinking_if_needed s =
    if s.thinking_open
    then advance (record (finish_thinking_block s) { thinking_open = false })
    else s

unfoldable pub close_text_if_needed : StreamState → StreamState
close_text_if_needed s =
    if s.text_open
    then advance (record (send (Event.block_stop s.content_block_index) s) { text_open = false })
    else s

abbrev pub send_delta : Delta → StreamState → StreamState
send_delta delta s = send (Event.block_delta s.content_block_index delta) s
