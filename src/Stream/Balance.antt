-- ===== src/Stream/Balance.antt =====
-- Every block that a stream starts is stopped.
use free_claude_desktop.Prelude.{
  ℕ, ◌+◌, ◌%◌, ◌^◌, ◌≡◌, refl, ap, ◌∙◌, String, Bool, true, false, ◌||◌, Option, none, some, List,
  [], ◌∷◌, ◌++◌, arith, eqb, if-elim, Bool-cases, inl, inr, unwrap_or,
}
use free_claude_desktop.Json.{Value, get_str}
use free_claude_desktop.Stream.Events.{Event, Block, Delta}
use free_claude_desktop.Stream.{
  StreamState, ToolCallState, Tools, emit_text_block_start, emit_thinking_block_start,
  close_thinking_if_needed, close_text_if_needed, send_delta, find_tool, put_tool, entry_of, ready,
  start_tool, handle_tool_call, tool_index, of_function,
}

abbrev pub bit : Bool → ℕ
bit true = 1
bit false = 0

-- How many events pass a test.
unfoldable pub count : (Event → Bool) → List Event → ℕ
count p [] = 0
count p (e ∷ es) = bit (p e) + count p es

pub count-append :
    (p : Event → Bool) (es : List Event) (e : Event)
    → count p (es ++ e ∷ []) ≡ count p es + bit (p e)
unfolding count
count-append p [] e = omega arith
count-append p (x ∷ es) e = omega (arith, count-append p es e)

abbrev pub is_start : Event → Bool
is_start (Event.block_start n block) = true
is_start _ = false

abbrev pub is_stop : Event → Bool
is_stop (Event.block_stop n) = true
is_stop _ = false

-- How many tool calls have a block.
unfoldable pub count_started : Tools → ℕ
count_started [] = 0
count_started ((idx, tool) ∷ tools) = bit tool.started + count_started tools

abbrev pub open_blocks : StreamState → ℕ
open_blocks s = bit s.text_open + bit s.thinking_open + count_started s.active_tools

abbrev pub is_message_start : Event → Bool
is_message_start (Event.message_start msg_id req_model) = true
is_message_start _ = false

abbrev pub is_message_stop : Event → Bool
is_message_stop Event.message_stop = true
is_message_stop _ = false

-- A message under way: the blocks that were started are those that were stopped and those that
-- are open, one message was started if the state says so, and none was stopped.
pub record IsRunning (s : StreamState) : Type 0 where
  pub balanced : count is_start s.events ≡ count is_stop s.events + open_blocks s
  pub one_start : count is_message_start s.events ≡ bit s.sent_start
  pub no_stop : count is_message_stop s.events ≡ 0
  pub running : s.sent_stop ≡ false

-- An event of a block is sent, with its effect on the open blocks.
send-IsRunning :
    (e : Event) (s s' : StreamState)
    → IsRunning s
    → s'.events ≡ s.events ++ e ∷ []
    → s'.sent_start ≡ s.sent_start
    → s'.sent_stop ≡ s.sent_stop
    → is_message_start e ≡ false
    → is_message_stop e ≡ false
    → bit (is_start e) + open_blocks s ≡ bit (is_stop e) + open_blocks s'
    → IsRunning s'
send-IsRunning e s s' h sent begun stopped no_begin no_end change = record {
  balanced =
      ap (count is_start) sent
      ∙ omega (
        arith,
        h.balanced,
        change,
        count-append is_start s.events e,
        count-append is_stop s.events e,
        ap (count is_stop) sent,
      );
  one_start =
      ap (count is_message_start) sent
      ∙ ground (arith, h.one_start, count-append is_message_start s.events e);
  no_stop =
      ap (count is_message_stop) sent
      ∙ ground (arith, h.no_stop, count-append is_message_stop s.events e);
  running = stopped ∙ h.running;
}

pub emit_text-IsRunning : (s : StreamState) → IsRunning s → IsRunning (emit_text_block_start s)
unfolding emit_text_block_start
emit_text-IsRunning s h =
    if-elim IsRunning s.text_open (λ _. h)
      λ shut.
        send-IsRunning (Event.block_start s.content_block_index Block.text) s _ h refl refl refl
          refl refl (rw shut (omega arith))

pub emit_thinking-IsRunning :
    (s : StreamState) → IsRunning s → IsRunning (emit_thinking_block_start s)
unfolding emit_thinking_block_start
emit_thinking-IsRunning s h =
    if-elim IsRunning s.thinking_open (λ _. h)
      λ shut.
        send-IsRunning (Event.block_start s.content_block_index Block.thinking) s _ h refl refl refl
          refl refl (rw shut (omega arith))

pub send_delta-IsRunning :
    (delta : Delta) (s : StreamState) → IsRunning s → IsRunning (send_delta delta s)
send_delta-IsRunning delta s h =
    send-IsRunning (Event.block_delta s.content_block_index delta) s _ h refl refl refl refl refl
      refl

pub close_thinking-IsRunning :
    (s : StreamState) → IsRunning s → IsRunning (close_thinking_if_needed s)
unfolding close_thinking_if_needed
close_thinking-IsRunning s h =
    if-elim IsRunning s.thinking_open
      (λ is_open.
        send-IsRunning (Event.block_stop s.content_block_index) (send_delta Delta.signature s) _
          (send_delta-IsRunning Delta.signature s h) refl refl refl refl refl
          (rw is_open (omega arith)))
      λ _. h

pub close_text-IsRunning : (s : StreamState) → IsRunning s → IsRunning (close_text_if_needed s)
unfolding close_text_if_needed
close_text-IsRunning s h =
    if-elim IsRunning s.text_open
      (λ is_open.
        send-IsRunning (Event.block_stop s.content_block_index) s _ h refl refl refl refl refl
          (rw is_open (omega arith)))
      λ _. h

started_of : Option ToolCallState → Bool
started_of none = false
started_of (some tool) = tool.started

count_started-put_tool :
    (idx : ℕ) (tool : ToolCallState) (tools : Tools)
    → count_started (put_tool idx tool tools) + bit (started_of (find_tool idx tools))
      ≡ count_started tools + bit tool.started
unfolding count_started put_tool find_tool started_of
count_started-put_tool idx tool [] = omega arith
count_started-put_tool idx tool ((j, old) ∷ tools) = elim (Bool-cases (eqb j idx)) [
  | inl here ↦ rw here (omega arith)
  | inr later ↦ rw later (omega (arith, count_started-put_tool idx tool tools))
]

entry_of-started :
    (tc_id tc_name : Option String) (found : Option ToolCallState)
    → (entry_of tc_id tc_name found).started ≡ started_of found
unfolding started_of
entry_of-started tc_id tc_name none = refl
entry_of-started tc_id tc_name (some tool) = refl

ready-bit :
    (tool : ToolCallState) → bit (ready tool || tool.started) ≡ bit (ready tool) + bit tool.started
ready-bit tool = elim (Bool-cases tool.started) [
  | inl started ↦ ground arith
  | inr waits ↦ ground arith
]

-- A tool call counts once, when it gets its block.
count_started-entry :
    (idx : ℕ) (tool : ToolCallState) (tools : Tools)
    → tool.started ≡ started_of (find_tool idx tools)
    → count_started (put_tool idx (record tool { started = ready tool || tool.started }) tools)
      ≡ bit (ready tool) + count_started tools
count_started-entry idx tool tools was =
    let put =
      count_started-put_tool idx (record tool { started = ready tool || tool.started }) tools in
    omega (arith, put, ready-bit tool, ap bit was)

-- A state with other tool calls, as many of them started.
tools-IsRunning :
    (tools : Tools) (s : StreamState)
    → count_started tools ≡ count_started s.active_tools
    → IsRunning s
    → IsRunning (record s { active_tools = tools })
tools-IsRunning tools s same h = record {
  balanced = omega (arith, h.balanced, same);
  one_start = h.one_start;
  no_stop = h.no_stop;
  running = h.running;
}

pub handle_tool_call-IsRunning :
    (tc : Value) (s : StreamState) → IsRunning s → IsRunning (handle_tool_call tc s)
unfolding handle_tool_call
handle_tool_call-IsRunning tc s h =
    let idx = tool_index tc in
    let tool = entry_of (get_str "id" tc) (of_function "name" tc) (find_tool idx s.active_tools) in
    let n = (s.content_block_index + idx) % 2 ^ 64 in
    let now = record tool { started = ready tool || tool.started } in
    let tools = put_tool idx now s.active_tools in
    let counts =
      count_started-entry idx tool s.active_tools (
        entry_of-started (get_str "id" tc) (of_function "name" tc)
          (find_tool idx s.active_tools)) in
    let args = unwrap_or "" (of_function "arguments" tc) in
    let begun : IsRunning (record (start_tool n tool s) { active_tools = tools }) =
      if-elim (λ t. IsRunning (record t { active_tools = tools })) (ready tool)
        (λ starts.
          send-IsRunning (Event.block_start n (Block.tool_use tool.id tool.name)) s _ h refl refl
            refl refl refl (omega (arith, counts, ap bit starts)))
        (λ waits. tools-IsRunning tools s (omega (arith, counts, ap bit waits)) h) in
    if-elim (λ t. IsRunning (record t { active_tools = tools })) _
      (λ _.
        send-IsRunning (Event.block_delta n (Delta.input_json args)) _ _ begun refl refl refl refl
          refl refl)
      (λ _. begun)
