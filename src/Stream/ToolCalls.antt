-- ===== src/Stream/ToolCalls.antt =====
-- The tool calls of a stream: `handle_tool_calls_delta` and `finish_active_tools`.
use free_claude_desktop.Prelude.{
  ℕ, ◌+◌, ◌%◌, ◌^◌, String, Bool, false, not, ◌||◌, ◌&&◌, Option, none, some, List, [], ◌∷◌, eqb,
  if◌then◌else◌, and_then, unwrap_or, is_empty,
}
use free_claude_desktop.Prelude.Texts.{is_empty_text}
use free_claude_desktop.Json.{Value, get, get_str, as_u64}
use free_claude_desktop.Stream.Events.{Block, Delta, Event}
use free_claude_desktop.Stream.State.{
  StreamState, ToolCallState, Tools, send, close_thinking_if_needed, close_text_if_needed,
}

-- `active_tools.entry(idx)`, and the entry written back.
unfoldable pub find_tool : ℕ → Tools → Option ToolCallState
find_tool idx [] = none
find_tool idx ((j, tool) ∷ tools) = if eqb j idx then some tool else find_tool idx tools

unfoldable pub put_tool : ℕ → ToolCallState → Tools → Tools
put_tool idx tool [] = (idx, tool) ∷ []
put_tool idx tool ((j, old) ∷ tools) =
    let rest = put_tool idx tool tools in if eqb j idx then (j, tool) ∷ tools else (j, old) ∷ rest

abbrev pub entry_of : Option String → Option String → Option ToolCallState → ToolCallState
entry_of tc_id tc_name found =
    let state =
      unwrap_or (record { id = unwrap_or "" tc_id; name = unwrap_or "" tc_name; started = false })
        found in
    record state { id = unwrap_or state.id tc_id; name = unwrap_or state.name tc_name }

abbrev pub ready : ToolCallState → Bool
ready tool = not tool.started && not (is_empty_text tool.id) && not (is_empty_text tool.name)

abbrev pub start_tool : ℕ → ToolCallState → StreamState → StreamState
start_tool block_idx tool s =
    if ready tool
    then send (Event.block_start block_idx (Block.tool_use tool.id tool.name)) s
    else s

abbrev pub send_args : ℕ → String → Bool → StreamState → StreamState
send_args block_idx args started s =
    if not (is_empty_text args) && started
    then send (Event.block_delta block_idx (Delta.input_json args)) s
    else s

abbrev pub tool_index : Value → ℕ
tool_index tc = unwrap_or 0 (and_then (get "index" tc) as_u64)

abbrev pub of_function : String → Value → Option String
of_function key tc = and_then (get "function" tc) (λ f. get_str key f)

-- One round of the loop over the tool calls.
unfoldable pub handle_tool_call : Value → StreamState → StreamState
handle_tool_call tc s =
    let idx = tool_index tc in
    let tool = entry_of (get_str "id" tc) (of_function "name" tc) (find_tool idx s.active_tools) in
    let block_idx = (s.content_block_index + idx) % 2 ^ 64 in
    let started = ready tool || tool.started in
    record (send_args block_idx (unwrap_or "" (of_function "arguments" tc)) started
      (start_tool block_idx tool s)) {
        active_tools = put_tool idx (record tool { started = started }) s.active_tools;
      }

unfoldable pub handle_tool_calls : List Value → StreamState → StreamState
handle_tool_calls [] s = s
handle_tool_calls (tc ∷ tool_calls) s = handle_tool_calls tool_calls (handle_tool_call tc s)

unfoldable pub handle_tool_calls_delta : List Value → StreamState → StreamState
handle_tool_calls_delta tool_calls s =
    if is_empty tool_calls
    then s
    else handle_tool_calls tool_calls (close_text_if_needed (close_thinking_if_needed s))

-- The source iterates over a hash map: this is the run in which its order is that of insertion.
unfoldable pub finish_active_tools : Tools → StreamState → StreamState
finish_active_tools [] s = s
finish_active_tools ((idx, tool) ∷ tools) s =
    finish_active_tools tools (
      if tool.started
      then send (Event.block_stop ((s.content_block_index + idx) % 2 ^ 64)) s
      else s)
