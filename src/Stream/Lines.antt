-- ===== src/Stream/Lines.antt =====
-- The line buffer of `convert_stream_inner`, over the bytes of the network's chunks. `decode`
-- stands for `String::from_utf8_lossy` of the standard library.
pub mod Chunks
pub mod Boundaries
use free_claude_desktop.Prelude.{
  ℕ, zero, suc, String, Bool, true, false, not, ◌&&◌, Option, none, some, List, [], ◌∷◌, ◌++◌, map,
  length, eqb, if◌then◌else◌, Result, ok, err,
}
use free_claude_desktop.Prelude.Texts.{concat}
use free_claude_desktop.Json.{Value, string, obj}
use free_claude_desktop.Stream.Events.{render, sse}
use free_claude_desktop.Stream.{
  StreamState, ReasoningReplayMode, initial_state, process_line, handle_done_event,
}

abbrev pub Bytes : Type 0
Bytes = List ℕ

abbrev with_byte : ℕ → Option (Bytes × Bytes) → Option (Bytes × Bytes)
with_byte b none = none
with_byte b (some (line, rest)) = some (b ∷ line, rest)

-- The bytes in front of the first line feed, and those behind it.
unfoldable pub split_line : Bytes → Option (Bytes × Bytes)
split_line [] = none
split_line (b ∷ bytes) =
    let later = with_byte b (split_line bytes) in if eqb b 10 then some ([], bytes) else later

-- The bytes that stay in the buffer, the state, and whether the stream is at its end.
pub record Run : Type 0 where
  pub buffer : Bytes
  pub state : StreamState
  pub ended : Bool

-- What is sent where the upstream closes without its end mark.
unfoldable pub finish_stream : StreamState → StreamState
finish_stream s = if s.sent_start && not s.sent_stop then (handle_done_event s).0 else s

module _ (step : Bytes → StreamState → StreamState × Bool) where
  -- `while let Some(offset)`: each round takes a line off, so the length bounds the rounds.
  unfoldable pub read_lines : ℕ → Bytes → StreamState → Run
  read_lines zero buffer s = record { buffer = buffer; state = s; ended = false }
  read_lines (suc fuel) buffer s = elim (split_line buffer) [
    | none ↦ record { buffer = buffer; state = s; ended = false }
    | some (line, rest) ↦
        let (s', should_break) = step line s in
        elim should_break [
          | true ↦ record { buffer = rest; state = s'; ended = true }
          | false ↦ read_lines fuel rest s'
        ]
  ]

  unfoldable pub read_chunk : Bytes → Bytes → StreamState → Run
  read_chunk chunk buffer s = read_lines (length (buffer ++ chunk)) (buffer ++ chunk) s

  -- The state at the end, and the error of the network where there is one.
  unfoldable pub read_stream :
      List (Result Bytes String) → Bytes → StreamState → StreamState × Option String
  read_stream [] buffer s = (finish_stream s, none)
  read_stream (err e ∷ chunks) buffer s = (s, some e)
  read_stream (ok chunk ∷ chunks) buffer s =
      let run = read_chunk chunk buffer s in
      elim run.ended [ true ↦ (run.state, none) | false ↦ read_stream chunks run.buffer run.state ]

module _ (msg_id req_model : String) (reasoning_mode : ReasoningReplayMode)
    (parse_json : String → Option Value) (decode : Bytes → String) where
  abbrev pub line_step : Bytes → StreamState → StreamState × Bool
  line_step line s = process_line msg_id req_model reasoning_mode parse_json (decode line) s

  unfoldable pub convert_stream_inner : List (Result Bytes String) → StreamState × Option String
  convert_stream_inner chunks = read_stream line_step chunks [] initial_state

  module _ (print : Value → String) where
    abbrev error_event : Option String → List String
    error_event none = []
    error_event (some e) =
        sse "error" (
          print (
            obj (
              ("type", string "error")
              ∷ (
                "error",
                obj (
                    ("type", string "api_error")
                    ∷ ("message", string (concat ("Stream conversion failed: " ∷ e ∷ [])))
                    ∷ []),
              )
              ∷ [])))
        ∷ []

    -- What the client receives while it stays connected.
    unfoldable pub start_sse_stream_conversion : List (Result Bytes String) → List String
    start_sse_stream_conversion chunks =
        let (s, error) = convert_stream_inner chunks in
        map (render print) s.events ++ error_event error
