-- ===== src/Stream/Whole.antt =====
-- Whatever the upstream sends, a message that was begun is ended.
use free_claude_desktop.Prelude.{
  ℕ, zero, suc, length, ◌≡◌, refl, ap, String, Bool, true, false, not, ◌||◌, ◌&&◌, ◌⊎◌, Option,
  none, some, List, [], ◌∷◌, ◌++◌, arith, if-elim, Option-cases, inl, inr, Result, ok, err, ◌==◌,
}
use mathlib.Core.Path.{subst}
use free_claude_desktop.Prelude.Texts.{trim, strip_prefix}
use free_claude_desktop.Json.{Value}
use free_claude_desktop.Stream.{
  StreamState, ReasoningReplayMode, initial_state, handle_done_event, process_chunk,
  process_data_line, process_line,
}
use free_claude_desktop.Stream.Lines.{
  Bytes, split_line, read_lines, read_chunk, read_stream, finish_stream, line_step,
  convert_stream_inner,
}
use free_claude_desktop.Stream.Balance.{count, count_started, IsRunning}
use free_claude_desktop.Stream.Ending.{IsEnded, finish_message-IsEnded}
use free_claude_desktop.Stream.Lines.{Run}
use free_claude_desktop.Stream.Lines.Chunks.{read_lines-unbroken, read_lines-broken, run_of}
use free_claude_desktop.Stream.Steps.{
  text-IsRunning, reasoning-IsRunning, tools_delta-IsRunning, usage-IsRunning, reason-IsRunning,
}

-- The state after a line: the message is under way, or at an end, or was never begun.
abbrev Outcome : StreamState × Bool → Type 0
Outcome (s, false) = IsRunning s
Outcome (s, true) = (s.sent_start ≡ false) ⊎ IsEnded s

done-Outcome : (s : StreamState) → IsRunning s → Outcome ((handle_done_event s).0, true)
unfolding handle_done_event
done-Outcome s h =
    if-elim (λ (r : StreamState × Bool). Outcome (r.0, true)) (not s.sent_start || s.sent_stop)
      (λ early. inl (ground (arith, h.running)))
      (λ late. inr (finish_message-IsEnded s h (ground arith)))

module _ (msg_id req_model : String) (reasoning_mode : ReasoningReplayMode)
    (parse_json : String → Option Value) where
  process_chunk-IsRunning :
      (chunk : Value) (s : StreamState)
      → IsRunning s
      → IsRunning (process_chunk msg_id req_model reasoning_mode chunk s)
  unfolding process_chunk
  process_chunk-IsRunning chunk s h = reason-IsRunning _ _ (
      tools_delta-IsRunning _ _ (
        text-IsRunning msg_id req_model _ _
          (reasoning-IsRunning msg_id req_model _ reasoning_mode _ (usage-IsRunning _ s h))))

  data_line-Outcome :
      (data_str : String) (s : StreamState)
      → IsRunning s
      → Outcome (process_data_line msg_id req_model reasoning_mode parse_json data_str s)
  unfolding process_data_line
  data_line-Outcome data_str s h =
      if-elim Outcome (data_str == "[DONE]") (λ _. done-Outcome s h)
        λ _. elim (Option-cases (parse_json data_str)) [
          | inl bad ↦ rw bad h
          | inr (chunk, parsed) ↦ rw parsed (process_chunk-IsRunning chunk s h)
        ]

  process_line-Outcome :
      (line : String) (s : StreamState)
      → IsRunning s
      → Outcome (process_line msg_id req_model reasoning_mode parse_json line s)
  unfolding process_line
  process_line-Outcome line s h = elim (Option-cases (strip_prefix "data:" (trim line))) [
    | inl other ↦ rw (other, process_line) h
    | inr (rest, starts) ↦ rw (starts, process_line) (data_line-Outcome (trim rest) s h)
  ]

module _ (step : Bytes → StreamState → StreamState × Bool)
    (good : (line : Bytes) (s : StreamState) → IsRunning s → Outcome (step line s)) where
  abbrev OutcomeOf : Run → Type 0
  OutcomeOf run = Outcome (run.state, run.ended)

  round-Outcome :
      (r : StreamState × Bool) (rest : Bytes) (go_on : StreamState → Run)
      → Outcome r
      → ((t : StreamState) → IsRunning t → OutcomeOf (go_on t))
      → OutcomeOf (elim r.1 [ true ↦ run_of rest r.0 true | false ↦ go_on r.0 ])
  round-Outcome (s, true) rest go_on o go = o
  round-Outcome (s, false) rest go_on o go = go s o

  read_lines-Outcome :
      (fuel : ℕ) (buffer : Bytes) (s : StreamState)
      → IsRunning s
      → OutcomeOf (read_lines step fuel buffer s)
  read_lines-Outcome zero buffer s h = unfold read_lines in h
  read_lines-Outcome (suc fuel) buffer s h = elim (Option-cases (split_line buffer)) [
    | inl unbroken ↦ rw (read_lines-unbroken step fuel buffer s unbroken) h
    | inr ((line, rest), broken) ↦ rw (read_lines-broken step fuel buffer line rest s broken) (
        round-Outcome (step line s) rest (read_lines step fuel rest) (good line s h)
          (read_lines-Outcome fuel rest))
  ]

  finish_stream-Outcome : (s : StreamState) → IsRunning s → Outcome (finish_stream s, true)
  unfolding finish_stream
  finish_stream-Outcome s h =
      if-elim (λ (t : StreamState). Outcome (t, true)) (s.sent_start && not s.sent_stop)
        (λ _. done-Outcome s h) (λ never. inl (ground (arith, h.running)))

  abbrev go_on : List (Result Bytes String) → Run → StreamState × Option String
  go_on chunks run = elim run.ended [
    | true ↦ (run.state, none)
    | false ↦ read_stream step chunks run.buffer run.state
  ]

  chunk-Outcome :
      (chunks : List (Result Bytes String)) (buffer : Bytes) (s : StreamState) (ended : Bool)
      → Outcome (s, ended)
      → ((t : StreamState)
          → IsRunning t
          → Outcome ((read_stream step chunks buffer t).0, true)
            ⊎ ((e : String) × ((read_stream step chunks buffer t).1 ≡ some e)))
      → Outcome ((go_on chunks (run_of buffer s ended)).0, true)
        ⊎ ((e : String) × ((go_on chunks (run_of buffer s ended)).1 ≡ some e))
  chunk-Outcome chunks buffer s true o go = inl o
  chunk-Outcome chunks buffer s false o go = go s o

  read_stream-Outcome :
      (chunks : List (Result Bytes String)) (buffer : Bytes) (s : StreamState)
      → IsRunning s
      → Outcome ((read_stream step chunks buffer s).0, true)
        ⊎ ((e : String) × ((read_stream step chunks buffer s).1 ≡ some e))
  unfolding read_stream read_chunk
  read_stream-Outcome [] buffer s h = inl (finish_stream-Outcome s h)
  read_stream-Outcome (err e ∷ chunks) buffer s h = inr (e, refl)
  read_stream-Outcome (ok chunk ∷ chunks) buffer s h =
      let run = read_chunk step chunk buffer s in
      chunk-Outcome chunks run.buffer run.state run.ended
        (read_lines-Outcome (length (buffer ++ chunk)) (buffer ++ chunk) s h)
        (read_stream-Outcome chunks run.buffer)

initial-IsRunning : IsRunning initial_state
unfolding count count_started
initial-IsRunning = record { balanced = refl; one_start = refl; no_stop = refl; running = refl }

-- If the conversion of a stream returns without a network error and has begun a message, then the
-- events hold as many block stops as block starts, one message start, and one message stop, which
-- is the last event.
pub convert_stream_inner-IsEnded :
    (msg_id req_model : String) (reasoning_mode : ReasoningReplayMode)
    (parse_json : String → Option Value) (decode : Bytes → String)
    (chunks : List (Result Bytes String)) (s : StreamState)
    → convert_stream_inner msg_id req_model reasoning_mode parse_json decode chunks ≡ (s, none)
    → s.sent_start ≡ true
    → IsEnded s
unfolding convert_stream_inner
convert_stream_inner-IsEnded msg_id req_model reasoning_mode parse_json decode chunks s h begun =
    elim (read_stream-Outcome (line_step msg_id req_model reasoning_mode parse_json decode)
      (λ line. process_line-Outcome msg_id req_model reasoning_mode parse_json (decode line)) chunks
      [] initial_state initial-IsRunning) [
        | inl (inl never) ↦
            absurd (ground (arith, ap (λ (r : StreamState × Option String). r.0.sent_start) h))
        | inl (inr ended) ↦ subst (λ (r : StreamState × Option String). IsEnded r.0) h ended
        | inr (e, failed) ↦ absurd (cc (ap (λ (r : StreamState × Option String). r.1) h))
      ]
