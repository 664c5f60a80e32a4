-- ===== src/Stream/Lines/Boundaries.antt =====
-- The boundaries of the network's chunks make no difference to the conversion.
use mathlib.Core.List.{append-nil, append_assoc}
use free_claude_desktop.Prelude.{
  String, ◌≡◌, refl, sym, ap, ◌∙◌, Bool, true, false, Option, none, List, [], ◌∷◌, ◌++◌, map, arith,
  length, eqb, Result, ok, Bool-cases, inl, inr,
}
use free_claude_desktop.Json.{Value}
use free_claude_desktop.Stream.{StreamState, ReasoningReplayMode, initial_state}
use free_claude_desktop.Stream.Lines.{
  Bytes, Run, split_line, read_lines, read_chunk, read_stream, line_step, convert_stream_inner,
}
use free_claude_desktop.Stream.Lines.Chunks.{
  run_of, split_line-append_byte, feed, after, feed-after, feed-plain, feed-append, feed-unbroken,
  continue, read_lines-eq-feed,
}

abbrev IsUnbroken : Run → Type 0
IsUnbroken run = split_line run.buffer ≡ none

module _ (step : Bytes → StreamState → StreamState × Bool) where
  after-IsUnbroken :
      (r : StreamState × Bool) (bytes : Bytes)
      → ((t : StreamState)
          → (feed step [] bytes t).ended ≡ false
          → IsUnbroken (feed step [] bytes t))
      → (after step r bytes).ended ≡ false
      → IsUnbroken (after step r bytes)
  after-IsUnbroken (s, true) bytes go h = cc
  after-IsUnbroken (s, false) bytes go h = go s h

  -- A buffer that waits for more holds no whole line.
  feed-IsUnbroken :
      (line bytes : Bytes) (s : StreamState)
      → split_line line ≡ none
      → (feed step line bytes s).ended ≡ false
      → IsUnbroken (feed step line bytes s)
  feed-IsUnbroken line [] s u h = unfold feed in u
  feed-IsUnbroken line (b ∷ bytes) s u h = elim (Bool-cases (eqb b 10)) [
    | inl newline ↦ rw (feed-after step line b bytes s newline) (
        after-IsUnbroken (step line s) bytes
          (λ t. feed-IsUnbroken [] bytes t (unfold split_line in refl))
          (rw (feed-after step line b bytes s newline) at h))
    | inr plain ↦ rw (feed-plain step line b bytes s plain) (
        feed-IsUnbroken (line ++ b ∷ []) bytes s (split_line-append_byte line b u plain)
          (rw (feed-plain step line b bytes s plain) at h))
  ]

  read_chunk-eq-feed :
      (chunk buffer : Bytes) (s : StreamState)
      → read_chunk step chunk buffer s ≡ feed step [] (buffer ++ chunk) s
  unfolding read_chunk
  read_chunk-eq-feed chunk buffer s =
      read_lines-eq-feed step (length (buffer ++ chunk)) (buffer ++ chunk) s (omega arith)

  feed-resume :
      (buffer more : Bytes) (s : StreamState)
      → split_line buffer ≡ none
      → feed step [] (buffer ++ more) s ≡ feed step buffer more s
  feed-resume buffer more s u =
      feed-append step [] buffer more s
      ∙ ap (λ run. continue step run more) (feed-unbroken step [] buffer s u)

  -- What follows a chunk.
  go_on : List (Result Bytes String) → Run → StreamState × Option String
  go_on chunks run = elim run.ended [
    | true ↦ (run.state, none)
    | false ↦ read_stream step chunks run.buffer run.state
  ]

  read_stream-chunk :
      (chunk buffer : Bytes) (chunks : List (Result Bytes String)) (s : StreamState)
      → read_stream step (ok chunk ∷ chunks) buffer s
        ≡ go_on chunks (feed step [] (buffer ++ chunk) s)
  unfolding read_stream go_on
  read_stream-chunk chunk buffer chunks s = ap (go_on chunks) (read_chunk-eq-feed chunk buffer s)

  go_on-fields :
      (chunks : List (Result Bytes String)) (chunk buffer : Bytes) (s : StreamState) (ended : Bool)
      → (ended ≡ false → split_line buffer ≡ none)
      → go_on (ok chunk ∷ chunks) (run_of buffer s ended)
        ≡ go_on chunks (continue step (run_of buffer s ended) chunk)
  unfolding go_on
  go_on-fields chunks chunk buffer s true u = refl
  go_on-fields chunks chunk buffer s false u =
      read_stream-chunk chunk buffer chunks s
      ∙ ap (go_on chunks) (feed-resume buffer chunk s (u refl))

  go_on-chunk :
      (chunks : List (Result Bytes String)) (chunk : Bytes) (run : Run)
      → (run.ended ≡ false → IsUnbroken run)
      → go_on (ok chunk ∷ chunks) run ≡ go_on chunks (continue step run chunk)
  go_on-chunk chunks chunk run u = go_on-fields chunks chunk run.buffer run.state run.ended u

  -- Two chunks are one.
  read_stream-merge :
      (a b buffer : Bytes) (chunks : List (Result Bytes String)) (s : StreamState)
      → read_stream step (ok a ∷ ok b ∷ chunks) buffer s
        ≡ read_stream step (ok (a ++ b) ∷ chunks) buffer s
  read_stream-merge a b buffer chunks s =
      read_stream-chunk a buffer (ok b ∷ chunks) s
      ∙ go_on-chunk chunks b _ (feed-IsUnbroken [] (buffer ++ a) s (unfold split_line in refl))
      ∙ sym (
          read_stream-chunk (a ++ b) buffer chunks s
          ∙ ap (λ bytes. go_on chunks (feed step [] bytes s)) (sym (append_assoc buffer a b))
          ∙ ap (go_on chunks) (feed-append step [] (buffer ++ a) b s))

-- The bytes of all chunks.
abbrev pub flatten : List Bytes → Bytes
flatten [] = []
flatten (chunk ∷ chunks) = chunk ++ flatten chunks

abbrev pub received : List Bytes → List (Result Bytes String)
received chunks = map (λ chunk. ok chunk) chunks

read_stream-flatten :
    (step : Bytes → StreamState → StreamState × Bool) (chunk : Bytes) (chunks : List Bytes)
    (buffer : Bytes) (s : StreamState)
    → read_stream step (ok chunk ∷ received chunks) buffer s
      ≡ read_stream step (ok (chunk ++ flatten chunks) ∷ []) buffer s
read_stream-flatten step chunk [] buffer s =
    ap (λ (c : Bytes). read_stream step (ok c ∷ []) buffer s) (sym (append-nil chunk))
read_stream-flatten step chunk (c ∷ chunks) buffer s =
    read_stream-merge step chunk c buffer (received chunks) s
    ∙ read_stream-flatten step (chunk ++ c) chunks buffer s
    ∙ ap (λ (c' : Bytes). read_stream step (ok c' ∷ []) buffer s)
        (append_assoc chunk c (flatten chunks))

module _ (msg_id req_model : String) (reasoning_mode : ReasoningReplayMode)
    (parse_json : String → Option Value) (decode : Bytes → String) where
  as_one :
      (chunks : List Bytes)
      → convert_stream_inner msg_id req_model reasoning_mode parse_json decode (received chunks)
        ≡ convert_stream_inner msg_id req_model reasoning_mode parse_json decode
            (ok (flatten chunks) ∷ [])
  unfolding convert_stream_inner read_stream
  as_one [] = unfold read_chunk read_lines in refl
  as_one (c ∷ chunks) =
      read_stream-flatten (line_step msg_id req_model reasoning_mode parse_json decode) c chunks []
        initial_state

  -- Two sequences of chunks with the same bytes, however the network cuts them, are converted to
  -- the same events and the same state.
  pub convert_stream_inner-flatten :
      (chunks chunks' : List Bytes)
      → flatten chunks ≡ flatten chunks'
      → convert_stream_inner msg_id req_model reasoning_mode parse_json decode (received chunks)
        ≡ convert_stream_inner msg_id req_model reasoning_mode parse_json decode (received chunks')
  convert_stream_inner-flatten chunks chunks' h =
      as_one chunks
      ∙ ap
          (λ (bytes : Bytes).
            convert_stream_inner msg_id req_model reasoning_mode parse_json decode (ok bytes ∷ []))
          h
      ∙ sym (as_one chunks')
