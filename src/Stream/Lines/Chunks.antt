-- ===== src/Stream/Lines/Chunks.antt =====
-- Reading a chunk line by line is reading it byte by byte.
use mathlib.Core.List.{append-nil, append_assoc}
use free_claude_desktop.Prelude.{
  ℕ, zero, suc, ◌≤◌, ◌<◌, ◌≡◌, refl, sym, ap, ◌∙◌, Bool, true, false, none, some, [], ◌∷◌, ◌++◌,
  arith, length, eqb, Bool-cases, Option-cases, inl, inr,
}
use free_claude_desktop.Stream.{StreamState}
use free_claude_desktop.Stream.Lines.{Bytes, Run, split_line, read_lines}

abbrev pub run_of : Bytes → StreamState → Bool → Run
run_of buffer s ended = record { buffer = buffer; state = s; ended = ended }

elim_true : {A : Type 0} (c : Bool) (x y : A) → c ≡ true → (elim c [ false ↦ x | true ↦ y ]) ≡ y
elim_true true x y h = refl
elim_true false x y h = cc

elim_false : {A : Type 0} (c : Bool) (x y : A) → c ≡ false → (elim c [ false ↦ x | true ↦ y ]) ≡ x
elim_false true x y h = cc
elim_false false x y h = refl

split_line-shorter :
    (bytes line rest : Bytes) → split_line bytes ≡ some (line, rest) → length rest < length bytes
unfolding split_line
split_line-shorter [] line rest h = cc
split_line-shorter (b ∷ bytes) line rest h = elim (Bool-cases (eqb b 10)) [
  | inl feed ↦ ground arith
  | inr other ↦ elim (Option-cases (split_line bytes)) [
    | inl unbroken ↦ ground arith
    | inr ((line', rest'), broken) ↦
        let shorter = split_line-shorter bytes line' rest' broken in ground arith
  ]
]

pub split_line-append_byte :
    (line : Bytes) (b : ℕ)
    → split_line line ≡ none
    → eqb b 10 ≡ false
    → split_line (line ++ b ∷ []) ≡ none
unfolding split_line
split_line-append_byte [] b h other = rw other refl
split_line-append_byte (c ∷ line) b h other = elim (Bool-cases (eqb c 10)) [
  | inl feed ↦ ground arith
  | inr plain ↦
      let unbroken : split_line line ≡ none = ground arith in
      rw (plain, split_line-append_byte line b unbroken other)
]

split_line-newline :
    (b : ℕ) (bytes front rest : Bytes)
    → eqb b 10 ≡ true
    → split_line (b ∷ bytes) ≡ some (front, rest)
    → (front ≡ []) × (rest ≡ bytes)
unfolding split_line
split_line-newline b bytes front rest newline h = ground arith

split_line-plain :
    (b : ℕ) (bytes front rest : Bytes)
    → eqb b 10 ≡ false
    → split_line (b ∷ bytes) ≡ some (front, rest)
    → (f : Bytes) × (front ≡ b ∷ f) × (split_line bytes ≡ some (f, rest))
unfolding split_line
split_line-plain b bytes front rest plain h = elim (Option-cases (split_line bytes)) [
  | inl unbroken ↦ ground arith
  | inr ((f, r), broken) ↦ let same : rest ≡ r = ground arith in (f, ground arith, ground arith)
]

module _ (step : Bytes → StreamState → StreamState × Bool) where
  -- The buffer byte by byte: `line` holds the unfinished line.
  unfoldable pub feed : Bytes → Bytes → StreamState → Run
  feed line [] s = run_of line s false
  feed line (b ∷ bytes) s = elim (eqb b 10) [
    | false ↦ feed (line ++ b ∷ []) bytes s
    | true ↦ elim (step line s).1 [
      | true ↦ run_of bytes (step line s).0 true
      | false ↦ feed [] bytes (step line s).0
    ]
  ]

  -- What follows a whole line.
  abbrev pub after : StreamState × Bool → Bytes → Run
  after (s, true) rest = run_of rest s true
  after (s, false) rest = feed [] rest s

  elim-after :
      (r : StreamState × Bool) (rest : Bytes) (go_on : StreamState → Run)
      → ((t : StreamState) → go_on t ≡ feed [] rest t)
      → (elim r.1 [ true ↦ run_of rest r.0 true | false ↦ go_on r.0 ]) ≡ after r rest
  elim-after (s, true) rest go_on h = refl
  elim-after (s, false) rest go_on h = h s

  pub feed-after :
      (line : Bytes) (b : ℕ) (bytes : Bytes) (s : StreamState)
      → eqb b 10 ≡ true
      → feed line (b ∷ bytes) s ≡ after (step line s) bytes
  unfolding feed
  feed-after line b bytes s h =
      elim_true (eqb b 10) (feed (line ++ b ∷ []) bytes s) _ h
      ∙ elim-after (step line s) bytes (λ t. feed [] bytes t) (λ t. refl)

  pub feed-plain :
      (line : Bytes) (b : ℕ) (bytes : Bytes) (s : StreamState)
      → eqb b 10 ≡ false
      → feed line (b ∷ bytes) s ≡ feed (line ++ b ∷ []) bytes s
  unfolding feed
  feed-plain line b bytes s h = elim_false (eqb b 10) (feed (line ++ b ∷ []) bytes s) _ h

  pub feed-unbroken :
      (line bytes : Bytes) (s : StreamState)
      → split_line bytes ≡ none
      → feed line bytes s ≡ run_of (line ++ bytes) s false
  unfolding split_line
  feed-unbroken line [] s h = unfold feed in ap (λ l. run_of l s false) (sym (append-nil line))
  feed-unbroken line (b ∷ bytes) s h = elim (Bool-cases (eqb b 10)) [
    | inl newline ↦ ground arith
    | inr plain ↦
        feed-plain line b bytes s plain
        ∙ feed-unbroken (line ++ b ∷ []) bytes s (ground arith)
        ∙ ap (λ l. run_of l s false) (append_assoc line (b ∷ []) bytes)
  ]

  feed-broken :
      (line bytes front rest : Bytes) (s : StreamState)
      → split_line bytes ≡ some (front, rest)
      → feed line bytes s ≡ after (step (line ++ front) s) rest
  unfolding split_line
  feed-broken line [] front rest s h = cc
  feed-broken line (b ∷ bytes) front rest s h = elim (Bool-cases (eqb b 10)) [
    | inl newline ↦
        let (empty, same) = split_line-newline b bytes front rest newline h in
        feed-after line b bytes s newline ∙ rw (empty, same, append-nil)
    | inr plain ↦
        let (f, starts, broken) = split_line-plain b bytes front rest plain h in
        feed-plain line b bytes s plain
        ∙ feed-broken (line ++ b ∷ []) bytes f rest s broken
        ∙ ap (λ l. after (step l s) rest)
            (append_assoc line (b ∷ []) f ∙ ap (λ l. line ++ l) (sym starts))
  ]

  pub read_lines-unbroken :
      (fuel : ℕ) (buffer : Bytes) (s : StreamState)
      → split_line buffer ≡ none
      → read_lines step (suc fuel) buffer s ≡ run_of buffer s false
  unfolding read_lines
  read_lines-unbroken fuel buffer s h = rw (h, read_lines) refl

  pub read_lines-broken :
      (fuel : ℕ) (buffer line rest : Bytes) (s : StreamState)
      → split_line buffer ≡ some (line, rest)
      → read_lines step (suc fuel) buffer s ≡ elim (step line s).1 [
        | true ↦ run_of rest (step line s).0 true
        | false ↦ read_lines step fuel rest (step line s).0
      ]
  unfolding read_lines
  read_lines-broken fuel buffer line rest s h = rw (h, read_lines) refl

  pub read_lines-eq-feed :
      (fuel : ℕ) (buffer : Bytes) (s : StreamState)
      → length buffer ≤ fuel
      → read_lines step fuel buffer s ≡ feed [] buffer s
  read_lines-eq-feed zero [] s h = unfold feed read_lines in refl
  read_lines-eq-feed zero (b ∷ bytes) s h = absurd (omega arith)
  read_lines-eq-feed (suc fuel) buffer s h = elim (Option-cases (split_line buffer)) [
    | inl unbroken ↦
        read_lines-unbroken fuel buffer s unbroken ∙ sym (feed-unbroken [] buffer s unbroken)
    | inr ((line, rest), broken) ↦
        read_lines-broken fuel buffer line rest s broken
        ∙ elim-after (step line s) rest (read_lines step fuel rest) (λ t.
          let shorter = split_line-shorter buffer line rest broken in
          read_lines-eq-feed fuel rest t (omega arith))
        ∙ sym (feed-broken [] buffer line rest s broken)
  ]

  -- A run goes on with further bytes.
  abbrev pub continue : Run → Bytes → Run
  continue run bytes = elim run.ended [
    | true ↦ run_of (run.buffer ++ bytes) run.state true
    | false ↦ feed run.buffer bytes run.state
  ]

  after-append :
      (r : StreamState × Bool) (bytes more : Bytes)
      → ((t : StreamState) → feed [] (bytes ++ more) t ≡ continue (feed [] bytes t) more)
      → after r (bytes ++ more) ≡ continue (after r bytes) more
  after-append (s, true) bytes more h = refl
  after-append (s, false) bytes more h = h s

  pub feed-append :
      (line bytes more : Bytes) (s : StreamState)
      → feed line (bytes ++ more) s ≡ continue (feed line bytes s) more
  feed-append line [] more s = unfold feed in refl
  feed-append line (b ∷ bytes) more s = elim (Bool-cases (eqb b 10)) [
    | inl newline ↦
        rw (feed-after line b bytes s newline, feed-after line b (bytes ++ more) s newline)
          (after-append (step line s) bytes more (feed-append [] bytes more))
    | inr plain ↦
        rw (feed-plain line b bytes s plain, feed-plain line b (bytes ++ more) s plain)
          (feed-append (line ++ b ∷ []) bytes more s)
  ]
