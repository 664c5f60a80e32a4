-- ===== src/Stream/Texts/Kept.antt =====
-- What the text and the thinking of a chunk add to those sent so far.
use mathlib.Core.List.{append-nil}
use free_claude_desktop.Prelude.{
  ℕ, ◌≡◌, refl, sym, ap, ◌∙◌, String, Option, List, [], ◌∷◌, ◌++◌, if◌then◌else◌, and_then,
  ◌or_else◌, unwrap_or, first, Bool-cases, inl, inr,
}
use free_claude_desktop.Prelude.Texts.{concat, is_empty_text}
use free_claude_desktop.Json.{Value, get, get_str, as_str, as_array}
use free_claude_desktop.Stream.Events.{Event, Delta}
use free_claude_desktop.Stream.{
  StreamState, ReasoningReplayMode, send_delta, emit_text_block_start, emit_thinking_block_start,
  close_thinking_if_needed, close_text_if_needed, ensure_message_start, handle_text_delta,
  handle_reasoning_delta,
}
use free_claude_desktop.Stream.Texts.{
  text_in, thinking_in, gather, IsQuiet, emit_text-Same, emit_thinking-Same, close_thinking-Same,
  close_text-Same, begin-Same, sent_delta,
}

pub text_in-IsQuiet : IsQuiet text_in
text_in-IsQuiet = record {
  message = λ a b. refl;
  start = λ n block. refl;
  stop = λ n. refl;
  sign = λ n. refl;
  args = λ n t. refl;
}

pub thinking_in-IsQuiet : IsQuiet thinking_in
thinking_in-IsQuiet = record {
  message = λ a b. refl;
  start = λ n block. refl;
  stop = λ n. refl;
  sign = λ n. refl;
  args = λ n t. refl;
}

-- A text that is not empty, as the list of it.
abbrev pub present : String → List String
present t = if is_empty_text t then [] else t ∷ []

abbrev pub tagged : String → String
tagged t = concat ("<antThinking>" ∷ t ∷ "</antThinking>" ∷ [])

-- What a chunk says: the delta of its first choice, or the message in its place.
abbrev said : Value → Option Value
said chunk =
    let choice = and_then (and_then (get "choices" chunk) as_array) first in
    and_then choice (get "delta") or_else and_then choice (get "message")

abbrev said_content : Value → String
said_content chunk = unwrap_or "" (and_then (said chunk) (get_str "content"))

abbrev said_reasoning : Value → String
said_reasoning chunk = unwrap_or "" (
    and_then (and_then (said chunk) (λ d. get "reasoning_content" d or_else get "reasoning" d))
      as_str)

-- The text deltas and the thinking deltas that a chunk is to give.
abbrev pub text_due : ReasoningReplayMode → Value → List String
text_due ReasoningReplayMode.inline chunk =
    (if is_empty_text (said_reasoning chunk) then [] else tagged (said_reasoning chunk) ∷ [])
    ++ present (said_content chunk)
text_due ReasoningReplayMode.separate chunk = present (said_content chunk)

abbrev pub thinking_due : ReasoningReplayMode → Value → List String
thinking_due ReasoningReplayMode.inline chunk = []
thinking_due ReasoningReplayMode.separate chunk = present (said_reasoning chunk)

-- What a conditional step adds, where the step adds `t` if the text is not empty.
added :
    (q : Event → List String) (delta : String) (s x : StreamState) (t : List String)
    → gather q x.events ≡ gather q s.events ++ t
    → gather q (if is_empty_text delta then s else x).events
      ≡ gather q s.events ++ (if is_empty_text delta then [] else t)
added q delta s x t h = elim (Bool-cases (is_empty_text delta)) [
  | inl bare ↦ rw bare (sym (append-nil (gather q s.events)))
  | inr full ↦ rw full h
]

nothing_added :
    (q : Event → List String) (delta : String) (s x : StreamState)
    → gather q x.events ≡ gather q s.events ++ []
    → gather q (if is_empty_text delta then s else x).events ≡ gather q s.events
nothing_added q delta s x h = elim (Bool-cases (is_empty_text delta)) [
  | inl bare ↦ rw bare refl
  | inr full ↦ rw full (h ∙ append-nil (gather q s.events))
]

module _ (msg_id req_model : String) where
  abbrev begin : StreamState → StreamState
  begin s = ensure_message_start msg_id req_model s

  -- The deltas of the three kinds of step, behind the guard.
  module _ (q : Event → List String) (quiet : IsQuiet q) (delta : Delta) (t : List String)
      (h : (n : ℕ) → q (Event.block_delta n delta) ≡ t) (s : StreamState) where
    text_step :
        gather q
          (send_delta delta (emit_text_block_start (close_thinking_if_needed (begin s)))).events
        ≡ gather q s.events ++ t
    text_step =
        sent_delta q quiet delta (emit_text_block_start (close_thinking_if_needed (begin s))) t h
        ∙ ap (λ (ts : List String). ts ++ t)
            (emit_text-Same q quiet (close_thinking_if_needed (begin s))
              ∙ close_thinking-Same q quiet (begin s)
              ∙ begin-Same q quiet msg_id req_model s)

    inline_step :
        gather q (send_delta delta (emit_text_block_start (begin s))).events
        ≡ gather q s.events ++ t
    inline_step =
        sent_delta q quiet delta (emit_text_block_start (begin s)) t h
        ∙ ap (λ (ts : List String). ts ++ t)
            (emit_text-Same q quiet (begin s) ∙ begin-Same q quiet msg_id req_model s)

    thinking_step :
        gather q
          (send_delta delta (emit_thinking_block_start (close_text_if_needed (begin s)))).events
        ≡ gather q s.events ++ t
    thinking_step =
        sent_delta q quiet delta (emit_thinking_block_start (close_text_if_needed (begin s))) t h
        ∙ ap (λ (ts : List String). ts ++ t)
            (emit_thinking-Same q quiet (close_text_if_needed (begin s))
              ∙ close_text-Same q quiet (begin s)
              ∙ begin-Same q quiet msg_id req_model s)

  pub text_delta-text :
      (delta : String) (s : StreamState)
      → gather text_in (handle_text_delta msg_id req_model delta s).events
        ≡ gather text_in s.events ++ present delta
  unfolding handle_text_delta
  text_delta-text delta s =
      added text_in delta s _ (delta ∷ [])
        (text_step text_in text_in-IsQuiet (Delta.text delta) (delta ∷ []) (λ n. refl) s)

  pub text_delta-thinking :
      (delta : String) (s : StreamState)
      → gather thinking_in (handle_text_delta msg_id req_model delta s).events
        ≡ gather thinking_in s.events
  unfolding handle_text_delta
  text_delta-thinking delta s =
      nothing_added thinking_in delta s _
        (text_step thinking_in thinking_in-IsQuiet (Delta.text delta) [] (λ n. refl) s)

  pub inline-text :
      (delta : String) (s : StreamState)
      → gather text_in
          (handle_reasoning_delta msg_id req_model delta ReasoningReplayMode.inline s).events
        ≡ gather text_in s.events ++ (if is_empty_text delta then [] else tagged delta ∷ [])
  unfolding handle_reasoning_delta
  inline-text delta s = added text_in delta s _ (tagged delta ∷ []) (
      inline_step text_in text_in-IsQuiet (Delta.text (tagged delta)) (tagged delta ∷ [])
        (λ n. refl) s)

  pub inline-thinking :
      (delta : String) (s : StreamState)
      → gather thinking_in
          (handle_reasoning_delta msg_id req_model delta ReasoningReplayMode.inline s).events
        ≡ gather thinking_in s.events
  unfolding handle_reasoning_delta
  inline-thinking delta s =
      nothing_added thinking_in delta s _
        (inline_step thinking_in thinking_in-IsQuiet (Delta.text (tagged delta)) [] (λ n. refl) s)

  pub separate-text :
      (delta : String) (s : StreamState)
      → gather text_in
          (handle_reasoning_delta msg_id req_model delta ReasoningReplayMode.separate s).events
        ≡ gather text_in s.events
  unfolding handle_reasoning_delta
  separate-text delta s =
      nothing_added text_in delta s _
        (thinking_step text_in text_in-IsQuiet (Delta.thinking delta) [] (λ n. refl) s)

  pub separate-thinking :
      (delta : String) (s : StreamState)
      → gather thinking_in
          (handle_reasoning_delta msg_id req_model delta ReasoningReplayMode.separate s).events
        ≡ gather thinking_in s.events ++ present delta
  unfolding handle_reasoning_delta
  separate-thinking delta s = added thinking_in delta s _ (delta ∷ []) (
      thinking_step thinking_in thinking_in-IsQuiet (Delta.thinking delta) (delta ∷ []) (λ n. refl)
        s)
