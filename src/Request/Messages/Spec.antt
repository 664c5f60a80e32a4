-- ===== src/Request/Messages/Spec.antt =====
-- The conversation by recursion on the messages, and the loop's agreement with it.
use free_claude_desktop.Prelude.{
  ℕ, zero, suc, ◌+◌, ◌≤◌, String, ◌≡◌, refl, sym, ap, ◌∙◌, true, false, Option, none, some, List,
  [], ◌∷◌, ◌++◌, if◌then◌else◌, length, get_elem?, drop, drop-cases, drop_past, arith, Bool-cases,
  Option-cases, inl, inr,
}
use mathlib.Core.List.{append-nil, append_assoc}
use native.Mathlib.Numerals.{add-one}
use free_claude_desktop.Json.{Value}
use free_claude_desktop.Claude.{ClaudeContentBlock, ClaudeMessage}
use free_claude_desktop.Request.Blocks.{convert_single_user_message}
use free_claude_desktop.Request.Messages.{
  is_assistant, followup_of, followup, option_list, assistant_message, convert_step, convert_loop,
  at_next, take_followup, convert_claude_messages, handle_assistant_message,
  try_handle_tool_followup,
}

module _ (print : Value → String) where
  unfoldable pub convert_all : List ClaudeMessage → List Value
  convert_all [] = []
  convert_all (msg ∷ []) =
      if is_assistant msg.role
      then assistant_message print msg ∷ []
      else option_list (convert_single_user_message msg)
  convert_all (msg ∷ next ∷ rest) =
      let behind = convert_all rest in
      let from_next = convert_all (next ∷ rest) in
      if is_assistant msg.role
      then assistant_message print msg ∷ elim (followup_of next) [
        | none ↦ from_next
        | some blocks ↦ followup print blocks ++ behind
      ]
      else option_list (convert_single_user_message msg) ++ from_next

  pub convert_all-nil : convert_all [] ≡ []
  unfolding convert_all
  convert_all-nil = refl

  pub convert_all-other :
      (msg : ClaudeMessage) (rest : List ClaudeMessage)
      → is_assistant msg.role ≡ false
      → convert_all (msg ∷ rest) ≡ option_list (convert_single_user_message msg) ++ convert_all rest
  unfolding convert_all
  convert_all-other msg [] h = rw (h, append-nil)
  convert_all-other msg (next ∷ rest) h = rw h

  pub convert_all-alone :
      (msg : ClaudeMessage)
      → is_assistant msg.role ≡ true
      → convert_all (msg ∷ []) ≡ assistant_message print msg ∷ []
  unfolding convert_all
  convert_all-alone msg h = rw h

  pub convert_all-plain :
      (msg next : ClaudeMessage) (rest : List ClaudeMessage)
      → is_assistant msg.role ≡ true
      → followup_of next ≡ none
      → convert_all (msg ∷ next ∷ rest) ≡ assistant_message print msg ∷ convert_all (next ∷ rest)
  unfolding convert_all
  convert_all-plain msg next rest h k = rw (h, k)

  pub convert_all-followed :
      (msg next : ClaudeMessage) (rest : List ClaudeMessage) (blocks : List ClaudeContentBlock)
      → is_assistant msg.role ≡ true
      → followup_of next ≡ some blocks
      → convert_all (msg ∷ next ∷ rest)
        ≡ assistant_message print msg ∷ (followup print blocks ++ convert_all rest)
  unfolding convert_all
  convert_all-followed msg next rest blocks h k = rw (h, k)

  loop-step :
      (fuel : ℕ) (messages : List ClaudeMessage) (i : ℕ) (out : List Value) (msg : ClaudeMessage)
      (j : ℕ) (out' : List Value)
      → get_elem? messages i ≡ some msg
      → convert_step print messages msg i out ≡ (j, out')
      → convert_loop print (suc fuel) messages i out ≡ convert_loop print fuel messages j out'
  unfolding convert_loop
  loop-step fuel messages i out msg j out' found step = rw (found, convert_loop) (rw step)

  step-other :
      (messages : List ClaudeMessage) (msg : ClaudeMessage) (i : ℕ) (out : List Value)
      → is_assistant msg.role ≡ false
      → convert_step print messages msg i out
        ≡ (suc i, out ++ option_list (convert_single_user_message msg))
  unfolding convert_step
  step-other messages msg i out h = rw (h, add-one)

  module _ (messages : List ClaudeMessage) (msg : ClaudeMessage) (i : ℕ) (out : List Value)
      (speaks : is_assistant msg.role ≡ true) where
    abbrev said : List Value
    said = out ++ assistant_message print msg ∷ []

    followup_at :
        (o : Option ClaudeMessage)
        → get_elem? messages (suc i) ≡ o
        → try_handle_tool_followup print messages i said ≡ at_next print o i said
    unfolding try_handle_tool_followup
    followup_at o h =
        ap (λ (n : ℕ). at_next print (get_elem? messages n) i said) (add-one i)
        ∙ ap (λ (p : Option ClaudeMessage). at_next print p i said) h

    step-assistant :
        (j : ℕ) (out' : List Value)
        → try_handle_tool_followup print messages i said ≡ (j, out')
        → convert_step print messages msg i out ≡ (suc j, out')
    unfolding convert_step handle_assistant_message
    step-assistant j out' h = rw (speaks, h) (rw add-one)

    step-alone :
        get_elem? messages (suc i) ≡ none → convert_step print messages msg i out ≡ (suc i, said)
    step-alone h = step-assistant i said (followup_at none h)

    step-plain :
        (next : ClaudeMessage)
        → get_elem? messages (suc i) ≡ some next
        → followup_of next ≡ none
        → convert_step print messages msg i out ≡ (suc i, said)
    step-plain next h k = step-assistant i said (
        followup_at (some next) h
        ∙ ap (λ (o : Option (List ClaudeContentBlock)). take_followup print o i said) k)

    step-followed :
        (next : ClaudeMessage) (blocks : List ClaudeContentBlock)
        → get_elem? messages (suc i) ≡ some next
        → followup_of next ≡ some blocks
        → convert_step print messages msg i out ≡ (suc (suc i), said ++ followup print blocks)
    step-followed next blocks h k = step-assistant (suc i) (said ++ followup print blocks) (
        followup_at (some next) h
        ∙ ap (λ (o : Option (List ClaudeContentBlock)). take_followup print o i said) k
        ∙ ap (λ (n : ℕ). (n, said ++ followup print blocks)) (add-one i))

  loop-eq-convert_all :
      (fuel : ℕ) (messages : List ClaudeMessage) (i : ℕ) (out : List Value)
      → length messages ≤ i + fuel
      → convert_loop print fuel messages i out ≡ out ++ convert_all (drop i messages)
  unfolding convert_loop
  loop-eq-convert_all zero messages i out h =
      rw (drop_past messages i (omega arith), convert_all-nil) (sym (append-nil out))
  loop-eq-convert_all (suc fuel) messages i out h = elim (drop-cases messages i) [
    | inl (gone, past) ↦ rw (past, convert_loop) (rw (gone, convert_all-nil) (sym (append-nil out)))
    | inr (msg, split, found) ↦ elim (Bool-cases (is_assistant msg.role)) [
      | inr listens ↦
          loop-step fuel messages i out msg _ _ found (step-other messages msg i out listens)
          ∙ loop-eq-convert_all fuel messages (suc i) _ (omega arith)
          ∙ append_assoc out _ _
          ∙ rw (split, convert_all-other msg _ listens)
      | inl speaks ↦ elim (drop-cases messages (suc i)) [
        | inl (gone, past) ↦
            loop-step fuel messages i out msg _ _ found (step-alone messages msg i out speaks past)
            ∙ loop-eq-convert_all fuel messages (suc i) _ (omega arith)
            ∙ rw (split, gone, convert_all-alone msg speaks, convert_all-nil) (append-nil _)
        | inr (next, split', found') ↦ elim (Option-cases (followup_of next)) [
          | inl plain ↦
              loop-step fuel messages i out msg _ _ found
                (step-plain messages msg i out speaks next found' plain)
              ∙ loop-eq-convert_all fuel messages (suc i) _ (omega arith)
              ∙ rw (split, split', convert_all-plain msg next _ speaks plain) (append_assoc out _ _)
          | inr (blocks, follows) ↦
              loop-step fuel messages i out msg _ _ found
                (step-followed messages msg i out speaks next blocks found' follows)
              ∙ loop-eq-convert_all fuel messages (suc (suc i)) _ (omega arith)
              ∙ rw (split, split', convert_all-followed msg next _ blocks speaks follows)
                  (simp append_assoc)
        ]
      ]
    ]
  ]

  -- The loop over indices is the recursion over the list of messages, so its fuel, the number of
  -- messages, is enough.
  pub convert_claude_messages-eq-convert_all :
      (messages : List ClaudeMessage)
      → convert_claude_messages print messages ≡ convert_all messages
  unfolding convert_claude_messages
  convert_claude_messages-eq-convert_all messages =
      loop-eq-convert_all (length messages) messages 0 [] (omega arith)
