-- ===== src/Request/Messages/Pairing.antt =====
-- Chat Completions accepts a tool message only behind an assistant message or another tool message.
use free_claude_desktop.Prelude.{
  String, ◌≡◌, refl, ◌∙◌, Bool, true, false, ◌||◌, ◌&&◌, not, List, [], ◌∷◌, ◌++◌, arith, All,
  Bool-cases, Option-cases, inl, inr,
}
use mathlib.Core.List.{append_assoc}
use free_claude_desktop.Json.{Value}
use free_claude_desktop.Claude.{ClaudeMessage, ClaudeContentBlock}
use free_claude_desktop.Request.Blocks.{collect_assistant_parts, build_tool_messages}
use free_claude_desktop.Request.Messages.{
  is_assistant, followup_of, followup, assistant_message, convert_claude_messages,
}
use free_claude_desktop.Request.Messages.Roles.{
  is_tool, says_assistant, IsPlain, single-IsPlain, after_tools-IsPlain, tools-All, assistant_roles,
}
use free_claude_desktop.Request.Messages.Spec.{
  convert_all, convert_all-nil, convert_all-alone, convert_all-other, convert_all-plain,
  convert_all-followed, convert_claude_messages-eq-convert_all,
}

-- Every tool message stands behind an assistant message or a tool message; `start` says whether
-- the message in front was one of these.
pub tools_follow : Bool → List Value → Bool
tools_follow start [] = true
tools_follow start (v ∷ vs) =
    (start || not (is_tool v)) && tools_follow (is_tool v || says_assistant v) vs

follow_open : (vs : List Value) → tools_follow false vs ≡ true → tools_follow true vs ≡ true
unfolding tools_follow
follow_open [] h = refl
follow_open (v ∷ vs) h = ground arith

follow_plain :
    (b : Bool) (vs ws : List Value)
    → All IsPlain vs
    → tools_follow false ws ≡ true
    → tools_follow b (vs ++ ws) ≡ true
unfolding tools_follow
follow_plain true [] ws p h = follow_open ws h
follow_plain false [] ws p h = h
follow_plain b (v ∷ vs) ws (p, ps) h = rw (p.0, p.1) (ground (arith, follow_plain false vs ws ps h))

follow_tools :
    (vs ws : List Value)
    → All (λ v. is_tool v ≡ true) vs
    → tools_follow true (vs ++ ws) ≡ tools_follow true ws
unfolding tools_follow
follow_tools [] ws p = refl
follow_tools (v ∷ vs) ws (p, ps) = rw p (follow_tools vs ws ps)

module _ (print : Value → String) where
  follow_assistant :
      (msg : ClaudeMessage) (ws : List Value)
      → tools_follow true ws ≡ true
      → tools_follow false (assistant_message print msg ∷ ws) ≡ true
  unfolding tools_follow
  follow_assistant msg ws h =
      let (not_tool, speaks) = assistant_roles (collect_assistant_parts print msg.content) in
      rw (not_tool, speaks) h

  follow_followup :
      (blocks : List ClaudeContentBlock) (ws : List Value)
      → tools_follow false ws ≡ true
      → tools_follow true (followup print blocks ++ ws) ≡ true
  follow_followup blocks ws h = rw append_assoc (
      follow_tools (build_tool_messages print blocks) _ (tools-All print blocks)
      ∙ follow_plain true _ ws (after_tools-IsPlain blocks) h)

  convert_all-follow :
      (messages : List ClaudeMessage) → tools_follow false (convert_all print messages) ≡ true
  convert_all-follow [] = rw (convert_all-nil print) (unfold tools_follow in refl)
  convert_all-follow (msg ∷ []) = elim (Bool-cases (is_assistant msg.role)) [
    | inl speaks ↦
        rw (convert_all-alone print msg speaks)
          (follow_assistant msg [] (unfold tools_follow in refl))
    | inr listens ↦
        rw (convert_all-other print msg [] listens, convert_all-nil print)
          (follow_plain false _ [] (single-IsPlain msg) (unfold tools_follow in refl))
  ]
  convert_all-follow (msg ∷ next ∷ rest) = elim (Bool-cases (is_assistant msg.role)) [
    | inr listens ↦
        rw (convert_all-other print msg (next ∷ rest) listens)
          (follow_plain false _ _ (single-IsPlain msg) (convert_all-follow (next ∷ rest)))
    | inl speaks ↦ elim (Option-cases (followup_of next)) [
      | inl plain ↦
          rw (convert_all-plain print msg next rest speaks plain)
            (follow_assistant msg _ (follow_open _ (convert_all-follow (next ∷ rest))))
      | inr (blocks, follows) ↦
          rw (convert_all-followed print msg next rest blocks speaks follows)
            (follow_assistant msg _ (follow_followup blocks _ (convert_all-follow rest)))
    ]
  ]

  -- In the converted conversation every tool message stands behind an assistant message or behind
  -- another tool message, whatever the conversation was.
  pub convert_claude_messages-follow :
      (messages : List ClaudeMessage)
      → tools_follow false (convert_claude_messages print messages) ≡ true
  convert_claude_messages-follow messages =
      rw (convert_claude_messages-eq-convert_all print messages) (convert_all-follow messages)
