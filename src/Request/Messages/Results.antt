-- ===== src/Request/Messages/Results.antt =====
-- Tool results keep their identifiers and their order.
use mathlib.Core.List.{append_assoc}
use free_claude_desktop.Prelude.{
  String, ◌≡◌, refl, ap, ◌∙◌, Bool, true, false, ◌||◌, ◌&&◌, none, some, List, [], ◌∷◌, ◌++◌, arith,
  All, is_empty, any, Bool-cases, Option-cases, inl, inr, ◌⊎◌, if◌then◌else◌,
}
use free_claude_desktop.Json.{Value, get_str, get, get_field, insert}
use free_claude_desktop.Claude.{ClaudeMessage, ClaudeMessageContent, ClaudeContentBlock}
use free_claude_desktop.Request.Blocks.{build_tool_messages, collect_assistant_parts}
use free_claude_desktop.Request.Messages.{
  is_assistant, is_user, is_tool_result, followup_of, followup_blocks, followup, assistant_message,
  convert_claude_messages,
}
use free_claude_desktop.Request.Messages.Roles.{
  is_tool, IsPlain, single-IsPlain, after_tools-IsPlain, assistant_roles,
}
use free_claude_desktop.Request.Messages.Spec.{
  convert_all, convert_all-nil, convert_all-alone, convert_all-other, convert_all-plain,
  convert_all-followed, convert_claude_messages-eq-convert_all,
}

-- The identifiers of the tool results, in the request and in the converted messages.
unfoldable pub block_ids : List ClaudeContentBlock → List String
block_ids [] = []
block_ids (ClaudeContentBlock.tool_result id content ∷ blocks) = id ∷ block_ids blocks
block_ids (_ ∷ blocks) = block_ids blocks

abbrev content_ids : ClaudeMessageContent → List String
content_ids (ClaudeMessageContent.text t) = []
content_ids (ClaudeMessageContent.blocks blocks) = block_ids blocks

unfoldable pub all_ids : List ClaudeMessage → List String
unfolding block_ids
all_ids [] = []
all_ids (msg ∷ rest) = content_ids msg.content ++ all_ids rest

abbrev id_of : Value → List String
id_of v = elim (get_str "tool_call_id" v) [ none ↦ [] | some id ↦ id ∷ [] ]

unfoldable pub sent_ids : List Value → List String
sent_ids [] = []
sent_ids (v ∷ vs) = (if is_tool v then id_of v else []) ++ sent_ids vs

-- Each message with tool results is a user message directly behind an assistant message.
unfoldable pub results_follow : Bool → List ClaudeMessage → Bool
unfolding block_ids
results_follow behind [] = true
results_follow behind (msg ∷ rest) =
    (is_empty (content_ids msg.content) || (behind && is_user msg.role))
    && results_follow (is_assistant msg.role) rest

sent_ids-plain : (vs ws : List Value) → All IsPlain vs → sent_ids (vs ++ ws) ≡ sent_ids ws
unfolding sent_ids
sent_ids-plain [] ws p = refl
sent_ids-plain (v ∷ vs) ws (p, ps) = rw p.0 (sent_ids-plain vs ws ps)

sent_ids-tools :
    (print : Value → String) (blocks : List ClaudeContentBlock) (ws : List Value)
    → sent_ids (build_tool_messages print blocks ++ ws) ≡ block_ids blocks ++ sent_ids ws
unfolding sent_ids build_tool_messages block_ids get_str get get_field insert
sent_ids-tools print [] ws = refl
sent_ids-tools print (ClaudeContentBlock.tool_result id content ∷ blocks) ws =
    ap (λ (ids : List String). id ∷ ids) (sent_ids-tools print blocks ws)
sent_ids-tools print (_ ∷ blocks) ws = sent_ids-tools print blocks ws

-- A message that is no follow-up of a user has no identifiers.
block_ids-nil :
    (blocks : List ClaudeContentBlock) → any is_tool_result blocks ≡ false → block_ids blocks ≡ []
unfolding block_ids
block_ids-nil [] h = refl
block_ids-nil (ClaudeContentBlock.tool_result id content ∷ blocks) h = cc
block_ids-nil (_ ∷ blocks) h = block_ids-nil blocks h

content_ids-nil :
    (content : ClaudeMessageContent) → followup_blocks content ≡ none → content_ids content ≡ []
content_ids-nil (ClaudeMessageContent.text t) h = refl
content_ids-nil (ClaudeMessageContent.blocks blocks) h = block_ids-nil blocks (ground arith)

content_ids-some :
    (content : ClaudeMessageContent) (blocks : List ClaudeContentBlock)
    → followup_blocks content ≡ some blocks
    → content_ids content ≡ block_ids blocks
content_ids-some (ClaudeMessageContent.text t) blocks h = cc
content_ids-some (ClaudeMessageContent.blocks bs) blocks h = ground arith

is_empty-nil : (ids : List String) → is_empty ids ≡ true → ids ≡ []
is_empty-nil [] h = refl
is_empty-nil (id ∷ ids) h = cc

-- A message that the loop does not take along holds no tool result, if results follow.
passed-nil :
    (behind : Bool) (msg : ClaudeMessage) (rest : List ClaudeMessage)
    → results_follow behind (msg ∷ rest) ≡ true
    → (behind ≡ false) ⊎ (followup_of msg ≡ none)
    → content_ids msg.content ≡ []
unfolding results_follow
passed-nil behind msg rest h k = elim (Bool-cases (is_empty (content_ids msg.content))) [
  | inl bare ↦ is_empty-nil (content_ids msg.content) bare
  | inr holds ↦
      let user : (behind && is_user msg.role) ≡ true = ground arith in
      content_ids-nil msg.content (ground arith)
]

follow_tail :
    (behind : Bool) (msg : ClaudeMessage) (rest : List ClaudeMessage)
    → results_follow behind (msg ∷ rest) ≡ true
    → results_follow (is_assistant msg.role) rest ≡ true
unfolding results_follow
follow_tail behind msg rest h = ground arith

-- Without tool results it makes no difference what stands in front.
follow_relax :
    (msg : ClaudeMessage) (rest : List ClaudeMessage)
    → results_follow true (msg ∷ rest) ≡ true
    → content_ids msg.content ≡ []
    → results_follow false (msg ∷ rest) ≡ true
unfolding results_follow
follow_relax msg rest h bare = rw bare (follow_tail true msg rest h)

all_ids-bare :
    (msg : ClaudeMessage) (rest : List ClaudeMessage)
    → content_ids msg.content ≡ []
    → all_ids (msg ∷ rest) ≡ all_ids rest
unfolding all_ids
all_ids-bare msg rest bare = rw bare

all_ids-followed :
    (msg : ClaudeMessage) (rest : List ClaudeMessage) (blocks : List ClaudeContentBlock)
    → followup_of msg ≡ some blocks
    → all_ids (msg ∷ rest) ≡ block_ids blocks ++ all_ids rest
unfolding all_ids
all_ids-followed msg rest blocks h = rw (content_ids-some msg.content blocks (ground arith))

followup-listens :
    (msg : ClaudeMessage) (blocks : List ClaudeContentBlock)
    → followup_of msg ≡ some blocks
    → is_assistant msg.role ≡ false
followup-listens msg blocks h = ground arith

module _ (print : Value → String) where
  sent_ids-assistant :
      (msg : ClaudeMessage) (ws : List Value)
      → sent_ids (assistant_message print msg ∷ ws) ≡ sent_ids ws
  unfolding sent_ids
  sent_ids-assistant msg ws = rw (assistant_roles (collect_assistant_parts print msg.content)).0

  sent_ids-followup :
      (blocks : List ClaudeContentBlock) (ws : List Value)
      → sent_ids (followup print blocks ++ ws) ≡ block_ids blocks ++ sent_ids ws
  sent_ids-followup blocks ws = rw append_assoc (
      sent_ids-tools print blocks _
      ∙ ap (λ (ids : List String). block_ids blocks ++ ids)
          (sent_ids-plain _ ws (after_tools-IsPlain blocks)))

  convert_all-ids :
      (messages : List ClaudeMessage)
      → results_follow false messages ≡ true
      → sent_ids (convert_all print messages) ≡ all_ids messages
  convert_all-ids [] h = rw (convert_all-nil print) (unfold sent_ids all_ids in refl)
  convert_all-ids (msg ∷ []) h =
      let bare = passed-nil false msg [] h (inl refl) in
      rw (all_ids-bare msg [] bare) (elim (Bool-cases (is_assistant msg.role)) [
        | inl speaks ↦
            rw (convert_all-alone print msg speaks)
              (sent_ids-assistant msg [] ∙ unfold sent_ids all_ids in refl)
        | inr listens ↦
            rw (convert_all-other print msg [] listens, convert_all-nil print)
              (sent_ids-plain _ [] (single-IsPlain msg) ∙ unfold sent_ids all_ids in refl)
      ])
  convert_all-ids (msg ∷ next ∷ rest) h =
      let bare = passed-nil false msg (next ∷ rest) h (inl refl) in
      let behind = follow_tail false msg (next ∷ rest) h in
      rw (all_ids-bare msg (next ∷ rest) bare) (elim (Bool-cases (is_assistant msg.role)) [
        | inr listens ↦ rw (convert_all-other print msg (next ∷ rest) listens) (
            sent_ids-plain _ _ (single-IsPlain msg)
            ∙ convert_all-ids (next ∷ rest) (rw listens at behind))
        | inl speaks ↦ elim (Option-cases (followup_of next)) [
          | inl plain ↦ rw (convert_all-plain print msg next rest speaks plain) (
              sent_ids-assistant msg _
              ∙ convert_all-ids (next ∷ rest) (
                  follow_relax next rest (rw speaks at behind)
                    (passed-nil true next rest (rw speaks at behind) (inr plain))))
          | inr (blocks, follows) ↦
              rw
                (
                  convert_all-followed print msg next rest blocks speaks follows,
                  all_ids-followed next rest blocks follows,
                )
                (sent_ids-assistant msg _
                  ∙ sent_ids-followup blocks _
                  ∙ ap (λ (ids : List String). block_ids blocks ++ ids)
                      (convert_all-ids rest (
                        rw (followup-listens next blocks follows) at
                          (follow_tail (is_assistant msg.role) next rest behind))))
        ]
      ])

  -- If each message with tool results is a user message directly behind an assistant message,
  -- then the tool messages that are sent have the identifiers of the tool results, in their
  -- order.
  pub convert_claude_messages-ids :
      (messages : List ClaudeMessage)
      → results_follow false messages ≡ true
      → sent_ids (convert_claude_messages print messages) ≡ all_ids messages
  convert_claude_messages-ids messages h =
      rw (convert_claude_messages-eq-convert_all print messages) (convert_all-ids messages h)
