-- ===== src/Request/Images/Accepted.antt =====
-- The check of the images in a conversation, against a description of the conversation.
use free_claude_desktop.Prelude.{
  ◌≡◌, refl, Bool, false, ◌↔◌, some, List, [], ◌∷◌, All, any, Bool-cases, inl, inr, ok, arith,
}
use free_claude_desktop.Claude.{
  ClaudeContentBlock, ClaudeToolResultContent, ClaudeMessageContent, ClaudeMessage,
}
use free_claude_desktop.Request.Images.{
  has_unsupported_tool_result_image, block_is_unsupported, content_is_unsupported,
  message_has_unsupported_tool_result_image, validate_tool_result_images,
}
use free_claude_desktop.Request.Images.Supported.{
  IsSupported, unsupported-IsSupported, IsSupported-unsupported,
}

-- The images of a tool result are those among its blocks; a text holds none.
abbrev pub BlockIsSupported : ClaudeContentBlock → Type 0
BlockIsSupported
      (ClaudeContentBlock.tool_result tool_use_id (some (ClaudeToolResultContent.blocks results))) =
    All IsSupported results
BlockIsSupported _ = Unit

abbrev pub ContentIsSupported : ClaudeMessageContent → Type 0
ContentIsSupported (ClaudeMessageContent.text t) = Unit
ContentIsSupported (ClaudeMessageContent.blocks blocks) = All BlockIsSupported blocks

-- Every image in a tool result of the conversation has a source that can be converted.
abbrev pub AllImagesSupported : List ClaudeMessage → Type 0
AllImagesSupported messages = All (λ message. ContentIsSupported message.content) messages

any_iff-All :
    {A : Type 0} (p : A → Bool) (P : A → Type 0)
    → ((a : A) → (p a ≡ false) ↔ P a)
    → (xs : List A) → (any p xs ≡ false) ↔ All P xs
any_iff-All p P same [] = (λ _. tt, λ _. refl)
any_iff-All p P same (x ∷ xs) =
    let ih = any_iff-All p P same xs in
    (
      λ h. ((same x).0 (ground arith), ih.0 (ground arith)),
      λ (first, rest).
          let here = (same x).1 first in let later = ih.1 rest in ground (arith, here, later),
    )

block_is_unsupported_iff :
    (block : ClaudeContentBlock) → (block_is_unsupported block ≡ false) ↔ BlockIsSupported block
unfolding has_unsupported_tool_result_image
block_is_unsupported_iff
      (ClaudeContentBlock.tool_result tool_use_id (some (ClaudeToolResultContent.blocks results))) =
    any_iff-All _ IsSupported (λ v. (unsupported-IsSupported v, IsSupported-unsupported v)) results
block_is_unsupported_iff _ = (λ _. tt, λ _. refl)

content_is_unsupported_iff :
    (content : ClaudeMessageContent)
    → (content_is_unsupported content ≡ false) ↔ ContentIsSupported content
content_is_unsupported_iff (ClaudeMessageContent.text t) = (λ _. tt, λ _. refl)
content_is_unsupported_iff (ClaudeMessageContent.blocks blocks) =
    any_iff-All block_is_unsupported BlockIsSupported block_is_unsupported_iff blocks

-- The check accepts exactly the conversations whose images can all be converted.
pub validate_tool_result_images_iff :
    (messages : List ClaudeMessage)
    → (validate_tool_result_images messages ≡ ok tt) ↔ AllImagesSupported messages
unfolding validate_tool_result_images
validate_tool_result_images_iff messages =
    let same =
      any_iff-All message_has_unsupported_tool_result_image
        (λ message. ContentIsSupported message.content)
        (λ message. content_is_unsupported_iff message.content) messages in
    elim (Bool-cases (any message_has_unsupported_tool_result_image messages)) [
      | inl bad ↦ (λ h. same.0 (ground arith), λ all. ground (arith, same.1 all))
      | inr good ↦ (λ _. same.0 good, λ _. ground arith)
    ]
