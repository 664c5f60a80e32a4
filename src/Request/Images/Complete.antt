-- ===== src/Request/Images/Complete.antt =====
-- What passes `validate_tool_result_images` loses no image of a tool result.
use free_claude_desktop.Prelude.{String, ◌≡◌, some, List, [], ◌∷◌, ◌++◌}
use free_claude_desktop.Prelude.Texts.{concat}
use free_claude_desktop.Json.{Value, string, obj}
use free_claude_desktop.Claude.{ClaudeContentBlock, ClaudeToolResultContent}
use free_claude_desktop.Request.Images.{caption}
use free_claude_desktop.Request.Images.Supported.{Shows, IsImage}

-- The text part in front of an image, which names the call that the result answers.
abbrev pub IsCaption : String → Value → Type 0
IsCaption id part =
    part
    ≡ obj (
        ("type", string "text")
        ∷ ("text", string (concat ("Image from tool result " ∷ id ∷ ":" ∷ [])))
        ∷ [])

-- The part that shows the image at an address.
abbrev pub IsPicture : String → Value → Type 0
IsPicture url part =
    part ≡ obj (("type", string "image_url") ∷ ("image_url", obj (("url", string url) ∷ [])) ∷ [])

-- The parts for the blocks of one tool result: for each image, in order, its caption and the
-- image at its address, and nothing else.
pub data AreShown (id : String) : List Value → List Value → Type 0 where
  nothing : AreShown id [] []
  passed :
      {v : Value} {vs parts : List Value}
      → ¬ IsImage v
      → AreShown id vs parts
      → AreShown id (v ∷ vs) parts
  shown :
      {v : Value} {vs parts : List Value} {caption picture : Value} (url : String)
      → IsImage v
      → Shows v url
      → IsCaption id caption
      → IsPicture url picture
      → AreShown id vs parts
      → AreShown id (v ∷ vs) (caption ∷ picture ∷ parts)

-- The call that a block answers, and the content of the result; no other block holds any.
abbrev pub answered : ClaudeContentBlock → String × List Value
answered (ClaudeContentBlock.tool_result id (some (ClaudeToolResultContent.blocks results))) =
    (id, results)
answered _ = ("", [])

-- The parts for the blocks of a message: those of its tool results, one result after another.
pub data AllShown : List ClaudeContentBlock → List Value → Type 0 where
  nothing : AllShown [] []
  then_result :
      {block : ClaudeContentBlock} {blocks : List ClaudeContentBlock} {parts rest : List Value}
      → AreShown (answered block).0 (answered block).1 parts
      → AllShown blocks rest
      → AllShown (block ∷ blocks) (parts ++ rest)
