-- ===== src/Request/Tests/Messages.antt =====
-- Runs of the theorems on the messages, the images and the tools.
use free_claude_desktop.Prelude.{◌≡◌, refl, true, false, List, [], ◌∷◌, ok}
use free_claude_desktop.Json.{Value, get, get_str, get_field, insert}
use free_claude_desktop.Claude.{ClaudeTool}
use free_claude_desktop.Request.Images.{
  validate_tool_result_images, tool_result_image, image_source_url,
  has_unsupported_tool_result_image,
}
use free_claude_desktop.Request.Messages.{convert_claude_messages}
use free_claude_desktop.Request.Messages.Spec.{convert_all, convert_claude_messages-eq-convert_all}
use free_claude_desktop.Request.Messages.Pairing.{tools_follow, convert_claude_messages-follow}
use free_claude_desktop.Request.Messages.Results.{
  sent_ids, all_ids, results_follow, block_ids, convert_claude_messages-ids,
}
use free_claude_desktop.Request.Tools.{build_openai_tools}
use free_claude_desktop.Request.Tools.Laws.{build_openai_tools-ok, AreSent}
use free_claude_desktop.Prelude.Texts.{is_whitespace}
use free_claude_desktop.Request.Tests.{print_value, conversation, list_files, unnamed}

convert_claude_messages-eq-convert_all_example :
    convert_claude_messages print_value conversation ≡ convert_all print_value conversation
convert_claude_messages-eq-convert_all_example =
    convert_claude_messages-eq-convert_all print_value conversation

convert_claude_messages-follow_example :
    tools_follow false (convert_claude_messages print_value conversation) ≡ true
convert_claude_messages-follow_example = convert_claude_messages-follow print_value conversation

convert_claude_messages-ids_example :
    sent_ids (convert_claude_messages print_value conversation) ≡ all_ids conversation
unfolding results_follow block_ids
convert_claude_messages-ids_example = convert_claude_messages-ids print_value conversation refl

pub accepted : validate_tool_result_images conversation ≡ ok tt
unfolding validate_tool_result_images has_unsupported_tool_result_image tool_result_image
    image_source_url get get_str get_field insert
accepted = refl

abbrev tools : List ClaudeTool
tools = list_files ∷ unnamed ∷ []

build_openai_tools-ok_example :
    (sent : List Value) × (build_openai_tools tools ≡ ok sent) × AreSent tools sent
unfolding is_whitespace
build_openai_tools-ok_example = build_openai_tools-ok tools (refl, (refl, tt))
