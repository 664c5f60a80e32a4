-- ===== src/Request/Tests/Convert.antt =====
-- Runs of the theorems on the whole conversion.
use free_claude_desktop.Prelude.{String, ◌≡◌, refl, ◌↔◌, Bool, ok}
use free_claude_desktop.Prelude.Texts.{is_whitespace}
use free_claude_desktop.Json.{object, Fields}
use free_claude_desktop.Claude.{ClaudeMessagesRequest}
use free_claude_desktop.Request.Tools.{}
use free_claude_desktop.Request.Convert.{anthropic_to_openai_request, request_fields, is_stream}
use free_claude_desktop.Request.Convert.Outcome.{IsConverted}
use free_claude_desktop.Request.Convert.Errors.{
  IsSendable, anthropic_to_openai_request-ok_iff, anthropic_to_openai_request-IsConverted,
  request_fields-ok,
}
use free_claude_desktop.Request.Images.Accepted.{validate_tool_result_images_iff}
use free_claude_desktop.Request.Tests.{print_value, parse, request, settings}
use free_claude_desktop.Request.Tests.Messages.{accepted}

sendable : IsSendable request
unfolding is_whitespace
sendable = record {
  images = (validate_tool_result_images_iff request.messages).0 accepted;
  tools = (refl, (refl, tt));
}

anthropic_to_openai_request-ok_iff_example :
    ((out : String × Bool) × (anthropic_to_openai_request print_value parse "a request" settings
        ≡ ok out))
    ↔ ((req : ClaudeMessagesRequest) × (parse "a request" ≡ ok req) × IsSendable req)
anthropic_to_openai_request-ok_iff_example =
    anthropic_to_openai_request-ok_iff print_value parse "a request" settings

succeeds :
    (out : String × Bool) × (anthropic_to_openai_request print_value parse "a request" settings
      ≡ ok out)
succeeds =
    (anthropic_to_openai_request-ok_iff print_value parse "a request" settings).1
      (request, refl, sendable)

anthropic_to_openai_request-IsConverted_example :
    (req : ClaudeMessagesRequest) × ((fields : Fields) × (parse "a request" ≡ ok req)
      × IsConverted print_value settings req fields
      × (succeeds.0.0 ≡ print_value (object fields))
      × (succeeds.0.1 ≡ is_stream req))
anthropic_to_openai_request-IsConverted_example =
    anthropic_to_openai_request-IsConverted print_value parse "a request" settings succeeds.0.0
      succeeds.0.1 succeeds.1

converted : (fields : Fields) × (request_fields print_value settings request ≡ ok fields)
converted = request_fields-ok print_value settings request sendable
