-- ===== src/Request/Convert/Errors.antt =====
-- When `anthropic_to_openai_request` succeeds, and what it returns then.
use free_claude_desktop.Prelude.{
  String, ◌≡◌, refl, ap, sym, Bool, true, ◌↔◌, Option, none, some, List, [], All, unwrap_or, Result,
  ok, >>=-eq-ok, >>=-of-ok, ok-injective,
}
use free_claude_desktop.Json.{Value, object, Fields}
use free_claude_desktop.Claude.{ClaudeMessagesRequest, ClaudeTool}
use free_claude_desktop.Settings.{Settings}
use free_claude_desktop.Request.Images.{validate_tool_result_images}
use free_claude_desktop.Request.Images.Accepted.{
  AllImagesSupported, validate_tool_result_images_iff,
}
use free_claude_desktop.Request.Tools.{build_openai_tools, tools_of, apply_tools_mapping}
use free_claude_desktop.Request.Tools.Laws.{
  is_convertible, build_openai_tools-ok, build_openai_tools-convertible,
}
use free_claude_desktop.Request.Convert.{is_stream, request_fields, anthropic_to_openai_request}
use free_claude_desktop.Request.Convert.Outcome.{
  IsConverted, request_fields-IsConverted, request_fields-built,
}

-- What the conversion asks of a request: no image in a tool result that has no counterpart, and
-- for each offered tool a schema or a blank name.
pub record IsSendable (req : ClaudeMessagesRequest) : Type 0 where
  pub images : AllImagesSupported req.messages
  pub tools : All (λ tool. is_convertible tool ≡ true) (unwrap_or [] req.tools)

tools_of-convertible :
    (tools : Option (List ClaudeTool)) {o : Option Value}
    → tools_of tools ≡ ok o
    → All (λ tool. is_convertible tool ≡ true) (unwrap_or [] tools)
tools_of-convertible none h = tt
tools_of-convertible (some tools) h =
    let (vs, built, _) = >>=-eq-ok (build_openai_tools tools) _ h in
    build_openai_tools-convertible tools built

tools_of-ok :
    (tools : Option (List ClaudeTool))
    → All (λ tool. is_convertible tool ≡ true) (unwrap_or [] tools)
    → (o : Option Value) × (tools_of tools ≡ ok o)
tools_of-ok none h = (none, refl)
tools_of-ok (some tools) h =
    let (sent, built, _) = build_openai_tools-ok tools h in
    (_, >>=-of-ok (build_openai_tools tools) _ built refl)

module _ (print : Value → String) (settings : Settings) (req : ClaudeMessagesRequest) where
  request_fields-IsSendable :
      (fields : Fields) → request_fields print settings req ≡ ok fields → IsSendable req
  unfolding request_fields
  request_fields-IsSendable fields h =
      let (unit, valid, _) = >>=-eq-ok (validate_tool_result_images req.messages) _ h in
      let (_, given, _) = request_fields-built print settings req h in
      record {
        images = (validate_tool_result_images_iff req.messages).0 valid;
        tools = tools_of-convertible req.tools given;
      }

  pub request_fields-ok :
      IsSendable req → (fields : Fields) × (request_fields print settings req ≡ ok fields)
  unfolding request_fields apply_tools_mapping
  request_fields-ok sendable =
      let (o, given) = tools_of-ok req.tools sendable.tools in
      (
        _,
        >>=-of-ok (validate_tool_result_images req.messages) _
            ((validate_tool_result_images_iff req.messages).1 sendable.images)
            (>>=-of-ok (apply_tools_mapping _ req) _ (>>=-of-ok (tools_of req.tools) _ given refl)
              refl),
      )

module _ (print : Value → String) (parse_request : String → Result ClaudeMessagesRequest String)
    (body : String) (settings : Settings) where
  abbrev run : Result (String × Bool) String
  run = anthropic_to_openai_request print parse_request body settings

  -- If the conversion returns a text and a flag, then the body was parsed as some request, the
  -- text is the printed object of some fields, the flag says whether the request asks for a
  -- stream, and the fields hold: the model that the name resolves to (the name itself if none),
  -- the converted messages, max_tokens or 4096, the effort of the mapping, the stop sequences,
  -- the choice of a tool, stream and stream_options exactly for a stream, temperature and top_p.
  pub anthropic_to_openai_request-IsConverted :
      (text : String) (streams : Bool)
      → run ≡ ok (text, streams)
      → (req : ClaudeMessagesRequest) × ((fields : Fields) × (parse_request body ≡ ok req)
          × IsConverted print settings req fields
          × (text ≡ print (object fields))
          × (streams ≡ is_stream req))
  unfolding anthropic_to_openai_request
  anthropic_to_openai_request-IsConverted text streams h =
      let (req, parsed, rest) = >>=-eq-ok (parse_request body) _ h in
      let (fields, converted, last) = >>=-eq-ok (request_fields print settings req) _ rest in
      let same = sym (ok-injective last) in
      (
        req,
        (
          fields,
          parsed,
          request_fields-IsConverted print settings req fields converted,
          ap (λ (p : String × Bool). p.0) same,
          ap (λ (p : String × Bool). p.1) same,
        ),
      )

  -- The conversion succeeds exactly when the body parses as a request in which every image of a
  -- tool result has a source with an address (a url, or a media type and data) and every tool has
  -- a schema or a name of white space only.
  pub anthropic_to_openai_request-ok_iff :
      ((out : String × Bool) × (run ≡ ok out))
      ↔ ((req : ClaudeMessagesRequest) × (parse_request body ≡ ok req) × IsSendable req)
  unfolding anthropic_to_openai_request
  anthropic_to_openai_request-ok_iff = (
    λ (out, h).
        let (req, parsed, rest) = >>=-eq-ok (parse_request body) _ h in
        let (fields, converted, _) = >>=-eq-ok (request_fields print settings req) _ rest in
        (req, parsed, request_fields-IsSendable print settings req fields converted),
    λ (req, parsed, sendable).
        let (fields, converted) = request_fields-ok print settings req sendable in
        (
          _,
          >>=-of-ok (parse_request body) _ parsed
              (>>=-of-ok (request_fields print settings req) _ converted refl),
        ),
  )
