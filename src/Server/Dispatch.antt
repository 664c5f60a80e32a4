-- ===== src/Server/Dispatch.antt =====
-- `dispatch_upstream` of proxy/src/server/handler.rs: the request is sent, and what the upstream
-- answers is passed on, converted, or answered by a retry with another model.
pub mod Sent
use free_claude_desktop.Prelude.{
  ℕ, String, Bool, true, false, not, ◌&&◌, ◌==◌, Option, none, some, List, [], ◌∷◌, ◌++◌, and_then,
  unwrap_or, if◌then◌else◌, Result, ok, err,
}
use free_claude_desktop.Prelude.Texts.{trim, is_empty_text, concat, to_ascii_lowercase}
use free_claude_desktop.Json.{Value, string, obj}
use free_claude_desktop.Settings.{Settings}
use free_claude_desktop.Response.Convert.{openai_to_anthropic_response}
use free_claude_desktop.Stream.{ReasoningReplayMode}
use free_claude_desktop.Stream.Lines.{start_sse_stream_conversion}
use free_claude_desktop.Upstream.Headers.{Header, UpstreamRequest, copy_safe_response_headers}
use free_claude_desktop.Upstream.Errors.{read_bounded_error}
use free_claude_desktop.Server.Answer.{
  Body, text, chunks, HttpResponse, UpstreamResponse, is_success, json_answer, error_answer,
  sse_stream_response,
}
use free_claude_desktop.Server.Probe.{
  is_short_connection_probe, non_stream_probe_response, invalid_openai_response,
}
use free_claude_desktop.Server.Summary.{ApiOutcome, record_api_outcome}
use free_claude_desktop.Server.Outside.{Outside, ok_value}
use free_claude_desktop.Server.Retry.{Retried, try_stale_model_retry}

-- `Some` of the two modes by name, else the default, which is `Separate`.
unfoldable pub reasoning_mode_from : Settings → Option ReasoningReplayMode
reasoning_mode_from settings =
    let mode = settings.models.reasoning_replay_mode in
    if mode == "inline"
    then some ReasoningReplayMode.inline
    else if mode == "separate"
    then some ReasoningReplayMode.separate
    else none

-- The request that dispatch_upstream handles, as its arguments give it.
pub record Call : Type 0 where
  pub settings : Settings
  pub api_key : String
  pub proxy_body : String
  pub req_model : String
  pub target_url : String
  pub headers : List Header
  pub body_str : String
  pub is_openai_format : Bool
  pub is_stream : Bool
  pub request_summary : Value

-- The requests that a retry sends, and the answer; `none` stands for a panic.
abbrev pub Answered : Type 0
Answered = Option (List UpstreamRequest × HttpResponse)

-- What the handling of a request sends and writes to the log, and its answer.
pub record Handled : Type 0 where
  pub sent : List UpstreamRequest
  pub logged : List Value
  pub response : HttpResponse

-- `headers.get(CONTENT_TYPE)`
abbrev content_type_of : List Header → Option String
content_type_of [] = none
content_type_of (h ∷ headers) =
    if to_ascii_lowercase h.0 == "content-type" then some h.1 else content_type_of headers

abbrev passed_on : UpstreamResponse → HttpResponse
passed_on response = record {
  status = response.status;
  headers = response.headers;
  body = chunks response.chunks;
}

module _ (outside : Outside) where
  open outside use {
    from_str, to_string, decode, read_text, now, call_id, elapsed_ms, message_id, send,
  }

  abbrev pub retried : Call → String → Bool → Bool → Retried
  retried call error_text native require_success =
      try_stale_model_retry outside call.settings call.api_key call.proxy_body call.req_model
        call.target_url call.headers native error_text require_success

  -- What a retry gives, or the answer where it gives no response.
  abbrev pub answer_with : (UpstreamResponse → HttpResponse) → HttpResponse → Retried → Answered
  answer_with f otherwise none = none
  answer_with f otherwise (some (sent, none)) = some (sent, otherwise)
  answer_with f otherwise (some (sent, some retry)) = some (sent, f retry)

  abbrev stream_of : Call → UpstreamResponse → HttpResponse
  stream_of call response =
      let mode = unwrap_or ReasoningReplayMode.separate (reasoning_mode_from call.settings) in
      sse_stream_response (
        start_sse_stream_conversion message_id call.req_model mode
          (λ line. ok_value (from_str line)) decode to_string response.chunks)

  unfoldable pub handle_openai_stream_response : Call → UpstreamResponse → Answered
  handle_openai_stream_response call response =
      if not (is_success response.status)
      then (let error = read_bounded_error decode response.chunks in
          answer_with (stream_of call) (error_answer response.status error)
            (retried call error false true))
      else some ([], stream_of call response)

  abbrev converted : Call → ℕ → String → Result Value String → HttpResponse
  converted call status body (ok r) = json_answer 200 r
  converted call status body (err e) =
      invalid_openai_response (λ s. ok_value (from_str s)) now status body e call.body_str
        call.req_model

  abbrev success_answer : Call → ℕ → Result String String → HttpResponse
  success_answer call status (err e) =
      error_answer 502 (concat ("Failed to read upstream response: " ∷ e ∷ []))
  success_answer call status (ok body) =
      if is_empty_text (trim body)
      then (if is_short_connection_probe (λ s. ok_value (from_str s)) call.body_str
          then non_stream_probe_response (λ s. ok_value (from_str s)) now call.req_model
          else error_answer 502 "Upstream returned an empty successful response")
      else converted call status body
          (openai_to_anthropic_response from_str now body call.req_model)

  unfoldable pub handle_openai_non_stream_success : Call → UpstreamResponse → HttpResponse
  handle_openai_non_stream_success call response =
      success_answer call response.status (read_text response)

  abbrev error_value : String → Value
  error_value error = unwrap_or (obj (("error", string error) ∷ [])) (ok_value (from_str error))

  -- The converted answer of the retry, or the error where it cannot be converted.
  abbrev retry_answer : Call → HttpResponse → UpstreamResponse → HttpResponse
  retry_answer call otherwise retry =
      elim (openai_to_anthropic_response from_str now (unwrap_or "" (ok_value (read_text retry)))
        call.req_model) [ ok r ↦ json_answer 200 r | err e ↦ otherwise ]

  unfoldable pub handle_openai_error : Call → UpstreamResponse → Answered
  handle_openai_error call response =
      let error = read_bounded_error decode response.chunks in
      let otherwise = json_answer response.status (error_value error) in
      answer_with (retry_answer call otherwise) otherwise (retried call error false true)

  unfoldable pub handle_anthropic_passthrough : Call → UpstreamResponse → Answered
  handle_anthropic_passthrough call response =
      if is_success response.status
      then some (
        [],
        record {
          status = response.status;
          headers = copy_safe_response_headers response.headers;
          body = chunks response.chunks;
        },
      )
      else (let error = read_bounded_error decode response.chunks in
          let otherwise : HttpResponse = record {
            status = response.status;
            headers = response.headers;
            body = text error;
          } in
          answer_with passed_on otherwise (retried call error true false))

  unfoldable pub answer_upstream : Call → UpstreamResponse → Answered
  answer_upstream call response =
      if call.is_openai_format && call.is_stream
      then handle_openai_stream_response call response
      else if call.is_openai_format && is_success response.status
      then some ([], handle_openai_non_stream_success call response)
      else if call.is_openai_format
      then handle_openai_error call response
      else handle_anthropic_passthrough call response

  abbrev upstream_outcome : Call → String → Option ℕ → Option String → Option String → List Value
  upstream_outcome call outcome status content error = record_api_outcome now (record {
    enabled = call.settings.optimizations.enable_api_call_logging;
    call_id = call_id;
    request = call.request_summary;
    target_url = call.target_url;
    transport = if call.is_openai_format then "openai_chat_completions" else "anthropic_messages";
    outcome = outcome;
    elapsed_ms = elapsed_ms;
    status = status;
    content_type = content;
    error = error;
  })

  abbrev pub handled : UpstreamRequest → List Value → Answered → Option Handled
  handled request logged none = none
  handled request logged (some (sent, response)) =
      some (record { sent = request ∷ sent; logged = logged; response = response })

  abbrev pub dispatched : Call → UpstreamRequest → Result UpstreamResponse String → Option Handled
  dispatched call request (ok response) =
      handled request
        (upstream_outcome call "upstream_response" (some response.status)
          (content_type_of response.headers) none)
        (answer_upstream call response)
  dispatched call request (err error) =
      handled request (upstream_outcome call "upstream_error" none none (some error))
        (some ([], error_answer 500 (concat ("Proxy forwarding error: " ∷ error ∷ []))))

  unfoldable pub dispatch_upstream : Call → UpstreamRequest → Option Handled
  dispatch_upstream call request = dispatched call request (send 0 request)
