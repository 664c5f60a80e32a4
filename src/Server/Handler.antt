-- ===== src/Server/Handler.antt =====
-- `handle_proxy` of proxy/src/server/handler.rs: a request of the desktop from its body to the
-- answer. An answer that ends the handling early is an error of `Result`.
pub mod Gateway
pub mod Reached
use free_claude_desktop.Prelude.{
  ℕ, String, Bool, true, false, not, ◌&&◌, ◌||◌, ◌==◌, Option, none, some, List, [], ◌∷◌, and_then,
  unwrap_or, if◌then◌else◌, Result, ok, err, ◌>>=◌,
}
use free_claude_desktop.Prelude.Texts.{contains, is_empty_text}
use free_claude_desktop.Json.{Value, get_str}
use free_claude_desktop.AppError.{AppError, error_text}
use free_claude_desktop.Settings.{Settings}
use free_claude_desktop.Request.Convert.{anthropic_to_openai_request}
use free_claude_desktop.Response.Gateway.{normalize_chat_completions_url, normalize_messages_url}
use free_claude_desktop.Response.Proxy.{prepare_proxy_body}
use free_claude_desktop.Stream.Lines.{Bytes}
use free_claude_desktop.Upstream.Headers.{Header, UpstreamRequest, build_upstream_request}
use free_claude_desktop.Optimization.Answers.{
  OptimizationResponse, try_optimizations, maybe_strip_safety_thinking,
}
use free_claude_desktop.Server.Answer.{HttpResponse, error_answer, into_response}
use free_claude_desktop.Server.Probe.{get_bool, try_probe_response}
use free_claude_desktop.Server.Summary.{ApiOutcome, api_request_summary, record_api_outcome}
use free_claude_desktop.Server.Outside.{Outside, ok_value}
use free_claude_desktop.Server.Dispatch.{Call, Handled, dispatch_upstream}

unfoldable pub is_anthropic_native : Settings → Bool
is_anthropic_native settings =
    settings.gateway.transport_type == "anthropic_messages"
    || (is_empty_text settings.gateway.transport_type
        && contains settings.gateway.real_base_url "api.anthropic.com")

abbrev pub answered : List Value → HttpResponse → Option Handled
answered logged response = some (record { sent = []; logged = logged; response = response })

module _ (outside : Outside) where
  open outside use {
    from_str, to_string, parse_request, to_lowercase, decode, net, host_str, now, call_id,
    elapsed_ms, runtime_settings, unprotect_key,
  }

  abbrev pub parsed : String → Option Value
  parsed body = ok_value (from_str body)

  abbrev pub settings_or_response : Result (Option Settings) AppError → Result Settings HttpResponse
  settings_or_response (ok (some settings)) = ok settings
  settings_or_response (ok none) = err (error_answer 500 "Launcher has not been configured yet.")
  settings_or_response (err e) = err (error_answer 500 (error_text e))

  unfoldable pub load_settings_or_response : Result Settings HttpResponse
  load_settings_or_response = settings_or_response runtime_settings

  unfoldable pub extract_req_model : String → String
  extract_req_model body_str = unwrap_or "unknown" (and_then (parsed body_str) (get_str "model"))

  abbrev pub or_answer : {A : Type 0} → ℕ → Result A String → Result A HttpResponse
  or_answer status (ok a) = ok a
  or_answer status (err e) = err (error_answer status e)

  abbrev pub normalized_url : Settings → Bool → Result String String
  normalized_url settings is_openai =
      if is_openai
      then normalize_chat_completions_url net.urls settings.gateway.real_base_url
      else normalize_messages_url net.urls settings.gateway.real_base_url

  unfoldable pub build_target_url : Settings → Bool → Result String HttpResponse
  build_target_url settings is_openai = or_answer 400 (normalized_url settings is_openai)

  abbrev pub or_app_error : {A : Type 0} → ℕ → Result A AppError → Result A HttpResponse
  or_app_error status (ok a) = ok a
  or_app_error status (err e) = err (error_answer status (error_text e))

  unfoldable pub unprotect_key_or_response : String → Result String HttpResponse
  unprotect_key_or_response key = or_app_error 500 (unprotect_key key)

  abbrev pub with_stream : Bool → Option String → Option (Result (String × Bool) HttpResponse)
  with_stream is_stream none = none
  with_stream is_stream (some body) = some (ok (body, is_stream))

  -- `none` stands for a panic.
  unfoldable pub build_proxy_body :
      String → Settings → Bool → Option (Result (String × Bool) HttpResponse)
  build_proxy_body body_str settings is_openai =
      if is_openai
      then some
          (or_answer 400 (anthropic_to_openai_request to_string parse_request body_str settings))
      else with_stream (unwrap_or false (and_then (parsed body_str) (get_bool "stream")))
          (prepare_proxy_body from_str to_string body_str settings)

  -- A record of what was answered without the upstream.
  abbrev local_outcome : Settings → Value → String → String → List Value
  local_outcome settings request_summary target_url outcome = record_api_outcome now (record {
    enabled = settings.optimizations.enable_api_call_logging;
    call_id = call_id;
    request = request_summary;
    target_url = target_url;
    transport = "local";
    outcome = outcome;
    elapsed_ms = elapsed_ms;
    status = some 200;
    content_type = none;
    error = none;
  })

  abbrev pub call_of : Settings → List Header → String → String × Bool → String → String → Call
  call_of settings headers body_str (proxy_body, is_stream) target_url api_key = record {
    settings = settings;
    api_key = api_key;
    proxy_body = proxy_body;
    req_model = extract_req_model body_str;
    target_url = target_url;
    headers = headers;
    body_str = body_str;
    is_openai_format = not (is_anthropic_native settings);
    is_stream = is_stream;
    request_summary = api_request_summary parsed body_str;
  }

  abbrev pub built_request :
      Settings → List Header → String → String → String → Result UpstreamRequest AppError
  built_request settings headers proxy_body target_url api_key =
      build_upstream_request host_str target_url proxy_body headers api_key
        settings.gateway.real_auth_scheme (is_anthropic_native settings)

  -- What is sent, with the call that it belongs to.
  abbrev pub upstream_call :
      Settings → List Header → String → String × Bool → Result (Call × UpstreamRequest) HttpResponse
  upstream_call settings headers body_str body = do
    target_url ← build_target_url settings (not (is_anthropic_native settings))
    api_key ← unprotect_key_or_response settings.gateway.real_api_key
    request ← or_app_error 400 (built_request settings headers body.0 target_url api_key)
    ok (call_of settings headers body_str body target_url api_key, request)

  abbrev pub dispatch_call : Result (Call × UpstreamRequest) HttpResponse → Option Handled
  dispatch_call (err response) = answered [] response
  dispatch_call (ok (call, request)) = dispatch_upstream outside call request

  abbrev pub forward_body :
      Settings
      → List Header
      → String
      → Option (Result (String × Bool) HttpResponse)
      → Option Handled
  forward_body settings headers body_str none = none
  forward_body settings headers body_str (some (err response)) = answered [] response
  forward_body settings headers body_str (some (ok body)) =
      dispatch_call (upstream_call settings headers body_str body)

  abbrev pub probed : Settings → List Header → String → Option HttpResponse → Option Handled
  probed settings headers body_str (some response) =
      answered
        (local_outcome settings (api_request_summary parsed body_str) "local://connection-probe"
          "probe")
        response
  probed settings headers body_str none =
      forward_body settings headers body_str
        (build_proxy_body body_str settings (not (is_anthropic_native settings)))

  abbrev pub optimized {κ} :
      {C : Type κ}
      → Settings
      → List Header
      → String
      → Option (C × Option OptimizationResponse)
      → Option Handled
  optimized settings headers body_str none = none
  optimized settings headers body_str (some (connections, some response)) =
      answered
        (local_outcome settings (api_request_summary parsed body_str) "local://optimization"
          "optimized")
        (into_response response)
  optimized settings headers body_str (some (connections, none)) =
      probed settings headers body_str
        (try_probe_response parsed to_string now body_str (extract_req_model body_str))

  abbrev pub effective_body : Settings → String → String
  effective_body settings body_str =
      unwrap_or body_str
        (maybe_strip_safety_thinking parsed to_lowercase to_string body_str settings)

  abbrev pub handled_with : List Header → Bytes → Result Settings HttpResponse → Option Handled
  handled_with headers body (err response) = answered [] response
  handled_with headers body (ok settings) =
      let body_str = effective_body settings (decode body) in
      optimized settings headers body_str
        (try_optimizations parsed to_lowercase net to_string now body_str settings)

  unfoldable pub handle_proxy : List Header → Bytes → Option Handled
  handle_proxy headers body = handled_with headers body load_settings_or_response
