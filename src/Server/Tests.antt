-- ===== src/Server/Tests.antt =====
-- A request of the desktop, for which the upstream answers that its model is gone.
use free_claude_desktop.Prelude.{
  ℕ, String, ◌≡◌, ◌↔◌, refl, true, false, not, none, some, Option, [], ◌∷◌, ◌==◌, eqb, length,
  if◌then◌else◌, Result, ok, err,
}
use free_claude_desktop.Prelude.Texts.{all_chars, before_any, contains, to_ascii_lowercase}
use free_claude_desktop.Json.{Value, string, array_of, number, unsigned, obj}
use free_claude_desktop.Settings.{Settings}
use free_claude_desktop.Settings.Sample.{settings_with}
use free_claude_desktop.Stream.Lines.{Bytes}
use free_claude_desktop.Optimization.WebTools.Sample.{network}
use free_claude_desktop.Server.Answer.{HttpResponse, UpstreamResponse}
use free_claude_desktop.Server.Probe.{try_probe_response}
use free_claude_desktop.Server.Probe.Exact.{IsProbe, try_probe_response_iff}
use free_claude_desktop.Server.Summary.{redacted_url}
use free_claude_desktop.Server.Summary.Redacted.{IsFront, is_mark, redacted_url-IsFront}
use free_claude_desktop.Server.Retry.{is_model_gone_or_invalid_error}
use free_claude_desktop.Server.Outside.{Outside}
use free_claude_desktop.Server.Dispatch.{Handled}
use free_claude_desktop.Server.Handler.{handle_proxy}
use free_claude_desktop.Server.Handler.Reached.{Reaches, handle_proxy-Reaches}
use free_claude_desktop.Prelude.Texts.{trim, trim_start, trim_end, is_whitespace, trim_end_slashes}
use free_claude_desktop.Json.{get, insert, get_field, get_str}
use free_claude_desktop.Optimization.Answers.{
  try_optimizations, local_answer, maybe_strip_safety_thinking,
}
use free_claude_desktop.Server.Handler.{
  load_settings_or_response, build_proxy_body, is_anthropic_native, build_target_url,
  unprotect_key_or_response, extract_req_model,
}
use free_claude_desktop.Response.Proxy.{prepare_proxy_body, rewrite_stale_model_request}
use free_claude_desktop.Request.Routes.{resolve_model_route}
use free_claude_desktop.Upstream.Headers.{
  build_upstream_request, resolve_auth_header_name, apply_gateway_auth, forwarded,
}
use free_claude_desktop.Server.Dispatch.{
  dispatch_upstream, answer_upstream, handle_anthropic_passthrough,
}
use free_claude_desktop.Upstream.Errors.{read_bounded_error, read_bounded}
use free_claude_desktop.Server.Retry.{
  try_stale_model_retry, may_retry_stale_model, refresh_settings_for_retry,
}
use free_claude_desktop.Response.Gateway.{normalize_messages_url, normalize_gateway_url}
use free_claude_desktop.Request.Routes.{
  try_family_override, detect_family, try_exact_routes, try_discovered_direct,
  try_bracket_inner_route, extract_bracket_inner, try_fuzzy_family, fallback_global_model,
  safety_net_route, is_indexed_claude_alias,
}
use free_claude_desktop.Settings.{get_key}
use free_claude_desktop.Request.Effort.{base_model_alias}
use free_claude_desktop.Prelude.Texts.{strip_suffix, rsplit_once}
use free_claude_desktop.Prelude.Sort.{dedup_by, sort_by}

abbrev probe : Value
probe = obj (("messages", array_of []) ∷ ("max_tokens", number (unsigned 1)) ∷ [])

read : String → Result Value String
read text = if text == "a probe" then ok probe else ok (obj (("model", string "stale") ∷ []))

print : Value → String
print v = "printed"

decode : Bytes → String
decode bytes = "model_not_found"

-- The first answer is an error, and the second is not.
answer : ℕ → UpstreamResponse
answer round = record {
  status = if eqb round 0 then 404 else 200;
  headers = [];
  chunks = ok (110 ∷ []) ∷ [];
}

-- Settings of an upstream that speaks Anthropic's API.
abbrev settings : Settings
settings = record (settings_with (("a", "live") ∷ []) []) {
  gateway = record (settings_with [] []).gateway { transport_type = "anthropic_messages" };
  optimizations = record {
    enable_quota_check_mock = false;
    enable_prefix_detection = false;
    enable_title_generation_skip = false;
    enable_suggestion_mode_skip = false;
    enable_filepath_extraction_mock = false;
    enable_safety_check_skip = false;
    enable_api_call_logging = true;
    enable_web_server_tools = false;
    web_fetch_allowed_schemes = "https";
    web_fetch_allow_private_networks = false;
  };
}

abbrev outside : Outside
outside = record {
  from_str = read;
  to_string = print;
  parse_request = λ body. err "not a request";
  from_value = λ v. none;
  to_lowercase = λ text. text;
  decode = decode;
  read_text = λ response. ok "";
  net = network;
  host_str = λ url. ok (some "gateway.example");
  now = 0;
  call_id = 1;
  elapsed_ms = 0;
  message_id = "msg_0";
  runtime_settings = ok (some settings);
  unprotect_key = λ stored. ok "a key";
  fetch_models = λ base_url key scheme. err "offline";
  send = λ round request. ok (answer round);
}

gone : is_model_gone_or_invalid_error (decode []) ≡ true
unfolding is_model_gone_or_invalid_error decode contains to_ascii_lowercase
gone = refl

abbrev sent_of : Option Handled → ℕ
sent_of none = 0
sent_of (some h) = length h.sent

-- The request, and the retry with the live model.
sent_twice : sent_of (handle_proxy outside (("x-api-key", "local") ∷ []) (123 ∷ 125 ∷ [])) ≡ 2
unfolding handle_proxy load_settings_or_response try_optimizations local_answer
    maybe_strip_safety_thinking read decode get insert get_field get_str try_probe_response
    build_proxy_body is_anthropic_native prepare_proxy_body resolve_model_route build_target_url
    unprotect_key_or_response build_upstream_request resolve_auth_header_name apply_gateway_auth
    forwarded to_ascii_lowercase dispatch_upstream answer_upstream handle_anthropic_passthrough
    read_bounded_error read_bounded try_stale_model_retry may_retry_stale_model
    is_model_gone_or_invalid_error contains refresh_settings_for_retry rewrite_stale_model_request
    normalize_messages_url normalize_gateway_url extract_req_model answer trim trim_start trim_end
    is_whitespace trim_end_slashes print try_family_override detect_family try_exact_routes
    try_discovered_direct try_bracket_inner_route extract_bracket_inner try_fuzzy_family
    fallback_global_model safety_net_route is_indexed_claude_alias get_key base_model_alias
    strip_suffix rsplit_once dedup_by sort_by
sent_twice = refl

handle_proxy-Reaches_example :
    Reaches outside
      (("x-api-key", "local") ∷ [])
      (123 ∷ 125 ∷ [])
      (handle_proxy outside (("x-api-key", "local") ∷ []) (123 ∷ 125 ∷ []))
handle_proxy-Reaches_example =
    handle_proxy-Reaches outside (("x-api-key", "local") ∷ []) (123 ∷ 125 ∷ [])

abbrev read_option : String → Option Value
read_option text = if text == "a probe" then some probe else none

try_probe_response_iff_example :
    ((response : HttpResponse) × (try_probe_response read_option print 0 "a probe" "claude"
        ≡ some response))
    ↔ ((v : Value) × (read_option "a probe" ≡ some v) × IsProbe "a probe" v)
try_probe_response_iff_example = try_probe_response_iff read_option print 0 "a probe" "claude"

kept : redacted_url "https://gateway.example/v1?key=1#top" ≡ "https://gateway.example/v1"
unfolding redacted_url before_any
kept = refl

redacted_url-IsFront_example :
    (all_chars (λ c. not (is_mark c)) (redacted_url "https://gateway.example/v1?key=1") ≡ true)
    × IsFront "https://gateway.example/v1?key=1" (redacted_url "https://gateway.example/v1?key=1")
redacted_url-IsFront_example = redacted_url-IsFront "https://gateway.example/v1?key=1"
