-- ===== src/Upstream/Headers.antt =====
-- The headers of the requests to the gateway: `build_upstream_request` and
-- `copy_safe_response_headers` of proxy/src/server/upstream.rs, `resolve_auth_header_name` and
-- `apply_gateway_auth` of core/src/lib.rs. `host_str` stands for `Url::parse` of the crate url with
-- `host_str` of what it gives.
pub mod Credentials
use free_claude_desktop.Prelude.{
  String, Bool, true, false, not, ◌&&◌, ◌||◌, Option, none, some, List, [], ◌∷◌, ◌++◌, ◌==◌, keep,
  if◌then◌else◌, Result, ok, err, ◌>>=◌,
}
use free_claude_desktop.Prelude.Texts.{is_empty_text, to_ascii_lowercase}
use text.Mathlib.Text.{starts_with}
use free_claude_desktop.AppError.{AppError, invalid_config}

-- A name and its value.
abbrev pub Header : Type 0
Header = String × String

-- What is called on the builder of a request: `header(name, value)` and `bearer_auth(key)`.
pub data HeaderCall : Type 0 where
  header : Header → HeaderCall
  bearer_auth : String → HeaderCall

pub record UpstreamRequest : Type 0 where
  pub url : String
  pub body : String
  pub calls : List HeaderCall

abbrev pub with_call : HeaderCall → UpstreamRequest → UpstreamRequest
with_call call request = record {
  url = request.url;
  body = request.body;
  calls = request.calls ++ call ∷ [];
}

abbrev pub accept_encoding : HeaderCall
accept_encoding = header ("accept-encoding", "identity")

abbrev pub is_some_text : String → Option String → Bool
is_some_text t none = false
is_some_text t (some s) = s == t

abbrev pub is_dropped : Option String → String → Bool
is_dropped skip_header lower = lower == "accept-encoding" || is_some_text lower skip_header

abbrev pub is_forwarded : Bool → String → Bool
is_forwarded is_anthropic_native lower =
    if is_anthropic_native
    then not (lower == "host" || lower == "content-length" || lower == "connection")
    else lower == "content-type"
      || lower == "accept"
      || lower == "user-agent"
      || lower == "connection"
      || starts_with lower "anthropic-"
      || starts_with lower "x-stainless-"
      || (starts_with lower "x-"
          && (lower == "x-api-key" || lower == "x-goog-api-key" || lower == "x-request-id"))

-- The loop over the headers of the client.
unfoldable pub forwarded : Option String → Bool → List Header → List HeaderCall
forwarded skip_header is_anthropic_native [] = []
forwarded skip_header is_anthropic_native (h ∷ headers) =
    let lower = to_ascii_lowercase h.0 in
    let later = forwarded skip_header is_anthropic_native headers in
    if not (is_dropped skip_header lower) && is_forwarded is_anthropic_native lower
    then header h ∷ later
    else later

-- The request with the client's headers, without a credential.
abbrev pub request_with : String → String → Option String → Bool → List Header → UpstreamRequest
request_with target_url body skip_header is_anthropic_native headers = record {
  url = target_url;
  body = body;
  calls = accept_encoding ∷ forwarded skip_header is_anthropic_native headers;
}

-- What is inserted in the target, in order.
unfoldable pub copy_safe_response_headers : List Header → List Header
copy_safe_response_headers source =
    keep
      (λ h.
        let lower = to_ascii_lowercase h.0 in
        not (
          lower == "connection"
          || lower == "content-length"
          || lower == "transfer-encoding"
          || lower == "content-encoding"))
      source

abbrev pub header_name : String → String
header_name resolved = if resolved == "x-api-key" then "x-api-key" else "authorization"

abbrev pub credential : String → String → HeaderCall
credential name key = if name == "x-api-key" then header ("x-api-key", key) else bearer_auth key

abbrev pub with_credential : UpstreamRequest → String → String → UpstreamRequest
with_credential request name key =
    if is_empty_text key then request else with_call (credential name key) request

module _ (host_str : String → Result (Option String) String) where
  abbrev auto_scheme : Result (Option String) String → Result String AppError
  auto_scheme (err error) = err (invalid_config error)
  auto_scheme (ok host) =
      ok (if is_some_text "api.anthropic.com" host then "x-api-key" else "bearer")

  abbrev pub resolved_scheme : String → String → Result String AppError
  resolved_scheme scheme url =
      if scheme == "auto"
      then auto_scheme (host_str url)
      else if scheme == "x-api-key" || scheme == "bearer" || scheme == "sso"
      then ok scheme
      else err (invalid_config "Unsupported Auth Scheme")

  unfoldable pub resolve_auth_header_name : String → String → Result String AppError
  resolve_auth_header_name scheme url = do
    resolved ← resolved_scheme scheme url
    ok (header_name resolved)

  unfoldable pub apply_gateway_auth :
      UpstreamRequest → String → String → String → Result UpstreamRequest AppError
  apply_gateway_auth request scheme key url = do
    name ← resolve_auth_header_name scheme url
    ok (with_credential request name key)

  abbrev pub skipped : String → String → String → Result (Option String) AppError
  skipped api_key auth_scheme target_url =
      if is_empty_text api_key
      then ok none
      else do name ← resolve_auth_header_name auth_scheme target_url; ok (some name)

  unfoldable pub build_upstream_request :
      String → String → List Header → String → String → Bool → Result UpstreamRequest AppError
  build_upstream_request target_url body headers api_key auth_scheme is_anthropic_native = do
    skip_header ← skipped api_key auth_scheme target_url
    apply_gateway_auth (request_with target_url body skip_header is_anthropic_native headers)
        auth_scheme api_key target_url
