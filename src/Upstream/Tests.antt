-- ===== src/Upstream/Tests.antt =====
-- A request to the gateway, and an error that comes back in parts.
use free_claude_desktop.Prelude.{
  String, ◌≡◌, refl, false, Option, some, List, [], ◌∷◌, Result, ok, err,
}
use free_claude_desktop.Prelude.Texts.{to_ascii_lowercase}
use free_claude_desktop.Stream.Lines.{Bytes}
use free_claude_desktop.Upstream.Headers.{
  Header, header, UpstreamRequest, accept_encoding, build_upstream_request,
  resolve_auth_header_name, apply_gateway_auth, forwarded, copy_safe_response_headers,
}
use free_claude_desktop.Upstream.Headers.Credentials.{IsGuarded, build_upstream_request-IsGuarded}
use free_claude_desktop.Upstream.Errors.{take, read_bounded_error}
use free_claude_desktop.Upstream.Errors.Bounds.{received, read_bounded_error_lem}

abbrev host_of : String → Result (Option String) String
host_of url = ok (some "api.anthropic.com")

abbrev client_headers : List Header
client_headers =
    ("Accept-Encoding", "gzip")
    ∷ ("X-Api-Key", "client")
    ∷ ("Accept", "text/event-stream")
    ∷ ("cookie", "a=b")
    ∷ ("a", "not passed on")
    ∷ ("Anthropic-Version", "2023-06-01")
    ∷ []

abbrev sent_request : UpstreamRequest
sent_request = record {
  url = "https://api.anthropic.com/v1/messages";
  body = "{}";
  calls =
      accept_encoding
      ∷ header ("Accept", "text/event-stream")
      ∷ header ("Anthropic-Version", "2023-06-01")
      ∷ header ("x-api-key", "secret")
      ∷ [];
}

built :
    build_upstream_request host_of "https://api.anthropic.com/v1/messages" "{}" client_headers
      "secret" "auto" false
    ≡ ok sent_request
unfolding build_upstream_request resolve_auth_header_name apply_gateway_auth forwarded
    to_ascii_lowercase
built = refl

build_upstream_request-IsGuarded_example :
    (name : String) × (resolve_auth_header_name host_of "auto"
        "https://api.anthropic.com/v1/messages"
      ≡ ok name)
    × IsGuarded "https://api.anthropic.com/v1/messages" "{}" "secret" name false client_headers
        sent_request
build_upstream_request-IsGuarded_example =
    build_upstream_request-IsGuarded host_of "https://api.anthropic.com/v1/messages" "{}"
      client_headers "secret" "auto" false sent_request built

copied :
    copy_safe_response_headers
      (("content-type", "text/plain") ∷ ("Content-Length", "5") ∷ ("connection", "close") ∷ [])
    ≡ ("content-type", "text/plain") ∷ []
unfolding copy_safe_response_headers to_ascii_lowercase
copied = refl

abbrev decode : Bytes → String
decode [] = "nothing"
decode (b ∷ bytes) = "an error"

abbrev error_chunks : List (Result Bytes String)
error_chunks = ok (110 ∷ 111 ∷ []) ∷ ok (116 ∷ []) ∷ err "reset" ∷ ok (46 ∷ []) ∷ []

read_bounded_error_lem_example :
    read_bounded_error decode error_chunks ≡ decode (take 65536 (received error_chunks))
read_bounded_error_lem_example = read_bounded_error_lem decode error_chunks
