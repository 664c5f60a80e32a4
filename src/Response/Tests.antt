-- ===== src/Response/Tests.antt =====
-- Runs of the theorems on small responses, bodies and addresses.
use free_claude_desktop.Prelude.{
  ◌≡◌, ◌≢◌, refl, ◌↔◌, ◌⊎◌, String, true, none, some, Option, List, [], ◌∷◌, Result, ok, err, ◌==◌,
  if◌then◌else◌, map, unwrap_or,
}
use Prim.Native.String.{◌++◌}
use free_claude_desktop.Prelude.Texts.{
  trim, trim_start, trim_end, is_whitespace, trim_start_bom, concat, trim_end_slashes, strip_suffix,
}
use free_claude_desktop.Json.{
  Value, Fields, string, array_of, obj, object, field, end, get, get_str, get_field,
}
use free_claude_desktop.Settings.{Settings}
use free_claude_desktop.Settings.Sample.{settings_with}
use free_claude_desktop.Request.Blocks.{tool_call}
use free_claude_desktop.Response.Gateway.{UrlLibrary, is_allowed_origin, normalize_gateway_url}
use free_claude_desktop.Response.Gateway.Secure.{
  IsTrusted, IsSecure, is_allowed_origin_iff, normalize_gateway_url-IsSecure,
}
use free_claude_desktop.Response.Proxy.{rewrite_stale_model_request, StaleModelRewrite}
use free_claude_desktop.Response.Proxy.Outcome.{
  IsRewritten, rewrite_stale_model_request-IsRewritten,
}
use free_claude_desktop.Response.Convert.{
  tool_use_block, openai_to_anthropic_response, normalized_body, tool_calls, finish_reason,
  response_of,
}
use free_claude_desktop.Response.Convert.Outcome.{
  tool_use_block-tool_call, openai_to_anthropic_response-tools, ids_of,
}

-- A library that knows two addresses.
data Address : Type 0 where
  gateway : String → Address
  page : Address

parse : String → Option Address
parse text =
    if text == "https://gateway.example/v1/"
    then some (gateway "/v1/")
    else if text == "http://localhost:8000"
    then some page
    else none

host : Address → Option String
host (gateway path) = some "gateway.example"
host page = some "localhost"

scheme : Address → String
scheme (gateway path) = "https"
scheme page = "http"

path_of : Address → String
path_of (gateway path) = path
path_of page = "/"

put_path : String → Address → Address
put_path path (gateway old) = gateway path
put_path path page = page

shown : Address → String
shown (gateway path) = concat ("https://gateway.example" ∷ path ∷ [])
shown page = "http://localhost:8000/"

abbrev library : UrlLibrary
library = record {
  Url = Address;
  parse = parse;
  scheme = scheme;
  host_str = host;
  port_or_known_default = λ url. some 8000;
  path = path_of;
  set_path = put_path;
  clear_query = λ url. url;
  clear_fragment = λ url. url;
  to_string = shown;
}

is_allowed_origin_iff_example :
    (is_allowed_origin library (some "http://localhost:8000") 8000 ≡ true) ↔ (
      (◌≡◌ {A = String} "http://localhost:8000" "anthropic://desktop")
      ⊎ (◌≡◌ {A = String} "http://localhost:8000" "app://localhost")
      ⊎ ((url : Address) × (parse "http://localhost:8000" ≡ some url) × IsTrusted library url 8000))
is_allowed_origin_iff_example = is_allowed_origin_iff library "http://localhost:8000" 8000

messages :
    normalize_gateway_url library "https://gateway.example/v1/" "messages"
    ≡ ok "https://gateway.example/v1/messages"
unfolding normalize_gateway_url parse scheme host path_of put_path shown trim trim_start trim_end
    is_whitespace trim_end_slashes strip_suffix
messages = refl

normalize_gateway_url-IsSecure_example :
    (url : Address) × ((prefix : String) × (parse (trim "https://gateway.example/v1/") ≡ some url)
      × IsSecure library url
      × ("https://gateway.example/v1/messages"
          ≡ shown (put_path (prefix ++ ("/v1/" ++ "messages")) url)))
normalize_gateway_url-IsSecure_example =
    normalize_gateway_url-IsSecure library "https://gateway.example/v1/" "messages"
      "https://gateway.example/v1/messages" messages

abbrev body_fields : Fields
body_fields = field "model" (string "vendor/old") end

-- A reader that knows three texts, and a printer.
abbrev answer : Value
answer = obj (
    (
      "choices",
      array_of (
          obj (
            (
              "message",
              obj (("tool_calls", array_of (obj (("id", string "call-1") ∷ []) ∷ [])) ∷ []),
            )
            ∷ [])
          ∷ []),
    )
    ∷ [])

read : String → Result Value String
read text =
    if text == "a body"
    then ok (object body_fields)
    else if text == "an answer"
    then ok answer
    else if text == "{}"
    then ok (obj [])
    else err "unknown"

print : Value → String
print v = "{}"

abbrev settings : Settings
settings = settings_with (("claude-opus-5[0]", "vendor/new") ∷ []) []

read_body : read "a body" ≡ ok (object body_fields)
unfolding read
read_body = refl

read_empty : read (print (obj [])) ≡ ok (obj [])
unfolding read print
read_empty = refl

stale_model : get_field "model" body_fields ≡ some (string "vendor/old")
unfolding get_field
stale_model = refl

rewrite_stale_model_request-IsRewritten_example :
    (r : Option StaleModelRewrite) × (rewrite_stale_model_request read "a body" settings
        "vendor/old"
      ≡ some r)
    × IsRewritten settings "vendor/old" "vendor/old" body_fields r
rewrite_stale_model_request-IsRewritten_example =
    rewrite_stale_model_request-IsRewritten read "a body" settings "vendor/old" "vendor/old"
      body_fields read_body stale_model

tool_use_block-tool_call_example :
    tool_use_block read (tool_call print "call-1" "ls" (obj []))
    ≡ obj (
        ("type", string "tool_use")
        ∷ ("id", string "call-1")
        ∷ ("name", string "ls")
        ∷ ("input", obj [])
        ∷ [])
tool_use_block-tool_call_example =
    tool_use_block-tool_call read print "call-1" "ls" (obj []) read_empty

converted :
    openai_to_anthropic_response read 0 "an answer" "claude-opus-5"
    ≡ ok (response_of read 0 "claude-opus-5" answer)
unfolding openai_to_anthropic_response read trim_start_bom trim trim_start trim_end is_whitespace
converted = refl

openai_to_anthropic_response-tools_example :
    (data_value : Value) × ((blocks : List Value) × (read (normalized_body "an answer")
        ≡ ok data_value)
      × (get "content" (response_of read 0 "claude-opus-5" answer) ≡ some (array_of blocks))
      × (ids_of blocks ≡ map (λ tc. some (unwrap_or "" (get_str "id" tc))) (tool_calls data_value))
      × ((get_str "stop_reason" (response_of read 0 "claude-opus-5" answer) ≡ some "tool_use") ↔ (
          (tool_calls data_value ≢ [])
          ⊎ (finish_reason data_value ≡ "tool_calls")
          ⊎ (finish_reason data_value ≡ "function_call"))))
openai_to_anthropic_response-tools_example =
    openai_to_anthropic_response-tools read 0 "an answer" "claude-opus-5"
      (response_of read 0 "claude-opus-5" answer) converted
