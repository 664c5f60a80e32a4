-- ===== src/Server/Probe.antt =====
-- proxy/src/server/messages_probe.rs: the probes of the desktop, and the answer to a body of the
-- upstream that is not valid. `from_str` and `print` stand for serde_json's reader and printer,
-- `now` for the milliseconds of the clock.
pub mod Exact
use Prim.Native.String
use Prim.Native.String.{len}
use free_claude_desktop.Prelude.{
  ℕ, zero, suc, ◌+◌, String, Bool, true, false, not, ◌&&◌, ◌||◌, ◌==◌, Option, none, some, List, [],
  ◌∷◌, map, length, any, first, is_empty, is_some, and_then, unwrap_or, filter_option, eqb, leb,
  ltb, if◌then◌else◌, filter_map,
}
use free_claude_desktop.Prelude.Texts.{trim, concat, decimal, is_empty_text}
use free_claude_desktop.Json.{
  Value, null, string, array, array_of, number, unsigned, obj, items, get, get_str, as_str, as_bool,
  as_u64, as_array,
}
use free_claude_desktop.Stream.Events.{sse}
use free_claude_desktop.Server.Tokens.{sum}
use free_claude_desktop.Server.Answer.{HttpResponse, json_answer, sse_stream_response, is_success}

abbrev max_upstream_error_preview_chars : ℕ
max_upstream_error_preview_chars = 4096

abbrev pub get_array : String → Value → Option (List Value)
get_array key v = and_then (get key v) as_array

abbrev pub get_bool : String → Value → Option Bool
get_bool key v = and_then (get key v) as_bool

abbrev pub get_u64 : String → Value → Option ℕ
get_u64 key v = and_then (get key v) as_u64

-- `option == Some(value)` and `option.is_some_and(test)`
abbrev pub is_text : String → Option String → Bool
is_text t none = false
is_text t (some s) = s == t

abbrev pub is_some_and {ℓ} : {A : Type ℓ} → (A → Bool) → Option A → Bool
is_some_and p none = false
is_some_and p (some a) = p a

abbrev is_null : Value → Bool
is_null null = true
is_null _ = false

abbrev has_content : Value → Bool
has_content message =
    is_text "user" (get_str "role" message)
    && is_some_and (λ c. not (is_null c)) (get "content" message)

abbrev pub is_probe : String → Value → Bool
is_probe body v = not (
    is_some_and (any has_content) (get_array "messages" v)
    || not (is_some_and is_empty (get_array "messages" v))
    || ltb 5 (unwrap_or 9999 (get_u64 "max_tokens" v))
    || leb 400 (len body))

abbrev probe_message_id : ℕ → String
probe_message_id now = concat ("msg_probe_" ∷ decimal now ∷ [])

abbrev usage_of : ℕ → ℕ → Value
usage_of input output =
    obj
      (("input_tokens", number (unsigned input)) ∷ ("output_tokens", number (unsigned output)) ∷ [])

abbrev json_probe_response : String → String → HttpResponse
json_probe_response message_id model = json_answer 200 (
    obj (
      ("id", string message_id)
      ∷ ("type", string "message")
      ∷ ("role", string "assistant")
      ∷ ("content", array_of (obj (("type", string "text") ∷ ("text", string ".") ∷ []) ∷ []))
      ∷ ("model", string model)
      ∷ ("stop_reason", string "end_turn")
      ∷ ("usage", usage_of 1 1)
      ∷ []))

abbrev stream_probe_response : (Value → String) → String → String → HttpResponse
stream_probe_response print message_id model = sse_stream_response (
    sse "message_start" (
      print (
        obj (
          ("type", string "message_start")
          ∷ (
            "message",
            obj (
                ("id", string message_id)
                ∷ ("type", string "message")
                ∷ ("role", string "assistant")
                ∷ ("content", array_of [])
                ∷ ("model", string model)
                ∷ ("stop_reason", null)
                ∷ ("usage", usage_of 1 0)
                ∷ []),
          )
          ∷ [])))
    ∷ sse "content_block_start" (
        print (
          obj (
            ("type", string "content_block_start")
            ∷ ("index", number (unsigned 0))
            ∷ ("content_block", obj (("type", string "text") ∷ ("text", string "") ∷ []))
            ∷ [])))
    ∷ sse "content_block_delta" (
        print (
          obj (
            ("type", string "content_block_delta")
            ∷ ("index", number (unsigned 0))
            ∷ ("delta", obj (("type", string "text_delta") ∷ ("text", string ".") ∷ []))
            ∷ [])))
    ∷ sse "content_block_stop" "{\"type\":\"content_block_stop\",\"index\":0}"
    ∷ sse "message_delta"
        "{\"type\":\"message_delta\",\"delta\":{\"stop_reason\":\"end_turn\",\"stop_sequence\":null},\"usage\":{\"output_tokens\":1}}"
    ∷ sse "message_stop" "{\"type\":\"message_stop\"}"
    ∷ [])

-- `chars().take(n)`
abbrev take_chars : ℕ → String → String
take_chars n String.[] = String.[]
take_chars zero (String.◌∷◌ c s) = String.[]
take_chars (suc n) (String.◌∷◌ c s) = String.◌∷◌ c (take_chars n s)

unfoldable pub bounded_preview : String → String
bounded_preview body =
    if is_empty_text body
    then "<empty>"
    else let preview = take_chars max_upstream_error_preview_chars body in
      if ltb (len preview) (len body) then concat (preview ∷ "..." ∷ []) else preview

abbrev is_short_user_message : Value → Bool
is_short_user_message message =
    is_text "user" (get_str "role" message)
    && is_some_and (λ content. leb (len content) 32) (get_str "content" message)

abbrev pub is_short_probe : String → Value → Bool
is_short_probe body v =
    is_some_and is_short_user_message (
      and_then (filter_option (λ messages. eqb (length messages) 1) (get_array "messages" v)) first)
    && is_some_and (λ n. eqb n 1) (get_u64 "max_tokens" v)
    && not (is_some_and (λ b. b) (get_bool "stream" v))
    && not (is_some (get "tools" v))
    && not (is_some (get "system" v))
    && leb (len body) 256

module _ (from_str : String → Option Value) where
  unfoldable pub probe_answer : (Value → String) → ℕ → String → Value → HttpResponse
  probe_answer print now model v =
      if unwrap_or false (get_bool "stream" v)
      then stream_probe_response print (probe_message_id now) model
      else json_probe_response (probe_message_id now) model

  abbrev pub probe_response : (Value → String) → ℕ → String → String → Value → Option HttpResponse
  probe_response print now body model v =
      if is_probe body v then some (probe_answer print now model v) else none

  unfoldable pub try_probe_response : (Value → String) → ℕ → String → String → Option HttpResponse
  try_probe_response print now body model =
      and_then (from_str body) (probe_response print now body model)

  unfoldable pub is_short_connection_probe : String → Bool
  is_short_connection_probe body = is_some_and (is_short_probe body) (from_str body)

  abbrev pub non_stream_probe_response : ℕ → String → HttpResponse
  non_stream_probe_response now model = json_probe_response (probe_message_id now) model

  unfoldable pub invalid_openai_response : ℕ → ℕ → String → String → String → String → HttpResponse
  invalid_openai_response now upstream_status response_body parse_error request_body model =
      if is_success upstream_status && is_short_connection_probe request_body
      then non_stream_probe_response now model
      else json_answer 502 (
          obj (
            (
              "error",
              string (
                  if is_empty_text (trim response_body)
                  then "Upstream response body is empty"
                  else concat ("Upstream response is not valid OpenAI JSON: " ∷ parse_error ∷ [])),
            )
            ∷ ("upstreamStatus", number (unsigned upstream_status))
            ∷ ("responseBody", string (bounded_preview (trim response_body)))
            ∷ []))
