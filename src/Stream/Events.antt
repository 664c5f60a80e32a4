-- ===== src/Stream/Events.antt =====
-- The events of a Messages stream, and their text as server-sent events. `print` stands for the
-- JSON printer of the serde_json crate.
use free_claude_desktop.Prelude.{
  ℕ, String, Option, none, some, [], ◌∷◌, if◌then◌else◌, and_then, unwrap_or, ltb,
}
use free_claude_desktop.Prelude.Texts.{concat, decimal}
use free_claude_desktop.Json.{
  Value, null, string, number, unsigned, array, nil, obj, object, Fields, insert, insert_all, end,
  get, as_u64,
}

pub data Block : Type 0 where
  text : Block
  thinking : Block
  tool_use : (id name : String) → Block

pub data Delta : Type 0 where
  text : String → Delta
  thinking : String → Delta
  signature : Delta
  input_json : String → Delta

pub data Event : Type 0 where
  message_start : (msg_id req_model : String) → Event
  block_start : ℕ → Block → Event
  block_delta : ℕ → Delta → Event
  block_stop : ℕ → Event
  message_delta : (stop_reason : String) → Option Value → Event
  message_stop : Event

abbrev count_of : String → Value → ℕ
count_of key v = unwrap_or 0 (and_then (get key v) as_u64)

abbrev index_value : ℕ → Value
index_value n = number (unsigned n)

abbrev set_cached : ℕ → Fields → Fields
set_cached cached fields =
    if ltb 0 cached then insert "cache_read_input_tokens" (index_value cached) fields else fields

unfoldable pub build_usage_json : Option Value → Value
build_usage_json none =
    obj (("input_tokens", index_value 0) ∷ ("output_tokens", index_value 0) ∷ [])
build_usage_json (some usage) = object (
    set_cached
      (unwrap_or 0 (
        and_then (get "prompt_tokens_details" usage)
          (λ d. and_then (get "cached_tokens" d) as_u64)))
      (insert_all end (
        ("input_tokens", index_value (count_of "prompt_tokens" usage))
        ∷ ("output_tokens", index_value (count_of "completion_tokens" usage))
        ∷ [])))

abbrev content_block : Block → Value
content_block Block.text = obj (("type", string "text") ∷ ("text", string "") ∷ [])
content_block Block.thinking =
    obj (("type", string "thinking") ∷ ("thinking", string "") ∷ ("signature", string "") ∷ [])
content_block (Block.tool_use id name) = obj (
    ("type", string "tool_use")
    ∷ ("id", string id)
    ∷ ("name", string name)
    ∷ ("input", obj [])
    ∷ [])

abbrev start_message : String → String → Value
start_message msg_id req_model = obj (
    ("type", string "message_start")
    ∷ (
      "message",
      obj (
          ("id", string msg_id)
          ∷ ("type", string "message")
          ∷ ("role", string "assistant")
          ∷ ("content", array nil)
          ∷ ("model", string req_model)
          ∷ ("stop_reason", null)
          ∷ ("usage", obj (("input_tokens", index_value 0) ∷ ("output_tokens", index_value 0) ∷ []))
          ∷ []),
    )
    ∷ [])

abbrev block_start_value : ℕ → Block → Value
block_start_value n block = obj (
    ("type", string "content_block_start")
    ∷ ("index", index_value n)
    ∷ ("content_block", content_block block)
    ∷ [])

abbrev delta_value : ℕ → String → String → String → Value
delta_value n kind key t = obj (
    ("type", string "content_block_delta")
    ∷ ("index", index_value n)
    ∷ ("delta", obj (("type", string kind) ∷ (key, string t) ∷ []))
    ∷ [])

-- `event: {name}\ndata: {data}\n\n`
abbrev pub sse : String → String → String
sse name payload = concat ("event: " ∷ name ∷ "\ndata: " ∷ payload ∷ "\n\n" ∷ [])

module _ (print : Value → String) where
  abbrev delta_text : ℕ → Delta → String
  delta_text n (Delta.text t) = print (delta_value n "text_delta" "text" t)
  delta_text n (Delta.thinking t) = print (delta_value n "thinking_delta" "thinking" t)
  delta_text n (Delta.input_json t) = print (delta_value n "input_json_delta" "partial_json" t)
  delta_text n Delta.signature = concat (
      "{\"type\":\"content_block_delta\",\"index\":"
      ∷ decimal n
      ∷ ",\"delta\":{\"type\":\"signature_delta\",\"signature\":\"\"}}"
      ∷ [])

  unfoldable pub render : Event → String
  render (Event.message_start msg_id req_model) =
      sse "message_start" (print (start_message msg_id req_model))
  render (Event.block_start n block) = sse "content_block_start" (print (block_start_value n block))
  render (Event.block_delta n delta) = sse "content_block_delta" (delta_text n delta)
  render (Event.block_stop n) =
      sse "content_block_stop"
        (concat ("{\"type\":\"content_block_stop\",\"index\":" ∷ decimal n ∷ "}" ∷ []))
  render (Event.message_delta stop_reason usage) = sse "message_delta" (
      concat (
        "{\"type\":\"message_delta\",\"delta\":{\"stop_reason\":\""
        ∷ stop_reason
        ∷ "\",\"stop_sequence\":null},\"usage\":"
        ∷ print (build_usage_json usage)
        ∷ "}"
        ∷ []))
  render Event.message_stop = sse "message_stop" "{\"type\":\"message_stop\"}"
