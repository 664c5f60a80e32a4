-- ===== src/Server/Tokens.antt =====
-- The local estimate of a request's tokens (proxy/src/server/handler.rs). `to_string` stands for
-- the JSON printer of serde_json, `none` for its error.
pub mod Bounds
use Prim.Native.String.{count}
use free_claude_desktop.Prelude.{
  ℕ, ◌+◌, ◌*◌, ◌/◌, String, Option, none, some, List, [], ◌∷◌, map, length, and_then, ltb,
  if◌then◌else◌,
}
use free_claude_desktop.Json.{
  Value, string, array, obj, number, unsigned, items, get, get_str, as_array,
}

-- `.sum()`
abbrev pub sum : List ℕ → ℕ
sum [] = 0
sum (n ∷ ns) = n + sum ns

-- `map_or(0, |s| s.chars().count())`
abbrev pub chars : Option String → ℕ
chars none = 0
chars (some s) = count s

unfoldable pub text_field_chars : Value → ℕ
text_field_chars item = chars (get_str "text" item)

unfoldable pub system_char_count : Option Value → ℕ
system_char_count (some (string s)) = count s
system_char_count (some (array arr)) = sum (map text_field_chars (items arr))
system_char_count _ = 0

unfoldable pub block_char_count : Value → ℕ
block_char_count block =
    text_field_chars block + chars (get_str "content" block) + chars (get_str "input" block)

unfoldable pub content_char_count : Option Value → ℕ
content_char_count (some (string s)) = count s
content_char_count (some (array arr)) = sum (map block_char_count (items arr))
content_char_count _ = 0

abbrev pub message_char_count : Value → ℕ
message_char_count message = content_char_count (get "content" message)

abbrev array_char_count : Option (List Value) → ℕ
array_char_count none = 0
array_char_count (some messages) = sum (map message_char_count messages)

unfoldable pub messages_char_count : Option Value → ℕ
messages_char_count messages = array_char_count (and_then messages as_array)

module _ (to_string : Value → Option String) where
  abbrev printed_chars : Option String → ℕ
  printed_chars none = 64
  printed_chars (some s) = count s

  abbrev pub tool_chars : Value → ℕ
  tool_chars tool = printed_chars (to_string tool) / 4

  abbrev tool_list_char_count : Option (List Value) → ℕ
  tool_list_char_count none = 0
  tool_list_char_count (some tools) = sum (map tool_chars tools) + length tools * 8

  unfoldable pub tools_char_count : Option Value → ℕ
  tools_char_count tools = tool_list_char_count (and_then tools as_array)

  unfoldable pub estimate_char_count : Option Value → ℕ
  estimate_char_count none = 0
  estimate_char_count (some v) =
      system_char_count (get "system" v)
      + messages_char_count (get "messages" v)
      + tools_char_count (get "tools" v)

  -- `max(1, count.div_ceil(4))`
  abbrev pub estimated : ℕ → ℕ
  estimated chars_of_all = let tokens = (chars_of_all + 3) / 4 in if ltb 1 tokens then tokens else 1

  -- The body after it is decoded and parsed, where it can be.
  unfoldable pub handle_count_tokens : Option Value → Value
  handle_count_tokens parsed =
      obj (("input_tokens", number (unsigned (estimated (estimate_char_count parsed)))) ∷ [])
