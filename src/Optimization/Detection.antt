-- ===== src/Optimization/Detection.antt =====
-- core/src/optimization/detection.rs: the requests that are recognised and answered here. `from_str`
-- stands for the JSON reader of serde_json, `none` for its error, and `to_lowercase` for the method
-- of the same name, which follows Unicode.
pub mod Filepaths
use Prim.Native.String.{len, find, slice}
use text.Mathlib.Text.{starts_with, find?}
use free_claude_desktop.Prelude.{
  ℕ, ◌+◌, String, Bool, true, false, not, ◌&&◌, ◌||◌, Option, none, some, List, [], ◌∷◌, ◌==◌, leb,
  eqb, if◌then◌else◌, and_then, is_some, unwrap_or, any, filter_map, first, is_empty, length,
}
use free_claude_desktop.Prelude.Texts.{contains, trim, join, is_empty_text, before_any}
use free_claude_desktop.Json.{
  Value, null, string, array, items, get, get_str, as_str, as_bool, as_u64, as_array,
}
use free_claude_desktop.Optimization.Commands.{parse_shell_command_prefix}
use free_claude_desktop.Optimization.Detection.Filepaths.{extract_filepaths_from_command}

-- The texts of the items that have one.
abbrev pub item_texts : Value → List String
item_texts (array arr) = filter_map (get_str "text") (items arr)
item_texts v = []

abbrev system_text : Value → Option String
system_text (string s) = some s
system_text v = let texts = item_texts v in if is_empty texts then none else some (join "\n" texts)

unfoldable pub extract_system_text : Value → Option String
extract_system_text v = and_then (get "system" v) system_text

abbrev pub messages_of : Value → Option (List Value)
messages_of v = and_then (get "messages" v) as_array

-- The only message.
abbrev pub single : List Value → Option Value
single (message ∷ []) = some message
single _ = none

abbrev pub single_message : Value → Option Value
single_message v = and_then (messages_of v) single

abbrev content_string : Value → String
content_string (string s) = s
content_string v = join "\n" (item_texts v)

abbrev pub quota_text : Value → String
quota_text message = elim (get "content" message) [
  | none ↦ ""
  | some content ↦ content_string content
]

abbrev pub has_tools : Value → Bool
has_tools v = elim (and_then (get "tools" v) as_array) [
  | none ↦ false
  | some tools ↦ not (is_empty tools)
]

abbrev is_not_null : Value → Bool
is_not_null null = false
is_not_null v = true

abbrev pub has_system : Value → Bool
has_system v = elim (get "system" v) [ none ↦ false | some system ↦ is_not_null system ]

abbrev pub is_streaming : Value → Bool
is_streaming v = unwrap_or false (and_then (get "stream" v) as_bool)

abbrev pub is_one : Option ℕ → Bool
is_one none = false
is_one (some n) = eqb n 1

abbrev is_role : String → Option String → Bool
is_role role none = false
is_role role (some r) = r == role

-- `content.as_str().unwrap_or("")`
abbrev pub content_of : Value → String
content_of message = unwrap_or "" (get_str "content" message)

module _ (to_lowercase : String → String) where
  abbrev pub is_count : Value → Value → Bool
  is_count v message =
      is_role "user" (get_str "role" message)
      && has_tools v
      && to_lowercase (trim (quota_text message)) == "count"

  -- A probe of the background: no tools, no system, no stream, and a body of 512 bytes or more.
  abbrev pub is_probe : String → Value → Bool
  is_probe body_str v =
      not (has_tools v) && not (has_system v) && not (is_streaming v) && leb 512 (len body_str)

  abbrev pub is_quota_check : String → Value → Bool
  is_quota_check body_str v =
      if is_one (and_then (get "max_tokens" v) as_u64)
      then elim (single_message v) [
        | none ↦ false
        | some message ↦ is_count v message || is_probe body_str v
      ]
      else false

  abbrev pub is_title_prompt : String → Bool
  is_title_prompt text =
      contains text "title"
      && (contains text "sentence-case title"
          || contains text "<title>"
          || (contains text "title"
              && (contains text "generate a short title"
                  || contains text "concise title"
                  || contains text "suggest a title"
                  || (contains text "return json"
                      && contains text "field"
                      && (contains text "coding session" || contains text "this session")))))

  abbrev pub is_title_generation : Value → Bool
  is_title_generation v =
      if not (is_some (get "system" v)) || is_some (get "tools" v)
      then false
      else elim (extract_system_text v) [
        | none ↦ false
        | some text ↦ is_title_prompt (to_lowercase text)
      ]

  abbrev pub is_safety_prompt : String → Bool
  is_safety_prompt system_text =
      contains system_text "safety"
      && (contains system_text "classifier" || contains system_text "policy")
      && (contains system_text "safe"
          || contains system_text "harmful"
          || contains system_text "allowed")

  abbrev pub is_safety_classifier : Value → Bool
  is_safety_classifier v = if is_some (get "tools" v) then false else elim (extract_system_text v) [
    | none ↦ false
    | some text ↦ is_safety_prompt (to_lowercase text)
  ]

  abbrev pub asks_for_filepaths : String → String → Bool
  asks_for_filepaths content system_text =
      contains (to_lowercase content) "filepaths"
      || contains system_text "extract any file paths"
      || contains system_text "file paths that this command"

  -- Between `Command:` and `Output:`, and behind it up to a `<` or the end of the line.
  abbrev pub paths_between : String → ℕ → ℕ → Option String
  paths_between content start output_marker =
      if leb output_marker (start + 8)
      then none
      else some (
          extract_filepaths_from_command to_lowercase
            (trim (slice content (start + 8) output_marker))
            (trim (
              before_any (λ n. eqb n 60 || eqb n 10)
                (slice content (output_marker + 7) (len content)))))

  abbrev pub filepaths_of : Value → String → Option String
  filepaths_of v content =
      if not (contains content "Command:") || not (contains content "Output:")
      then none
      else if asks_for_filepaths content (to_lowercase (unwrap_or "" (extract_system_text v)))
      then and_then (find? content "Command:")
          (λ start. and_then (find? content "Output:") (paths_between content start))
      else none

  abbrev pub filepaths : Value → Option String
  filepaths v =
      and_then (single_message v)
        (λ message. if is_some (get "tools" v) then none else filepaths_of v (content_of message))

-- `content.split("Command:").nth(1)`: up to the next one.
abbrev pub second_part : String → Option String
second_part content = and_then (find? content "Command:") (λ start.
    let rest = slice content (start + 8) (len content) in
    elim (find? rest "Command:") [ none ↦ some rest | some stop ↦ some (slice rest 0 stop) ])

abbrev pub command_prefix_of : String → Option String
command_prefix_of content =
    if not (contains content "<policy_spec>") || not (contains content "Command:")
    then none
    else and_then (second_part content)
        (λ cmd_part. some (parse_shell_command_prefix (trim cmd_part)))

abbrev pub command_prefix : Value → Option String
command_prefix v = and_then (single_message v) (λ message. command_prefix_of (content_of message))

abbrev user_text : Value → Option String
user_text msg = if is_role "user" (get_str "role" msg) then get_str "content" msg else none

abbrev pub is_suggestion_mode : Value → Bool
is_suggestion_mode v = elim (messages_of v) [
  | none ↦ false
  | some messages ↦ any (λ text. contains text "[SUGGESTION MODE:") (filter_map user_text messages)
]

-- `let Ok(v) = serde_json::from_str::<Value>(body_str) else { return false }`
abbrev pub holds_of : (Value → Bool) → Option Value → Bool
holds_of p none = false
holds_of p (some v) = p v

module _ (from_str : String → Option Value) (to_lowercase : String → String) where
  unfoldable pub is_quota_check_request : String → Bool
  is_quota_check_request body_str =
      holds_of (is_quota_check to_lowercase body_str) (from_str body_str)

  unfoldable pub extract_command_prefix : String → Option String
  extract_command_prefix body_str = and_then (from_str body_str) command_prefix

  unfoldable pub is_title_generation_request : String → Bool
  is_title_generation_request body_str =
      holds_of (is_title_generation to_lowercase) (from_str body_str)

  unfoldable pub is_safety_classifier_request : String → Bool
  is_safety_classifier_request body_str =
      holds_of (is_safety_classifier to_lowercase) (from_str body_str)

  unfoldable pub is_suggestion_mode_request : String → Bool
  is_suggestion_mode_request body_str = holds_of is_suggestion_mode (from_str body_str)

  unfoldable pub extract_filepaths : String → Option String
  extract_filepaths body_str = and_then (from_str body_str) (filepaths to_lowercase)
