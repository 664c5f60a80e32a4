-- ===== src/Server/Summary.antt =====
-- What proxy/src/server/handler.rs writes to the log of the API calls. `from_str` stands for
-- serde_json's reader, `timestamp` for the milliseconds of the clock.
pub mod Redacted
use Prim.Native.String.{len}
use free_claude_desktop.Prelude.{
  ℕ, String, Bool, true, false, ◌||◌, ◌==◌, Option, none, some, List, [], ◌∷◌, length, and_then,
  unwrap_or, is_some, eqb, if◌then◌else◌,
}
use free_claude_desktop.Prelude.Texts.{before_any}
use free_claude_desktop.Json.{Value, null, bool, number, unsigned, string, obj, get, get_str}
use free_claude_desktop.Server.Probe.{get_array, get_bool, get_u64}

abbrev number_or_null : Option ℕ → Value
number_or_null none = null
number_or_null (some n) = number (unsigned n)

abbrev string_or_null : Option String → Value
string_or_null none = null
string_or_null (some s) = string s

-- `map_or(0, Vec::len)`
abbrev count_of : Option (List Value) → ℕ
count_of none = 0
count_of (some l) = length l

module _ (from_str : String → Option Value) where
  unfoldable pub api_request_summary : String → Value
  api_request_summary body =
      let parsed = from_str body in
      obj (
        ("model", string (unwrap_or "unknown" (and_then parsed (get_str "model"))))
        ∷ ("stream", bool (unwrap_or false (and_then parsed (get_bool "stream"))))
        ∷ ("maxTokens", number_or_null (and_then parsed (get_u64 "max_tokens")))
        ∷ ("messageCount", number (unsigned (count_of (and_then parsed (get_array "messages")))))
        ∷ ("toolCount", number (unsigned (count_of (and_then parsed (get_array "tools")))))
        ∷ ("hasSystem", bool (is_some (and_then parsed (get "system"))))
        ∷ ("requestBytes", number (unsigned (len body)))
        ∷ ("validJson", bool (is_some parsed))
        ∷ [])

-- `url.split(['?', '#']).next()`
unfoldable pub redacted_url : String → String
redacted_url url = before_any (λ n. eqb n b'?' || eqb n b'#') url

pub record ApiOutcome : Type 0 where
  pub enabled : Bool
  pub call_id : ℕ
  pub request : Value
  pub target_url : String
  pub transport : String
  pub outcome : String
  pub elapsed_ms : ℕ
  pub status : Option ℕ
  pub content_type : Option String
  pub error : Option String

abbrev outcome_record : ℕ → ApiOutcome → Value
outcome_record timestamp o = obj (
    ("timestampMs", number (unsigned timestamp))
    ∷ ("callId", number (unsigned o.call_id))
    ∷ ("outcome", string o.outcome)
    ∷ ("transport", string o.transport)
    ∷ ("targetUrl", string (redacted_url o.target_url))
    ∷ ("status", number_or_null o.status)
    ∷ ("contentType", string_or_null o.content_type)
    ∷ ("elapsedMs", number (unsigned o.elapsed_ms))
    ∷ ("request", o.request)
    ∷ ("error", string_or_null o.error)
    ∷ [])

-- The records that are written.
unfoldable pub record_api_outcome : ℕ → ApiOutcome → List Value
record_api_outcome timestamp o = if o.enabled then outcome_record timestamp o ∷ [] else []
