-- ===== src/Server/Answer.antt =====
-- The answers to the desktop, and those of the upstream. Of the headers of an answer only those
-- that the source names are listed. `into_response` is the one of optimization_response.rs.
use free_claude_desktop.Prelude.{ℕ, String, Bool, ◌&&◌, leb, ltb, List, [], ◌∷◌, Result}
use free_claude_desktop.Json.{Value, string, obj}
use free_claude_desktop.Stream.Lines.{Bytes}
use free_claude_desktop.Upstream.Headers.{Header}
use free_claude_desktop.Optimization.Answers.{OptimizationResponse, json, sse}

-- A JSON value, a text, the events of a stream, or what the upstream sends.
pub data Body : Type 0 where
  value : Value → Body
  text : String → Body
  events : List String → Body
  chunks : List (Result Bytes String) → Body

pub record HttpResponse : Type 0 where
  pub status : ℕ
  pub headers : List Header
  pub body : Body

pub record UpstreamResponse : Type 0 where
  pub status : ℕ
  pub headers : List Header
  pub chunks : List (Result Bytes String)

-- `status.is_success()`
abbrev pub is_success : ℕ → Bool
is_success status = leb 200 status && ltb status 300

abbrev pub json_answer : ℕ → Value → HttpResponse
json_answer status v = record { status = status; headers = []; body = value v }

abbrev pub error_answer : ℕ → String → HttpResponse
error_answer status message = json_answer status (obj (("error", string message) ∷ []))

unfoldable pub sse_stream_response : List String → HttpResponse
sse_stream_response stream = record {
  status = 200;
  headers =
      ("Content-Type", "text/event-stream; charset=utf-8")
      ∷ ("Cache-Control", "no-cache")
      ∷ ("Connection", "keep-alive")
      ∷ [];
  body = events stream;
}

unfoldable pub into_response : OptimizationResponse → HttpResponse
unfolding sse_stream_response
into_response (json v) = json_answer 200 v
into_response (sse stream) = sse_stream_response stream
