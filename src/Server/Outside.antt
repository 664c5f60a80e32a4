-- ===== src/Server/Outside.antt =====
-- What a request's handling takes from outside: the crates serde_json, reqwest and url, the clock,
-- the settings and the keyring as this request finds them, and the upstream. What the upstream
-- answers may depend on which of the requests it is.
use free_claude_desktop.Prelude.{ℕ, String, Option, none, some, Result, ok, err}
use free_claude_desktop.Json.{Value}
use free_claude_desktop.Claude.{ClaudeMessagesRequest}
use free_claude_desktop.AppError.{AppError}
use free_claude_desktop.Openai.{ProviderModel}
use free_claude_desktop.Settings.{Settings}
use free_claude_desktop.Stream.Lines.{Bytes}
use free_claude_desktop.Upstream.Headers.{UpstreamRequest}
use free_claude_desktop.Optimization.WebTools.Fetch.{Network}
use free_claude_desktop.Server.Answer.{UpstreamResponse}

pub record Outside : Type 1 where
  pub from_str : String → Result Value String
  pub to_string : Value → String
  pub parse_request : String → Result ClaudeMessagesRequest String
  pub from_value : Value → Option ProviderModel
  pub to_lowercase : String → String
  pub decode : Bytes → String
  pub read_text : UpstreamResponse → Result String String
  pub net : Network
  pub host_str : String → Result (Option String) String
  pub now : ℕ
  pub call_id : ℕ
  pub elapsed_ms : ℕ
  pub message_id : String
  pub runtime_settings : Result (Option Settings) AppError
  pub unprotect_key : String → Result String AppError
  pub fetch_models : String → String → String → Result Value String
  pub send : ℕ → UpstreamRequest → Result UpstreamResponse String

-- `result.ok()`
abbrev pub ok_value {ℓ} : {A E : Type ℓ} → Result A E → Option A
ok_value (ok a) = some a
ok_value (err e) = none
