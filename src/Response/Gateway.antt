-- ===== src/Response/Gateway.antt =====
-- Which origins may call, and the addresses of the gateway. The crate `url` is a parameter.
pub mod Secure
use free_claude_desktop.Prelude.{
  ℕ, String, Bool, true, false, not, ◌&&◌, ◌||◌, Option, none, some, List, [], ◌∷◌, ◌==◌, eqb,
  if◌then◌else◌, unwrap_or, and_then, Result, ok, err, ◌>>=◌,
}
use free_claude_desktop.Prelude.Texts.{trim, ends_with, strip_suffix, concat, trim_end_slashes}

-- `Url::parse` with its readers and its setters.
pub record UrlLibrary : Type 1 where
  pub Url : Type 0
  pub parse : String → Option Url
  pub scheme : Url → String
  pub host_str : Url → Option String
  pub port_or_known_default : Url → Option ℕ
  pub path : Url → String
  pub set_path : String → Url → Url
  pub clear_query : Url → Url
  pub clear_fragment : Url → Url
  pub to_string : Url → String

unfoldable pub is_local_hostname : String → Bool
is_local_hostname hostname =
    hostname == "localhost" || hostname == "127.0.0.1" || hostname == "::1" || hostname == "[::1]"

abbrev is_port : ℕ → Option ℕ → Bool
is_port port none = false
is_port port (some p) = eqb p port

abbrev pub is_claude_host : String → Bool
is_claude_host host =
    host == "claude.ai"
    || ends_with host ".claude.ai"
    || host == "claude.com"
    || ends_with host ".claude.com"

module _ (library : UrlLibrary) where
  open library use {
    Url, parse, scheme, host_str, port_or_known_default, path, set_path, clear_query,
    clear_fragment, to_string,
  }

  abbrev pub is_allowed_url : Url → ℕ → Bool
  is_allowed_url url port =
      let host = unwrap_or "" (host_str url) in
      (scheme url == "http" && is_local_hostname host && is_port port (port_or_known_default url))
      || (scheme url == "https" && is_claude_host host)

  unfoldable pub is_allowed_origin : Option String → ℕ → Bool
  is_allowed_origin none port = true
  is_allowed_origin (some origin) port =
      if origin == "anthropic://desktop" || origin == "app://localhost"
      then true
      else elim (parse origin) [ none ↦ false | some url ↦ is_allowed_url url port ]

  -- HTTPS, or HTTP on this host.
  abbrev pub is_gateway : Url → Bool
  is_gateway url =
      scheme url == "https"
      || (elim (host_str url) [ none ↦ false | some host ↦ is_local_hostname host ]
          && scheme url == "http")

  abbrev checked_url : String → Result Url String
  checked_url base_url = elim (parse (trim base_url)) [
    | none ↦ err "Invalid Gateway Base URL"
    | some url ↦
        if is_gateway url
        then ok url
        else err "Gateway Base URL must use HTTPS, or HTTP on localhost"
  ]

  abbrev with_path : Url → String → String
  with_path url new_path = to_string (clear_fragment (clear_query (set_path new_path url)))

  unfoldable pub normalize_gateway_url : String → String → Result String String
  normalize_gateway_url base_url endpoint = do
    url ← checked_url base_url
    let base_path = trim_end_slashes (path url)
    ok (
        with_path url (
          if ends_with base_path "/v1"
          then concat (base_path ∷ "/" ∷ endpoint ∷ [])
          else concat (base_path ∷ "/v1/" ∷ endpoint ∷ [])))

  unfoldable pub normalize_messages_url : String → Result String String
  normalize_messages_url base_url = normalize_gateway_url base_url "messages"

  unfoldable pub normalize_models_url : String → Result String String
  normalize_models_url base_url = normalize_gateway_url base_url "models"

  unfoldable pub normalize_model_info_url : String → Result String String
  normalize_model_info_url base_url = do
    url ← checked_url base_url
    let trimmed = trim_end_slashes (path url)
    let base_path = unwrap_or trimmed (strip_suffix trimmed "/v1")
    ok (with_path url (concat (base_path ∷ "/model/info" ∷ [])))

  unfoldable pub normalize_chat_completions_url : String → Result String String
  normalize_chat_completions_url base_url = normalize_gateway_url base_url "chat/completions"
