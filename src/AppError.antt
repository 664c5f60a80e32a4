-- ===== src/AppError.antt =====
-- core/src/core/error.rs. An error of another crate is held by its text.
use free_claude_desktop.Prelude.{ℕ, String, [], ◌∷◌}
use free_claude_desktop.Prelude.Texts.{concat, decimal}

pub data AppError : Type 0 where
  crypto : String → AppError
  io : String → AppError
  json : String → AppError
  invalid_config : String → AppError
  invalid_config_json : String → AppError
  launcher : String → AppError
  upstream_request : String → AppError
  upstream_response : ℕ → String → AppError
  proxy : String → AppError

-- `error.to_string()`
unfoldable pub error_text : AppError → String
error_text (crypto e) = concat ("Crypto error: " ∷ e ∷ [])
error_text (io e) = concat ("I/O error: " ∷ e ∷ [])
error_text (json e) = concat ("JSON parse/serialize error: " ∷ e ∷ [])
error_text (invalid_config e) = concat ("Invalid configuration: " ∷ e ∷ [])
error_text (invalid_config_json e) = concat ("Invalid configuration JSON: " ∷ e ∷ [])
error_text (launcher e) = concat ("Launcher error: " ∷ e ∷ [])
error_text (upstream_request e) = concat ("Upstream request failed: " ∷ e ∷ [])
error_text (upstream_response status body) =
    concat ("Upstream API error (HTTP " ∷ decimal status ∷ "): " ∷ body ∷ [])
error_text (proxy e) = concat ("Network proxy error: " ∷ e ∷ [])
