-- ===== src/Server/Retry.antt =====
-- proxy/src/server/model_retry.rs: another model for one that is gone.
pub mod Once
use free_claude_desktop.Prelude.{
  ℕ, String, Bool, true, false, not, ◌&&◌, ◌||◌, Option, none, some, List, [], ◌∷◌, map, any,
  and_then, unwrap_or, if◌then◌else◌, Result, ok, err,
}
use free_claude_desktop.Prelude.Texts.{to_ascii_lowercase, contains}
use free_claude_desktop.AppError.{AppError}
use free_claude_desktop.Openai.{NormalizedModels}
use free_claude_desktop.Settings.{Settings}
use free_claude_desktop.ModelList.Normalize.{normalize_models_response_with_overrides_and_prefer1m}
use free_claude_desktop.Response.Proxy.{StaleModelRewrite, rewrite_stale_model_request}
use free_claude_desktop.Upstream.Headers.{Header, UpstreamRequest, build_upstream_request}
use free_claude_desktop.Server.Answer.{UpstreamResponse, is_success}
use free_claude_desktop.Server.Outside.{Outside, ok_value}

abbrev gone_phrases : List String
gone_phrases =
    "has reached its end of life" ∷ "no longer available" ∷ "invalid model name" ∷ "invalid_model"
    ∷ "model_not_found" ∷ "call /v1/models" ∷ "model not found"
    ∷ "degraded function cannot be invoked" ∷ []

unfoldable pub is_model_gone_or_invalid_error : String → Bool
is_model_gone_or_invalid_error text =
    let lower = to_ascii_lowercase text in any (λ phrase. contains lower phrase) gone_phrases

unfoldable pub may_retry_stale_model : Bool → Bool → String → Bool
may_retry_stale_model output_started retry_available error =
    not output_started && retry_available && is_model_gone_or_invalid_error error

abbrev refreshed_settings : Settings → NormalizedModels → Settings
refreshed_settings settings normalized = record settings {
  models = record settings.models {
    real_model_routes = normalized.routes;
    real_model_reasoning_efforts = normalized.reasoning_effort_routes;
    discovered_models = map (λ model. model.provider_model_id) normalized.content;
  };
}

-- The requests that are sent, and a response; `none` stands for a panic.
abbrev pub Retried : Type 0
Retried = Option (List UpstreamRequest × Option UpstreamResponse)

module _ (outside : Outside) where
  open outside use {from_str, to_string, from_value, host_str, fetch_models, send}

  unfoldable pub refresh_settings_for_retry : Settings → String → Option Settings
  refresh_settings_for_retry settings api_key =
      and_then
        (ok_value
          (fetch_models settings.gateway.real_base_url api_key settings.gateway.real_auth_scheme))
        (λ raw.
          and_then
            (ok_value (
              normalize_models_response_with_overrides_and_prefer1m from_value raw
                settings.models.model_reasoning_overrides settings.models.model_1m_overrides
                settings.models.model_1m_prefer_overrides))
            (λ normalized. some (refreshed_settings settings normalized)))

  abbrev pub retry_settings : Settings → String → Settings
  retry_settings settings api_key = unwrap_or settings (refresh_settings_for_retry settings api_key)

  abbrev pub retry_response : Bool → UpstreamRequest → Result UpstreamResponse String → Retried
  retry_response require_success request (err e) = some (request ∷ [], none)
  retry_response require_success request (ok response) = some (
    request ∷ [],
    if require_success && not (is_success response.status) then none else some response,
  )

  abbrev pub retry_sent : Bool → Result UpstreamRequest AppError → Retried
  retry_sent require_success (err e) = some ([], none)
  retry_sent require_success (ok request) = retry_response require_success request (send 1 request)

  abbrev pub retry_with :
      Settings
      → String
      → String
      → List Header
      → Bool
      → Bool
      → Option (Option StaleModelRewrite)
      → Retried
  retry_with settings api_key target_url headers native require_success none = none
  retry_with settings api_key target_url headers native require_success (some none) =
      some ([], none)
  retry_with settings api_key target_url headers native require_success
        (some (some (updated_body, fallback_model))) =
      retry_sent require_success (
        build_upstream_request host_str target_url (to_string updated_body) headers api_key
          settings.gateway.real_auth_scheme native)

  unfoldable pub try_stale_model_retry :
      Settings → String → String → String → String → List Header → Bool → String → Bool → Retried
  try_stale_model_retry settings api_key proxy_body request_model target_url headers native
        error_text require_success =
      if not (may_retry_stale_model false true error_text)
      then some ([], none)
      else retry_with (retry_settings settings api_key) api_key target_url headers native
          require_success
          (rewrite_stale_model_request from_str proxy_body (retry_settings settings api_key)
            request_model)
