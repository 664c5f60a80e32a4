-- ===== src/Settings/Public.antt =====
-- `to_public_config` of core/src/core/config.rs: the settings as the dashboard reads them.
use free_claude_desktop.Prelude.{
  String, Bool, false, not, Option, none, some, List, [], ◌∷◌, map, if◌then◌else◌, Result, ok, err,
}
use free_claude_desktop.Prelude.Texts.{is_empty_text}
use free_claude_desktop.Json.{Value, null, bool, number, unsigned, string, array_of, obj}
use free_claude_desktop.AppError.{AppError}
use free_claude_desktop.Settings.{Settings, HashMap}
use free_claude_desktop.Settings.Defaults.{default_auth_scheme}

abbrev optional {ℓ} : {A : Type ℓ} → (A → Value) → Option A → Value
optional f none = null
optional f (some a) = f a

abbrev map_value {ℓ} : {V : Type ℓ} → (V → Value) → HashMap V → Value
map_value f m = obj (map (λ e. (e.0, f e.1)) m)

abbrev strings_value : List String → Value
strings_value l = array_of (map string l)

abbrev has_key : Result String AppError → Bool
has_key (ok key) = not (is_empty_text key)
has_key (err e) = false

-- `unprotect` reads a secret that is stored.
unfoldable pub to_public_config : (String → Result String AppError) → Settings → Value
to_public_config unprotect settings = obj (
    ("baseUrl", string settings.gateway.real_base_url)
    ∷ (
      "authScheme",
      string (
          if is_empty_text settings.gateway.real_auth_scheme
          then default_auth_scheme
          else settings.gateway.real_auth_scheme),
    )
    ∷ ("hasApiKey", bool (has_key (unprotect settings.gateway.real_api_key)))
    ∷ ("transportType", string settings.gateway.transport_type)
    ∷ ("realModel", optional string settings.models.real_model)
    ∷ ("realModelSonnet", optional string settings.models.real_model_sonnet)
    ∷ ("realModelOpus", optional string settings.models.real_model_opus)
    ∷ ("realModelHaiku", optional string settings.models.real_model_haiku)
    ∷ ("realModelRoutes", map_value string settings.models.real_model_routes)
    ∷ (
      "realModelReasoningEfforts",
      map_value strings_value settings.models.real_model_reasoning_efforts,
    )
    ∷ ("discoveredModels", strings_value settings.models.discovered_models)
    ∷ ("modelReasoningOverrides", map_value string settings.models.model_reasoning_overrides)
    ∷ ("model1mOverrides", map_value bool settings.models.model_1m_overrides)
    ∷ ("model1mPreferOverrides", map_value bool settings.models.model_1m_prefer_overrides)
    ∷ ("modelVisibilityOverrides", map_value bool settings.models.model_visibility_overrides)
    ∷ ("reasoningReplayMode", string settings.models.reasoning_replay_mode)
    ∷ ("enableQuotaCheckMock", bool settings.optimizations.enable_quota_check_mock)
    ∷ ("enablePrefixDetection", bool settings.optimizations.enable_prefix_detection)
    ∷ ("enableTitleGenerationSkip", bool settings.optimizations.enable_title_generation_skip)
    ∷ ("enableSuggestionModeSkip", bool settings.optimizations.enable_suggestion_mode_skip)
    ∷ ("enableFilepathExtractionMock", bool settings.optimizations.enable_filepath_extraction_mock)
    ∷ ("enableSafetyCheckSkip", bool settings.optimizations.enable_safety_check_skip)
    ∷ ("enableApiCallLogging", bool settings.optimizations.enable_api_call_logging)
    ∷ ("enableWebServerTools", bool settings.optimizations.enable_web_server_tools)
    ∷ ("webFetchAllowedSchemes", string settings.optimizations.web_fetch_allowed_schemes)
    ∷ ("webFetchAllowPrivateNetworks", bool settings.optimizations.web_fetch_allow_private_networks)
    ∷ ("customClaudePath", optional string settings.desktop.custom_claude_path)
    ∷ ("activePort", optional (λ n. number (unsigned n)) settings.desktop.active_port)
    ∷ ("themeMode", string settings.ui.theme_mode)
    ∷ ("language", string settings.ui.language)
    ∷ [])
