-- ===== src/Settings/Legacy.antt =====
-- The flat settings of earlier versions (core/src/core/config.rs), and their migration.
use text.Mathlib.Text.{starts_with}
use free_claude_desktop.Prelude.{
  ℕ, String, Bool, ◌||◌, Option, none, some, List, if◌then◌else◌, unwrap_or,
}
use free_claude_desktop.Prelude.Texts.{is_empty_text}
use free_claude_desktop.Settings.{
  HashMap, Settings, GatewaySettings, ModelSettings, OptimizationSettings, DesktopSettings,
  UiSettings,
}
use free_claude_desktop.Settings.Defaults.{default_settings}

pub record LegacyFlatSettings : Type 0 where
  pub base_url : Option String
  pub auth_scheme : Option String
  pub has_api_key : Option Bool
  pub real_api_key : Option String
  pub transport_type : Option String
  pub proxy_auth_token : Option String
  pub real_model : Option (Option String)
  pub real_model_sonnet : Option (Option String)
  pub real_model_opus : Option (Option String)
  pub real_model_haiku : Option (Option String)
  pub real_model_routes : Option (HashMap String)
  pub real_model_reasoning_efforts : Option (HashMap (List String))
  pub discovered_models : Option (List String)
  pub model_reasoning_overrides : Option (HashMap String)
  pub model_1m_overrides : Option (HashMap Bool)
  pub model_1m_prefer_overrides : Option (HashMap Bool)
  pub model_visibility_overrides : Option (HashMap Bool)
  pub reasoning_replay_mode : Option String
  pub enable_quota_check_mock : Option Bool
  pub enable_prefix_detection : Option Bool
  pub enable_title_generation_skip : Option Bool
  pub enable_suggestion_mode_skip : Option Bool
  pub enable_filepath_extraction_mock : Option Bool
  pub enable_safety_check_skip : Option Bool
  pub enable_api_call_logging : Option Bool
  pub enable_web_server_tools : Option Bool
  pub web_fetch_allowed_schemes : Option String
  pub web_fetch_allow_private_networks : Option Bool
  pub custom_claude_path : Option (Option String)
  pub active_port : Option (Option ℕ)
  pub theme_mode : Option String
  pub language : Option String

-- A key that is a reference into the keyring, or none at all.
abbrev pub is_protected_key : String → Bool
is_protected_key key = is_empty_text key || starts_with key "keyring:"

abbrev kept_key : String → Option String → String
kept_key key none = key
kept_key key (some value) = if is_protected_key value then value else key

-- `if let Some(value) = field { settings.field = value }`
unfoldable pub apply_gateway : LegacyFlatSettings → GatewaySettings → GatewaySettings
apply_gateway l s = record {
  real_base_url = unwrap_or s.real_base_url l.base_url;
  real_auth_scheme = unwrap_or s.real_auth_scheme l.auth_scheme;
  real_api_key = kept_key s.real_api_key l.real_api_key;
  transport_type = unwrap_or s.transport_type l.transport_type;
  proxy_auth_token = unwrap_or s.proxy_auth_token l.proxy_auth_token;
}

unfoldable pub apply_models : LegacyFlatSettings → ModelSettings → ModelSettings
apply_models l s = record {
  real_model = unwrap_or s.real_model l.real_model;
  real_model_sonnet = unwrap_or s.real_model_sonnet l.real_model_sonnet;
  real_model_opus = unwrap_or s.real_model_opus l.real_model_opus;
  real_model_haiku = unwrap_or s.real_model_haiku l.real_model_haiku;
  real_model_routes = unwrap_or s.real_model_routes l.real_model_routes;
  real_model_reasoning_efforts =
      unwrap_or s.real_model_reasoning_efforts l.real_model_reasoning_efforts;
  discovered_models = unwrap_or s.discovered_models l.discovered_models;
  model_reasoning_overrides = unwrap_or s.model_reasoning_overrides l.model_reasoning_overrides;
  model_1m_overrides = unwrap_or s.model_1m_overrides l.model_1m_overrides;
  model_1m_prefer_overrides = unwrap_or s.model_1m_prefer_overrides l.model_1m_prefer_overrides;
  model_visibility_overrides = unwrap_or s.model_visibility_overrides l.model_visibility_overrides;
  reasoning_replay_mode = unwrap_or s.reasoning_replay_mode l.reasoning_replay_mode;
}

unfoldable pub apply_optimizations :
    LegacyFlatSettings → OptimizationSettings → OptimizationSettings
apply_optimizations l s = record {
  enable_quota_check_mock = unwrap_or s.enable_quota_check_mock l.enable_quota_check_mock;
  enable_prefix_detection = unwrap_or s.enable_prefix_detection l.enable_prefix_detection;
  enable_title_generation_skip =
      unwrap_or s.enable_title_generation_skip l.enable_title_generation_skip;
  enable_suggestion_mode_skip =
      unwrap_or s.enable_suggestion_mode_skip l.enable_suggestion_mode_skip;
  enable_filepath_extraction_mock =
      unwrap_or s.enable_filepath_extraction_mock l.enable_filepath_extraction_mock;
  enable_safety_check_skip = unwrap_or s.enable_safety_check_skip l.enable_safety_check_skip;
  enable_api_call_logging = unwrap_or s.enable_api_call_logging l.enable_api_call_logging;
  enable_web_server_tools = unwrap_or s.enable_web_server_tools l.enable_web_server_tools;
  web_fetch_allowed_schemes = unwrap_or s.web_fetch_allowed_schemes l.web_fetch_allowed_schemes;
  web_fetch_allow_private_networks =
      unwrap_or s.web_fetch_allow_private_networks l.web_fetch_allow_private_networks;
}

abbrev apply_desktop : LegacyFlatSettings → DesktopSettings → DesktopSettings
apply_desktop l s = record {
  custom_claude_path = unwrap_or s.custom_claude_path l.custom_claude_path;
  active_port = unwrap_or s.active_port l.active_port;
}

abbrev apply_ui : LegacyFlatSettings → UiSettings → UiSettings
apply_ui l s = record {
  theme_mode = unwrap_or s.theme_mode l.theme_mode;
  language = unwrap_or s.language l.language;
}

unfoldable pub into_settings : LegacyFlatSettings → Settings
into_settings l = record {
  gateway = apply_gateway l default_settings.gateway;
  models = apply_models l default_settings.models;
  optimizations = apply_optimizations l default_settings.optimizations;
  desktop = apply_desktop l default_settings.desktop;
  ui = apply_ui l default_settings.ui;
}
