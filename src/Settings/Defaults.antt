-- ===== src/Settings/Defaults.antt =====
-- The defaults of core/src/core/config.rs and its languages. `fill` stands for `getrandom::fill`.
use free_claude_desktop.Prelude.{
  ℕ, ◌/◌, ◌%◌, String, true, false, none, List, [], ◌∷◌, map, Result, ok, err,
}
use Prim.Native.String.{char_at}
use free_claude_desktop.Prelude.Texts.{concat}
use free_claude_desktop.AppError.{AppError, crypto}
use free_claude_desktop.Settings.{
  Settings, GatewaySettings, ModelSettings, OptimizationSettings, UiSettings,
}

abbrev default_theme_mode : String
default_theme_mode = "light"

abbrev default_language : String
default_language = "en"

abbrev pub default_auth_scheme : String
default_auth_scheme = "bearer"

abbrev default_web_fetch_schemes : String
default_web_fetch_schemes = "http,https"

abbrev pub default_proxy_auth_token : String
default_proxy_auth_token = "local-proxy-token"

abbrev default_gateway : GatewaySettings
default_gateway = record {
  real_base_url = "";
  real_api_key = "";
  real_auth_scheme = "";
  transport_type = "";
  proxy_auth_token = default_proxy_auth_token;
}

abbrev default_models : ModelSettings
default_models = record {
  real_model = none;
  real_model_sonnet = none;
  real_model_opus = none;
  real_model_haiku = none;
  real_model_routes = [];
  real_model_reasoning_efforts = [];
  discovered_models = [];
  model_reasoning_overrides = [];
  model_1m_overrides = [];
  model_1m_prefer_overrides = [];
  model_visibility_overrides = [];
  reasoning_replay_mode = "";
}

abbrev default_optimizations : OptimizationSettings
default_optimizations = record {
  enable_quota_check_mock = true;
  enable_prefix_detection = true;
  enable_title_generation_skip = true;
  enable_suggestion_mode_skip = true;
  enable_filepath_extraction_mock = true;
  enable_safety_check_skip = true;
  enable_api_call_logging = false;
  enable_web_server_tools = false;
  web_fetch_allowed_schemes = default_web_fetch_schemes;
  web_fetch_allow_private_networks = false;
}

abbrev default_ui : UiSettings
default_ui = record { theme_mode = default_theme_mode; language = default_language }

abbrev pub default_settings : Settings
default_settings = record {
  gateway = default_gateway;
  models = default_models;
  optimizations = default_optimizations;
  desktop = record { custom_claude_path = none; active_port = none };
  ui = default_ui;
}

-- `{byte:02x}`
abbrev hex_byte : ℕ → String
hex_byte byte =
    String.◌∷◌ (char_at "0123456789abcdef" (byte / 16))
      (String.◌∷◌ (char_at "0123456789abcdef" (byte % 16)) String.[])

abbrev token_of : Result (List ℕ) String → Result String AppError
token_of (err error) = err (crypto error)
token_of (ok bytes) = ok (concat ("fcl_" ∷ map hex_byte bytes))

unfoldable pub generate_proxy_auth_token : (ℕ → Result (List ℕ) String) → Result String AppError
generate_proxy_auth_token fill = token_of (fill 32)
