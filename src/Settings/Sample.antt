-- ===== src/Settings/Sample.antt =====
-- Settings on which the theorems are run.
use free_claude_desktop.Prelude.{String, true, false, none, List, []}
use free_claude_desktop.Settings.{HashMap, Settings}

abbrev pub settings_with : HashMap String → List String → Settings
settings_with routes discovered = record {
  gateway = record {
    real_base_url = "https://gateway.example/v1";
    real_api_key = "";
    real_auth_scheme = "bearer";
    transport_type = "openai_chat_completions";
    proxy_auth_token = "";
  };
  models = record {
    real_model = none;
    real_model_sonnet = none;
    real_model_opus = none;
    real_model_haiku = none;
    real_model_routes = routes;
    real_model_reasoning_efforts = [];
    discovered_models = discovered;
    model_reasoning_overrides = [];
    model_1m_overrides = [];
    model_1m_prefer_overrides = [];
    model_visibility_overrides = [];
    reasoning_replay_mode = "auto";
  };
  optimizations = record {
    enable_quota_check_mock = true;
    enable_prefix_detection = true;
    enable_title_generation_skip = true;
    enable_suggestion_mode_skip = true;
    enable_filepath_extraction_mock = true;
    enable_safety_check_skip = true;
    enable_api_call_logging = false;
    enable_web_server_tools = false;
    web_fetch_allowed_schemes = "http,https";
    web_fetch_allow_private_networks = false;
  };
  desktop = record { custom_claude_path = none; active_port = none };
  ui = record { theme_mode = "system"; language = "en" };
}
