-- ===== src/Settings.antt =====
-- The settings of core/src/core/config.rs. A hash map is an association list: its order stands
-- for the order of iteration, and its keys are distinct (`HasDistinctKeys`).
pub mod Maps
pub mod Insert
pub mod Defaults
pub mod Legacy
pub mod Load
pub mod Public
pub mod Secrets
pub mod Sample
use free_claude_desktop.Prelude.{
  ℕ, String, ◌≢◌, Bool, Option, none, some, List, [], ◌∷◌, ◌==◌, if◌then◌else◌, All,
}

abbrev pub HashMap {ℓ} : Type ℓ → Type ℓ
HashMap V = List (String × V)

abbrev pub HasDistinctKeys {ℓ} : {V : Type ℓ} → HashMap V → Type ℓ
HasDistinctKeys [] = Unit
HasDistinctKeys ((k, v) ∷ m) = All (λ e. e.0 ≢ k) m × HasDistinctKeys m

-- `map.get(key)`
unfoldable pub get_key {ℓ} : {V : Type ℓ} → String → HashMap V → Option V
get_key k [] = none
get_key k ((j, v) ∷ m) = if j == k then some v else get_key k m

pub record GatewaySettings : Type 0 where
  pub real_base_url : String
  pub real_api_key : String
  pub real_auth_scheme : String
  pub transport_type : String
  pub proxy_auth_token : String

pub record ModelSettings : Type 0 where
  pub real_model : Option String
  pub real_model_sonnet : Option String
  pub real_model_opus : Option String
  pub real_model_haiku : Option String
  pub real_model_routes : HashMap String
  pub real_model_reasoning_efforts : HashMap (List String)
  pub discovered_models : List String
  pub model_reasoning_overrides : HashMap String
  pub model_1m_overrides : HashMap Bool
  pub model_1m_prefer_overrides : HashMap Bool
  pub model_visibility_overrides : HashMap Bool
  pub reasoning_replay_mode : String

pub record OptimizationSettings : Type 0 where
  pub enable_quota_check_mock : Bool
  pub enable_prefix_detection : Bool
  pub enable_title_generation_skip : Bool
  pub enable_suggestion_mode_skip : Bool
  pub enable_filepath_extraction_mock : Bool
  pub enable_safety_check_skip : Bool
  pub enable_api_call_logging : Bool
  pub enable_web_server_tools : Bool
  pub web_fetch_allowed_schemes : String
  pub web_fetch_allow_private_networks : Bool

pub record DesktopSettings : Type 0 where
  pub custom_claude_path : Option String
  pub active_port : Option ℕ

pub record UiSettings : Type 0 where
  pub theme_mode : String
  pub language : String

pub record Settings : Type 0 where
  pub gateway : GatewaySettings
  pub models : ModelSettings
  pub optimizations : OptimizationSettings
  pub desktop : DesktopSettings
  pub ui : UiSettings

-- `map.insert(key, value)`: in the place of the key's value, or behind the others.
unfoldable pub put_key {ℓ} : {V : Type ℓ} → String → V → HashMap V → HashMap V
put_key k v [] = (k, v) ∷ []
put_key k v ((j, w) ∷ m) = let rest = put_key k v m in if j == k then (k, v) ∷ m else (j, w) ∷ rest

-- `pairs.collect()`
unfoldable pub collect_map {ℓ} : {V : Type ℓ} → List (String × V) → HashMap V → HashMap V
collect_map [] m = m
collect_map ((k, v) ∷ pairs) m = collect_map pairs (put_key k v m)
