-- ===== src/Settings/Load/Tests.antt =====
-- A flat file of an earlier version is loaded, and with it migrated.
use free_claude_desktop.Prelude.{
  String, ◌≡◌, ◌⊎◌, refl, sym, ap, subst, true, none, some, Option, [], ◌∷◌, ◌==◌, if◌then◌else◌,
  Result, ok, err, ok-injective,
}
use free_claude_desktop.Prelude.Texts.{trim_start_bom}
use free_claude_desktop.Json.{Value, string, obj, get_field, insert}
use free_claude_desktop.Settings.{Settings}
use free_claude_desktop.Settings.Legacy.{
  LegacyFlatSettings, into_settings, apply_gateway, is_protected_key,
}
use free_claude_desktop.Settings.Load.{
  Storage, deserialize_settings_value, looks_like_legacy_flat_settings, parse_json_text,
  save_launcher_settings, load_launcher_settings,
}
use free_claude_desktop.Settings.Load.Protected.{
  IsFaithful, load_launcher_settings-IsProtected, load_launcher_settings-load,
}

abbrev legacy : LegacyFlatSettings
legacy = record {
  base_url = some "https://gateway.example";
  auth_scheme = some "bearer";
  has_api_key = some true;
  real_api_key = some "a secret";
  transport_type = none;
  proxy_auth_token = none;
  real_model = none;
  real_model_sonnet = some (some "sonnet");
  real_model_opus = none;
  real_model_haiku = none;
  real_model_routes = none;
  real_model_reasoning_efforts = none;
  discovered_models = none;
  model_reasoning_overrides = none;
  model_1m_overrides = none;
  model_1m_prefer_overrides = none;
  model_visibility_overrides = none;
  reasoning_replay_mode = none;
  enable_quota_check_mock = none;
  enable_prefix_detection = none;
  enable_title_generation_skip = none;
  enable_suggestion_mode_skip = none;
  enable_filepath_extraction_mock = none;
  enable_safety_check_skip = none;
  enable_api_call_logging = some true;
  enable_web_server_tools = none;
  web_fetch_allowed_schemes = none;
  web_fetch_allow_private_networks = none;
  custom_claude_path = none;
  active_port = some (some 4321);
  theme_mode = none;
  language = none;
}

-- One text is the stored settings, and every other a flat file.
read : String → Value
read text = if text == "stored" then string text else obj (("baseUrl", string "") ∷ [])

nested : Value → Result Settings String
nested (string text) = ok (into_settings legacy)
nested _ = err "missing field `gateway`"

abbrev storage : Storage
storage = record {
  from_str = λ text. ok (read text);
  to_string_pretty = λ settings. ok "stored";
  nested = nested;
  flat = λ v. ok legacy;
  read_to_string = λ text. ok text;
  create_dir_all = ok tt;
  write_transaction = λ text file. (ok tt, some text);
}

migrated :
    load_launcher_settings storage (some "flat") ≡ (ok (some (into_settings legacy)), some "stored")
unfolding load_launcher_settings save_launcher_settings deserialize_settings_value read nested
    parse_json_text trim_start_bom looks_like_legacy_flat_settings get_field insert into_settings
    apply_gateway
migrated = refl

secret_dropped : (into_settings legacy).gateway.real_api_key ≡ ""
unfolding into_settings apply_gateway
secret_dropped = refl

load_launcher_settings-IsProtected_example :
    (is_protected_key (into_settings legacy).gateway.real_api_key ≡ true)
    × ((◌≡◌ {A = Option String} (some "stored") (some "flat"))
        ⊎ (save_launcher_settings storage (into_settings legacy) (some "flat")
            ≡ (ok tt, some "stored")))
load_launcher_settings-IsProtected_example =
    load_launcher_settings-IsProtected storage (some "flat") (into_settings legacy) (some "stored")
      migrated

storage-IsFaithful : IsFaithful storage (into_settings legacy)
unfolding parse_json_text trim_start_bom read nested
storage-IsFaithful = record {
  wrote = λ text file file' h. sym (ap (λ p. p.1) h);
  reads = λ text. refl;
  read_back = λ text h.
      subst
        (λ t.
          (v : Value) × (parse_json_text storage t ≡ ok v) × (nested v ≡ ok (into_settings legacy)))
        (ok-injective h) (string "stored", refl, refl);
}

load_launcher_settings-load_example :
    load_launcher_settings storage (some "stored")
    ≡ (ok (some (into_settings legacy)), some "stored")
load_launcher_settings-load_example =
    load_launcher_settings-load storage (some "flat") (into_settings legacy) (some "stored")
      storage-IsFaithful migrated
