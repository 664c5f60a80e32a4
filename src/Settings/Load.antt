-- ===== src/Settings/Load.antt =====
-- How core/src/core/config.rs loads the settings' file and saves it. `from_str` and
-- `to_string_pretty` stand for serde_json, `nested` and `flat` for the readers that serde derives
-- for Settings and LegacyFlatSettings; Storage holds these and what is called of the file system.
pub mod Protected
mod Tests
use text.Mathlib.Text.{starts_with}
use free_claude_desktop.Prelude.{
  String, Bool, true, false, not, ◌&&◌, ◌||◌, ◌==◌, Option, none, some, List, [], ◌∷◌, any, is_some,
  if◌then◌else◌, Result, ok, err, ◌>>=◌,
}
use free_claude_desktop.Prelude.Texts.{is_empty_text, trim_start_bom}
use free_claude_desktop.Json.{
  Value, Fields, end, field, null, bool, number, string, array, object, get_field,
}
use free_claude_desktop.AppError.{AppError, invalid_config_json, json, io}
use free_claude_desktop.Settings.{Settings}
use free_claude_desktop.Settings.Legacy.{LegacyFlatSettings, into_settings}

abbrev legacy_flat_setting_keys : List String
legacy_flat_setting_keys =
    "baseUrl" ∷ "authScheme" ∷ "hasApiKey" ∷ "transportType" ∷ "realBaseUrl" ∷ "realApiKey"
    ∷ "realAuthScheme" ∷ "proxyAuthToken" ∷ "realModel" ∷ "realModelSonnet" ∷ "realModelOpus"
    ∷ "realModelHaiku" ∷ "realModelRoutes" ∷ "realModelReasoningEfforts" ∷ "discoveredModels"
    ∷ "modelReasoningOverrides" ∷ "model1mOverrides" ∷ "model1mPreferOverrides"
    ∷ "modelVisibilityOverrides" ∷ "reasoningReplayMode" ∷ "enableQuotaCheckMock"
    ∷ "enablePrefixDetection" ∷ "enableTitleGenerationSkip" ∷ "enableSuggestionModeSkip"
    ∷ "enableFilepathExtractionMock" ∷ "enableSafetyCheckSkip" ∷ "enableApiCallLogging"
    ∷ "enableWebServerTools" ∷ "webFetchAllowedSchemes" ∷ "webFetchAllowPrivateNetworks"
    ∷ "customClaudePath" ∷ "activePort" ∷ "themeMode" ∷ "language" ∷ []

abbrev setting_groups : List String
setting_groups = "gateway" ∷ "models" ∷ "optimizations" ∷ "desktop" ∷ "ui" ∷ []

abbrev field_keys : Fields → List String
field_keys end = []
field_keys (field key v fields) = key ∷ field_keys fields

unfoldable pub looks_like_legacy_flat_settings : Value → Bool
looks_like_legacy_flat_settings (object fields) =
    not (any (λ key. is_some (get_field key fields)) setting_groups)
    && any (λ key. any (λ legacy. legacy == key) legacy_flat_setting_keys) (field_keys fields)
looks_like_legacy_flat_settings _ = false

module _ (nested : Value → Result Settings String)
    (flat : Value → Result LegacyFlatSettings String) where
  abbrev pub migrated_settings :
      String → Result LegacyFlatSettings String → Result (Settings × Bool) AppError
  migrated_settings nested_error (ok legacy) = ok (into_settings legacy, true)
  migrated_settings nested_error (err e) = err (json nested_error)

  abbrev pub read_settings : Value → Result Settings String → Result (Settings × Bool) AppError
  read_settings v (ok settings) = ok (settings, false)
  read_settings v (err nested_error) =
      if not (looks_like_legacy_flat_settings v)
      then err (json nested_error)
      else migrated_settings nested_error (flat v)

  unfoldable pub deserialize_settings_value : Value → Result (Settings × Bool) AppError
  deserialize_settings_value v = read_settings v (nested v)

-- serde_json's reader and printer, the readers of the two formats, and what the operating system
-- may refuse.
pub record Storage : Type 0 where
  pub from_str : String → Result Value String
  pub to_string_pretty : Settings → Result String String
  pub nested : Value → Result Settings String
  pub flat : Value → Result LegacyFlatSettings String
  pub read_to_string : String → Result String String
  pub create_dir_all : Result Unit String
  pub write_transaction : String → Option String → Result Unit AppError × Option String

-- The settings' file, `none` where it does not exist.
abbrev pub File : Type 0
File = Option String

abbrev pub has_unprotected_api_key : Settings → Bool
has_unprotected_api_key settings =
    not (is_empty_text settings.gateway.real_api_key)
    && not (starts_with settings.gateway.real_api_key "keyring:")

abbrev pub without_secret : Settings → Settings
without_secret settings = record settings {
  gateway = record settings.gateway { real_api_key = "" };
}

abbrev pub protected_settings : Settings → Settings
protected_settings settings =
    if has_unprotected_api_key settings then without_secret settings else settings

abbrev pub loaded_after :
    Settings → Result Unit AppError × File → Result (Option Settings) AppError × File
loaded_after settings (ok _, file) = (ok (some settings), file)
loaded_after settings (err e, file) = (err e, file)

module _ (storage : Storage) where
  open storage use {
    from_str, to_string_pretty, nested, flat, read_to_string, create_dir_all, write_transaction,
  }

  unfoldable pub parse_json_text : String → Result Value String
  parse_json_text text = from_str (trim_start_bom text)

  abbrev pub written : File → Result String String → Result Unit AppError × File
  written file (err e) = (err (json e), file)
  written file (ok serialized) = write_transaction serialized file

  abbrev pub saved : Settings → File → Result Unit String → Result Unit AppError × File
  saved settings file (err e) = (err (io e), file)
  saved settings file (ok _) = written file (to_string_pretty settings)

  unfoldable pub save_launcher_settings : Settings → File → Result Unit AppError × File
  save_launcher_settings settings file = saved settings file create_dir_all

  abbrev pub loaded :
      File → Result (Settings × Bool) AppError → Result (Option Settings) AppError × File
  loaded file (err e) = (err e, file)
  loaded file (ok (settings, migrated)) =
      if migrated || has_unprotected_api_key settings
      then loaded_after (protected_settings settings)
          (save_launcher_settings (protected_settings settings) file)
      else (ok (some (protected_settings settings)), file)

  abbrev pub parsed_file : Result Value String → Result (Settings × Bool) AppError
  parsed_file (err e) = err (invalid_config_json e)
  parsed_file (ok v) = deserialize_settings_value nested flat v

  abbrev pub read_file : Result String String → Result (Settings × Bool) AppError
  read_file (err e) = err (io e)
  read_file (ok text) = parsed_file (parse_json_text text)

  unfoldable pub load_launcher_settings : File → Result (Option Settings) AppError × File
  load_launcher_settings none = (ok none, none)
  load_launcher_settings (some text) = loaded (some text) (read_file (read_to_string text))

  abbrev pub flattened : Result (Option Settings) AppError → Option Settings
  flattened (ok o) = o
  flattened (err e) = none

  unfoldable pub get_launcher_settings : File → Option Settings × File
  get_launcher_settings file =
      let (loaded, after) = load_launcher_settings file in (flattened loaded, after)
