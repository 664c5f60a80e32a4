-- ===== src/Response/Proxy.antt =====
-- The body that is passed on, and the one that is sent again with another model. `from_str` and
-- `to_string` stand for the JSON reader and printer of the serde_json crate.
pub mod Candidates
pub mod Outcome
use free_claude_desktop.Prelude.{
  String, Bool, true, false, not, ◌&&◌, ◌==◌, Option, none, some, List, [], ◌∷◌, ◌++◌, map, keep,
  first, and_then, if◌then◌else◌, filter_option, Result, ok, err, unwrap_or,
}
use free_claude_desktop.Prelude.Texts.{trim, is_empty_text}
use free_claude_desktop.Prelude.TextOrder.{text_less}
use free_claude_desktop.Prelude.Sort.{sort_by, dedup_by}
use free_claude_desktop.Json.{Value, null, string, object, obj, insert, get_str}
use free_claude_desktop.Settings.{Settings, HashMap}
use free_claude_desktop.Request.Routes.{resolve_model_route, is_not_blank}

-- `data[key] = v`: `null` becomes an object, and what is neither panics (`none`).
abbrev pub set_index : String → Value → Value → Option Value
set_index key v (object fields) = some (object (insert key v fields))
set_index key v null = some (obj ((key, v) ∷ []))
set_index key v _ = none

-- `if let Some(mapped) = ... { data["model"] = Value::String(mapped) }`
abbrev pub set_mapped : Option String → Value → Option Value
set_mapped none data_value = some data_value
set_mapped (some mapped) data_value = set_index "model" (string mapped) data_value

abbrev pub mapped_body : Settings → Value → Option Value
mapped_body settings data_value =
    set_mapped (resolve_model_route (unwrap_or "" (get_str "model" data_value)) settings) data_value

abbrev pub StaleModelRewrite : Type 0
StaleModelRewrite = Value × String

-- A configured or discovered model that takes the place of the stale one.
abbrev pub is_other : String → String → Bool
is_other stale_model model = not (model == stale_model)

abbrev pub other_routes : String → String → HashMap String → List String
other_routes requested_model stale_model routes =
    map (λ route. route.1)
      (keep (λ route. not (route.0 == requested_model) && is_other stale_model route.1) routes)

abbrev pub other_model : String → Option String → List String
other_model stale_model none = []
other_model stale_model (some model) =
    if is_not_blank model && is_other stale_model model then model ∷ [] else []

abbrev pub fallback_models : Settings → String → String → List String
fallback_models settings requested_model stale_model =
    other_routes requested_model stale_model settings.models.real_model_routes
    ++ other_model stale_model settings.models.real_model
    ++ keep (λ model. is_other stale_model model && is_not_blank model)
        settings.models.discovered_models

abbrev pub first_fallback : Settings → String → String → Option String
first_fallback settings requested_model stale_model = first (
    dedup_by (λ a b. a == b)
      (sort_by text_less (fallback_models settings requested_model stale_model)))

abbrev pub replaced_by : Value → Option String → Option (Option StaleModelRewrite)
replaced_by data_value none = some none
replaced_by data_value (some fallback_model) =
    and_then (set_index "model" (string fallback_model) data_value)
      (λ updated_body. some (some (updated_body, fallback_model)))

abbrev pub without_stale :
    Settings → String → Value → Option String → Option (Option StaleModelRewrite)
without_stale settings requested_model data_value none = some none
without_stale settings requested_model data_value (some stale_model) =
    replaced_by data_value (first_fallback settings requested_model stale_model)

abbrev pub rewritten : Settings → String → Result Value String → Option (Option StaleModelRewrite)
rewritten settings requested_model (err e) = some none
rewritten settings requested_model (ok data_value) =
    without_stale settings requested_model data_value (get_str "model" data_value)

abbrev pub prepared : (Value → String) → String → Settings → Result Value String → Option String
prepared to_string body settings (err e) = some body
prepared to_string body settings (ok data_value) =
    and_then (mapped_body settings data_value) (λ out. some (to_string out))

-- `none` stands for a panic.
module _ (from_str : String → Result Value String) where
  unfoldable pub prepare_proxy_body : (Value → String) → String → Settings → Option String
  prepare_proxy_body to_string body settings = prepared to_string body settings (from_str body)

  unfoldable pub rewrite_stale_model_request :
      String → Settings → String → Option (Option StaleModelRewrite)
  rewrite_stale_model_request proxy_body settings requested_model =
      rewritten settings requested_model (from_str proxy_body)
