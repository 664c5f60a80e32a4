-- ===== src/ModelList/Provider.antt =====
-- What is read from one model of the upstream: its identifier, its price, its levels of reasoning
-- effort and the alias that it is shown under.
use free_claude_desktop.Prelude.{
  ℕ, String, Bool, true, false, not, ◌&&◌, ◌||◌, Option, none, some, List, [], ◌∷◌, map, ◌==◌,
  if◌then◌else◌, and_then, is_some, unwrap_or, any, keep, filter_map,
}
use free_claude_desktop.Prelude.Texts.{concat, trim, is_empty_text, ends_with, decimal}
use free_claude_desktop.Json.{
  Value, bool, string, array_of, obj, get, as_str, as_bool, as_u64, as_array,
}
use free_claude_desktop.Settings.{HashMap, get_key}
use free_claude_desktop.Openai.{ProviderModel, Pricing, is_zero_float}

-- `x.unwrap_or(0.0) == 0.0`
abbrev is_zero_price : Option ℕ → Bool
is_zero_price none = true
is_zero_price (some bits) = is_zero_float bits

abbrev is_free_pricing : Option Pricing → Bool
is_free_pricing none = false
is_free_pricing (some pricing) = is_zero_price pricing.prompt && is_zero_price pricing.completion

unfoldable pub is_free_model : ProviderModel → Bool
is_free_model model = ends_with model.id ":free" || is_free_pricing model.pricing

unfoldable pub model_priority : ProviderModel → ℕ
model_priority model = if is_free_model model then 100 else 200

unfoldable pub provider_model_id : ProviderModel → String
provider_model_id model = if is_empty_text model.id then unwrap_or "" model.model_name else model.id

-- `model.model_info.as_ref().and_then(|info| info.get(key))`
abbrev pub model_info : String → ProviderModel → Option Value
model_info key model = and_then model.model_info (get key)

unfoldable pub model_info_u64 : ProviderModel → String → Option ℕ
model_info_u64 model key = and_then (model_info key model) as_u64

unfoldable pub override_reasoning_levels : String → List String
override_reasoning_levels level =
    if level == "low"
    then "none" ∷ "low" ∷ []
    else if level == "medium"
    then "none" ∷ "medium" ∷ []
    else if level == "high" || level == ""
    then "none" ∷ "high" ∷ []
    else if level == "max"
    then "none" ∷ "high" ∷ "max" ∷ []
    else "none" ∷ []

unfoldable pub reasoning_effort_levels : ProviderModel → List String
reasoning_effort_levels model =
    elim (and_then (model_info "reasoning_effort_levels" model) as_array) [
      | none ↦ []
      | some levels ↦
          keep (λ level. not (is_empty_text level)) (map trim (filter_map as_str levels))
    ]

unfoldable pub effective_reasoning_effort_levels : ProviderModel → HashMap String → List String
effective_reasoning_effort_levels model overrides =
    elim (get_key (provider_model_id model) overrides) [
      | some level ↦ override_reasoning_levels level
      | none ↦ reasoning_effort_levels model
    ]

-- `levels.iter().any(|level| level != "none")`
abbrev pub has_effort : List String → Bool
has_effort levels = any (λ level. not (level == "none")) levels

abbrev info_flag : String → ProviderModel → Bool
info_flag key model = unwrap_or false (and_then (model_info key model) as_bool)

abbrev capabilities_of : Bool → List String → Value
capabilities_of supports_thinking effort_levels = obj (
    (
      "thinking",
      obj (
          ("supported", bool supports_thinking)
          ∷ ("types", obj (("enabled", obj (("supported", bool supports_thinking) ∷ [])) ∷ []))
          ∷ ("reasoning_effort_levels", array_of (map string effort_levels))
          ∷ []),
    )
    ∷ [])

unfoldable pub model_capabilities : ProviderModel → HashMap String → Value
model_capabilities model overrides = elim model.capabilities [
  | some capabilities ↦ capabilities
  | none ↦
      let effort_levels = effective_reasoning_effort_levels model overrides in
      let has_override = is_some (get_key (provider_model_id model) overrides) in
      capabilities_of
        (info_flag "supports_thinking" model
          || ((info_flag "supports_reasoning_effort" model || has_override)
              && has_effort effort_levels))
        effort_levels
]

unfoldable pub supports_reasoning_effort : ProviderModel → HashMap String → Bool
supports_reasoning_effort model overrides = elim (get_key (provider_model_id model) overrides) [
  | some level ↦ not (level == "none")
  | none ↦ info_flag "supports_reasoning_effort" model && has_effort (reasoning_effort_levels model)
]

-- `format!("{name}[{index}]")`
abbrev pub indexed : String → ℕ → String
indexed name index = concat (name ∷ "[" ∷ decimal index ∷ "]" ∷ [])

unfoldable pub alias_family : ProviderModel → HashMap String → String
alias_family model overrides =
    if supports_reasoning_effort model overrides
    then (if any (λ level. level == "max") (effective_reasoning_effort_levels model overrides)
        then "claude-opus-5"
        else "claude-sonnet-5")
    else "claude-haiku-4-5"

unfoldable pub model_alias : ProviderModel → ℕ → HashMap String → String
model_alias model index overrides = indexed (alias_family model overrides) index
