-- ===== src/ModelList/Tests.antt =====
-- Runs of the theorems on a small list of models.
use free_claude_desktop.Prelude.{
  ◌≡◌, refl, ◌↔◌, ◌⊎◌, inl, inr, String, Bool, true, false, none, some, Option, List, [], ◌∷◌,
  arith, ok, length, ◌==◌, if◌then◌else◌, filter_option,
}
use free_claude_desktop.Prelude.Members.{Member}
use free_claude_desktop.Prelude.Sort.{sort_by, dedup_by}
use free_claude_desktop.Prelude.Texts.{strip_suffix}
use free_claude_desktop.Json.{Value, string, array_of, obj, get, get_str, get_field, insert}
use free_claude_desktop.Settings.{HashMap, get_key, Settings}
use free_claude_desktop.Settings.Sample.{settings_with}
use free_claude_desktop.Openai.{ProviderModel, NormalizedModel, NormalizedModels}
use free_claude_desktop.Request.Routes.{resolve_model_route, family_override_model, is_not_blank}
use free_claude_desktop.ModelList.Provider.{provider_model_id, is_free_model, model_priority}
use free_claude_desktop.ModelList.Order.{
  model_less, sort_and_dedup_models, filter_1m_variants, parse_provider_models, model_base_name,
}
use free_claude_desktop.ModelList.Order.Variants.{filter_1m_variants_iff, Has1m, IsAlone}
use free_claude_desktop.ModelList.Calendar.{days_from_civil, unix_secs_to_rfc3339}
use free_claude_desktop.ModelList.Calendar.Reference.{IsDate, day_number}
use free_claude_desktop.ModelList.Calendar.Reference.Stamps.{
  days_from_civil_iff, unix_secs_to_rfc3339_lem, second_number, date_time,
}
use free_claude_desktop.ModelList.Normalize.{
  normalized_model, selected_models, normalized_models,
  normalize_models_response_with_overrides_and_prefer1m,
}
use free_claude_desktop.ModelList.Normalize.Resolve.{resolve_model_route-normalize}
use free_claude_desktop.ModelList.Visibility.{apply_model_visibility, is_visible}
use free_claude_desktop.ModelList.Visibility.Consistent.{
  IsConsistent, apply_model_visibility-IsConsistent,
}
use free_claude_desktop.ModelList.Visibility.Whole.{normalize_models_response-IsConsistent}

abbrev model : String → ProviderModel
model id = record {
  id = id;
  model_name = none;
  name = none;
  model_info = none;
  capabilities = none;
  pricing = none;
  context_length = none;
  max_input_tokens = none;
  max_output_tokens = none;
  max_completion_tokens = none;
  created = none;
}

abbrev parsed : Option String → Option ProviderModel
parsed none = none
parsed (some id) = some (model id)

-- A reader that takes the identifier only.
abbrev from_value : Value → Option ProviderModel
from_value v = parsed (get_str "id" v)

abbrev response : Value
response = obj (
    (
      "data",
      array_of (
          obj (("id", string "vendor/large") ∷ [])
          ∷ obj (("id", string "vendor/small:free") ∷ [])
          ∷ []),
    )
    ∷ [])

abbrev switched : HashMap Bool
switched = ("vendor/large", true) ∷ []

abbrev listed : NormalizedModels
listed = normalized_models from_value response [] switched []

abbrev hidden : HashMap Bool
hidden = ("vendor/large", false) ∷ []

days_from_civil_iff_example :
    (days_from_civil 19797 ≡ some (2024, 3, 15))
    ↔ (IsDate 2024 3 15 × (day_number (2024, 3, 15) ≡ 19797))
days_from_civil_iff_example = days_from_civil_iff 19797 2024 3 15

leap_day : IsDate 2024 2 29
leap_day = record {
  year_from = omega arith;
  year_to = omega arith;
  month_from = omega arith;
  month_to = omega arith;
  day_from = omega arith;
  day_to = omega arith;
}

unix_secs_to_rfc3339_lem_example :
    unix_secs_to_rfc3339 (second_number (2024, 2, 29) 23 59 59)
    ≡ some (date_time (2024, 2, 29) 23 59 59)
unix_secs_to_rfc3339_lem_example =
    unix_secs_to_rfc3339_lem 2024 2 29 23 59 59 leap_day (omega arith) (omega arith) (omega arith)

abbrev variants : List ProviderModel
variants = model "large" ∷ model "large-1m" ∷ []

filter_1m_variants_iff_example :
    Member (model "large") (filter_1m_variants variants (("large-1m", true) ∷ [])) ↔ (
      Member (model "large") variants
      × (Has1m (("large-1m", true) ∷ []) (model "large")
          ⊎ IsAlone (("large-1m", true) ∷ []) variants (model "large")))
filter_1m_variants_iff_example =
    filter_1m_variants_iff (("large-1m", true) ∷ []) variants (model "large")

made :
    normalize_models_response_with_overrides_and_prefer1m from_value response [] switched []
    ≡ ok listed
unfolding normalize_models_response_with_overrides_and_prefer1m
made = refl

two : length (selected_models from_value response switched) ≡ 2
unfolding selected_models parse_provider_models sort_and_dedup_models sort_by dedup_by
    filter_1m_variants model_base_name strip_suffix get get_str get_field insert get_key
    provider_model_id is_free_model model_priority model_less
two = refl

normalize_models_response-IsConsistent_example : IsConsistent listed
normalize_models_response-IsConsistent_example =
    normalize_models_response-IsConsistent from_value response [] switched [] listed made
      (omega (arith, two))

abbrev large : NormalizedModel
large = normalized_model [] switched [] (1, model "vendor/large")

large_listed : Member large listed.content
unfolding selected_models parse_provider_models sort_and_dedup_models sort_by dedup_by
    filter_1m_variants model_base_name strip_suffix get get_str get_field insert get_key
    provider_model_id is_free_model model_priority model_less
large_listed = inr (inl refl)

abbrev routed : Settings
routed = settings_with listed.routes []

no_override : (family : String) → family_override_model routed family ≡ none
unfolding family_override_model
no_override family = blank (family == "sonnet") (family == "opus") (family == "haiku")
  where
    blank :
        (a b c : Bool)
        → filter_option is_not_blank
            (if a then none else if b then none else if c then none else none)
          ≡ none
    blank true b c = refl
    blank false true c = refl
    blank false false true = refl
    blank false false false = refl

resolve_model_route-normalize_example :
    resolve_model_route large.id routed ≡ some large.provider_model_id
resolve_model_route-normalize_example =
    resolve_model_route-normalize from_value response [] switched [] listed large routed made
      (omega (arith, two)) refl no_override large_listed

apply_model_visibility-IsConsistent_example :
    IsConsistent (apply_model_visibility listed hidden)
    × ((m : NormalizedModel)
        → Member m (apply_model_visibility listed hidden).content
          ↔ (Member m listed.content × (is_visible hidden m ≡ true)))
apply_model_visibility-IsConsistent_example = apply_model_visibility-IsConsistent listed hidden (
    normalize_models_response-IsConsistent from_value response [] switched [] listed made
      (omega (arith, two)))
