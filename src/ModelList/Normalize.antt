-- ===== src/ModelList/Normalize.antt =====
-- `normalize_models_response`: the models of the upstream as the desktop is to show them, the
-- routes from their aliases, and the levels of reasoning effort of the aliases.
pub mod Aliases
pub mod Routes
pub mod Resolve
pub mod Bounds
use free_claude_desktop.Prelude.{
  ℕ, suc, String, Bool, true, false, not, ◌&&◌, ◌||◌, Option, none, some, List, [], ◌∷◌, map, ◌==◌,
  if◌then◌else◌, and_then, unwrap_or, leb, first, last, filter_map, enumerate, ◌or_else◌, ltb,
  Result, ok,
}
use free_claude_desktop.Json.{Value, get, as_array}
use free_claude_desktop.Settings.{HashMap, get_key, collect_map}
use free_claude_desktop.Openai.{
  ProviderModel, NormalizedModel, NormalizedModels, InferenceModel, default_transport_type,
}
use free_claude_desktop.ModelList.Provider.{
  provider_model_id, model_info_u64, model_alias, supports_reasoning_effort,
  effective_reasoning_effort_levels, model_capabilities,
}
use free_claude_desktop.ModelList.Order.{
  parse_provider_models, sort_and_dedup_models, same_id, filter_1m_variants, is_on,
}
use free_claude_desktop.ModelList.Calendar.{unix_secs_to_rfc3339}
use free_claude_desktop.Prelude.Sort.{dedup_by}

abbrev pub raw_max_input : ProviderModel → Option ℕ
raw_max_input model =
    model.max_input_tokens
    or_else model_info_u64 model "max_input_tokens"
    or_else model.context_length

abbrev pub max_output : ProviderModel → Option ℕ
max_output model =
    model.max_output_tokens
    or_else model_info_u64 model "max_output_tokens"
    or_else model.max_completion_tokens

abbrev pub is_million : Option ℕ → Bool
is_million none = false
is_million (some tokens) = leb 1000000 tokens

abbrev pub is_1m : HashMap Bool → ProviderModel → Bool
is_1m m1_overrides model =
    is_on m1_overrides (provider_model_id model) || is_million (raw_max_input model)

abbrev pub at_least_million : ℕ → ℕ
at_least_million tokens = if ltb tokens 1000000 then 1000000 else tokens

abbrev pub max_input : HashMap Bool → ProviderModel → Option ℕ
max_input m1_overrides model =
    if is_1m m1_overrides model
    then some (at_least_million (unwrap_or 200000 (raw_max_input model)))
    else raw_max_input model

abbrev pub created_at : ProviderModel → String
created_at model =
    unwrap_or "1970-01-01T00:00:00.000Z" (and_then model.created unix_secs_to_rfc3339)

module _ (reasoning_overrides : HashMap String)
    (m1_overrides prefer1m_overrides : HashMap Bool) where
  -- The body of the closure: the model at its index.
  unfoldable pub normalized_model : ℕ × ProviderModel → NormalizedModel
  normalized_model (index, model) =
      let pid = provider_model_id model in
      let display_name = unwrap_or pid model.name in
      record {
        kind = "model";
        id = model_alias model index reasoning_overrides;
        name = display_name;
        display_name = display_name;
        created_at = created_at model;
        provider_model_id = pid;
        max_input_tokens = max_input m1_overrides model;
        max_tokens = max_output model;
        capabilities = model_capabilities model reasoning_overrides;
        supports1m = if is_1m m1_overrides model then some true else none;
        prefer1m = if is_1m m1_overrides model then get_key pid prefer1m_overrides else none;
      }

-- What the closure inserts into the levels of the aliases.
abbrev pub effort_route : HashMap String → ℕ × ProviderModel → Option (String × List String)
effort_route reasoning_overrides (index, model) =
    if supports_reasoning_effort model reasoning_overrides
    then some (
      model_alias model index reasoning_overrides,
      effective_reasoning_effort_levels model reasoning_overrides,
    )
    else none

abbrev pub route_of : NormalizedModel → String × String
route_of model = (model.id, model.provider_model_id)

abbrev pub id_of : NormalizedModel → String
id_of model = model.id

-- `option.map(|model| model.id.clone())`
abbrev pub id_of_option : Option NormalizedModel → Option String
id_of_option none = none
id_of_option (some model) = some model.id

-- `serde_json::from_value::<ProviderModel>` is a parameter.
module _ (from_value : Value → Option ProviderModel) where
  -- The models in their order, without those that give way.
  unfoldable pub selected_models : Value → HashMap Bool → List ProviderModel
  selected_models provider_response m1_overrides =
      let raw_data = unwrap_or [] (and_then (get "data" provider_response) as_array) in
      let models = sort_and_dedup_models (parse_provider_models from_value raw_data) in
      filter_1m_variants (dedup_by same_id models) m1_overrides

  abbrev pub normalized_models :
      Value → HashMap String → HashMap Bool → HashMap Bool → NormalizedModels
  normalized_models provider_response reasoning m1 prefer1m =
      let models = enumerate 0 (selected_models provider_response m1) in
      let data_models = map (normalized_model reasoning m1 prefer1m) models in
      record {
        content = data_models;
        has_more = false;
        first_id = id_of_option (first data_models);
        last_id = id_of_option (last data_models);
        routes = collect_map (map route_of data_models) [];
        reasoning_effort_routes = collect_map (filter_map (effort_route reasoning) models) [];
      }

  -- No error is ever returned.
  unfoldable pub normalize_models_response_with_overrides_and_prefer1m :
      Value → HashMap String → HashMap Bool → HashMap Bool → Result NormalizedModels String
  normalize_models_response_with_overrides_and_prefer1m provider_response reasoning m1 prefer1m =
      ok (normalized_models provider_response reasoning m1 prefer1m)

  unfoldable pub normalize_models_response_with_overrides :
      Value → HashMap String → HashMap Bool → Result NormalizedModels String
  normalize_models_response_with_overrides provider_response reasoning m1 =
      normalize_models_response_with_overrides_and_prefer1m provider_response reasoning m1 []

  unfoldable pub normalize_models_response : Value → Result NormalizedModels String
  normalize_models_response provider_response =
      normalize_models_response_with_overrides provider_response [] []

abbrev inference_model : NormalizedModel → InferenceModel
inference_model model = record {
  name = model.id;
  label_override = model.name;
  provider_model_id = model.provider_model_id;
  display_name = model.display_name;
  max_input_tokens = model.max_input_tokens;
  max_tokens = model.max_tokens;
  capabilities = model.capabilities;
  supports1m = model.supports1m;
  prefer1m = model.prefer1m;
  transport_type = default_transport_type;
}

unfoldable pub build_inference_models : List NormalizedModel → List InferenceModel
build_inference_models models = map inference_model models
