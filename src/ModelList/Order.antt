-- ===== src/ModelList/Order.antt =====
-- The order of the models, and the models that give way to their 1M variants.
pub mod Sorted
pub mod Variants
use free_claude_desktop.Prelude.{
  ℕ, String, Bool, true, false, not, ◌&&◌, ◌||◌, Option, none, some, List, [], ◌∷◌, ◌==◌,
  if◌then◌else◌, unwrap_or, ltb, eqb, any, is_empty, keep, map, filter_map, ◌or_else◌,
}
use free_claude_desktop.Prelude.Texts.{is_empty_text, strip_suffix}
use free_claude_desktop.Prelude.TextOrder.{text_less}
use free_claude_desktop.Prelude.Sort.{sort_by, dedup_by}
use free_claude_desktop.Json.{Value}
use free_claude_desktop.Settings.{HashMap, get_key}
use free_claude_desktop.Openai.{ProviderModel}
use free_claude_desktop.ModelList.Provider.{provider_model_id, model_priority}

-- `serde_json::from_value::<ProviderModel>` is a parameter: `none` stands for its error.
module _ (from_value : Value → Option ProviderModel) where
  abbrev parsed_model : Value → Option ProviderModel
  parsed_model item = elim (from_value item) [
    | none ↦ none
    | some model ↦ if is_empty_text (provider_model_id model) then none else some model
  ]

  unfoldable pub parse_provider_models : List Value → List ProviderModel
  parse_provider_models raw_data = filter_map parsed_model raw_data

abbrev sort_name : ProviderModel → String
sort_name model = unwrap_or (provider_model_id model) model.name

-- `a` is ordered before `b`: by the priority, then by the name.
unfoldable pub model_less : ProviderModel → ProviderModel → Bool
model_less a b =
    ltb (model_priority a) (model_priority b)
    || (eqb (model_priority a) (model_priority b) && text_less (sort_name a) (sort_name b))

unfoldable pub sort_and_dedup_models : List ProviderModel → List ProviderModel
sort_and_dedup_models models = sort_by model_less models

abbrev pub same_id : ProviderModel → ProviderModel → Bool
same_id a b = provider_model_id a == provider_model_id b

unfoldable pub model_base_name : String → String
model_base_name name = unwrap_or name (
    strip_suffix name "-1m"
    or_else strip_suffix name "-1M"
    or_else strip_suffix name " 1m"
    or_else strip_suffix name " 1M")

-- `overrides.get(pid).copied().unwrap_or(false)`
abbrev pub is_on : HashMap Bool → String → Bool
is_on overrides pid = unwrap_or false (get_key pid overrides)

-- The identifiers with 1M switched on; a hash set is the list of its members.
abbrev pub ids_1m : HashMap Bool → List ProviderModel → List String
ids_1m m1_overrides models = keep (is_on m1_overrides) (map provider_model_id models)

abbrev pub is_member : String → List String → Bool
is_member x xs = any (λ y. y == x) xs

abbrev pub is_kept : List String → List String → String → Bool
is_kept bases ids pid = not (is_member (model_base_name pid) bases) || is_member pid ids

unfoldable pub filter_1m_variants : List ProviderModel → HashMap Bool → List ProviderModel
filter_1m_variants models m1_overrides =
    let ids = ids_1m m1_overrides models in
    let bases = map model_base_name ids in
    if is_empty bases
    then models
    else keep (λ model. is_kept bases ids (provider_model_id model)) models
