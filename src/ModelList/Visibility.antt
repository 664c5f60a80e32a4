-- ===== src/ModelList/Visibility.antt =====
-- `apply_model_visibility`: models are taken out of the list, with their routes and levels.
pub mod Consistent
pub mod Whole
use free_claude_desktop.Prelude.{
  String, Bool, true, List, [], ◌∷◌, map, unwrap_or, first, last, keep,
}
use free_claude_desktop.Settings.{HashMap, get_key}
use free_claude_desktop.Openai.{NormalizedModel, NormalizedModels}
use free_claude_desktop.ModelList.Order.{is_member}
use free_claude_desktop.ModelList.Normalize.{id_of, id_of_option}

abbrev pub is_visible : HashMap Bool → NormalizedModel → Bool
is_visible overrides model = unwrap_or true (get_key model.provider_model_id overrides)

-- `map.retain(|alias, _| aliases.contains(alias))`
abbrev pub retain_aliases {ℓ} : {V : Type ℓ} → List String → HashMap V → HashMap V
retain_aliases aliases m = keep (λ e. is_member e.0 aliases) m

unfoldable pub apply_model_visibility : NormalizedModels → HashMap Bool → NormalizedModels
apply_model_visibility models overrides =
    let visible = keep (is_visible overrides) models.content in
    let visible_aliases = map id_of visible in
    record models {
      content = visible;
      routes = retain_aliases visible_aliases models.routes;
      reasoning_effort_routes = retain_aliases visible_aliases models.reasoning_effort_routes;
      first_id = id_of_option (first visible);
      last_id = id_of_option (last visible);
    }
