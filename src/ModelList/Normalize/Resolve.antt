-- ===== src/ModelList/Normalize/Resolve.antt =====
-- A request for a model of the list goes to the upstream model that it stands for.
use free_claude_desktop.Prelude.{
  ◌^◌, ◌≤◌, ◌≡◌, refl, sym, ap, subst, ◌∙◌, String, false, enumerate, length, Bool, Option, some,
  none, ok, ok-injective,
}
use free_claude_desktop.Prelude.Members.{Member, Member-map, map-Member}
use free_claude_desktop.Prelude.Texts.{is_empty_text, to_ascii_lowercase}
use free_claude_desktop.Json.{Value}
use free_claude_desktop.Settings.{HashMap, get_key, Settings}
use free_claude_desktop.Openai.{ProviderModel, NormalizedModel, NormalizedModels}
use free_claude_desktop.Request.Effort.{base_model_alias}
use free_claude_desktop.Request.Routes.{
  resolve_model_route, family_override_model, try_family_override, try_exact_routes, detect_family,
}
use free_claude_desktop.ModelList.Normalize.{
  normalized_model, route_of, selected_models,
  normalize_models_response_with_overrides_and_prefer1m,
}
use free_claude_desktop.ModelList.Normalize.Aliases.{model_alias-not_empty}
use free_claude_desktop.ModelList.Normalize.Routes.{normalize_models_response-routes}

no_override :
    (settings : Settings) (family : Option String)
    → ((family : String) → family_override_model settings family ≡ none)
    → try_family_override settings family ≡ none
unfolding try_family_override
no_override settings none h = refl
no_override settings (some family) h = h family

exact_first :
    (settings : Settings) (alias pid : String)
    → get_key alias settings.models.real_model_routes ≡ some pid
    → try_exact_routes alias (base_model_alias alias) settings ≡ some pid
unfolding try_exact_routes
exact_first settings alias pid h = rw h refl

resolve_listed :
    (settings : Settings) (alias pid : String)
    → is_empty_text alias ≡ false
    → ((family : String) → family_override_model settings family ≡ none)
    → get_key alias settings.models.real_model_routes ≡ some pid
    → resolve_model_route alias settings ≡ some pid
unfolding resolve_model_route
resolve_listed settings alias pid named none_there h =
    rw
      (
        named,
        no_override settings (detect_family (to_ascii_lowercase alias)) none_there,
        exact_first settings alias pid h,
      )
      refl

module _ (from_value : Value → Option ProviderModel) where
  content-not_empty :
      (response : Value) (reasoning : HashMap String) (m1 prefer1m : HashMap Bool)
      (models : NormalizedModels) (model : NormalizedModel)
      → normalize_models_response_with_overrides_and_prefer1m from_value response reasoning m1
          prefer1m
        ≡ ok models
      → Member model models.content
      → is_empty_text model.id ≡ false
  unfolding normalize_models_response_with_overrides_and_prefer1m normalized_model
  content-not_empty response reasoning m1 prefer1m models model h m =
      let (from, there, e) =
        map-Member (normalized_model reasoning m1 prefer1m)
          (enumerate 0 (selected_models from_value response m1)) model
          (subst (λ ms. Member model ms.content) (sym (ok-injective h)) m) in
      ap (λ x. is_empty_text x.id) e ∙ model_alias-not_empty from.1 from.0 reasoning

  -- If the routes of the settings are those of a normalized list of at most 2 ^ 64 models, and no
  -- family has a model of its own, then a request for the alias of a listed model resolves to its
  -- upstream model.
  pub resolve_model_route-normalize :
      (provider_response : Value) (reasoning : HashMap String) (m1 prefer1m : HashMap Bool)
      (models : NormalizedModels) (model : NormalizedModel) (settings : Settings)
      → normalize_models_response_with_overrides_and_prefer1m from_value provider_response reasoning
          m1 prefer1m
        ≡ ok models
      → length (selected_models from_value provider_response m1) ≤ 2 ^ 64
      → settings.models.real_model_routes ≡ models.routes
      → ((family : String) → family_override_model settings family ≡ none)
      → Member model models.content
      → resolve_model_route model.id settings ≡ some model.provider_model_id
  resolve_model_route-normalize response reasoning m1 prefer1m models model settings h small routes
        none_there m =
      let found =
        (normalize_models_response-routes from_value response reasoning m1 prefer1m models model.id
            model.provider_model_id h small).1
          (Member-map route_of models.content model m) in
      resolve_listed settings model.id model.provider_model_id
        (content-not_empty response reasoning m1 prefer1m models model h m) none_there
        (ap (get_key model.id) routes ∙ found)
