-- ===== src/ModelList/Visibility/Whole.antt =====
-- The normalized list is consistent.
use free_claude_desktop.Prelude.{
  ℕ, ◌^◌, ◌≤◌, ◌≡◌, ◌≢◌, refl, subst, inl, inr, String, Bool, true, false, List, [], map, enumerate,
  length, Option, some, none, arith, ok, ok-injective, Option-cases, if◌then◌else◌, filter_map,
}
use free_claude_desktop.Prelude.Members.{Member, Member-map, filter_map-Member}
use free_claude_desktop.Json.{Value}
use free_claude_desktop.Settings.{HashMap, get_key, collect_map}
use free_claude_desktop.Settings.Insert.{found_in}
use free_claude_desktop.Openai.{ProviderModel, NormalizedModels}
use free_claude_desktop.ModelList.Provider.{
  supports_reasoning_effort, model_alias, effective_reasoning_effort_levels,
}
use free_claude_desktop.ModelList.Normalize.{
  normalized_model, effort_route, id_of, selected_models, normalized_models,
  normalize_models_response_with_overrides_and_prefer1m,
}
use free_claude_desktop.ModelList.Normalize.Routes.{normalize_models_response-routes}
use free_claude_desktop.ModelList.Visibility.Consistent.{IsConsistent}

pair_first :
    (b : Bool) (here : String × List String) {alias : String} {levels : List String}
    → (if b then some here else none) ≡ some (alias, levels)
    → here.0 ≡ alias
pair_first true here h = ground arith
pair_first false here h = cc

module _ (reasoning : HashMap String) (m1 prefer1m : HashMap Bool) where
  effort_alias :
      (from : ℕ × ProviderModel) (alias : String) (levels : List String)
      → effort_route reasoning from ≡ some (alias, levels)
      → (normalized_model reasoning m1 prefer1m from).id ≡ alias
  unfolding normalized_model
  effort_alias (i, model) alias levels h =
      pair_first (supports_reasoning_effort model reasoning)
        (model_alias model i reasoning, effective_reasoning_effort_levels model reasoning) h

  efforts_of :
      (models : List (ℕ × ProviderModel)) (alias : String)
      → get_key alias (collect_map (filter_map (effort_route reasoning) models) []) ≢ none
      → Member alias (map id_of (map (normalized_model reasoning m1 prefer1m) models))
  efforts_of models alias h =
      elim (Option-cases
        (get_key alias (collect_map (filter_map (effort_route reasoning) models) []))) [
          | inl gone ↦ absurd (h gone)
          | inr (levels, e) ↦
              let there = found_in alias levels (filter_map (effort_route reasoning) models) e in
              let (from, m, r) = filter_map-Member (effort_route reasoning) models there in
              subst
                (λ a. Member a (map id_of (map (normalized_model reasoning m1 prefer1m) models)))
                (effort_alias from alias levels r)
                (Member-map id_of _ _
                  (Member-map (normalized_model reasoning m1 prefer1m) models from m))
        ]

module _ (from_value : Value → Option ProviderModel) where
  -- The normalized list of at most 2 ^ 64 models is consistent: an alias is routed to an upstream
  -- identifier exactly when a listed model has that alias and that identifier, only aliases of
  -- listed models have levels of reasoning effort, and the first and last identifiers are those
  -- of the list.
  pub normalize_models_response-IsConsistent :
      (provider_response : Value) (reasoning : HashMap String) (m1 prefer1m : HashMap Bool)
      (models : NormalizedModels)
      → normalize_models_response_with_overrides_and_prefer1m from_value provider_response reasoning
          m1 prefer1m
        ≡ ok models
      → length (selected_models from_value provider_response m1) ≤ 2 ^ 64
      → IsConsistent models
  unfolding normalize_models_response_with_overrides_and_prefer1m
  normalize_models_response-IsConsistent response reasoning m1 prefer1m models h small =
      subst IsConsistent (ok-injective h) (record {
        routes_iff = λ alias pid.
            normalize_models_response-routes from_value response reasoning m1 prefer1m
              (normalized_models from_value response reasoning m1 prefer1m) alias pid refl small;
        efforts_of =
            efforts_of reasoning m1 prefer1m (enumerate 0 (selected_models from_value response m1));
        first_of = refl;
        last_of = refl;
      })
