-- ===== src/ModelList/Normalize/Routes.antt =====
-- The routes of the normalized models lead from the aliases to the upstream identifiers.
use free_claude_desktop.Prelude.{
  ℕ, suc, ◌+◌, ◌^◌, ◌<◌, ◌≤◌, ◌≡◌, ◌≢◌, subst, ◌↔◌, String, [], ◌∷◌, List, map, enumerate, All,
  length, Bool, Option, some, arith, ok, ok-injective,
}
use free_claude_desktop.Prelude.Members.{Member}
use free_claude_desktop.Json.{Value}
use free_claude_desktop.Settings.{HashMap, HasDistinctKeys, get_key}
use free_claude_desktop.Settings.Insert.{collect_map_iff}
use free_claude_desktop.Openai.{ProviderModel, NormalizedModels}
use free_claude_desktop.ModelList.Provider.{model_alias}
use free_claude_desktop.ModelList.Normalize.{
  normalized_model, route_of, selected_models,
  normalize_models_response_with_overrides_and_prefer1m,
}
use free_claude_desktop.ModelList.Normalize.Aliases.{model_alias-injective}

module _ (reasoning : HashMap String) (m1 prefer1m : HashMap Bool) where
  abbrev routes_from : ℕ → List ProviderModel → List (String × String)
  routes_from n models =
      map route_of (map (normalized_model reasoning m1 prefer1m) (enumerate n models))

  later_differ :
      (i j : ℕ) (a : ProviderModel) (models : List ProviderModel)
      → i < j
      → j + length models ≤ 2 ^ 64
      → All (λ e. e.0 ≢ model_alias a i reasoning) (routes_from j models)
  unfolding normalized_model
  later_differ i j a [] before small = tt
  later_differ i j a (b ∷ models) before small = (
    λ e.
        absurd
          (omega (arith, model_alias-injective b a j i reasoning (omega arith) (omega arith) e)),
    later_differ i (suc j) a models (omega arith) (omega arith),
  )

  pub routes_from-HasDistinctKeys :
      (n : ℕ) (models : List ProviderModel)
      → n + length models ≤ 2 ^ 64
      → HasDistinctKeys (routes_from n models)
  unfolding normalized_model
  routes_from-HasDistinctKeys n [] small = tt
  routes_from-HasDistinctKeys n (a ∷ models) small = (
    later_differ n (suc n) a models (omega arith) (omega arith),
    routes_from-HasDistinctKeys (suc n) models (omega arith),
  )

module _ (from_value : Value → Option ProviderModel) where
  --
  pub normalize_models_response-routes :
      (provider_response : Value) (reasoning : HashMap String) (m1 prefer1m : HashMap Bool)
      (models : NormalizedModels) (alias provider_model_id : String)
      → normalize_models_response_with_overrides_and_prefer1m from_value provider_response reasoning
          m1 prefer1m
        ≡ ok models
      → length (selected_models from_value provider_response m1) ≤ 2 ^ 64
      → (get_key alias models.routes ≡ some provider_model_id)
        ↔ Member {A = String × String} (alias, provider_model_id) (map route_of models.content)
  unfolding normalize_models_response_with_overrides_and_prefer1m
  normalize_models_response-routes response reasoning m1 prefer1m models alias pid h small =
      subst
        (λ ms.
          (get_key alias ms.routes ≡ some pid)
          ↔ Member {A = String × String} (alias, pid) (map route_of ms.content))
        (ok-injective h)
        (collect_map_iff alias pid
          (routes_from reasoning m1 prefer1m 0 (selected_models from_value response m1))
          (routes_from-HasDistinctKeys reasoning m1 prefer1m 0
            (selected_models from_value response m1) (omega arith)))
