-- ===== src/ModelList/Normalize/Bounds.antt =====
-- A model is marked with 1M exactly when its window is at least a million tokens.
use free_claude_desktop.Prelude.{
  ℕ, ◌≤◌, ◌≡◌, refl, sym, subst, ◌↔◌, inl, inr, String, true, false, enumerate, Bool, Option, some,
  none, arith, ok, ok-injective, Bool-cases, leb, if◌then◌else◌, unwrap_or, ◌||◌,
}
use free_claude_desktop.Prelude.Members.{Member, map-Member}
use free_claude_desktop.Json.{Value}
use free_claude_desktop.Settings.{HashMap}
use free_claude_desktop.Openai.{ProviderModel, NormalizedModel, NormalizedModels}
use free_claude_desktop.ModelList.Provider.{provider_model_id}
use free_claude_desktop.ModelList.Order.{is_on}
use free_claude_desktop.ModelList.Normalize.{
  normalized_model, selected_models, normalize_models_response_with_overrides_and_prefer1m, is_1m,
  max_input, raw_max_input, is_million, at_least_million,
}

abbrev pub IsWide : NormalizedModel → Type 0
IsWide model = (tokens : ℕ) × (model.max_input_tokens ≡ some tokens) × (1000000 ≤ tokens)

window :
    (m1 : HashMap Bool) (model : ProviderModel)
    → ((if is_1m m1 model then some true else none) ≡ some true)
      ↔ ((tokens : ℕ) × (max_input m1 model ≡ some tokens) × (1000000 ≤ tokens))
window m1 model = go (is_on m1 (provider_model_id model)) (raw_max_input model)
  where
    go :
        (on : Bool) (raw : Option ℕ)
        → ((if on || is_million raw then some true else none) ≡ some true) ↔ (
            (tokens : ℕ) × ((if on || is_million raw
                then some (at_least_million (unwrap_or 200000 raw))
                else raw)
              ≡ some tokens)
            × (1000000 ≤ tokens))
    go true none = (λ h. (1000000, refl, omega arith), λ w. refl)
    go true (some n) = (λ h. (at_least_million n, refl, ground arith), λ w. refl)
    go false none = (λ h. cc, λ (n, e, w). cc)
    go false (some n) = elim (Bool-cases (leb 1000000 n)) [
      | inl wide ↦ rw wide (λ h. (at_least_million n, refl, ground arith), λ w. refl)
      | inr narrow ↦ rw narrow (λ h. cc, λ (k, e, w). absurd (ground arith))
    ]

-- A model of the normalized list is marked with 1M exactly when its window is at least a million
-- tokens.
normalize_models_response-1m :
    (from_value : Value → Option ProviderModel) (provider_response : Value)
    (reasoning : HashMap String) (m1 prefer1m : HashMap Bool) (models : NormalizedModels)
    (model : NormalizedModel)
    → normalize_models_response_with_overrides_and_prefer1m from_value provider_response reasoning
        m1 prefer1m
      ≡ ok models
    → Member model models.content
    → (model.supports1m ≡ some true) ↔ IsWide model
unfolding normalize_models_response_with_overrides_and_prefer1m normalized_model
normalize_models_response-1m from_value response reasoning m1 prefer1m models model h m =
    let (from, there, e) =
      map-Member (normalized_model reasoning m1 prefer1m)
        (enumerate 0 (selected_models from_value response m1)) model
        (subst (λ ms. Member model ms.content) (sym (ok-injective h)) m) in
    subst (λ x. (x.supports1m ≡ some true) ↔ IsWide x) (sym e) (window m1 from.1)
