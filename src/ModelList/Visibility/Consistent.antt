-- ===== src/ModelList/Visibility/Consistent.antt =====
-- A list of models and the maps that belong to it agree, before and after models are hidden.
use free_claude_desktop.Prelude.{
  ◌≡◌, ◌≢◌, refl, sym, ap, subst, ◌∙◌, ◌↔◌, inl, inr, String, Bool, true, false, List, map, Option,
  some, none, arith, Bool-cases, Option-cases, if◌then◌else◌, keep, first, last, ◌==◌, eq_iff,
  eq_refl,
}
use free_claude_desktop.Prelude.Members.{
  Member, map-Member, Member-map, keep-Member, Member-keep, any_iff-Member, any_of_Member,
}
use free_claude_desktop.Settings.{HashMap, get_key}
use free_claude_desktop.Settings.Insert.{get_key-keep}
use free_claude_desktop.Openai.{NormalizedModel, NormalizedModels}
use free_claude_desktop.ModelList.Order.{is_member}
use free_claude_desktop.ModelList.Normalize.{route_of, id_of, id_of_option}
use free_claude_desktop.ModelList.Visibility.{apply_model_visibility, is_visible}

pub record IsConsistent (models : NormalizedModels) : Type 0 where
  -- The routes are those of the models.
  pub routes_iff :
      (alias pid : String)
      → (get_key alias models.routes ≡ some pid)
        ↔ Member {A = String × String} (alias, pid) (map route_of models.content)
  -- Only a model of the list has levels of reasoning effort.
  pub efforts_of :
      (alias : String)
      → get_key alias models.reasoning_effort_routes ≢ none
      → Member alias (map id_of models.content)
  pub first_of : models.first_id ≡ id_of_option (first models.content)
  pub last_of : models.last_id ≡ id_of_option (last models.content)

module _ (overrides : HashMap Bool) (models : NormalizedModels) where
  abbrev shown : List NormalizedModel
  shown = keep (is_visible overrides) models.content

  is_member_iff :
      (alias : String) (aliases : List String)
      → (is_member alias aliases ≡ true) ↔ Member alias aliases
  is_member_iff alias aliases = (
    λ h.
        let (x, m, e) = any_iff-Member (λ y. y == alias) aliases h in
        subst (λ y. Member y aliases) ((eq_iff x alias).0 e) m,
    λ m. any_of_Member (λ y. y == alias) aliases m (eq_refl alias),
  )

  module _ {V : Type 0} (m : HashMap V) (alias : String) where
    lookup :
        (b : Bool)
        → is_member alias (map id_of shown) ≡ b
        → get_key alias (keep (λ e. is_member e.0 (map id_of shown)) m)
          ≡ (if b then get_key alias m else none)
    lookup b h =
        get_key-keep (λ k. is_member k (map id_of shown)) alias m
        ∙ ap (λ t. if t then get_key alias m else none) h

    found :
        (v : V)
        → get_key alias (keep (λ e. is_member e.0 (map id_of shown)) m) ≡ some v
        → Member alias (map id_of shown) × (get_key alias m ≡ some v)
    found v h = elim (Bool-cases (is_member alias (map id_of shown))) [
      | inl stays ↦ ((is_member_iff alias (map id_of shown)).0 stays, sym (lookup true stays) ∙ h)
      | inr goes ↦ cc (lookup false goes, h)
    ]

    found_of :
        (v : V)
        → Member alias (map id_of shown)
        → get_key alias m ≡ some v
        → get_key alias (keep (λ e. is_member e.0 (map id_of shown)) m) ≡ some v
    found_of v there h = lookup true ((is_member_iff alias (map id_of shown)).1 there) ∙ h

  -- An alias that is shown is the alias of a model that is shown.
  alias_shown :
      IsConsistent models
      → (alias pid : String) → Member alias (map id_of shown)
      → get_key alias models.routes ≡ some pid
      → Member {A = String × String} (alias, pid) (map route_of shown)
  alias_shown c alias pid m h =
      let (model, there, e) = map-Member id_of shown alias m in
      let inside = (keep-Member (is_visible overrides) models.content there).0 in
      let same =
        (c.routes_iff model.id model.provider_model_id).1
          (Member-map route_of models.content model inside) in
      let here : ◌≡◌ {A = Option String} (some model.provider_model_id) (some pid) =
        sym same ∙ ap (λ a. get_key a models.routes) (sym e) ∙ h in
      subst (λ r. Member {A = String × String} r (map route_of shown)) (ground (arith, e, here))
        (Member-map route_of shown model there)

  routes_kept :
      IsConsistent models
      → (alias pid : String)
      → (get_key alias (apply_model_visibility models overrides).routes ≡ some pid)
        ↔ Member {A = String × String} (alias, pid) (map route_of shown)
  unfolding apply_model_visibility
  routes_kept c alias pid = (
    λ h. let (m, old) = found models.routes alias pid h in alias_shown c alias pid m old,
    λ m.
        let (model, there, e) = map-Member route_of shown (alias, pid) m in
        let inside = (keep-Member (is_visible overrides) models.content there).0 in
        let old = (c.routes_iff alias pid).1 (
          subst (λ r. Member {A = String × String} r (map route_of models.content)) (sym e)
            (Member-map route_of models.content model inside)) in
        found_of models.routes alias pid
          (subst (λ r. Member r.0 (map id_of shown)) (sym e) (Member-map id_of shown model there))
          old,
  )

  efforts_kept :
      (alias : String)
      → get_key alias (apply_model_visibility models overrides).reasoning_effort_routes ≢ none
      → Member alias (map id_of shown)
  unfolding apply_model_visibility
  efforts_kept alias h =
      elim (Option-cases (
        get_key alias
          (keep (λ e. is_member e.0 (map id_of shown)) models.reasoning_effort_routes))) [
            | inl gone ↦ absurd (h gone)
            | inr (levels, e) ↦ (found models.reasoning_effort_routes alias levels e).0
          ]

-- Hiding models keeps a list consistent with its routes, levels and first and last identifiers,
-- and leaves exactly the models that are not switched off.
pub apply_model_visibility-IsConsistent :
    (models : NormalizedModels) (overrides : HashMap Bool)
    → IsConsistent models
    → IsConsistent (apply_model_visibility models overrides)
      × ((model : NormalizedModel)
          → Member model (apply_model_visibility models overrides).content
            ↔ (Member model models.content × (is_visible overrides model ≡ true)))
unfolding apply_model_visibility
apply_model_visibility-IsConsistent models overrides c = (
  record {
    routes_iff = routes_kept overrides models c;
    efforts_of = efforts_kept overrides models;
    first_of = refl;
    last_of = refl;
  },
  λ model. (
    keep-Member (is_visible overrides) models.content,
    λ (m, v). Member-keep (is_visible overrides) models.content m v,
  ),
)
