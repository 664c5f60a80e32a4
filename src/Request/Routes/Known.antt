-- ===== src/Request/Routes/Known.antt =====
-- A resolved model is one that the settings name.
use free_claude_desktop.Prelude.{
  String, ◌≡◌, sym, ◌∙◌, inl, inr, Bool, true, false, Option, none, some, List, [], ◌∷◌, arith,
  ◌==◌, ◌||◌, eq_iff, if◌then◌else◌, and_then-eq-some, filter_option, Bool-cases, ◌or_else◌, first,
  any,
}
use mathlib.Core.Path.{subst}
use free_claude_desktop.Prelude.Texts.{is_empty_text, to_ascii_lowercase}
use free_claude_desktop.Prelude.Members.{Member, Member-map, keep-Member, any_iff-Member}
use free_claude_desktop.Prelude.TextOrder.{text_less}
use free_claude_desktop.Prelude.Minimum.{min_by-Any}
use free_claude_desktop.Settings.{get_key, Settings}
use free_claude_desktop.Settings.Maps.{get_key-Member}
use free_claude_desktop.Request.Effort.{base_model_alias}
use free_claude_desktop.Request.Routes.{
  Entry, detect_family, family_override_model, try_family_override, try_exact_routes,
  try_discovered_direct, extract_bracket_inner, try_bracket_inner_route, fuzzy_from,
  try_fuzzy_family, fallback_global_model, safety_net_route, values, resolve_model_route,
  is_not_blank,
}
use free_claude_desktop.Request.Routes.Order.{key_less, of_family, fuzzy_from-eq-min_by}

or_else-elim :
    {P : Type 0} (a b : Option String) {m : String}
    → (a ≡ some m → P)
    → (b ≡ some m → P)
    → (a or_else b) ≡ some m
    → P
or_else-elim none b f g h = g h
or_else-elim (some x) b f g h = f h

if-eq-some :
    (b : Bool) (o : Option String) {m : String} → (if b then o else none) ≡ some m → o ≡ some m
if-eq-some true o h = h
if-eq-some false o h = cc

first-Member : (xs : List String) {m : String} → first xs ≡ some m → Member m xs
first-Member [] h = cc
first-Member (x ∷ xs) h = inl (ground arith)

filter_option-eq-some :
    (p : String → Bool) (o : Option String) {m : String} → filter_option p o ≡ some m → o ≡ some m
filter_option-eq-some p none h = cc
filter_option-eq-some p (some x) h = ground arith

-- The sources of a model: the values of the routes, the discovered models, the four configured
-- ones, and the base name of a discovered 1M variant that was asked for.
pub data IsKnown (settings : Settings) (requested m : String) : Type 0 where
  routed : Member m (values settings.models.real_model_routes) → IsKnown settings requested m
  discovered : Member m settings.models.discovered_models → IsKnown settings requested m
  global : settings.models.real_model ≡ some m → IsKnown settings requested m
  sonnet : settings.models.real_model_sonnet ≡ some m → IsKnown settings requested m
  opus : settings.models.real_model_opus ≡ some m → IsKnown settings requested m
  haiku : settings.models.real_model_haiku ≡ some m → IsKnown settings requested m
  base_of :
      m ≡ base_model_alias requested
      → Member requested settings.models.discovered_models
      → IsKnown settings requested m

abbrev asked : String → String → Bool
asked requested d = d == requested || d == base_model_alias requested

module _ (settings : Settings) (requested : String) {m : String} where
  get_key-IsKnown :
      (k : String)
      → get_key k settings.models.real_model_routes ≡ some m
      → IsKnown settings requested m
  get_key-IsKnown k h = routed (
      Member-map (λ (e : Entry). e.1) settings.models.real_model_routes (k, m)
        (get_key-Member settings.models.real_model_routes k m h))

  by_family :
      (a b c : Bool)
      → (if a
          then settings.models.real_model_sonnet
          else if b
          then settings.models.real_model_opus
          else if c
          then settings.models.real_model_haiku
          else none)
        ≡ some m
      → IsKnown settings requested m
  by_family true b c h = sonnet h
  by_family false true c h = opus h
  by_family false false true h = haiku h
  by_family false false false h = cc

  override-IsKnown :
      (family : Option String)
      → try_family_override settings family ≡ some m
      → IsKnown settings requested m
  unfolding try_family_override family_override_model
  override-IsKnown none h = cc
  override-IsKnown (some family) h = by_family _ _ _ (filter_option-eq-some is_not_blank _ h)

  exact-IsKnown :
      try_exact_routes requested (base_model_alias requested) settings ≡ some m
      → IsKnown settings requested m
  unfolding try_exact_routes
  exact-IsKnown h =
      or_else-elim _ _ (get_key-IsKnown requested) (get_key-IsKnown (base_model_alias requested)) h

  direct-IsKnown :
      try_discovered_direct requested (base_model_alias requested) settings ≡ some m
      → IsKnown settings requested m
  unfolding try_discovered_direct
  direct-IsKnown h = elim (Bool-cases (any (asked requested) settings.models.discovered_models)) [
    | inl found ↦
        let (d, listed, test) =
          any_iff-Member (asked requested) settings.models.discovered_models found in
        elim (Bool-cases (d == requested)) [
          | inl exact ↦ base_of (ground arith) (
              subst (λ x. Member x settings.models.discovered_models) ((eq_iff d requested).0 exact)
                listed)
          | inr other ↦ discovered (
              subst (λ x. Member x settings.models.discovered_models)
                (ground (arith, eq_iff d (base_model_alias requested))) listed)
        ]
    | inr missing ↦ ground arith
  ]

  bracket-IsKnown :
      try_bracket_inner_route (base_model_alias requested) settings ≡ some m
      → IsKnown settings requested m
  unfolding try_bracket_inner_route
  bracket-IsKnown h =
      let (inner, _, e) =
        and_then-eq-some (extract_bracket_inner (base_model_alias requested)) _ h in
      elim (Bool-cases (any (λ d. d == inner) settings.models.discovered_models)) [
        | inl found ↦
            let (d, listed, test) =
              any_iff-Member (λ d. d == inner) settings.models.discovered_models found in
            discovered (
              subst (λ x. Member x settings.models.discovered_models)
                (ground (arith, eq_iff d inner)) listed)
        | inr missing ↦ get_key-IsKnown inner (ground arith)
      ]

  fuzzy-IsKnown :
      (family : Option String)
      → try_fuzzy_family family settings ≡ some m
      → IsKnown settings requested m
  unfolding try_fuzzy_family
  fuzzy-IsKnown none h = cc
  fuzzy-IsKnown (some fam) h =
      let (best, least, e) =
        and_then-eq-some (fuzzy_from fam none settings.models.real_model_routes) _ h in
      let kept = min_by-Any key_less _ (sym (fuzzy_from-eq-min_by fam _) ∙ least) in
      let (listed, _) = keep-Member (of_family fam) settings.models.real_model_routes kept in
      routed (
        subst (λ x. Member x (values settings.models.real_model_routes)) (ground arith)
          (Member-map (λ (e : Entry). e.1) settings.models.real_model_routes best listed))

  fallback-IsKnown : fallback_global_model settings ≡ some m → IsKnown settings requested m
  unfolding fallback_global_model
  fallback-IsKnown h = global (filter_option-eq-some is_not_blank settings.models.real_model h)

  net-IsKnown : safety_net_route requested settings ≡ some m → IsKnown settings requested m
  unfolding safety_net_route
  net-IsKnown h =
      or_else-elim _ _
        (λ least. routed (min_by-Any text_less (values settings.models.real_model_routes) least))
        (λ head. discovered (first-Member settings.models.discovered_models head))
        (if-eq-some _ _ h)

  -- Every model that the resolution gives comes from the settings: a value of the routes, a
  -- discovered model, one of the four configured models, or the base name of the request where
  -- the request itself is a discovered model.
  pub resolve_model_route-IsKnown :
      resolve_model_route requested settings ≡ some m → IsKnown settings requested m
  unfolding resolve_model_route
  resolve_model_route-IsKnown h = elim (Bool-cases (is_empty_text requested)) [
    | inl blank ↦ fallback-IsKnown (rw blank at h)
    | inr named ↦
        or_else-elim _ _ (override-IsKnown (detect_family (to_ascii_lowercase requested)))
          (or_else-elim _ _ exact-IsKnown (
            or_else-elim _ _ direct-IsKnown (
              or_else-elim _ _ bracket-IsKnown (
                or_else-elim _ _ (fuzzy-IsKnown (detect_family (to_ascii_lowercase requested)))
                  (or_else-elim _ _ fallback-IsKnown net-IsKnown)))))
          (rw named at h)
  ]
