-- ===== src/Request/Routes/Net.antt =====
-- The safety net: a bracketed or indexed alias is never left unresolved while a model is at hand.
use free_claude_desktop.Prelude.{
  String, ◌≡◌, ◌≢◌, refl, ◌⊎◌, inl, inr, true, false, Option, none, some, List, [], ◌∷◌, ◌&&◌, ◌||◌,
  ◌or_else◌, first,
}
use free_claude_desktop.Prelude.Texts.{contains, is_empty_text, to_ascii_lowercase}
use free_claude_desktop.Request.Effort.{base_model_alias}
use free_claude_desktop.Prelude.TextOrder.{text_less}
use free_claude_desktop.Prelude.Minimum.{min_by}
use free_claude_desktop.Settings.{HashMap, Settings}
use free_claude_desktop.Request.Routes.{
  is_indexed_claude_alias, safety_net_route, resolve_model_route, values, detect_family,
  try_family_override, try_exact_routes, try_discovered_direct, try_bracket_inner_route,
  try_fuzzy_family, fallback_global_model,
}

or_else-some :
    (a b : Option String) → ((m : String) × (b ≡ some m)) → (m : String) × ((a or_else b) ≡ some m)
or_else-some none b h = h
or_else-some (some x) b h = (x, refl)

net-some :
    (routes : HashMap String) (found : List String)
    → (routes ≢ []) ⊎ (found ≢ [])
    → (m : String) × ((min_by text_less (values routes) or_else first found) ≡ some m)
unfolding min_by
net-some (entry ∷ routes) found h = (_, refl)
net-some [] (d ∷ found) h = (d, refl)
net-some [] [] (inl h) = absurd (h refl)
net-some [] [] (inr h) = absurd (h refl)

-- A name that is not empty and has both brackets, or a "claude-" prefix and a numeric index,
-- resolves to some model as soon as the settings hold a route or a discovered model.
pub resolve_model_route-some :
    (requested : String) (settings : Settings)
    → is_empty_text requested ≡ false
    → ((contains requested "[" && contains requested "]") || is_indexed_claude_alias requested)
      ≡ true
    → (settings.models.real_model_routes ≢ []) ⊎ (settings.models.discovered_models ≢ [])
    → (m : String) × (resolve_model_route requested settings ≡ some m)
unfolding resolve_model_route safety_net_route
resolve_model_route-some requested settings named alias configured =
    let (m, e) =
      net-some settings.models.real_model_routes settings.models.discovered_models configured in
    let net : (n : String) × (safety_net_route requested settings ≡ some n) = (m, rw alias e) in
    let family = detect_family (to_ascii_lowercase requested) in
    let clean = base_model_alias requested in
    rw named (
      or_else-some (try_family_override settings family) _ (
        or_else-some (try_exact_routes requested clean settings) _ (
          or_else-some (try_discovered_direct requested clean settings) _ (
            or_else-some (try_bracket_inner_route clean settings) _ (
              or_else-some (try_fuzzy_family family settings) _
                (or_else-some (fallback_global_model settings) _ net))))))
