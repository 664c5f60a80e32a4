-- ===== src/Request/Tests/Routes.antt =====
-- Runs of the theorems on the routes.
use free_claude_desktop.Prelude.{String, ◌≡◌, refl, inr, some, List, [], ◌∷◌, arith, eq_iff}
use free_claude_desktop.Prelude.Texts.{contains, strip_suffix, to_ascii_lowercase}
use free_claude_desktop.Settings.{get_key, HasDistinctKeys}
use free_claude_desktop.Settings.Maps.{SameMap}
use free_claude_desktop.Request.Effort.{base_model_alias}
use free_claude_desktop.Request.Routes.{
  resolve_model_route, detect_family, try_family_override, family_override_model, try_exact_routes,
}
use free_claude_desktop.Request.Routes.Order.{resolve_model_route-same, with_routes}
use free_claude_desktop.Request.Routes.Known.{IsKnown, resolve_model_route-IsKnown}
use free_claude_desktop.Request.Routes.Net.{resolve_model_route-some}
use free_claude_desktop.Request.Tests.{settings, routes, routes_again}

distinct : HasDistinctKeys routes
distinct = ((λ e. ground (arith, eq_iff "claude-haiku" "claude-sonnet-4"), tt), (tt, tt))

distinct_again : HasDistinctKeys routes_again
distinct_again = ((λ e. ground (arith, eq_iff "claude-haiku" "claude-sonnet-4"), tt), (tt, tt))

same_routes : SameMap routes routes_again
unfolding get_key
same_routes k = ground (
  arith,
  eq_iff "claude-haiku" k,
  eq_iff "claude-sonnet-4" k,
  eq_iff "claude-haiku" "claude-sonnet-4",
)

resolve_model_route-same_example :
    resolve_model_route "claude-sonnet-4[1m]" (with_routes settings routes)
    ≡ resolve_model_route "claude-sonnet-4[1m]" (with_routes settings routes_again)
resolve_model_route-same_example =
    resolve_model_route-same routes routes_again distinct distinct_again same_routes
      "claude-sonnet-4[1m]" settings

resolved : resolve_model_route "claude-sonnet-4[1m]" settings ≡ some "vendor/large"
unfolding resolve_model_route detect_family try_family_override family_override_model
    try_exact_routes get_key base_model_alias strip_suffix to_ascii_lowercase contains
resolved = refl

resolve_model_route-IsKnown_example : IsKnown settings "claude-sonnet-4[1m]" "vendor/large"
resolve_model_route-IsKnown_example =
    resolve_model_route-IsKnown settings "claude-sonnet-4[1m]" resolved

resolve_model_route-some_example :
    (m : String) × (resolve_model_route "[vendor/lost]" settings ≡ some m)
unfolding contains
resolve_model_route-some_example =
    resolve_model_route-some "[vendor/lost]" settings refl refl (inr (λ e. ap_first e))
  where
    ap_first : ◌≡◌ {A = List String} ("vendor/other" ∷ []) [] → ⊥
    ap_first e = cc
