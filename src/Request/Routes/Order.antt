-- ===== src/Request/Routes/Order.antt =====
-- The routes are a hash map, whose iteration order is arbitrary: no outcome depends on it.
use free_claude_desktop.Prelude.{
  String, ◌≡◌, refl, sym, ◌∙◌, Bool, false, Option, none, some, [], ◌∷◌, arith, if◌then◌else◌, keep,
  Bool-cases, Option-cases, inl, inr,
}
use mathlib.Core.Path.{subst}
use free_claude_desktop.Request.Effort.{base_model_alias}
use free_claude_desktop.Prelude.Texts.{contains, to_ascii_lowercase}
use free_claude_desktop.Prelude.TextOrder.{
  text_less, text_less_trans, not-text_less_trans, text_less_connex, text_less_irrefl,
}
use free_claude_desktop.Prelude.Minimum.{min_by, min_from, IsOrder}
use free_claude_desktop.Prelude.Minimum.Same.{min_by-same}
use free_claude_desktop.Prelude.Members.{Member, keep-Member, Member-keep, map-Member, Member-map}
use free_claude_desktop.Settings.{HashMap, HasDistinctKeys, Settings}
use free_claude_desktop.Settings.Maps.{SameMap, Member-SameMap, get_key_of_Member}
use free_claude_desktop.Request.Routes.{
  detect_family, extract_bracket_inner, Entry, better, fuzzy_from, try_exact_routes,
  try_bracket_inner_route, try_fuzzy_family, safety_net_route, resolve_model_route, values,
  try_family_override, try_discovered_direct, fallback_global_model, family_override_model,
}

text_less-IsOrder : IsOrder text_less
text_less-IsOrder = record {
  trans = text_less_trans;
  not_trans = not-text_less_trans;
  irrefl = text_less_irrefl;
}

abbrev pub key_less : Entry → Entry → Bool
key_less a b = text_less a.0 b.0

key_less-IsOrder : IsOrder key_less
key_less-IsOrder = record {
  trans = λ a b c. text_less_trans a.0 b.0 c.0;
  not_trans = λ a b c. not-text_less_trans a.0 b.0 c.0;
  irrefl = λ a. text_less_irrefl a.0;
}

abbrev pub of_family : String → Entry → Bool
of_family family entry = contains (to_ascii_lowercase entry.0) family

better-some :
    (best entry : Entry)
    → better (some best) entry ≡ some (if key_less entry best then entry else best)
better-some best entry = ground arith

-- The loop finds the least key of the family.
fuzzy_from-some :
    (family : String) (best : Entry) (routes : HashMap String)
    → fuzzy_from family (some best) routes
      ≡ some (min_from key_less best (keep (of_family family) routes))
unfolding fuzzy_from min_from
fuzzy_from-some family best [] = refl
fuzzy_from-some family best (entry ∷ routes) = elim (Bool-cases (of_family family entry)) [
  | inl of_it ↦
      rw (of_it, better-some best entry)
        (fuzzy_from-some family (if key_less entry best then entry else best) routes)
  | inr other ↦ rw other (fuzzy_from-some family best routes)
]

pub fuzzy_from-eq-min_by :
    (family : String) (routes : HashMap String)
    → fuzzy_from family none routes ≡ min_by key_less (keep (of_family family) routes)
unfolding fuzzy_from min_by
fuzzy_from-eq-min_by family [] = refl
fuzzy_from-eq-min_by family (entry ∷ routes) = elim (Bool-cases (of_family family entry)) [
  | inl of_it ↦ rw of_it (fuzzy_from-some family entry routes)
  | inr other ↦ rw other (fuzzy_from-eq-min_by family routes)
]

abbrev pub with_routes : Settings → HashMap String → Settings
with_routes settings routes = record settings {
  models = record (settings.models) { real_model_routes = routes };
}

module _ (routes routes' : HashMap String) (d : HasDistinctKeys routes)
    (d' : HasDistinctKeys routes') (same : SameMap routes routes') where
  entry-same : (e : Entry) → Member e routes → Member e routes'
  entry-same (k, v) m = Member-SameMap routes routes' k v d same m

  entry-same' : (e : Entry) → Member e routes' → Member e routes
  entry-same' (k, v) m = Member-SameMap routes' routes k v d' (λ j. sym (same j)) m

  same_key :
      (a b : Entry)
      → Member a routes
      → Member b routes
      → key_less a b ≡ false
      → key_less b a ≡ false
      → a ≡ b
  same_key (k, v) (j, w) m n below above =
      let keys : k ≡ j = text_less_connex k j below above in
      ground (arith, get_key_of_Member routes k v d m, get_key_of_Member routes j w d n)

  kept :
      (rs rs' : HashMap String)
      → ((e : Entry) → Member e rs → Member e rs')
      → (family : String) (e : Entry) → Member e (keep (of_family family) rs)
      → Member e (keep (of_family family) rs')
  kept rs rs' to family e m =
      let (n, h) = keep-Member (of_family family) rs m in
      Member-keep (of_family family) rs' (to e n) h

  fuzzy-same : (family : String) → fuzzy_from family none routes ≡ fuzzy_from family none routes'
  fuzzy-same family =
      fuzzy_from-eq-min_by family routes
      ∙ min_by-same key_less key_less-IsOrder (keep (of_family family) routes)
          (keep (of_family family) routes') (kept routes routes' entry-same family)
          (kept routes' routes entry-same' family)
          (λ a b m n.
            same_key a b (keep-Member (of_family family) routes m).0
              (keep-Member (of_family family) routes n).0)
      ∙ sym (fuzzy_from-eq-min_by family routes')

  valued :
      (rs rs' : HashMap String)
      → ((e : Entry) → Member e rs → Member e rs')
      → (v : String) → Member v (values rs)
      → Member v (values rs')
  valued rs rs' to v m =
      let (e, n, same_value) = map-Member (λ (entry : Entry). entry.1) rs v m in
      subst (λ x. Member x (values rs')) (sym same_value)
        (Member-map (λ (entry : Entry). entry.1) rs' e (to e n))

  values-same : min_by text_less (values routes) ≡ min_by text_less (values routes')
  values-same =
      min_by-same text_less text_less-IsOrder (values routes) (values routes')
        (valued routes routes' entry-same) (valued routes' routes entry-same')
        (λ a b _ _. text_less_connex a b)

  module _ (requested clean : String) (settings : Settings) where
    exact-same :
        try_exact_routes requested clean (with_routes settings routes)
        ≡ try_exact_routes requested clean (with_routes settings routes')
    unfolding try_exact_routes
    exact-same = cc (same requested, same clean)

    bracket-same :
        try_bracket_inner_route clean (with_routes settings routes)
        ≡ try_bracket_inner_route clean (with_routes settings routes')
    unfolding try_bracket_inner_route
    bracket-same = elim (Option-cases (extract_bracket_inner clean)) [
      | inl unclosed ↦ rw unclosed
      | inr (inner, closed) ↦ rw closed (cc (same inner))
    ]

    net-same :
        safety_net_route requested (with_routes settings routes)
        ≡ safety_net_route requested (with_routes settings routes')
    unfolding safety_net_route
    net-same = cc values-same

  family-same :
      (family : Option String) (settings : Settings)
      → try_fuzzy_family family (with_routes settings routes)
        ≡ try_fuzzy_family family (with_routes settings routes')
  unfolding try_fuzzy_family
  family-same none settings = refl
  family-same (some family) settings = cc (fuzzy-same family)

  override-same :
      (family : Option String) (settings : Settings)
      → try_family_override (with_routes settings routes) family
        ≡ try_family_override (with_routes settings routes') family
  unfolding try_family_override family_override_model
  override-same family settings = refl

  discovered-same :
      (requested clean : String) (settings : Settings)
      → try_discovered_direct requested clean (with_routes settings routes)
        ≡ try_discovered_direct requested clean (with_routes settings routes')
  unfolding try_discovered_direct
  discovered-same requested clean settings = refl

  fallback-same :
      (settings : Settings)
      → fallback_global_model (with_routes settings routes)
        ≡ fallback_global_model (with_routes settings routes')
  unfolding fallback_global_model
  fallback-same settings = refl

  -- Two lists with distinct keys that are the same map of routes, so two iteration orders of one
  -- hash map, give the same resolved model.
  pub resolve_model_route-same :
      (requested_model : String) (settings : Settings)
      → resolve_model_route requested_model (with_routes settings routes)
        ≡ resolve_model_route requested_model (with_routes settings routes')
  unfolding resolve_model_route
  resolve_model_route-same requested_model settings =
      let family = detect_family (to_ascii_lowercase requested_model) in
      let clean = base_model_alias requested_model in
      cc (
        override-same family settings,
        exact-same requested_model clean settings,
        discovered-same requested_model clean settings,
        bracket-same requested_model clean settings,
        family-same family settings,
        fallback-same settings,
        net-same requested_model clean settings,
      )
