-- ===== src/Response/Proxy/Candidates.antt =====
-- The models that may take the place of a stale one, and those that the code collects.
use free_claude_desktop.Prelude.{
  String, ◌≡◌, ◌≢◌, refl, sym, subst, ◌⊎◌, inl, inr, Bool, true, false, not, ◌&&◌, ◌==◌, eq_iff,
  some, List, [], ◌∷◌, ◌++◌, keep, if◌then◌else◌, Bool-cases, Option-cases, and-both, arith,
}
use free_claude_desktop.Prelude.TextOrder.{}
use free_claude_desktop.Prelude.Members.{
  Member, keep-Member, map-Member, Member-keep, Member-map, Member-append_left, Member-append_right,
}
use free_claude_desktop.Json.{}
use free_claude_desktop.Settings.{Settings}
use free_claude_desktop.Request.Routes.{is_not_blank}
use free_claude_desktop.Response.Proxy.{fallback_models, other_routes, other_model, is_other}

-- The models that may take the place of the stale one.
pub data IsCandidate (settings : Settings) (requested stale m : String) : Type 0 where
  routed :
      (alias : String)
      → Member {A = String × String} (alias, m) settings.models.real_model_routes
      → alias ≢ requested
      → IsCandidate settings requested stale m
  global :
      settings.models.real_model ≡ some m
      → is_not_blank m ≡ true
      → IsCandidate settings requested stale m
  discovered :
      Member m settings.models.discovered_models
      → is_not_blank m ≡ true
      → IsCandidate settings requested stale m

append-cases : (xs ys : List String) (a : String) → Member a (xs ++ ys) → Member a xs ⊎ Member a ys
append-cases [] ys a m = inr m
append-cases (x ∷ xs) ys a (inl e) = inl (inl e)
append-cases (x ∷ xs) ys a (inr m) = elim (append-cases xs ys a m) [
  | inl l ↦ inl (inr l)
  | inr r ↦ inr r
]

differs : (stale m : String) → is_other stale m ≡ true → m ≢ stale
differs stale m h e = ground (arith, (eq_iff m stale).1 e)

one_if : (b : Bool) (x m : String) → Member m (if b then x ∷ [] else []) → (m ≡ x) × (b ≡ true)
one_if true x m (inl e) = (e, refl)
one_if true x m (inr none_left) = elim none_left [ ]
one_if false x m there = elim there [ ]

module _ (settings : Settings) (requested stale : String) where
  of_routes :
      (m : String)
      → Member m (other_routes requested stale settings.models.real_model_routes)
      → IsCandidate settings requested stale m × (m ≢ stale)
  of_routes m there =
      let (route, kept, e) = map-Member (λ (r : String × String). r.1) _ m there in
      let (inside, t) =
        keep-Member (λ (r : String × String). not (r.0 == requested) && is_other stale r.1)
          settings.models.real_model_routes kept in
      let (alias_ok, model_ok) = and-both (not (route.0 == requested)) (is_other stale route.1) t in
      (
        routed route.0
            (subst
              (λ x. Member {A = String × String} (route.0, x) settings.models.real_model_routes)
              (sym e) inside)
            (differs requested route.0 alias_ok),
        subst (λ x. x ≢ stale) (sym e) (differs stale route.1 model_ok),
      )

  of_global :
      (m : String)
      → Member m (other_model stale settings.models.real_model)
      → IsCandidate settings requested stale m × (m ≢ stale)
  of_global m there = elim (Option-cases settings.models.real_model) [
    | inl gone ↦ elim (subst (λ o. Member m (other_model stale o)) gone there) [ ]
    | inr (model, e) ↦
        let (same, t) =
          one_if (is_not_blank model && is_other stale model) model m
            (subst (λ o. Member m (other_model stale o)) e there) in
        let (filled, other) = and-both (is_not_blank model) (is_other stale model) t in
        subst (λ x. IsCandidate settings requested stale x × (x ≢ stale)) (sym same)
          (global e filled, differs stale model other)
  ]

  of_discovered :
      (m : String)
      → Member m (
          keep
            (λ model. is_other stale model && is_not_blank model)
            settings.models.discovered_models)
      → IsCandidate settings requested stale m × (m ≢ stale)
  of_discovered m there =
      let (inside, t) =
        keep-Member (λ model. is_other stale model && is_not_blank model)
          settings.models.discovered_models there in
      let (other, filled) = and-both (is_other stale m) (is_not_blank m) t in
      (discovered inside filled, differs stale m other)

  pub candidates :
      (m : String)
      → Member m (fallback_models settings requested stale)
      → IsCandidate settings requested stale m × (m ≢ stale)
  candidates m there =
      elim (append-cases
        (other_routes requested stale settings.models.real_model_routes
          ++ other_model stale settings.models.real_model)
        _ m there) [
          | inr last ↦ of_discovered m last
          | inl early ↦
              elim (append-cases (other_routes requested stale settings.models.real_model_routes)
                (other_model stale settings.models.real_model) m early) [
                  | inl route ↦ of_routes m route
                  | inr one ↦ of_global m one
                ]
        ]

module _ (settings : Settings) (requested stale : String) where
  differs_back : (m : String) → m ≢ stale → is_other stale m ≡ true
  differs_back m apart = elim (Bool-cases (m == stale)) [
    | inl same ↦ absurd (apart ((eq_iff m stale).0 same))
    | inr other ↦ ground arith
  ]

  -- Every candidate is compared.
  pub is_compared :
      (m : String)
      → IsCandidate settings requested stale m
      → m ≢ stale
      → Member m (fallback_models settings requested stale)
  is_compared m (routed alias there other) apart =
      let routes = settings.models.real_model_routes in
      let asked : (alias == requested) ≡ false = ground (arith, (eq_iff alias requested).0) in
      let kept =
        Member-keep (λ (r : String × String). not (r.0 == requested) && is_other stale r.1) routes
          there (ground (arith, asked, differs_back m apart)) in
      Member-append_left _ _ m (
        Member-append_left _ (other_model stale settings.models.real_model) m
          (Member-map (λ (r : String × String). r.1) _ (alias, m) kept))
  is_compared m (global e filled) apart =
      let here : Member m (other_model stale settings.models.real_model) =
        subst (λ o. Member m (other_model stale o)) (sym e)
          (rw (filled, differs_back m apart) (inl refl)) in
      Member-append_left _ _ m (
        Member-append_right (other_routes requested stale settings.models.real_model_routes) _ m
          here)
  is_compared m (discovered there filled) apart =
      Member-append_right
        (other_routes requested stale settings.models.real_model_routes
          ++ other_model stale settings.models.real_model)
        _ m
        (Member-keep (λ model. is_other stale model && is_not_blank model)
          settings.models.discovered_models there (ground (arith, filled, differs_back m apart)))
