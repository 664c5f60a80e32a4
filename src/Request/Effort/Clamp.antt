-- ===== src/Request/Effort/Clamp.antt =====
-- `clamp_reasoning_effort` picks the supported level that is closest to the requested one.
use free_claude_desktop.Prelude.{
  ℕ, suc, zero, ◌≤◌, ◌<◌, String, ◌≡◌, refl, true, false, none, some, List, [], ◌∷◌, arith, ltb,
  All, Option-cases, and_then-eq-some, ◌∙◌, filter_map, ◌↔◌, ◌⊎◌, inl, inr,
}
use free_claude_desktop.Prelude.Members.{
  Member, keep-Member, Member-keep, filter_map-Member, Member-filter_map, All-Member, All_of_Member,
  nil_of_not_Member,
}
use mathlib.Core.Path.{subst}
use free_claude_desktop.Prelude.Minimum.{min_by, min_by-All, min_by-Any, IsOrder}
use free_claude_desktop.Request.Effort.{
  Ranked, effort_rank, with_rank, distance, closer, positive, clamp_reasoning_effort,
}

closer_trans :
    (r : ℕ) (a b c : Ranked) → closer r a b ≡ true → closer r b c ≡ true → closer r a c ≡ true
closer_trans r (a, s) (b, t) (c, u) h k = ground arith

not-closer_trans :
    (r : ℕ) (a b c : Ranked) → closer r a b ≡ false → closer r b c ≡ false → closer r a c ≡ false
not-closer_trans r (a, s) (b, t) (c, u) h k = ground arith

closer_irrefl : (r : ℕ) (a : Ranked) → closer r a a ≡ false
closer_irrefl r (a, s) = ground arith

closer-IsOrder : (r : ℕ) → IsOrder (closer r)
closer-IsOrder r = record {
  trans = closer_trans r;
  not_trans = not-closer_trans r;
  irrefl = closer_irrefl r;
}

-- A level of the list, with its rank, which is above that of "none".
abbrev pub IsPositive : List String → Ranked → Type 0
IsPositive levels (k, e) = Member e levels × (effort_rank e ≡ some k) × (0 < k)

positive_sound :
    (levels : List String) (k : ℕ) (e : String)
    → Member {A = Ranked} (k, e) (positive levels)
    → IsPositive levels (k, e)
positive_sound levels k e m =
    let (n, pos) = keep-Member {A = Ranked} (λ p. ltb 0 p.0) (filter_map with_rank levels) m in
    let (x, here, rank) = filter_map-Member with_rank levels n in
    let same : x ≡ e = ground arith in
    (subst (λ y. Member y levels) same here, ground arith, ground arith)

positive_complete :
    (levels : List String) (k : ℕ) (e : String)
    → IsPositive levels (k, e)
    → Member {A = Ranked} (k, e) (positive levels)
positive_complete levels k e (m, rank, pos) =
    Member-keep {A = Ranked} (λ p. ltb 0 p.0) (filter_map with_rank levels)
      (Member-filter_map with_rank levels m (ground arith)) (ground arith)

-- The outcome read backwards: the minimum of the ranked levels.
clamp_inv :
    (requested : String) (levels : List String) (e : String)
    → clamp_reasoning_effort requested levels ≡ some e
    → (r k : ℕ) × (effort_rank requested ≡ some r)
      × (min_by (closer r) (positive levels) ≡ some (k, e))
unfolding clamp_reasoning_effort
clamp_inv requested levels e h =
    let (r, rank, rest) = and_then-eq-some (effort_rank requested) _ h in
    let (p, least, same) = and_then-eq-some (min_by (closer r) (positive levels)) _ rest in
    (r, p.0, rank, least ∙ ground arith)

-- The level that is sent is one that the upstream lists, and it ranks above "none".
pub clamp-IsPositive :
    (requested : String) (levels : List String) {e : String}
    → clamp_reasoning_effort requested levels ≡ some e
    → (k : ℕ) × IsPositive levels (k, e)
clamp-IsPositive requested levels {e} h =
    let (r, k, _, least) = clamp_inv requested levels e h in
    (k, positive_sound levels k e (min_by-Any (closer r) (positive levels) least))

not_closer :
    (r k j : ℕ) (e x : String)
    → closer r (j, x) (k, e) ≡ false
    → (distance k r < distance j r) ⊎ ((distance k r ≡ distance j r) × (j ≤ k))
not_closer r k j e x h = ground arith

-- If a requested effort of rank r is clamped to a level of rank k, then every level of the list
-- with a positive rank is farther from r than k is, or as far and not higher.
pub clamp_closest :
    (requested : String) (levels : List String) (e x : String) (r k j : ℕ)
    → clamp_reasoning_effort requested levels ≡ some e
    → effort_rank requested ≡ some r
    → effort_rank e ≡ some k
    → IsPositive levels (j, x)
    → (distance k r < distance j r) ⊎ ((distance k r ≡ distance j r) × (j ≤ k))
clamp_closest requested levels e x r k j h rr rk other =
    let (r', k', rr', least) = clamp_inv requested levels e h in
    let (_, rk', _) = positive_sound levels k' e (min_by-Any (closer r') (positive levels) least) in
    let not_below =
      All-Member {A = Ranked} _ (positive levels) (min_by-All _ (closer-IsOrder r') _ least)
        (positive_complete levels j x other) in
    let same_r : r' ≡ r = ground arith in
    let same_k : k' ≡ k = ground arith in not_closer r k j e x (rw (same_r, same_k) at not_below)

abbrev Unranked : List String → Type 0
Unranked levels = All (λ x. (effort_rank x ≡ none) ⊎ (effort_rank x ≡ some 0)) levels

unranked : (levels : List String) → positive levels ≡ [] → Unranked levels
unranked levels none_left = All_of_Member _ levels λ x m. elim (Option-cases (effort_rank x)) [
  | inl no_rank ↦ inl no_rank
  | inr (zero, rank) ↦ inr rank
  | inr (suc j, rank) ↦ absurd (
      subst (λ ps. Member {A = Ranked} (suc j, x) ps) none_left
        (positive_complete levels (suc j) x (m, rank, omega arith)))
]

positive_of_Unranked : (levels : List String) → Unranked levels → positive levels ≡ []
positive_of_Unranked levels all_low = nil_of_not_Member (positive levels) λ (k, x) m.
    let (here, rank, pos) = positive_sound levels k x m in
    let low : (effort_rank x ≡ none) ⊎ (effort_rank x ≡ some 0) =
      All-Member _ levels all_low here in
    ground arith

min_by-eq-none : (r : ℕ) (ps : List Ranked) → min_by (closer r) ps ≡ none → ps ≡ []
unfolding min_by
min_by-eq-none r [] h = refl
min_by-eq-none r (p ∷ ps) h = cc

min_by_of_nil : (r : ℕ) (ps : List Ranked) → ps ≡ [] → min_by (closer r) ps ≡ none
unfolding min_by
min_by_of_nil r [] h = refl
min_by_of_nil r (p ∷ ps) h = cc

clamp_of_nil :
    (requested : String) (levels : List String)
    → positive levels ≡ []
    → clamp_reasoning_effort requested levels ≡ none
unfolding clamp_reasoning_effort
clamp_of_nil requested levels h = elim (Option-cases (effort_rank requested)) [
  | inl no_rank ↦ rw no_rank
  | inr (r, rank) ↦ rw (rank, min_by_of_nil r (positive levels) h)
]

clamp_of_unranked :
    (requested : String) (levels : List String)
    → effort_rank requested ≡ none
    → clamp_reasoning_effort requested levels ≡ none
unfolding clamp_reasoning_effort
clamp_of_unranked requested levels h = rw h

least_of_clamp :
    (requested : String) (levels : List String) (r : ℕ)
    → clamp_reasoning_effort requested levels ≡ none
    → effort_rank requested ≡ some r
    → min_by (closer r) (positive levels) ≡ none
unfolding clamp_reasoning_effort
least_of_clamp requested levels r h rank = ground arith

-- The clamp gives nothing exactly when the requested effort has no rank or every level of the
-- list has no rank or rank 0.
clamp-eq-none_iff :
    (requested : String) (levels : List String)
    → (clamp_reasoning_effort requested levels ≡ none) ↔ (
        (effort_rank requested ≡ none)
        ⊎ All (λ x. (effort_rank x ≡ none) ⊎ (effort_rank x ≡ some 0)) levels)
clamp-eq-none_iff requested levels = (to, from)
  where
    to :
        clamp_reasoning_effort requested levels ≡ none
        → (effort_rank requested ≡ none) ⊎ Unranked levels
    to h = elim (Option-cases (effort_rank requested)) [
      | inl no_rank ↦ inl no_rank
      | inr (r, rank) ↦ inr (
          unranked levels
            (min_by-eq-none r (positive levels) (least_of_clamp requested levels r h rank)))
    ]

    from :
        (effort_rank requested ≡ none) ⊎ Unranked levels
        → clamp_reasoning_effort requested levels ≡ none
    from (inl no_rank) = clamp_of_unranked requested levels no_rank
    from (inr low) = clamp_of_nil requested levels (positive_of_Unranked levels low)
