-- ===== src/Prelude/Minimum/Same.antt =====
-- The minimum depends on the elements only, not on their order.
use mathlib.Core.Path.{◌≡◌, refl, sym, ap, ◌∙◌}
use mathlib.Core.Logic.{inl, inr}
use mathlib.Core.Bool.{Bool, false}
use mathlib.Core.Option.{none, some}
use mathlib.Core.List.{List, [], ◌∷◌}
use free_claude_desktop.Prelude.Tests.{Option-cases}
use free_claude_desktop.Prelude.Members.{Member, All-Member, nil_of_not_Member}
use free_claude_desktop.Prelude.Minimum.{min_by, min_by-All, min_by-Any, IsOrder}

module _ {A : Type 0} (less : A → A → Bool) where
  pub min_by-eq-none : (xs : List A) → min_by less xs ≡ none → xs ≡ []
  unfolding min_by
  min_by-eq-none [] h = refl
  min_by-eq-none (x ∷ xs) h = cc

  pub min_by-nil : (xs : List A) → xs ≡ [] → min_by less xs ≡ none
  unfolding min_by
  min_by-nil [] h = refl
  min_by-nil (x ∷ xs) h = cc

  no_Member : (xs : List A) → xs ≡ [] → (a : A) → Member a xs → ⊥
  no_Member [] h a m = m
  no_Member (x ∷ xs) h a m = cc

module _ {A : Type 0} (less : A → A → Bool) (o : IsOrder less) (xs ys : List A)
    (to : (a : A) → Member a xs → Member a ys) (from : (a : A) → Member a ys → Member a xs)
    (connex : (a b : A)
      → Member a xs
      → Member b xs
      → less a b ≡ false
      → less b a ≡ false
      → a ≡ b) where
  pub min_by-same : min_by less xs ≡ min_by less ys
  min_by-same = elim (Option-cases (min_by less xs)) [
    | inl nothing ↦
        let empty = min_by-eq-none less xs nothing in
        nothing
        ∙ sym
            (min_by-nil less ys (nil_of_not_Member ys λ a m. no_Member less xs empty a (from a m)))
    | inr (a, least) ↦ elim (Option-cases (min_by less ys)) [
      | inl nothing ↦
          let empty = min_by-eq-none less ys nothing in
          absurd (no_Member less ys empty a (to a (min_by-Any less xs least)))
      | inr (b, least') ↦
          let a_in = min_by-Any less xs least in
          let b_in = from b (min_by-Any less ys least') in
          let same : a ≡ b =
            connex a b a_in b_in (All-Member _ ys (min_by-All less o ys least') (to a a_in))
              (All-Member _ xs (min_by-All less o xs least) b_in) in
          least ∙ ap some same ∙ sym least'
    ]
  ]
