-- ===== src/Prelude/Minimum.antt =====
-- `Iterator::min` and `min_by_key`: the first of the least elements.
pub mod Same
use mathlib.Core.Path.{◌≡◌, refl, sym, ap}
use mathlib.Core.Logic.{◌⊎◌, inl, inr}
use mathlib.Core.Bool.{Bool, true, false}
use mathlib.Core.Option.{Option, none, some}
use mathlib.Core.List.{List, [], ◌∷◌}
use native.Mathlib.Omega.{arith}
use free_claude_desktop.Prelude.Tests.{if◌then◌else◌, Bool-cases}
use free_claude_desktop.Prelude.Lists.{All, Any}

module _ {ℓ} {A : Type ℓ} (less : A → A → Bool) where
  unfoldable pub min_from : A → List A → A
  min_from best [] = best
  min_from best (x ∷ xs) = min_from (if less x best then x else best) xs

  unfoldable pub min_by : List A → Option A
  unfolding min_from
  min_by [] = none
  min_by (x ∷ xs) = some (min_from x xs)

  -- `less` is a strict weak order.
  pub record IsOrder : Type ℓ where
    pub trans : (a b c : A) → less a b ≡ true → less b c ≡ true → less a c ≡ true
    pub not_trans : (a b c : A) → less a b ≡ false → less b c ≡ false → less a c ≡ false
    pub irrefl : (a : A) → less a a ≡ false

module _ {A : Type 0} (less : A → A → Bool) (o : IsOrder less) where
  min_from-All :
      (best m : A) (xs : List A)
      → min_from less best xs ≡ m
      → (less best m ≡ false) × All (λ x. less x m ≡ false) xs
  unfolding min_from
  min_from-All best m [] e = (rw (← e) (o.irrefl best), tt)
  min_from-All best m (x ∷ xs) e = elim (Bool-cases (less x best)) [
    | inl below ↦
        let ih = min_from-All x m xs (rw below at e) in (ground (arith, ih.0, o.trans x best m), ih)
    | inr above ↦
        let ih = min_from-All best m xs (rw above at e) in
        (ih.0, (o.not_trans x best m above ih.0, ih.1))
  ]

  -- Nothing is below the minimum.
  pub min_by-All : (xs : List A) {m : A} → min_by less xs ≡ some m → All (λ x. less x m ≡ false) xs
  unfolding min_by
  min_by-All [] e = tt
  min_by-All (x ∷ xs) {m} e = min_from-All x m xs (ground arith)

module _ {A : Type 0} (less : A → A → Bool) where
  min_from-Any :
      (best m : A) (xs : List A) → min_from less best xs ≡ m → (m ≡ best) ⊎ Any (λ x. m ≡ x) xs
  unfolding min_from
  min_from-Any best m [] e = inl (sym e)
  min_from-Any best m (x ∷ xs) e = elim (Bool-cases (less x best)) [
    | inl below ↦ inr (min_from-Any x m xs (rw below at e))
    | inr above ↦ elim (min_from-Any best m xs (rw above at e)) [
      | inl same ↦ inl same
      | inr later ↦ inr (inr later)
    ]
  ]

  -- The minimum is one of the elements.
  pub min_by-Any : (xs : List A) {m : A} → min_by less xs ≡ some m → Any (λ x. m ≡ x) xs
  unfolding min_by
  min_by-Any [] e = cc
  min_by-Any (x ∷ xs) {m} e = min_from-Any x m xs (ground arith)
