-- ===== src/Prelude/Sort/Laws.antt =====
-- The sorted list is in order, and keeps the order of what is equivalent.
use mathlib.Core.Path.{◌≡◌, refl, ap, ◌∙◌}
use mathlib.Core.Logic.{inl, inr}
use mathlib.Core.Bool.{Bool, true, false, not, ◌&&◌}
use mathlib.Core.List.{List, [], ◌∷◌}
use native.Mathlib.Omega.{arith}
use free_claude_desktop.Prelude.Tests.{if◌then◌else◌, Bool-cases, if-elim}
use free_claude_desktop.Prelude.Lists.{All, keep}
use free_claude_desktop.Prelude.Minimum.{IsOrder}
use free_claude_desktop.Prelude.Sort.{sort_by, place_by, dedup_by, dedup_after}

module _ {A : Type 0} (less : A → A → Bool) where
  -- No element is before one that stands ahead of it.
  abbrev pub IsSorted : List A → Type 0
  IsSorted [] = Unit
  IsSorted (x ∷ xs) = All (λ y. less y x ≡ false) xs × IsSorted xs

  abbrev pub are_equivalent : A → A → Bool
  are_equivalent a b = not (less a b) && not (less b a)

module _ {A : Type 0} (P : A → Type 0) where
  All-place_by :
      (less : A → A → Bool) (x : A) (ys : List A) → P x → All P ys → All P (place_by less x ys)
  All-place_by less x [] p h = (p, tt)
  All-place_by less x (y ∷ ys) p (q, h) =
      if-elim (All P) (less y x) (λ t. (q, All-place_by less x ys p h)) (λ f. (p, (q, h)))

  pub All-keep : (p : A → Bool) (xs : List A) → All P xs → All P (keep p xs)
  All-keep p [] h = tt
  All-keep p (x ∷ xs) (q, h) =
      if-elim (All P) (p x) (λ t. (q, All-keep p xs h)) (λ f. All-keep p xs h)

  All-dedup_after :
      (same : A → A → Bool) (x : A) (ys : List A) → All P ys → All P (dedup_after same x ys)
  All-dedup_after same x [] h = tt
  All-dedup_after same x (y ∷ ys) (q, h) =
      if-elim (All P) (same y x) (λ t. All-dedup_after same x ys h)
        (λ f. (q, All-dedup_after same y ys h))

module _ {A : Type 0} {P Q : A → Type 0} where
  pub All-map : ((a : A) → P a → Q a) → (xs : List A) → All P xs → All Q xs
  All-map f [] h = tt
  All-map f (x ∷ xs) (p, h) = (f x p, All-map f xs h)

module _ {A : Type 0} (less : A → A → Bool) (o : IsOrder less) where
  place_by-IsSorted : (x : A) (ys : List A) → IsSorted less ys → IsSorted less (place_by less x ys)
  place_by-IsSorted x [] h = (tt, tt)
  place_by-IsSorted x (y ∷ ys) (above, h) =
      if-elim (IsSorted less) (less y x)
        (λ t. (
          All-place_by (λ z. less z y ≡ false) less x ys (ground (arith, o.trans x y x, o.irrefl x))
              above,
          place_by-IsSorted x ys h,
        ))
        (λ f. ((f, All-map (λ z n. o.not_trans z y x n f) ys above), (above, h)))

  pub sort_by-IsSorted : (xs : List A) → IsSorted less (sort_by less xs)
  unfolding sort_by
  sort_by-IsSorted [] = tt
  sort_by-IsSorted (x ∷ xs) = place_by-IsSorted x (sort_by less xs) (sort_by-IsSorted xs)

  not_both :
      (a x y : A)
      → less y x ≡ true
      → are_equivalent less a y ≡ true
      → are_equivalent less a x ≡ false
  not_both a x y below here = elim (Bool-cases (are_equivalent less a x)) [
    | inl there ↦
        absurd (cc (below, o.not_trans y a x (ground (arith, here)) (ground (arith, there))))
    | inr apart ↦ apart
  ]

  place_by-keep :
      (a x : A) (ys : List A)
      → keep (are_equivalent less a) (place_by less x ys) ≡ keep (are_equivalent less a) (x ∷ ys)
  place_by-keep a x [] = refl
  place_by-keep a x (y ∷ ys) = elim (Bool-cases (less y x)) [
    | inr here ↦ rw here refl
    | inl later ↦ elim (Bool-cases (are_equivalent less a y)) [
      | inl first ↦
          let apart = not_both a x y later first in
          let rest : keep (are_equivalent less a) (place_by less x ys)
              ≡ keep (are_equivalent less a) ys =
            place_by-keep a x ys ∙ rw apart refl in
          rw (later, first, apart) (ap (λ zs. y ∷ zs) rest)
      | inr other ↦ rw (later, other) (place_by-keep a x ys)
    ]
  ]

  pub sort_by-keep :
      (a : A) (xs : List A)
      → keep (are_equivalent less a) (sort_by less xs) ≡ keep (are_equivalent less a) xs
  unfolding sort_by
  sort_by-keep a [] = refl
  sort_by-keep a (x ∷ xs) =
      place_by-keep a x (sort_by less xs)
      ∙ ap (λ ys. if are_equivalent less a x then x ∷ ys else ys) (sort_by-keep a xs)

module _ {A : Type 0} (less : A → A → Bool) where
  pub keep-IsSorted : (p : A → Bool) (xs : List A) → IsSorted less xs → IsSorted less (keep p xs)
  keep-IsSorted p [] h = tt
  keep-IsSorted p (x ∷ xs) (above, h) =
      if-elim (IsSorted less) (p x)
        (λ t. (All-keep (λ y. less y x ≡ false) p xs above, keep-IsSorted p xs h))
        (λ f. keep-IsSorted p xs h)

  dedup_after-IsSorted :
      (same : A → A → Bool) (x : A) (ys : List A)
      → IsSorted less ys
      → IsSorted less (dedup_after same x ys)
  dedup_after-IsSorted same x [] h = tt
  dedup_after-IsSorted same x (y ∷ ys) (above, h) =
      if-elim (IsSorted less) (same y x) (λ t. dedup_after-IsSorted same x ys h)
        (λ f. (
          All-dedup_after (λ z. less z y ≡ false) same y ys above,
          dedup_after-IsSorted same y ys h,
        ))

  pub dedup_by-IsSorted :
      (same : A → A → Bool) (xs : List A) → IsSorted less xs → IsSorted less (dedup_by same xs)
  unfolding dedup_by
  dedup_by-IsSorted same [] h = tt
  dedup_by-IsSorted same (x ∷ xs) (above, h) =
      (All-dedup_after (λ z. less z x ≡ false) same x xs above, dedup_after-IsSorted same x xs h)
