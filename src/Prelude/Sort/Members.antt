-- ===== src/Prelude/Sort/Members.antt =====
-- Sorting and dropping duplicates keep the elements.
use mathlib.Core.Path.{◌≡◌, refl, sym, subst, ◌∙◌}
use mathlib.Core.Logic.{◌⊎◌, inl, inr}
use mathlib.Core.Bool.{Bool, false}
use mathlib.Core.List.{List, [], ◌∷◌}
use mathlib.Core.Option.{none, some}
use native.Mathlib.Omega.{arith}
use free_claude_desktop.Prelude.Tests.{if-elim}
use free_claude_desktop.Prelude.Lists.{first}
use free_claude_desktop.Prelude.Members.{Member, All-Member}
use free_claude_desktop.Prelude.Minimum.{IsOrder}
use free_claude_desktop.Prelude.Sort.{sort_by, place_by, dedup_by, dedup_after}
use free_claude_desktop.Prelude.Sort.Laws.{IsSorted, sort_by-IsSorted}

module _ {A : Type 0} (less : A → A → Bool) where
  place_by-Member : (x a : A) (ys : List A) → Member a (place_by less x ys) → (a ≡ x) ⊎ Member a ys
  place_by-Member x a [] = λ m. m
  place_by-Member x a (y ∷ ys) =
      if-elim (λ zs. Member a zs → (a ≡ x) ⊎ Member a (y ∷ ys)) (less y x)
        (λ t m. elim m [
          | inl here ↦ inr (inl here)
          | inr later ↦ elim (place_by-Member x a ys later) [
            | inl same ↦ inl same
            | inr old ↦ inr (inr old)
          ]
        ])
        (λ f m. m)

  Member-place_by : (x a : A) (ys : List A) → (a ≡ x) ⊎ Member a ys → Member a (place_by less x ys)
  Member-place_by x a [] m = m
  Member-place_by x a (y ∷ ys) m =
      if-elim (Member a) (less y x)
        (λ t. elim m [
          | inl same ↦ inr (Member-place_by x a ys (inl same))
          | inr (inl here) ↦ inl here
          | inr (inr later) ↦ inr (Member-place_by x a ys (inr later))
        ])
        (λ f. m)

  pub sort_by-Member : (a : A) (xs : List A) → Member a (sort_by less xs) → Member a xs
  unfolding sort_by
  sort_by-Member a [] m = m
  sort_by-Member a (x ∷ xs) m = elim (place_by-Member x a (sort_by less xs) m) [
    | inl same ↦ inl same
    | inr old ↦ inr (sort_by-Member a xs old)
  ]

  pub Member-sort_by : (a : A) (xs : List A) → Member a xs → Member a (sort_by less xs)
  unfolding sort_by
  Member-sort_by a [] m = m
  Member-sort_by a (x ∷ xs) (inl here) = Member-place_by x a (sort_by less xs) (inl here)
  Member-sort_by a (x ∷ xs) (inr later) =
      Member-place_by x a (sort_by less xs) (inr (Member-sort_by a xs later))

module _ {A : Type 0} (same : A → A → Bool) where
  dedup_after-Member : (x a : A) (ys : List A) → Member a (dedup_after same x ys) → Member a ys
  dedup_after-Member x a [] = λ m. m
  dedup_after-Member x a (y ∷ ys) =
      if-elim (λ zs. Member a zs → Member a (y ∷ ys)) (same y x)
        (λ t m. inr (dedup_after-Member x a ys m))
        (λ f m. elim m [ inl here ↦ inl here | inr later ↦ inr (dedup_after-Member y a ys later) ])

  pub dedup_by-Member : (a : A) (xs : List A) → Member a (dedup_by same xs) → Member a xs
  unfolding dedup_by
  dedup_by-Member a [] m = m
  dedup_by-Member a (x ∷ xs) (inl here) = inl here
  dedup_by-Member a (x ∷ xs) (inr later) = inr (dedup_after-Member x a xs later)

  dedup_by-first : (xs : List A) → first (dedup_by same xs) ≡ first xs
  unfolding dedup_by
  dedup_by-first [] = refl
  dedup_by-first (x ∷ xs) = refl

module _ {A : Type 0} (less : A → A → Bool) (o : IsOrder less) (same : A → A → Bool) where
  least :
      (sorted : List A) (m : A)
      → IsSorted less sorted
      → first sorted ≡ some m
      → Member m sorted × ((a : A) → Member a sorted → less a m ≡ false)
  least [] m s h = cc
  least (x ∷ xs) m (above, s) h =
      let e : x ≡ m = ground arith in
      subst (λ y. Member y (x ∷ xs) × ((a : A) → Member a (x ∷ xs) → less a y ≡ false)) e
        (
          inl refl,
          λ (a : A) there. elim there [
            | inl here ↦ subst (λ y. less y x ≡ false) (sym here) (o.irrefl x)
            | inr later ↦ All-Member (λ y. less y x ≡ false) xs above later
          ],
        )

  -- What stands first is an element that none is less than.
  pub first-sorted :
      (xs : List A) (m : A)
      → first (dedup_by same (sort_by less xs)) ≡ some m
      → Member m xs × ((a : A) → Member a xs → less a m ≡ false)
  first-sorted xs m h =
      let (there, below) =
        least (sort_by less xs) m (sort_by-IsSorted less o xs)
          (sym (dedup_by-first same (sort_by less xs)) ∙ h) in
      (sort_by-Member less m xs there, λ a in_it. below a (Member-sort_by less a xs in_it))

  pub first-sorted_none :
      (xs : List A) → first (dedup_by same (sort_by less xs)) ≡ none → (a : A) → Member a xs → ⊥
  first-sorted_none xs h a m =
      nothing (sort_by less xs) (sym (dedup_by-first same (sort_by less xs)) ∙ h)
        (Member-sort_by less a xs m)
    where
      nothing : (ys : List A) → first ys ≡ none → Member a ys → ⊥
      nothing [] e n = elim n [ ]
      nothing (y ∷ ys) e n = cc
