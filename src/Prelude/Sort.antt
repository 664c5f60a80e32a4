-- ===== src/Prelude/Sort.antt =====
-- `slice::sort_by`, which is stable, and `Vec::dedup_by`, which drops an element that is the same
-- as the one kept before it.
pub mod Laws
pub mod Members
use mathlib.Core.Bool.{Bool, true, false}
use mathlib.Core.List.{List, [], ◌∷◌}
use free_claude_desktop.Prelude.Tests.{if◌then◌else◌}

module _ {ℓ} {A : Type ℓ} (less : A → A → Bool) where
  -- Behind the elements that are less.
  abbrev pub place_by : A → List A → List A
  place_by x [] = x ∷ []
  place_by x (y ∷ ys) = let rest = place_by x ys in if less y x then y ∷ rest else x ∷ y ∷ ys

  unfoldable pub sort_by : List A → List A
  sort_by [] = []
  sort_by (x ∷ xs) = place_by x (sort_by xs)

module _ {ℓ} {A : Type ℓ} (same : A → A → Bool) where
  abbrev pub dedup_after : A → List A → List A
  dedup_after x [] = []
  dedup_after x (y ∷ ys) =
      let kept = y ∷ dedup_after y ys in
      let dropped = dedup_after x ys in if same y x then dropped else kept

  unfoldable pub dedup_by : List A → List A
  dedup_by [] = []
  dedup_by (x ∷ xs) = x ∷ dedup_after x xs
