-- ===== src/Prelude/Lists.antt =====
-- Lists over the native numbers: length, tests, predicates by recursion.
use Prim.Native.Nat.{ℕ, zero, suc, ◌+◌, ◌≤◌}
use mathlib.Core.Path.{◌≡◌, refl}
use mathlib.Core.Bool.{Bool, true, false, ◌||◌}
use mathlib.Core.Logic.{◌⊎◌, inl, inr}
use mathlib.Core.Option.{Option, none, some}
use mathlib.Core.List.{List, [], ◌∷◌, ◌++◌}
use native.Mathlib.Omega.{arith}
use free_claude_desktop.Prelude.Tests.{if◌then◌else◌}

module _ {ℓ} {A : Type ℓ} where
  abbrev pub length : List A → ℕ
  length [] = 0
  length (x ∷ xs) = suc (length xs)

  abbrev pub get_elem? : List A → ℕ → Option A
  get_elem? [] i = none
  get_elem? (x ∷ xs) zero = some x
  get_elem? (x ∷ xs) (suc i) = get_elem? xs i

  abbrev pub drop : ℕ → List A → List A
  drop zero xs = xs
  drop (suc n) [] = []
  drop (suc n) (x ∷ xs) = drop n xs

  abbrev pub is_empty : List A → Bool
  is_empty [] = true
  is_empty (x ∷ xs) = false

  abbrev pub any : (A → Bool) → List A → Bool
  any p [] = false
  any p (x ∷ xs) = p x || any p xs

  abbrev pub first : List A → Option A
  first [] = none
  first (x ∷ xs) = some x

  pub length-append : (xs ys : List A) → length (xs ++ ys) ≡ length xs + length ys
  length-append [] ys = omega arith
  length-append (x ∷ xs) ys = omega (arith, length-append xs ys)

module _ {ℓ} {A : Type ℓ} where
  -- An index splits a list, or is past its end.
  pub drop-cases :
      (xs : List A) (i : ℕ)
      → ((drop i xs ≡ []) × (get_elem? xs i ≡ none))
        ⊎ ((x : A) × (drop i xs ≡ x ∷ drop (suc i) xs) × (get_elem? xs i ≡ some x))
  drop-cases [] zero = inl (refl, refl)
  drop-cases [] (suc i) = inl (refl, refl)
  drop-cases (x ∷ xs) zero = inr (x, refl, refl)
  drop-cases (x ∷ xs) (suc i) = drop-cases xs i

  pub drop_past : (xs : List A) (i : ℕ) → length xs ≤ i → drop i xs ≡ []
  drop_past [] zero h = refl
  drop_past [] (suc i) h = refl
  drop_past (x ∷ xs) zero h = absurd (omega arith)
  drop_past (x ∷ xs) (suc i) h = drop_past xs i (omega arith)

module _ {ℓ} {A : Type ℓ} where
  -- `Iterator::filter`
  abbrev pub keep : (A → Bool) → List A → List A
  keep p [] = []
  keep p (x ∷ xs) = if p x then x ∷ keep p xs else keep p xs

module _ {ℓ} {A : Type ℓ} where
  abbrev pub cons_some : Option A → List A → List A
  cons_some none ys = ys
  cons_some (some y) ys = y ∷ ys

module _ {ℓ κ} {A : Type ℓ} {B : Type κ} where
  abbrev pub filter_map : (A → Option B) → List A → List B
  filter_map f [] = []
  filter_map f (x ∷ xs) = cons_some (f x) (filter_map f xs)

-- `P` holds of every element.
module _ {ℓ κ} {A : Type ℓ} (P : A → Type κ) where
  abbrev pub All : List A → Type κ
  All [] = Unit
  All (x ∷ xs) = P x × All xs

  pub All-append : (xs ys : List A) → All xs → All ys → All (xs ++ ys)
  All-append [] ys h k = k
  All-append (x ∷ xs) ys (p, h) k = (p, All-append xs ys h k)

-- `P` holds of some element.
module _ {ℓ} {A : Type ℓ} (P : A → Type 0) where
  abbrev pub Any : List A → Type 0
  Any [] = ⊥
  Any (x ∷ xs) = P x ⊎ Any xs

module _ {ℓ} {A : Type ℓ} where
  -- `Iterator::enumerate`, from a number on
  abbrev pub enumerate : ℕ → List A → List (ℕ × A)
  enumerate n [] = []
  enumerate n (x ∷ xs) = (n, x) ∷ enumerate (suc n) xs

  abbrev pub last : List A → Option A
  last [] = none
  last (x ∷ []) = some x
  last (x ∷ y ∷ xs) = last (y ∷ xs)
