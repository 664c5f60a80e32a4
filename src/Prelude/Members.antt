-- ===== src/Prelude/Members.antt =====
-- Membership in a list, with the place kept, through `keep`, `filter_map` and `All`.
use mathlib.Core.Path.{◌≡◌, refl, sym, subst, ap, ◌∙◌}
use mathlib.Core.Logic.{◌⊎◌, inl, inr}
use mathlib.Core.Bool.{Bool, true, false}
use mathlib.Core.Option.{Option, none, some}
use mathlib.Core.List.{List, [], ◌∷◌, ◌++◌, map}
use native.Mathlib.Omega.{arith}
use free_claude_desktop.Prelude.Tests.{if◌then◌else◌, Bool-cases}
use free_claude_desktop.Prelude.Lists.{All, Any, keep, filter_map, cons_some, any}

abbrev pub Member : {A : Type 0} → A → List A → Type 0
Member a xs = Any (λ x. a ≡ x) xs

module _ {A : Type 0} where
  pub All-Member : (P : A → Type 0) (xs : List A) {a : A} → All P xs → Member a xs → P a
  All-Member P [] h m = elim m [ ]
  All-Member P (x ∷ xs) h (inl e) = subst P (sym e) h.0
  All-Member P (x ∷ xs) h (inr m) = All-Member P xs h.1 m

  pub All_of_Member : (P : A → Type 0) (xs : List A) → ((a : A) → Member a xs → P a) → All P xs
  All_of_Member P [] h = tt
  All_of_Member P (x ∷ xs) h = (h x (inl refl), All_of_Member P xs (λ a m. h a (inr m)))

  pub nil_of_not_Member : (xs : List A) → ((a : A) → Member a xs → ⊥) → xs ≡ []
  nil_of_not_Member [] h = refl
  nil_of_not_Member (x ∷ xs) h = absurd (h x (inl refl))

  if-Member :
      (b : Bool) (x a : A) (xs : List A)
      → Member a (if b then x ∷ xs else xs)
      → ((a ≡ x) × (b ≡ true)) ⊎ Member a xs
  if-Member true x a xs (inl e) = inl (e, refl)
  if-Member true x a xs (inr m) = inr m
  if-Member false x a xs m = inr m

  pub keep-Member :
      (p : A → Bool) (xs : List A) {a : A} → Member a (keep p xs) → Member a xs × (p a ≡ true)
  keep-Member p [] m = elim m [ ]
  keep-Member p (x ∷ xs) {a} m = elim (if-Member (p x) x a (keep p xs) m) [
    | inl (e, h) ↦ (inl e, rw e h)
    | inr later ↦ let ih = keep-Member p xs later in (inr ih.0, ih.1)
  ]

  Member-if_head :
      (b : Bool) (x a : A) (xs : List A) → b ≡ true → a ≡ x → Member a (if b then x ∷ xs else xs)
  Member-if_head true x a xs h e = inl e
  Member-if_head false x a xs h e = cc

  Member-if_tail :
      (b : Bool) (x a : A) (xs : List A) → Member a xs → Member a (if b then x ∷ xs else xs)
  Member-if_tail true x a xs m = inr m
  Member-if_tail false x a xs m = m

  pub Member-keep :
      (p : A → Bool) (xs : List A) {a : A} → Member a xs → p a ≡ true → Member a (keep p xs)
  Member-keep p [] m h = elim m [ ]
  Member-keep p (x ∷ xs) {a} (inl e) h =
      Member-if_head (p x) x a (keep p xs) (subst (λ y. p y ≡ true) e h) e
  Member-keep p (x ∷ xs) {a} (inr m) h = Member-if_tail (p x) x a (keep p xs) (Member-keep p xs m h)

  cons_some-Member :
      (o : Option A) (xs : List A) {a : A} → Member a (cons_some o xs) → (o ≡ some a) ⊎ Member a xs
  cons_some-Member none xs m = inr m
  cons_some-Member (some y) xs (inl e) = inl (ap some (sym e))
  cons_some-Member (some y) xs (inr m) = inr m

  Member-cons_some_head :
      (o : Option A) (xs : List A) {a : A} → o ≡ some a → Member a (cons_some o xs)
  Member-cons_some_head none xs h = cc
  Member-cons_some_head (some y) xs h = inl (ground arith)

  Member-cons_some_tail :
      (o : Option A) (xs : List A) (a : A) → Member a xs → Member a (cons_some o xs)
  Member-cons_some_tail none xs a m = m
  Member-cons_some_tail (some y) xs a m = inr m

  pub Member-append_left : (xs ys : List A) (a : A) → Member a xs → Member a (xs ++ ys)
  Member-append_left [] ys a m = elim m [ ]
  Member-append_left (x ∷ xs) ys a (inl e) = inl e
  Member-append_left (x ∷ xs) ys a (inr m) = inr (Member-append_left xs ys a m)

  pub Member-append_right : (xs ys : List A) (a : A) → Member a ys → Member a (xs ++ ys)
  Member-append_right [] ys a m = m
  Member-append_right (x ∷ xs) ys a m = inr (Member-append_right xs ys a m)

  pub any_iff-Member :
      (p : A → Bool) (xs : List A) → any p xs ≡ true → (a : A) × Member a xs × (p a ≡ true)
  any_iff-Member p [] h = cc
  any_iff-Member p (x ∷ xs) h = elim (Bool-cases (p x)) [
    | inl here ↦ (x, inl refl, here)
    | inr not_here ↦ let (a, m, e) = any_iff-Member p xs (ground arith) in (a, inr m, e)
  ]

  pub any_of_Member :
      (p : A → Bool) (xs : List A) {a : A} → Member a xs → p a ≡ true → any p xs ≡ true
  any_of_Member p [] m h = elim m [ ]
  any_of_Member p (x ∷ xs) (inl e) h = ground (arith, subst (λ y. p y ≡ true) e h)
  any_of_Member p (x ∷ xs) (inr m) h = ground (arith, any_of_Member p xs m h)

module _ {A B : Type 0} where
  pub filter_map-Member :
      (f : A → Option B) (xs : List A) {b : B}
      → Member b (filter_map f xs)
      → (a : A) × Member a xs × (f a ≡ some b)
  filter_map-Member f [] m = elim m [ ]
  filter_map-Member f (x ∷ xs) m = elim (cons_some-Member (f x) (filter_map f xs) m) [
    | inl e ↦ (x, inl refl, e)
    | inr later ↦ let (a, n, e) = filter_map-Member f xs later in (a, inr n, e)
  ]

  pub Member-filter_map :
      (f : A → Option B) (xs : List A) {a : A} {b : B}
      → Member a xs
      → f a ≡ some b
      → Member b (filter_map f xs)
  Member-filter_map f [] m h = elim m [ ]
  Member-filter_map f (x ∷ xs) (inl e) h =
      Member-cons_some_head (f x) (filter_map f xs) (ap f (sym e) ∙ h)
  Member-filter_map f (x ∷ xs) {a} {b} (inr m) h =
      Member-cons_some_tail (f x) (filter_map f xs) b (Member-filter_map f xs m h)

  pub map-Member :
      (f : A → B) (xs : List A) (b : B) → Member b (map f xs) → (a : A) × Member a xs × (b ≡ f a)
  map-Member f [] b m = elim m [ ]
  map-Member f (x ∷ xs) b (inl e) = (x, inl refl, e)
  map-Member f (x ∷ xs) b (inr m) = let (a, n, e) = map-Member f xs b m in (a, inr n, e)

  pub Member-map : (f : A → B) (xs : List A) (a : A) → Member a xs → Member (f a) (map f xs)
  Member-map f [] a m = elim m [ ]
  Member-map f (x ∷ xs) a (inl e) = inl (ap f e)
  Member-map f (x ∷ xs) a (inr m) = inr (Member-map f xs a m)
