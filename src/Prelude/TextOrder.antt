-- ===== src/Prelude/TextOrder.antt =====
-- Rust's `<` on texts is a strict total order.
use Prim.Native.Nat.{Ordering}
use Prim.Native.Char.{Char}
use Prim.Native.String.{String, [], ◌∷◌, compare}
use Prim.Native.String.compare
use mathlib.Core.Path.{◌≡◌}
use mathlib.Core.Bool.{Bool, true, false}
use native.Mathlib.Omega.{arith}
use text.Mathlib.Text.{is_lt}
use text.Mathlib.TextEquality.{path_by_compare}
use text.Mathlib.TextPositions.{compare_refl}

abbrev pub text_less : String → String → Bool
text_less a b = is_lt (compare a b)

abbrev flip : Ordering → Ordering
flip Ordering.lt = Ordering.gt
flip Ordering.eq = Ordering.eq
flip Ordering.gt = Ordering.lt

ruleset clauses = (compare.nil-nil, compare.nil-cons, compare.cons-nil, compare.cons-cons)

compare-flip : (a b : String) → compare b a ≡ flip (compare a b)
compare-flip [] [] = simp clauses
compare-flip [] (d ∷ t) = simp clauses
compare-flip (c ∷ s) [] = simp clauses
compare-flip (c ∷ s) (d ∷ t) = simp clauses (ground (arith, compare-flip s t))

compare-cons_nil : (c : Char) (s : String) → compare (c ∷ s) [] ≡ Ordering.gt
compare-cons_nil c s = simp clauses

compare_trans :
    (a b c : String)
    → compare a b ≡ Ordering.lt
    → compare b c ≡ Ordering.lt
    → compare a c ≡ Ordering.lt
compare_trans [] [] [] h k = cc
compare_trans [] (y ∷ t) [] h k = cc (compare-cons_nil y t)
compare_trans [] b (z ∷ u) h k = simp clauses
compare_trans (x ∷ s) [] c h k = cc (compare-cons_nil x s)
compare_trans (x ∷ s) (y ∷ t) [] h k = cc (compare-cons_nil y t)
compare_trans (x ∷ s) (y ∷ t) (z ∷ u) h k =
    let h' = (simp clauses at h) in
    let k' = (simp clauses at k) in simp clauses (ground (arith, compare_trans s t u))

pub text_less_trans :
    (a b c : String) → text_less a b ≡ true → text_less b c ≡ true → text_less a c ≡ true
text_less_trans a b c h k = ground (arith, compare_trans a b c)

-- What is not below is equal or above.
pub text_less_connex : (a b : String) → text_less a b ≡ false → text_less b a ≡ false → a ≡ b
text_less_connex a b h k = ground (arith, compare-flip a b, path_by_compare a b)

pub not-text_less_trans :
    (a b c : String) → text_less a b ≡ false → text_less b c ≡ false → text_less a c ≡ false
not-text_less_trans a b c h k =
    ground (arith, compare-flip a b, path_by_compare a b, compare_trans b a c)

pub text_less_irrefl : (a : String) → text_less a a ≡ false
text_less_irrefl a = rw compare_refl
