-- ===== src/Prelude/TextEnds.antt =====
-- What `strip_suffix` and `ends_with` say of a text.
use Prim.Native.String.{String, [], ◌∷◌, ◌++◌, len}
use Prim.Native.String.append
use Prim.Native.String.len
use Prim.Native.Char.{Char}
use text.Mathlib.Text.{◌==◌}
use text.Mathlib.TextEquality.{eq_iff}
use text.Mathlib.TextPositions.{eq_refl, len-append, len_utf8-pos}
use mathlib.Core.Path.{◌≡◌, refl, sym, ap, ◌∙◌}
use mathlib.Core.Logic.{◌↔◌, inl, inr}
use mathlib.Core.Bool.{true, false}
use mathlib.Core.Option.{Option, none, some}
use native.Mathlib.Omega.{arith}
use free_claude_desktop.Prelude.Tests.{Bool-cases, Option-cases}
use free_claude_desktop.Prelude.Texts.{strip_suffix, ends_with, prepend}

prepend-eq-some :
    (c : Char) (o : Option String) (r : String)
    → prepend c o ≡ some r
    → (s : String) × (o ≡ some s) × (r ≡ c ∷ s)
prepend-eq-some c none r h = cc
prepend-eq-some c (some s) r h = (s, refl, ground arith)

pub strip_suffix-eq-some : (s t r : String) → strip_suffix s t ≡ some r → s ≡ r ++ t
unfolding strip_suffix
strip_suffix-eq-some [] t r h = elim (Bool-cases ([] == t)) [
  | inl same ↦
      let e : [] ≡ r = ground (arith, rw same at h) in
      (eq_iff [] t).0 same ∙ sym (append.nil t) ∙ ap (λ x. x ++ t) e
  | inr other ↦ cc (rw other at h)
]
strip_suffix-eq-some (c ∷ s) t r h = elim (Bool-cases ((c ∷ s) == t)) [
  | inl same ↦
      let e : [] ≡ r = ground (arith, rw same at h) in
      (eq_iff (c ∷ s) t).0 same ∙ sym (append.nil t) ∙ ap (λ x. x ++ t) e
  | inr other ↦
      let (rest, e, f) = prepend-eq-some c (strip_suffix s t) r (rw other at h) in
      ap (λ x. c ∷ x) (strip_suffix-eq-some s t rest e)
      ∙ sym (append.cons c rest t)
      ∙ ap (λ x. x ++ t) (sym f)
]

longer : (c : Char) (r t : String) → ((c ∷ (r ++ t)) == t) ≡ false
longer c r t = elim (Bool-cases ((c ∷ (r ++ t)) == t)) [
  | inr other ↦ other
  | inl same ↦
      let (k, e) = len_utf8-pos c in
      absurd (
        omega (
          arith,
          ap len ((eq_iff (c ∷ (r ++ t)) t).0 same),
          len.cons c (r ++ t),
          len-append r t,
          e,
        ))
]

strip_suffix_self : (t : String) → strip_suffix t t ≡ some []
unfolding strip_suffix
strip_suffix_self [] = refl
strip_suffix_self (c ∷ t) = rw (eq_refl (c ∷ t)) refl

pub strip_suffix-append : (r t : String) → strip_suffix (r ++ t) t ≡ some r
unfolding strip_suffix
strip_suffix-append [] t = rw (append.nil t) (strip_suffix_self t)
strip_suffix-append (c ∷ r) t =
    rw (append.cons c r t, longer c r t) (ap (prepend c) (strip_suffix-append r t))

pub ends_with_iff : (s t : String) → (ends_with s t ≡ true) ↔ ((r : String) × (s ≡ r ++ t))
ends_with_iff s t = (split, λ (r, e). rw (e, ends_with, strip_suffix-append r t) refl)
  where
    split : ends_with s t ≡ true → (r : String) × (s ≡ r ++ t)
    split h = elim (Option-cases (strip_suffix s t)) [
      | inl gone ↦ cc (rw (gone, ends_with) at h)
      | inr (r, e) ↦ (r, strip_suffix-eq-some s t r e)
    ]
