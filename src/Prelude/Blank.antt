-- ===== src/Prelude/Blank.antt =====
-- When `str::trim` leaves nothing: every character is white space.
use Prim.Native.String.{String, [], ◌∷◌}
use mathlib.Core.Path.{◌≡◌, refl, ◌∙◌}
use mathlib.Core.Bool.{Bool}
use mathlib.Core.Logic.{inl, inr}
use native.Mathlib.Omega.{arith}
use free_claude_desktop.Prelude.Tests.{Bool-cases}
use free_claude_desktop.Prelude.Texts.{
  is_whitespace, is_empty_text, trim_start, trim_end, trim, all_chars,
}

-- Every character of the text is white space; so it is of the empty text.
abbrev pub is_blank : String → Bool
is_blank s = all_chars is_whitespace s

trim_end-is_blank : (s : String) → is_empty_text (trim_end s) ≡ is_blank s
unfolding trim_end
trim_end-is_blank [] = refl
trim_end-is_blank (c ∷ s) =
    let ih = trim_end-is_blank s in
    elim (Bool-cases (is_whitespace c)) [ inl space ↦ ground arith | inr letter ↦ ground arith ]

trim_start-is_blank : (s : String) → is_blank (trim_start s) ≡ is_blank s
unfolding trim_start
trim_start-is_blank [] = refl
trim_start-is_blank (c ∷ s) =
    let ih = trim_start-is_blank s in
    elim (Bool-cases (is_whitespace c)) [ inl space ↦ ground arith | inr letter ↦ ground arith ]

pub trim-is_blank : (s : String) → is_empty_text (trim s) ≡ is_blank s
unfolding trim
trim-is_blank s = trim_end-is_blank (trim_start s) ∙ trim_start-is_blank s
