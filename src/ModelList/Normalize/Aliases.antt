-- ===== src/ModelList/Normalize/Aliases.antt =====
-- The alias of a model determines its index.
use Prim.Native.String.{◌++◌, slice, len}
use Prim.Native.String as Native
use Prim.Native.String.append
use text.Mathlib.TextPositions.{slice-append_middle}
use free_claude_desktop.Prelude.{
  ℕ, true, false, eq_refl, ◌+◌, ◌^◌, ◌<◌, ◌≡◌, refl, sym, ◌∙◌, String, [], ◌∷◌, any, if-elim, ◌==◌,
}
use free_claude_desktop.Prelude.Texts.{concat, decimal, is_empty_text}
use free_claude_desktop.Prelude.Decimal.{
  append_assoc, append-cancel_left, append-cancel_right, decimal-injective,
}
use free_claude_desktop.Settings.{HashMap}
use free_claude_desktop.Openai.{ProviderModel}
use free_claude_desktop.ModelList.Provider.{
  alias_family, model_alias, supports_reasoning_effort, effective_reasoning_effort_levels,
}

abbrev closed_index : ℕ → String
closed_index i = concat ("[" ∷ decimal i ∷ "]" ∷ [])

data IsFamily : String → Type 0 where
  opus : IsFamily "claude-opus-5"
  sonnet : IsFamily "claude-sonnet-5"
  haiku : IsFamily "claude-haiku-4-5"

alias_family-IsFamily :
    (model : ProviderModel) (overrides : HashMap String) → IsFamily (alias_family model overrides)
unfolding alias_family
alias_family-IsFamily model overrides =
    if-elim IsFamily (supports_reasoning_effort model overrides)
      (λ s.
        if-elim IsFamily
          (any (λ level. level == "max") (effective_reasoning_effort_levels model overrides))
          (λ t. opus) (λ t. sonnet))
      (λ s. haiku)

letter_at : (a l r x : String) → slice ((a ++ (l ++ r)) ++ x) (len a) (len a + len l) ≡ l
letter_at a l r x =
    rw (append_assoc a (l ++ r) x, append_assoc l r x) (slice-append_middle a l (r ++ x))

-- Aliases of families with another letter there differ.
same_letter :
    (a l r x l' r' y : String)
    → len l ≡ len l'
    → (a ++ (l ++ r)) ++ x ≡ (a ++ (l' ++ r')) ++ y
    → (l == l') ≡ true
same_letter a l r x l' r' y n e =
    let same : l ≡ l' = sym (letter_at a l r x) ∙ rw (e, n) (letter_at a l' r' y) in
    rw same (eq_refl l')

same_index : (f g x y : String) → IsFamily f → IsFamily g → f ++ x ≡ g ++ y → x ≡ y
same_index _ _ x y opus opus e = append-cancel_left "claude-opus-5" x y e
same_index _ _ x y opus sonnet e =
    absurd (cc (same_letter "claude-" "o" "pus-5" x "s" "onnet-5" y refl e))
same_index _ _ x y opus haiku e =
    absurd (cc (same_letter "claude-" "o" "pus-5" x "h" "aiku-4-5" y refl e))
same_index _ _ x y sonnet opus e =
    absurd (cc (same_letter "claude-" "s" "onnet-5" x "o" "pus-5" y refl e))
same_index _ _ x y sonnet sonnet e = append-cancel_left "claude-sonnet-5" x y e
same_index _ _ x y sonnet haiku e =
    absurd (cc (same_letter "claude-" "s" "onnet-5" x "h" "aiku-4-5" y refl e))
same_index _ _ x y haiku opus e =
    absurd (cc (same_letter "claude-" "h" "aiku-4-5" x "o" "pus-5" y refl e))
same_index _ _ x y haiku sonnet e =
    absurd (cc (same_letter "claude-" "h" "aiku-4-5" x "s" "onnet-5" y refl e))
same_index _ _ x y haiku haiku e = append-cancel_left "claude-haiku-4-5" x y e

pub model_alias-injective :
    (a b : ProviderModel) (i j : ℕ) (overrides : HashMap String)
    → i < 2 ^ 64
    → j < 2 ^ 64
    → model_alias a i overrides ≡ model_alias b j overrides
    → i ≡ j
unfolding model_alias
model_alias-injective a b i j overrides small small' e =
    let closed =
      same_index (alias_family a overrides) (alias_family b overrides) (closed_index i)
        (closed_index j) (alias_family-IsFamily a overrides) (alias_family-IsFamily b overrides)
        e in
    let ends =
      append-cancel_left "[" (decimal i ++ ("]" ++ "")) (decimal j ++ ("]" ++ "")) closed in
    decimal-injective i j small small'
      (append-cancel_right (decimal i) (decimal j) ("]" ++ "") ends)

not_empty-append : (s t : String) → is_empty_text s ≡ false → is_empty_text (s ++ t) ≡ false
not_empty-append Native.[] t h = cc
not_empty-append (Native.◌∷◌ c s) t h = simp append.cons refl

family_not_empty : (f : String) → IsFamily f → is_empty_text f ≡ false
family_not_empty _ opus = refl
family_not_empty _ sonnet = refl
family_not_empty _ haiku = refl

pub model_alias-not_empty :
    (model : ProviderModel) (i : ℕ) (overrides : HashMap String)
    → is_empty_text (model_alias model i overrides) ≡ false
unfolding model_alias
model_alias-not_empty model i overrides =
    not_empty-append (alias_family model overrides) (closed_index i)
      (family_not_empty (alias_family model overrides) (alias_family-IsFamily model overrides))
