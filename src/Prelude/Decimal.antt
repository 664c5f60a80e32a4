-- ===== src/Prelude/Decimal.antt =====
-- The decimal text of a number determines it.
use Prim.Native.Char.{Char, code}
use Prim.Native.String.{◌++◌, len, char_at, [], ◌∷◌}
use Prim.Native.String.append
use text.Mathlib.TextPositions.{len-append, slice-append_left, slice-append_right}
use native.Mathlib.Numerals.{unary_clauses}
use free_claude_desktop.Prelude.{
  ℕ, zero, suc, ◌+◌, ◌*◌, ◌/◌, ◌%◌, ◌^◌, ◌<◌, ◌≡◌, refl, sym, ap, ◌∙◌, inl, inr, Bool-cases, some,
  arith, ltb, String,
}
use free_claude_desktop.Prelude.Texts.{decimal, decimal_from, digits_from, add_digit}

pub append_assoc : (s t u : String) → (s ++ t) ++ u ≡ s ++ (t ++ u)
append_assoc [] t u = simp (append.nil)
append_assoc (c ∷ s) t u = simp (append.cons) (ap (λ v. c ∷ v) (append_assoc s t u))

pub append-nil : (s : String) → s ++ [] ≡ s
append-nil [] = append.nil []
append-nil (c ∷ s) = append.cons c s [] ∙ ap (λ v. c ∷ v) (append-nil s)

-- A common end or start cancels.
pub append-cancel_right : (s s' t : String) → s ++ t ≡ s' ++ t → s ≡ s'
append-cancel_right s s' t h =
    let n : len s ≡ len s' = omega (arith, len-append s t, len-append s' t, ap len h) in
    sym (slice-append_left s t) ∙ (rw (h, n) (slice-append_left s' t))

pub append-cancel_left : (s t t' : String) → s ++ t ≡ s ++ t' → t ≡ t'
append-cancel_left s t t' h =
    let n : len t ≡ len t' = omega (arith, len-append s t, len-append s t', ap len h) in
    sym (slice-append_right s t) ∙ (rw (h, n) (slice-append_right s t'))

digit-code : (d : ℕ) → d < 10 → code (char_at "0123456789" d) ≡ 48 + d
digit-code zero h = refl
digit-code (suc zero) h = refl
digit-code (suc (suc zero)) h = refl
digit-code (suc (suc (suc zero))) h = refl
digit-code (suc (suc (suc (suc zero)))) h = refl
digit-code (suc (suc (suc (suc (suc zero))))) h = refl
digit-code (suc (suc (suc (suc (suc (suc zero)))))) h = refl
digit-code (suc (suc (suc (suc (suc (suc (suc zero))))))) h = refl
digit-code (suc (suc (suc (suc (suc (suc (suc (suc zero)))))))) h = refl
digit-code (suc (suc (suc (suc (suc (suc (suc (suc (suc zero))))))))) h = refl
digit-code (suc (suc (suc (suc (suc (suc (suc (suc (suc (suc d)))))))))) h = absurd (omega arith)

abbrev digit_char : ℕ → Char
digit_char d = char_at "0123456789" d

add_digit-digit :
    (d m : ℕ) → d < 10 → 10 * m + d < 2 ^ 64 → add_digit (digit_char d) m ≡ some (10 * m + d)
add_digit-digit d m h k = rw (digit-code d h) (ground arith)

digits_from-cons :
    (c : Char) (s : String) (m k : ℕ)
    → add_digit c m ≡ some k
    → digits_from m (c ∷ s) ≡ digits_from k s
unfolding digits_from
digits_from-cons c s m k e = rw (digits_from, e) refl

read_digit :
    (m n : ℕ) (text : String)
    → 10 * m + n % 10 ≡ n
    → n < 2 ^ 64
    → digits_from m (digit_char (n % 10) ∷ text) ≡ digits_from n text
read_digit m n text e h =
    digits_from-cons (digit_char (n % 10)) text m n
      (add_digit-digit (n % 10) m (omega arith) (omega (arith, e)) ∙ ap some e)

power : (k n : ℕ) → n < 10 ^ suc k → n / 10 < 10 ^ k
power k n h = let h' = (simp unary_clauses at h) in omega arith

-- The digits are read back, in front of the text.
digits_from-decimal_from :
    (fuel n : ℕ) (text : String)
    → n < 10 ^ fuel
    → n < 2 ^ 64
    → digits_from 0 (decimal_from fuel n text) ≡ digits_from n text
unfolding digits_from decimal_from
digits_from-decimal_from zero n text h k = let e : n ≡ 0 = omega arith in rw e refl
digits_from-decimal_from (suc fuel) n text h k = elim (Bool-cases (ltb n 10)) [
  | inl small ↦ rw small (read_digit 0 n text (ground arith) k)
  | inr large ↦ rw large (
      digits_from-decimal_from fuel (n / 10) (digit_char (n % 10) ∷ text) (power fuel n h)
        (omega arith)
      ∙ read_digit (n / 10) n text (omega arith) k)
]

pub decimal-injective : (m n : ℕ) → m < 2 ^ 64 → n < 2 ^ 64 → decimal m ≡ decimal n → m ≡ n
unfolding digits_from decimal
decimal-injective m n h k e =
    let f = digits_from-decimal_from 20 m [] (omega arith) h in
    let g = digits_from-decimal_from 20 n [] (omega arith) k in
    ground (arith, f, g, ap (digits_from 0) e)
