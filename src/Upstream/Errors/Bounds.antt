-- ===== src/Upstream/Errors/Bounds.antt =====
-- The text of an error is made of a front part of what arrived.
use mathlib.Core.List.{append-nil, append_assoc}
use free_claude_desktop.Prelude.{
  ℕ, zero, suc, ◌+◌, ◌-◌, ◌≤◌, String, ◌≡◌, refl, sym, ap, ◌∙◌, ◌⊎◌, inl, inr, List, [], ◌∷◌, ◌++◌,
  length, length-append, eqb, ltb, arith, Bool-cases, Result, ok, err,
}
use free_claude_desktop.Stream.Lines.{Bytes}
use free_claude_desktop.Upstream.Errors.{
  take, min, extended, read_bounded, read_bounded_error, max_upstream_error_bytes,
}

-- The bytes that arrive in front of the first error of the network.
abbrev pub received : List (Result Bytes String) → Bytes
received [] = []
received (err error ∷ chunks) = []
received (ok chunk ∷ chunks) = chunk ++ received chunks

take_all : (n : ℕ) (bytes : Bytes) → length bytes ≤ n → take n bytes ≡ bytes
take_all zero [] h = refl
take_all zero (b ∷ bytes) h = absurd (omega arith)
take_all (suc n) [] h = refl
take_all (suc n) (b ∷ bytes) h = ap (λ x. b ∷ x) (take_all n bytes (omega arith))

take-append : (m n : ℕ) (xs ys : Bytes) → length xs + m ≡ n → take n (xs ++ ys) ≡ xs ++ take m ys
take-append m n [] ys h = ap (λ k. take k ys) (omega arith)
take-append m zero (x ∷ xs) ys h = absurd (omega arith)
take-append m (suc n) (x ∷ xs) ys h = ap (λ r. x ∷ r) (take-append m n xs ys (omega arith))

take_nothing : (n : ℕ) → take n [] ≡ []
take_nothing zero = refl
take_nothing (suc n) = refl

take-min : (n : ℕ) (bytes : Bytes) → take (min (length bytes) n) bytes ≡ take n bytes
take-min n bytes = elim (Bool-cases (ltb n (length bytes))) [
  | inl over ↦ rw over refl
  | inr within ↦
      rw within
        (take_all (length bytes) bytes (omega arith) ∙ sym (take_all n bytes (ground arith)))
]

-- A front part is as long as it may be, or the bytes are all of it.
take-cases : (n : ℕ) (xs : Bytes) → (length (take n xs) ≡ n) ⊎ (take n xs ≡ xs)
take-cases zero xs = inl refl
take-cases (suc n) [] = inr refl
take-cases (suc n) (x ∷ xs) = elim (take-cases n xs) [
  | inl full ↦ inl (omega (arith, full))
  | inr whole ↦ inr (ap (λ r. x ∷ r) whole)
]

length-take_bound : (n : ℕ) (xs : Bytes) → length (take n xs) ≤ n
length-take_bound zero xs = omega arith
length-take_bound (suc n) [] = omega arith
length-take_bound (suc n) (x ∷ xs) = omega (arith, length-take_bound n xs)

filled : (n : ℕ) (xs ys : Bytes) → length (take n xs) ≡ n → take n (xs ++ ys) ≡ take n xs
filled zero xs ys h = refl
filled (suc n) [] ys h = absurd (omega arith)
filled (suc n) (x ∷ xs) ys h = ap (λ r. x ∷ r) (filled n xs ys (omega arith))

module _ (limit : ℕ) where
  extended-eq :
      (bytes chunk : Bytes)
      → extended limit bytes chunk ≡ bytes ++ take (limit - length bytes) chunk
  extended-eq bytes chunk = ap (λ r. bytes ++ r) (take-min (limit - length bytes) chunk)

  whole : (bytes : Bytes) → length bytes ≤ limit → bytes ≡ take limit (bytes ++ [])
  whole bytes h = sym (ap (take limit) (append-nil bytes) ∙ take_all limit bytes h)

  read_bounded_lem :
      (bytes : Bytes) (chunks : List (Result Bytes String))
      → length bytes ≤ limit
      → read_bounded limit bytes chunks ≡ take limit (bytes ++ received chunks)
  unfolding read_bounded
  read_bounded_lem bytes [] h = whole bytes h
  read_bounded_lem bytes (err error ∷ chunks) h = whole bytes h
  read_bounded_lem bytes (ok chunk ∷ chunks) h =
      let r = limit - length bytes in
      let rest = received chunks in
      let longer = extended-eq bytes chunk in
      let long = ap length longer ∙ length-append bytes (take r chunk) in
      elim (Bool-cases (eqb (length (extended limit bytes chunk)) limit)) [
        | inl full ↦
            let same = filled r chunk rest (ground arith) in
            rw full (
              longer
              ∙ ap (λ x. bytes ++ x) (sym same)
              ∙ sym (take-append r limit bytes (chunk ++ rest) (omega arith)))
        | inr short ↦ elim (take-cases r chunk) [
          | inl full ↦ absurd (ground arith)
          | inr all ↦
              let appended : extended limit bytes chunk ≡ bytes ++ chunk =
                longer ∙ ap (λ x. bytes ++ x) all in
              let within : length (bytes ++ chunk) ≤ limit =
                omega
                  (arith, length-append bytes chunk, length-take_bound r chunk, ap length all) in
              rw short (
                ap (λ x. read_bounded limit x chunks) appended
                ∙ read_bounded_lem (bytes ++ chunk) chunks within
                ∙ ap (take limit) (append_assoc bytes chunk rest))
        ]
      ]

-- The text of an upstream's error is decoded from the first 65536 bytes of what arrives in front
-- of the first error of the network.
pub read_bounded_error_lem :
    (decode : Bytes → String) (chunks : List (Result Bytes String))
    → read_bounded_error decode chunks ≡ decode (take 65536 (received chunks))
unfolding read_bounded_error
read_bounded_error_lem decode chunks =
    ap decode (read_bounded_lem max_upstream_error_bytes [] chunks (omega arith))
