-- ===== src/Optimization/WebTools/Address/Ranges.antt =====
-- The IPv4 addresses that are not public are those of the reserved blocks.
use free_claude_desktop.Prelude.{
  ℕ, ◌+◌, ◌*◌, ◌<◌, ◌≡◌, refl, sym, ap, ◌∙◌, Bool, false, not, ◌&&◌, ◌||◌, List, [], ◌∷◌, eqb, leb,
  any, arith, subst, inl, inr, Bool-cases, eqb_iff,
}
use free_claude_desktop.Optimization.WebTools.Address.{is_within, is_public_ipv4}

-- An address as a number of 32 bits.
abbrev pub number_of : ℕ → ℕ → ℕ → ℕ → ℕ
number_of a b c d = ((a * 256 + b) * 256 + c) * 256 + d

-- The first and the last address of a block.
abbrev pub Block : Type 0
Block = ℕ × ℕ

-- The blocks that are not for the public.
abbrev pub reserved : List Block
reserved =
    (number_of 0 0 0 0, number_of 0 255 255 255)
    ∷ (number_of 10 0 0 0, number_of 10 255 255 255)
    ∷ (number_of 100 64 0 0, number_of 100 127 255 255)
    ∷ (number_of 127 0 0 0, number_of 127 255 255 255)
    ∷ (number_of 169 254 0 0, number_of 169 254 255 255)
    ∷ (number_of 172 16 0 0, number_of 172 31 255 255)
    ∷ (number_of 192 0 2 0, number_of 192 0 2 255)
    ∷ (number_of 192 168 0 0, number_of 192 168 255 255)
    ∷ (number_of 198 18 0 0, number_of 198 19 255 255)
    ∷ (number_of 198 51 100 0, number_of 198 51 100 255)
    ∷ (number_of 203 0 113 0, number_of 203 0 113 255)
    ∷ (number_of 224 0 0 0, number_of 255 255 255 255)
    ∷ []

abbrev pub in_block : ℕ → Block → Bool
in_block n block = is_within block.0 block.1 n

-- What the code tests, with the blocks in the order of the list.
abbrev tested : ℕ → ℕ → ℕ → Bool
tested a b c =
    eqb a 0
    || (eqb a 10
        || ((eqb a 100 && is_within 64 127 b)
            || (eqb a 127
                || ((eqb a 169 && is_within 254 254 b)
                    || ((eqb a 172 && is_within 16 31 b)
                        || ((eqb a 192 && eqb b 0 && eqb c 2)
                            || ((eqb a 192 && is_within 168 168 b)
                                || ((eqb a 198 && is_within 18 19 b)
                                    || ((eqb a 198 && eqb b 51 && eqb c 100)
                                        || ((eqb a 203 && eqb b 0 && eqb c 113)
                                            || (leb 224 a || false)))))))))))

at_10 : (b c d : ℕ) → is_public_ipv4 10 b c d ≡ not (tested 10 b c)
unfolding is_public_ipv4
at_10 b c d = ground arith

at_100 : (b c d : ℕ) → is_public_ipv4 100 b c d ≡ not (tested 100 b c)
unfolding is_public_ipv4
at_100 b c d = ground arith

at_127 : (b c d : ℕ) → is_public_ipv4 127 b c d ≡ not (tested 127 b c)
unfolding is_public_ipv4
at_127 b c d = ground arith

at_169 : (b c d : ℕ) → is_public_ipv4 169 b c d ≡ not (tested 169 b c)
unfolding is_public_ipv4
at_169 b c d = ground arith

at_172 : (b c d : ℕ) → is_public_ipv4 172 b c d ≡ not (tested 172 b c)
unfolding is_public_ipv4
at_172 b c d = ground arith

at_192 : (b c d : ℕ) → is_public_ipv4 192 b c d ≡ not (tested 192 b c)
unfolding is_public_ipv4
at_192 b c d = ground arith

at_198 : (b c d : ℕ) → is_public_ipv4 198 b c d ≡ not (tested 198 b c)
unfolding is_public_ipv4
at_198 b c d = ground arith

at_203 : (b c d : ℕ) → is_public_ipv4 203 b c d ≡ not (tested 203 b c)
unfolding is_public_ipv4
at_203 b c d = ground arith

-- The first octet is one that the code looks behind, or none of them.
data FirstOctet : ℕ → Type 0 where
  is_10 : FirstOctet 10
  is_100 : FirstOctet 100
  is_127 : FirstOctet 127
  is_169 : FirstOctet 169
  is_172 : FirstOctet 172
  is_192 : FirstOctet 192
  is_198 : FirstOctet 198
  is_203 : FirstOctet 203
  is_other :
      {a : ℕ}
      → eqb a 10 ≡ false
      → eqb a 100 ≡ false
      → eqb a 127 ≡ false
      → eqb a 169 ≡ false
      → eqb a 172 ≡ false
      → eqb a 192 ≡ false
      → eqb a 198 ≡ false
      → eqb a 203 ≡ false
      → FirstOctet a

first_octet : (a : ℕ) → FirstOctet a
first_octet a = elim (Bool-cases (eqb a 10)) [
  | inl same ↦ subst FirstOctet (sym ((eqb_iff a 10).0 same)) is_10
  | inr not_10 ↦ elim (Bool-cases (eqb a 100)) [
    | inl same ↦ subst FirstOctet (sym ((eqb_iff a 100).0 same)) is_100
    | inr not_100 ↦ elim (Bool-cases (eqb a 127)) [
      | inl same ↦ subst FirstOctet (sym ((eqb_iff a 127).0 same)) is_127
      | inr not_127 ↦ elim (Bool-cases (eqb a 169)) [
        | inl same ↦ subst FirstOctet (sym ((eqb_iff a 169).0 same)) is_169
        | inr not_169 ↦ elim (Bool-cases (eqb a 172)) [
          | inl same ↦ subst FirstOctet (sym ((eqb_iff a 172).0 same)) is_172
          | inr not_172 ↦ elim (Bool-cases (eqb a 192)) [
            | inl same ↦ subst FirstOctet (sym ((eqb_iff a 192).0 same)) is_192
            | inr not_192 ↦ elim (Bool-cases (eqb a 198)) [
              | inl same ↦ subst FirstOctet (sym ((eqb_iff a 198).0 same)) is_198
              | inr not_198 ↦ elim (Bool-cases (eqb a 203)) [
                | inl same ↦ subst FirstOctet (sym ((eqb_iff a 203).0 same)) is_203
                | inr not_203 ↦
                    is_other not_10 not_100 not_127 not_169 not_172 not_192 not_198 not_203
              ]
            ]
          ]
        ]
      ]
    ]
  ]
]

other :
    (a b c d : ℕ)
    → eqb a 10 ≡ false
    → eqb a 100 ≡ false
    → eqb a 127 ≡ false
    → eqb a 169 ≡ false
    → eqb a 172 ≡ false
    → eqb a 192 ≡ false
    → eqb a 198 ≡ false
    → eqb a 203 ≡ false
    → is_public_ipv4 a b c d ≡ not (tested a b c)
unfolding is_public_ipv4
other a b c d h10 h100 h127 h169 h172 h192 h198 h203 =
    rw (h10, h100, h127, h169, h172, h192, h198, h203) (ground arith)

tested-eq : (a b c d : ℕ) → FirstOctet a → is_public_ipv4 a b c d ≡ not (tested a b c)
tested-eq _ b c d is_10 = at_10 b c d
tested-eq _ b c d is_100 = at_100 b c d
tested-eq _ b c d is_127 = at_127 b c d
tested-eq _ b c d is_169 = at_169 b c d
tested-eq _ b c d is_172 = at_172 b c d
tested-eq _ b c d is_192 = at_192 b c d
tested-eq _ b c d is_198 = at_198 b c d
tested-eq _ b c d is_203 = at_203 b c d
tested-eq a b c d (is_other h10 h100 h127 h169 h172 h192 h198 h203) =
    other a b c d h10 h100 h127 h169 h172 h192 h198 h203

module _ (a b c d : ℕ) (ha : a < 256) (hb : b < 256) (hc : c < 256) (hd : d < 256) where
  block_8 :
      (k : ℕ) → in_block (number_of a b c d) (number_of k 0 0 0, number_of k 255 255 255) ≡ eqb a k
  block_8 k = ground arith

  block_second :
      (k lo hi : ℕ)
      → lo < 256
      → hi < 256
      → in_block (number_of a b c d) (number_of k lo 0 0, number_of k hi 255 255)
        ≡ (eqb a k && is_within lo hi b)
  block_second k lo hi hl hh = ground arith

  block_24 :
      (k l m : ℕ)
      → l < 256
      → m < 256
      → in_block (number_of a b c d) (number_of k l m 0, number_of k l m 255)
        ≡ (eqb a k && eqb b l && eqb c m)
  block_24 k l m hl hm = ground arith

  top : in_block (number_of a b c d) (number_of 224 0 0 0, number_of 255 255 255 255) ≡ leb 224 a
  top = ground arith

  any-tested : any (in_block (number_of a b c d)) reserved ≡ tested a b c
  any-tested =
      rw
        (
          block_8 0,
          block_8 10,
          block_second 100 64 127 (omega arith) (omega arith),
          block_8 127,
          block_second 169 254 254 (omega arith) (omega arith),
          block_second 172 16 31 (omega arith) (omega arith),
          block_24 192 0 2 (omega arith) (omega arith),
          block_second 192 168 168 (omega arith) (omega arith),
          block_second 198 18 19 (omega arith) (omega arith),
          block_24 198 51 100 (omega arith) (omega arith),
          block_24 203 0 113 (omega arith) (omega arith),
          top,
        )
        refl

-- Of four bytes, the address is public exactly when, as a number of 32 bits, it lies in none of
-- the twelve reserved blocks.
pub is_public_ipv4-reserved :
    (a b c d : ℕ)
    → a < 256
    → b < 256
    → c < 256
    → d < 256
    → is_public_ipv4 a b c d ≡ not (any (in_block (number_of a b c d)) reserved)
is_public_ipv4-reserved a b c d ha hb hc hd =
    tested-eq a b c d (first_octet a) ∙ ap not (sym (any-tested a b c d ha hb hc hd))
