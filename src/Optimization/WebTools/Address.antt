-- ===== src/Optimization/WebTools/Address.antt =====
-- The addresses of `std::net`, and which of them are public. A segment of an IPv6 address is a
-- number of 16 bits, so `first & 0xfe00 == 0xfc00` compares the quotient by 512.
pub mod Ranges
use free_claude_desktop.Prelude.{
  ℕ, ◌/◌, ◌%◌, Bool, true, false, not, ◌&&◌, ◌||◌, eqb, leb, ltb, if◌then◌else◌,
}

pub data IpAddr : Type 0 where
  v4 : (a b c d : ℕ) → IpAddr
  v6 : (s0 s1 s2 s3 s4 s5 s6 s7 : ℕ) → IpAddr

abbrev pub is_within : ℕ → ℕ → ℕ → Bool
is_within lo hi n = leb lo n && leb n hi

-- `Ipv4Addr::is_private`, `is_link_local`, `is_unspecified` and `is_broadcast`
abbrev pub is_private : ℕ → ℕ → Bool
is_private a b = eqb a 10 || (eqb a 172 && is_within 16 31 b) || (eqb a 192 && eqb b 168)

abbrev pub is_link_local : ℕ → ℕ → Bool
is_link_local a b = eqb a 169 && eqb b 254

abbrev pub are_all : ℕ → ℕ → ℕ → ℕ → ℕ → Bool
are_all n a b c d = eqb a n && eqb b n && eqb c n && eqb d n

unfoldable pub is_public_ipv4 : ℕ → ℕ → ℕ → ℕ → Bool
is_public_ipv4 a b c d =
    not (is_private a b)
    && not (eqb a 127)
    && not (is_link_local a b)
    && not (are_all 0 a b c d)
    && not (is_within 224 239 a)
    && not (are_all 255 a b c d)
    && not (eqb a 0)
    && not (eqb a 100 && is_within 64 127 b)
    && not (eqb a 192 && eqb b 0 && eqb c 2)
    && not (eqb a 198 && (eqb b 18 || eqb b 19))
    && not (eqb a 198 && eqb b 51 && eqb c 100)
    && not (eqb a 203 && eqb b 0 && eqb c 113)
    && ltb a 240

abbrev are_zero : ℕ → ℕ → ℕ → ℕ → ℕ → Bool
are_zero s0 s1 s2 s3 s4 = eqb s0 0 && eqb s1 0 && eqb s2 0 && eqb s3 0 && eqb s4 0

-- The prefix `::ffff:0:0/96`: the address of an IPv4 address.
abbrev pub is_mapped : ℕ → ℕ → ℕ → ℕ → ℕ → ℕ → Bool
is_mapped s0 s1 s2 s3 s4 s5 = are_zero s0 s1 s2 s3 s4 && eqb s5 65535

-- Loopback is `::1`, unspecified is `::`.
abbrev pub is_special : ℕ → ℕ → ℕ → ℕ → ℕ → ℕ → ℕ → ℕ → Bool
is_special s0 s1 s2 s3 s4 s5 s6 s7 =
    are_zero s0 s1 s2 s3 s4 && eqb s5 0 && eqb s6 0 && (eqb s7 1 || eqb s7 0)

unfoldable pub is_public_ip : IpAddr → Bool
is_public_ip (v4 a b c d) = is_public_ipv4 a b c d
is_public_ip (v6 s0 s1 s2 s3 s4 s5 s6 s7) =
    if is_mapped s0 s1 s2 s3 s4 s5
    then is_public_ipv4 (s6 / 256) (s6 % 256) (s7 / 256) (s7 % 256)
    else not (
        is_special s0 s1 s2 s3 s4 s5 s6 s7
        || eqb (s0 / 256) 255
        || eqb (s0 / 512) 126
        || eqb (s0 / 64) 1018
        || (eqb s0 8193 && eqb s1 3512)
        || (eqb s0 100 && eqb s1 65435)
        || is_mapped s0 s1 s2 s3 s4 s5)
