-- ===== src/Prelude/Texts.antt =====
-- Rust's `str` methods that the program calls, over the native texts.
use Prim.Native.Nat.{ℕ, zero, suc, ◌+◌, ◌-◌, ◌*◌, ◌/◌, ◌%◌, ◌^◌}
use Prim.Native.Char.{Char, code, len_utf8}
use Prim.Native.String.{String, [], ◌∷◌, ◌++◌, len, find, char_at}
use mathlib.Core.Bool.{Bool, true, false, ◌&&◌, ◌||◌}
use mathlib.Core.Option.{Option, none, some}
use mathlib.Core.List.{List}
use text.Mathlib.Text.{◌==◌}
use free_claude_desktop.Prelude.Tests.{leb, ltb, eqb, if◌then◌else◌}

-- `char::is_whitespace`: the White_Space property of Unicode.
unfoldable pub is_whitespace : Char → Bool
is_whitespace c =
    let n = code c in
    (leb 9 n && leb n 13)
    || eqb n 32
    || eqb n 133
    || eqb n 160
    || eqb n 5760
    || (leb 8192 n && leb n 8202)
    || eqb n 8232
    || eqb n 8233
    || eqb n 8239
    || eqb n 8287
    || eqb n 12288

abbrev pub is_empty_text : String → Bool
is_empty_text [] = true
is_empty_text (c ∷ s) = false

unfoldable pub trim_start : String → String
unfolding is_whitespace
trim_start [] = []
trim_start (c ∷ s) = if is_whitespace c then trim_start s else c ∷ s

unfoldable pub trim_end : String → String
unfolding is_whitespace
trim_end [] = []
trim_end (c ∷ s) =
    let rest = trim_end s in if is_whitespace c && is_empty_text rest then [] else c ∷ rest

unfoldable pub trim : String → String
unfolding trim_start trim_end
trim s = trim_end (trim_start s)

-- `s.contains(t)`
unfoldable pub contains : String → String → Bool
contains s t = leb (find s t) (len s)

-- `s.char_indices()`, from a byte position on
unfoldable pub char_indices : ℕ → String → List (ℕ × Char)
char_indices i [] = List.[]
char_indices i (c ∷ s) = List.◌∷◌ (i, c) (char_indices (i + len_utf8 c) s)

lower_char : Char → Char
lower_char c =
    let n = code c in
    if leb 65 n && leb n 90 then char_at "abcdefghijklmnopqrstuvwxyz" (n - 65) else c

unfoldable pub to_ascii_lowercase : String → String
unfolding lower_char
to_ascii_lowercase [] = []
to_ascii_lowercase (c ∷ s) = lower_char c ∷ to_ascii_lowercase s

abbrev pub prepend : Char → Option String → Option String
prepend c none = none
prepend c (some s) = some (c ∷ s)

-- `s.strip_suffix(t)`
unfoldable pub strip_suffix : String → String → Option String
strip_suffix [] t = if [] == t then some [] else none
strip_suffix (c ∷ s) t = if (c ∷ s) == t then some [] else prepend c (strip_suffix s t)

abbrev prepend_left : Char → Option (String × String) → Option (String × String)
prepend_left c none = none
prepend_left c (some (a, b)) = some (c ∷ a, b)

abbrev or_split : Option (String × String) → Bool → String → Option (String × String)
or_split (some p) here s = some p
or_split none here s = if here then some ([], s) else none

-- `s.rsplit_once(sep)` for a separator of one character: split at its last place.
unfoldable pub rsplit_once : ℕ → String → Option (String × String)
rsplit_once sep [] = none
rsplit_once sep (c ∷ s) = or_split (prepend_left c (rsplit_once sep s)) (eqb (code c) sep) s

abbrev pub add_digit : Char → ℕ → Option ℕ
add_digit c n =
    let d = code c in
    if leb 48 d && leb d 57 && ltb (10 * n + (d - 48)) (2 ^ 64)
    then some (10 * n + (d - 48))
    else none

unfoldable pub digits_from : ℕ → String → Option ℕ
digits_from n [] = some n
digits_from n (c ∷ s) = elim (add_digit c n) [ none ↦ none | some m ↦ digits_from m s ]

abbrev digits : String → Option ℕ
digits [] = none
digits (c ∷ s) = digits_from 0 (c ∷ s)

-- `s.parse::<usize>()` on a 64-bit target: decimal digits, at least one, after at most one `+`.
unfoldable pub parse_usize : String → Option ℕ
unfolding digits_from
parse_usize [] = none
parse_usize (c ∷ s) = if eqb (code c) b'+' then digits s else digits (c ∷ s)

-- `parts.join(sep)`
unfoldable pub join : String → List String → String
join sep List.[] = []
join sep (List.◌∷◌ x xs) = elim xs [ List.[] ↦ x | List.◌∷◌ y ys ↦ x ++ (sep ++ join sep xs) ]

-- `format!`, or a chain of `push_str`
abbrev pub concat : List String → String
concat List.[] = []
concat (List.◌∷◌ x xs) = x ++ concat xs

-- `s.strip_prefix(prefix)`, with the prefix first
unfoldable pub strip_prefix : String → String → Option String
strip_prefix [] s = some s
strip_prefix (c ∷ t) [] = none
strip_prefix (c ∷ t) (d ∷ s) = if eqb (code c) (code d) then strip_prefix t s else none

-- The decimal text of a number of 64 bits: at most 20 digits.
unfoldable pub decimal_from : ℕ → ℕ → String → String
decimal_from zero n text = text
decimal_from (suc fuel) n text =
    let longer = char_at "0123456789" (n % 10) ∷ text in
    let rest = decimal_from fuel (n / 10) longer in if ltb n 10 then longer else rest

unfoldable pub decimal : ℕ → String
unfolding decimal_from
decimal n = decimal_from 20 n []

abbrev at_separator : Bool → Char → Option (String × String) → String → Option (String × String)
at_separator true c later s = some ([], s)
at_separator false c later s = prepend_left c later

-- `s.split_once(sep)` for a separator of one character: split at its first place.
unfoldable pub split_once : ℕ → String → Option (String × String)
split_once sep [] = none
split_once sep (c ∷ s) = at_separator (eqb (code c) sep) c (split_once sep s) s

-- `s.chars().all(p)`
abbrev pub all_chars : (Char → Bool) → String → Bool
all_chars p [] = true
all_chars p (c ∷ s) = p c && all_chars p s

abbrev end_word : String → List String → List String
end_word [] words = words
end_word (c ∷ word) words = List.◌∷◌ (c ∷ word) words

-- The word that stands at the front, which may be empty, and the words behind it.
unfoldable pub words_from : String → String × List String
unfolding is_whitespace
words_from [] = ([], List.[])
words_from (c ∷ s) =
    let (word, words) = words_from s in
    if is_whitespace c then ([], end_word word words) else (c ∷ word, words)

-- `s.split_whitespace()`
unfoldable pub split_whitespace : String → List String
unfolding words_from
split_whitespace s = let (word, words) = words_from s in end_word word words

-- `s.ends_with(t)`
abbrev pub ends_with : String → String → Bool
ends_with s t = elim (strip_suffix s t) [ none ↦ false | some rest ↦ true ]

zeros : ℕ → String → String
zeros zero s = s
zeros (suc n) s = char_at "0" 0 ∷ zeros n s

-- `format!("{n:0width$}")`
unfoldable pub padded : ℕ → ℕ → String
unfolding zeros
padded width n = let s = decimal n in zeros (width - len s) s

-- `s.trim_end_matches('/')`
unfoldable pub trim_end_slashes : String → String
trim_end_slashes [] = []
trim_end_slashes (c ∷ s) =
    let rest = trim_end_slashes s in
    if eqb (code c) b'/' && is_empty_text rest then [] else c ∷ rest

-- `s.trim_start_matches('\u{feff}')`
unfoldable pub trim_start_bom : String → String
trim_start_bom [] = []
trim_start_bom (c ∷ s) = if eqb (code c) 65279 then trim_start_bom s else c ∷ s

abbrev pub prepend_first : Char → List String → List String
prepend_first c List.[] = List.[]
prepend_first c (List.◌∷◌ word words) = List.◌∷◌ (c ∷ word) words

-- `s.split(sep)` for a separator of one character
unfoldable pub split_char : ℕ → String → List String
split_char sep [] = List.◌∷◌ [] List.[]
split_char sep (c ∷ s) =
    let rest = split_char sep s in
    if eqb (code c) sep then List.◌∷◌ [] rest else prepend_first c rest

-- `s.parse::<u8>()`
unfoldable pub parse_u8 : String → Option ℕ
parse_u8 s = elim (parse_usize s) [ none ↦ none | some n ↦ if ltb n 256 then some n else none ]

-- `s.split(seps).next()`: what stands before the first of the separators.
unfoldable pub before_any : (ℕ → Bool) → String → String
before_any is_separator [] = []
before_any is_separator (c ∷ s) =
    let rest = before_any is_separator s in if is_separator (code c) then [] else c ∷ rest

-- `s.rsplit(sep).next()`: what stands behind the last separator.
abbrev pub after_last : ℕ → String → String
after_last sep s = elim (rsplit_once sep s) [ none ↦ s | some (before, after) ↦ after ]
