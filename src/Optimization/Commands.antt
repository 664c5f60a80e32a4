-- ===== src/Optimization/Commands.antt =====
-- core/src/optimization/command_utils.rs: the prefix of a shell command.
pub mod Prefix
mod Tests
use Prim.Native.Char.{Char, code}
use Prim.Native.String as Native
use text.Mathlib.Text.{starts_with}
use free_claude_desktop.Prelude.{
  ℕ, ◌+◌, String, Bool, true, false, not, ◌||◌, ◌&&◌, Option, none, some, List, [], ◌∷◌, ◌==◌, leb,
  eqb, any, drop, if◌then◌else◌,
}
use free_claude_desktop.Prelude.Texts.{
  contains, trim, concat, is_whitespace, split_once, all_chars, split_whitespace,
}

abbrev is_ascii_alphabetic : Char → Bool
is_ascii_alphabetic c = let n = code c in (leb 65 n && leb n 90) || (leb 97 n && leb n 122)

abbrev is_ascii_digit : Char → Bool
is_ascii_digit c = let n = code c in leb 48 n && leb n 57

abbrev is_env_name_char : Char → Bool
is_env_name_char c = eqb (code c) b'_' || (is_ascii_alphabetic c || is_ascii_digit c)

abbrev is_env_name : String → Bool
is_env_name Native.[] = false
is_env_name (Native.◌∷◌ c name) =
    (eqb (code c) b'_' || is_ascii_alphabetic c) && all_chars is_env_name_char name

unfoldable pub is_env_assignment : String → Bool
is_env_assignment part = elim (split_once b'=' part) [
  | none ↦ false
  | some (name, _) ↦ is_env_name name
]

-- The loop over the parts: `i` is the index of the next, `start` that of the command so far.
unfoldable pub command_start : ℕ → ℕ → List String → ℕ
command_start i start [] = start
command_start i start (part ∷ parts) =
    let later = command_start (i + 1) (i + 1) parts in
    if is_env_assignment part then later else start

unfoldable pub strip_env_assignments : List String → List String
strip_env_assignments parts = drop (command_start 0 0 parts) parts

abbrev two_word_cmds : List String
two_word_cmds = "git" ∷ "npm" ∷ "docker" ∷ "kubectl" ∷ "cargo" ∷ "go" ∷ "pip" ∷ "yarn" ∷ []

abbrev prefix_of : List String → String
prefix_of [] = "none"
prefix_of (first ∷ []) = first
prefix_of (first ∷ second ∷ parts) =
    if any (λ c. c == first) two_word_cmds && not (starts_with second "-")
    then concat (first ∷ " " ∷ second ∷ [])
    else first

unfoldable pub parse_shell_command_prefix : String → String
parse_shell_command_prefix command =
    let trimmed = trim command in
    if contains trimmed "`" || contains trimmed "$("
    then "command_injection_detected"
    else prefix_of (strip_env_assignments (split_whitespace trimmed))
