-- ===== src/Optimization/Detection/Filepaths.antt =====
-- The paths that a command reads: extract_filepaths_from_command and its helpers.
use text.Mathlib.Text.{starts_with}
use free_claude_desktop.Prelude.{
  String, Bool, true, false, not, ◌||◌, ◌==◌, Option, none, some, List, [], ◌∷◌, any, keep, drop,
  is_empty, if◌then◌else◌, unwrap_or,
}
use free_claude_desktop.Prelude.Texts.{join, concat, split_whitespace, after_last}
use free_claude_desktop.Optimization.Commands.{strip_env_assignments}

abbrev pub no_filepaths : String
no_filepaths = "<filepaths>\n</filepaths>"

abbrev pub filepaths_text : List String → Option String
filepaths_text paths =
    if is_empty paths
    then none
    else some (concat ("<filepaths>\n" ∷ join "\n" paths ∷ "\n</filepaths>" ∷ []))

-- `parts[1..]` without the options
unfoldable pub filepaths_from_reading : List String → Option String
filepaths_from_reading parts = filepaths_text (keep (λ p. not (starts_with p "-")) (drop 1 parts))

abbrev pub is_grep_flag_with_arg : String → Bool
is_grep_flag_with_arg part =
    part == "-e" || part == "-f" || part == "-m" || part == "-A" || part == "-B" || part == "-C"

abbrev pub is_grep_pattern_flag : String → Bool
is_grep_pattern_flag part = part == "-e" || part == "-f"

-- The flags of the loop: whether a pattern was given, and whether the next part is skipped.
pub record GrepState : Type 0 where
  pub pattern_provided : Bool
  pub skip_next : Bool

abbrev pub handle_grep_flag : String → GrepState → GrepState
handle_grep_flag part state =
    if is_grep_flag_with_arg part
    then record {
      pattern_provided = is_grep_pattern_flag part || state.pattern_provided;
      skip_next = true;
    }
    else state

abbrev push_front : String → List String × Bool → List String × Bool
push_front part (positional, pattern_provided) = (part ∷ positional, pattern_provided)

-- The loop over the parts behind the command.
pub collect_from : GrepState → List String → List String × Bool
collect_from state [] = ([], state.pattern_provided)
collect_from state (part ∷ parts) =
    let skipped = collect_from (record state { skip_next = false }) parts in
    let flag = collect_from (handle_grep_flag part state) parts in
    let operand = push_front part (collect_from state parts) in
    if state.skip_next then skipped else if starts_with part "-" then flag else operand

unfoldable pub collect_grep_positionals : List String → List String × Bool
unfolding collect_from
collect_grep_positionals parts =
    collect_from (record { pattern_provided = false; skip_next = false }) (drop 1 parts)

-- The first operand is the pattern, unless an option gave it.
unfoldable pub filepaths_from_grep : List String → Option String
filepaths_from_grep parts =
    let (positional, pattern_provided) = collect_grep_positionals parts in
    filepaths_text (if pattern_provided then positional else drop 1 positional)

abbrev listing_cmds : List String
listing_cmds = "ls" ∷ "dir" ∷ "find" ∷ "tree" ∷ "pwd" ∷ "cd" ∷ "mkdir" ∷ "rmdir" ∷ "rm" ∷ []

abbrev reading_cmds : List String
reading_cmds = "cat" ∷ "head" ∷ "tail" ∷ "less" ∷ "more" ∷ "bat" ∷ "type" ∷ []

module _ (to_lowercase : String → String) where
  unfoldable pub base_command : String → String
  base_command part = to_lowercase (after_last 92 (after_last b'/' part))

  abbrev pub is_command : List String → String → Bool
  is_command commands base_cmd = any (λ c. c == base_cmd) commands

  abbrev pub paths_of_parts : List String → String
  paths_of_parts [] = no_filepaths
  paths_of_parts (command ∷ parts) =
      let base_cmd = base_command command in
      if is_command listing_cmds base_cmd
      then no_filepaths
      else if is_command reading_cmds base_cmd
      then unwrap_or no_filepaths (filepaths_from_reading (command ∷ parts))
      else if base_cmd == "grep"
      then unwrap_or no_filepaths (filepaths_from_grep (command ∷ parts))
      else no_filepaths

  unfoldable pub extract_filepaths_from_command : String → String → String
  extract_filepaths_from_command command output =
      paths_of_parts (strip_env_assignments (split_whitespace command))
