-- ===== src/Optimization/Commands/Tests.antt =====
-- Runs on commands.
use free_claude_desktop.Prelude.{String, ◌≡◌, refl, true, List, [], ◌∷◌, ◌++◌, All}
use free_claude_desktop.Prelude.Texts.{
  trim, trim_start, trim_end, is_whitespace, contains, split_once, split_whitespace, words_from,
}
use free_claude_desktop.Optimization.Commands.{
  is_env_assignment, command_start, strip_env_assignments, parse_shell_command_prefix,
}
use free_claude_desktop.Optimization.Commands.Prefix.{IsCommand, strip_env_assignments-IsCommand}

abbrev words : List String
words = "ENV=prod" ∷ "npm" ∷ "install" ∷ []

strip_env_assignments-IsCommand_example :
    IsCommand (strip_env_assignments words)
    × ((assignments : List String) × All (λ a. is_env_assignment a ≡ true) assignments
        × (words ≡ assignments ++ strip_env_assignments words))
strip_env_assignments-IsCommand_example = strip_env_assignments-IsCommand words

npm_install : parse_shell_command_prefix "  ENV=prod npm  install" ≡ "npm install"
unfolding parse_shell_command_prefix trim trim_start trim_end is_whitespace contains
    split_whitespace words_from strip_env_assignments command_start is_env_assignment split_once
npm_install = refl

injection : parse_shell_command_prefix "`rm -rf /`" ≡ "command_injection_detected"
unfolding parse_shell_command_prefix trim trim_start trim_end is_whitespace contains
injection = refl
