-- ===== src/Optimization/Commands/Prefix.antt =====
-- Assignments in front of a command.
use free_claude_desktop.Prelude.{
  ℕ, suc, ◌+◌, String, ◌≡◌, refl, ap, ◌∙◌, true, false, List, [], ◌∷◌, ◌++◌, arith, All, drop,
  Bool-cases, inl, inr,
}
use free_claude_desktop.Optimization.Commands.{
  is_env_assignment, command_start, strip_env_assignments,
}

-- The index and the start of the loop count from wherever they begin.
command_start-add :
    (i : ℕ) (parts : List String) → command_start i i parts ≡ i + command_start 0 0 parts
unfolding command_start
command_start-add i [] = omega arith
command_start-add i (part ∷ parts) = elim (Bool-cases (is_env_assignment part)) [
  | inr command ↦ rw command (omega arith)
  | inl assignment ↦
      rw assignment (command_start-add (i + 1) parts ∙ omega (arith, command_start-add 1 parts))
]

command_start-assignment :
    (part : String) (parts : List String)
    → is_env_assignment part ≡ true
    → command_start 0 0 (part ∷ parts) ≡ suc (command_start 0 0 parts)
unfolding command_start
command_start-assignment part parts h = rw h (command_start-add 1 parts ∙ omega arith)

strip-assignment :
    (part : String) (parts : List String)
    → is_env_assignment part ≡ true
    → strip_env_assignments (part ∷ parts) ≡ strip_env_assignments parts
unfolding strip_env_assignments
strip-assignment part parts h =
    ap (λ (n : ℕ). drop n (part ∷ parts)) (command_start-assignment part parts h)

strip-command :
    (part : String) (parts : List String)
    → is_env_assignment part ≡ false
    → strip_env_assignments (part ∷ parts) ≡ part ∷ parts
unfolding strip_env_assignments command_start
strip-command part parts h = rw h refl

-- Words that begin with no assignment.
pub data IsCommand : List String → Type 0 where
  nothing : IsCommand []
  command :
      (part : String) (parts : List String)
      → is_env_assignment part ≡ false
      → IsCommand (part ∷ parts)

-- The words that strip_env_assignments leaves are none or begin with a word that is no
-- assignment, and what it takes off in front of them are assignments only.
pub strip_env_assignments-IsCommand :
    (parts : List String)
    → IsCommand (strip_env_assignments parts)
      × ((assignments : List String) × All (λ a. is_env_assignment a ≡ true) assignments
          × (parts ≡ assignments ++ strip_env_assignments parts))
strip_env_assignments-IsCommand [] =
    unfold strip_env_assignments command_start in (nothing, ([], tt, refl))
strip_env_assignments-IsCommand (part ∷ parts) = elim (Bool-cases (is_env_assignment part)) [
  | inr first ↦ rw (strip-command part parts first) (command part parts first, ([], tt, refl))
  | inl assignment ↦
      let (clean, (assignments, all, split)) = strip_env_assignments-IsCommand parts in
      rw (strip-assignment part parts assignment)
        (clean, (part ∷ assignments, (assignment, all), ap (λ (ps : List String). part ∷ ps) split))
]
