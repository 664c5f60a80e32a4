-- ===== src/Request/Tests/Effort.antt =====
-- Runs of the theorems on the reasoning effort.
use free_claude_desktop.Prelude.{String, ◌≡◌, refl, ◌⊎◌, inl, inr, some, ◌<◌, ◌≤◌, arith}
use free_claude_desktop.Prelude.Members.{Member}
use free_claude_desktop.Prelude.Texts.{strip_suffix}
use free_claude_desktop.Json.{string, get_field, insert}
use free_claude_desktop.Claude.{ClaudeMessagesRequest}
use free_claude_desktop.Settings.{get_key}
use free_claude_desktop.Request.Effort.{
  thinking_budget_to_effort, effort_rank, clamp_reasoning_effort, base_model_alias,
  supported_efforts, thinking_disabled, thinking_effort, requested_effort, apply_effort,
  apply_thinking_mapping, distance,
}
use free_claude_desktop.Request.Effort.Clamp.{clamp_closest}
use free_claude_desktop.Request.Effort.Mapping.{apply_thinking_mapping-Member}
use free_claude_desktop.Request.Convert.{initial_fields}
use free_claude_desktop.Request.Tests.{request, settings, levels, off_config}
use free_claude_desktop.Prelude.Minimum.{min_by, min_from}

clamp_high : clamp_reasoning_effort "high" levels ≡ some "max"
unfolding clamp_reasoning_effort effort_rank min_by min_from
clamp_high = refl

clamp_closest_example : (distance 5 3 < distance 1 3) ⊎ ((distance 5 3 ≡ distance 1 3) × (1 ≤ 5))
unfolding effort_rank
clamp_closest_example =
    clamp_closest "high" levels "max" "low" 3 5 1 clamp_high refl refl
      (inr (inl refl), refl, ground arith)

apply_thinking_mapping-Member_example : (e : String) × (string "max" ≡ string e) × Member e levels
unfolding supported_efforts get_key get_field insert apply_thinking_mapping requested_effort
    thinking_effort thinking_disabled thinking_budget_to_effort apply_effort clamp_reasoning_effort
    effort_rank min_by min_from base_model_alias strip_suffix
apply_thinking_mapping-Member_example =
    apply_thinking_mapping-Member (initial_fields request) request settings levels (string "max")
      refl refl refl

abbrev quiet : ClaudeMessagesRequest
quiet = record request { thinking = some off_config }

abbrev mini : ClaudeMessagesRequest
mini = record request { model = "o3-mini" }
