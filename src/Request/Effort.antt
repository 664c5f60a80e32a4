-- ===== src/Request/Effort.antt =====
-- The reasoning effort: from the request's `thinking` and `output_config` to `reasoning_effort`.
pub mod Clamp
pub mod Mapping
use free_claude_desktop.Prelude.{
  ℕ, ◌-◌, ◌+◌, String, Bool, true, false, not, ◌||◌, ◌&&◌, Option, none, some, List, ◌==◌, ltb, eqb,
  if◌then◌else◌, and_then, ◌or_else◌, is_some, unwrap_or, any, keep, filter_map,
}
use free_claude_desktop.Prelude.Texts.{contains, strip_suffix}
use free_claude_desktop.Json.{Fields, string, insert, get_field, as_str}
use free_claude_desktop.Claude.{ClaudeThinkingConfig, ClaudeMessagesRequest}
use free_claude_desktop.Settings.{Settings, get_key}
use free_claude_desktop.Prelude.Minimum.{min_by}

unfoldable pub thinking_budget_to_effort : ℕ → String
thinking_budget_to_effort budget =
    if ltb 8192 budget
    then "max"
    else if ltb 2048 budget
    then "high"
    else if ltb 1024 budget
    then "medium"
    else "low"

unfoldable pub effort_rank : String → Option ℕ
effort_rank effort =
    if effort == "none"
    then some 0
    else if effort == "low"
    then some 1
    else if effort == "medium"
    then some 2
    else if effort == "high"
    then some 3
    else if effort == "xhigh"
    then some 4
    else if effort == "max"
    then some 5
    else none

-- A level with its rank.
abbrev pub Ranked : Type 0
Ranked = ℕ × String

abbrev pub with_rank : String → Option Ranked
with_rank effort = elim (effort_rank effort) [ none ↦ none | some rank ↦ some (rank, effort) ]

-- `(rank as i16 - requested_rank as i16).abs()`
abbrev pub distance : ℕ → ℕ → ℕ
distance a b = (a - b) + (b - a)

-- The order of the keys `(distance, Reverse(rank))`.
abbrev pub closer : ℕ → Ranked → Ranked → Bool
closer requested (a, _) (b, _) =
    ltb (distance a requested) (distance b requested)
    || (eqb (distance a requested) (distance b requested) && ltb b a)

abbrev pub positive : List String → List Ranked
positive supported = keep (λ p. ltb 0 p.0) (filter_map with_rank supported)

unfoldable pub clamp_reasoning_effort : String → List String → Option String
clamp_reasoning_effort requested supported =
    and_then (effort_rank requested)
      (λ rank. and_then (min_by (closer rank) (positive supported)) (λ p. some p.1))

-- The 1M variant of a model shares its routes and levels with the base model.
unfoldable pub base_model_alias : String → String
base_model_alias model =
    unwrap_or model (strip_suffix model "[1m]" or_else strip_suffix model "[1M]")

unfoldable pub supported_efforts : Settings → String → String → Option (List String)
supported_efforts settings req_model target_model =
    let table = settings.models.real_model_reasoning_efforts in
    get_key req_model table
    or_else get_key (base_model_alias req_model) table
    or_else get_key target_model table

abbrev pub is_text : String → Option String → Bool
is_text s none = false
is_text s (some t) = t == s

abbrev pub is_false : Option Bool → Bool
is_false (some false) = true
is_false _ = false

unfoldable pub thinking_disabled : Option ClaudeThinkingConfig → Bool
thinking_disabled none = false
thinking_disabled (some thinking) = is_text "disabled" thinking.kind || is_false thinking.enabled

unfoldable pub thinking_effort : Option ClaudeThinkingConfig → Option String
thinking_effort none = none
thinking_effort (some thinking) =
    if is_text "adaptive" thinking.kind && not (is_some thinking.budget_tokens)
    then none
    else some (thinking_budget_to_effort (unwrap_or 1024 thinking.budget_tokens))

unfoldable pub requested_effort : ClaudeMessagesRequest → Option String
requested_effort req =
    and_then req.output_config (λ config. config.effort) or_else thinking_effort req.thinking

abbrev pub has_none : List String → Bool
has_none levels = any (λ level. level == "none") levels

abbrev set_effort : Fields → Option String → Fields
set_effort fields none = fields
set_effort fields (some effort) = insert "reasoning_effort" (string effort) fields

-- `data` is always an object here, and is held by its fields.
unfoldable pub apply_effort : Fields → String → Option (List String) → String → Fields
apply_effort fields effort (some levels) target_model =
    if effort == "none"
    then (if has_none levels then insert "reasoning_effort" (string "none") fields else fields)
    else set_effort fields (clamp_reasoning_effort effort levels)
apply_effort fields effort none target_model =
    if contains target_model "o1" || contains target_model "o3"
    then insert "reasoning_effort" (string effort) fields
    else fields

abbrev supports_none : Option (List String) → Bool
supports_none none = false
supports_none (some levels) = has_none levels

abbrev apply_requested : Fields → Option String → Option (List String) → String → Fields
apply_requested fields none supported target_model = fields
apply_requested fields (some effort) supported target_model =
    apply_effort fields effort supported target_model

-- `data["model"].as_str().unwrap_or("")`
abbrev pub target_model_of : Fields → String
target_model_of fields = unwrap_or "" (and_then (get_field "model" fields) as_str)

unfoldable pub apply_thinking_mapping : Fields → ClaudeMessagesRequest → Settings → Fields
apply_thinking_mapping fields req settings =
    let target_model = target_model_of fields in
    let supported = supported_efforts settings req.model target_model in
    if thinking_disabled req.thinking
    then (if supports_none supported
        then insert "reasoning_effort" (string "none") fields
        else fields)
    else apply_requested fields (requested_effort req) supported target_model
