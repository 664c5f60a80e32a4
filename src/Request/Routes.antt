-- ===== src/Request/Routes.antt =====
-- Which real model a requested model name stands for.
pub mod Order
pub mod Known
pub mod Net
use Prim.Native.Char.{Char, code}
use Prim.Native.String.{slice}
use text.Mathlib.Text.{starts_with, find?}
use free_claude_desktop.Prelude.{
  ℕ, ◌+◌, String, Bool, true, false, not, ◌||◌, ◌&&◌, Option, none, some, List, [], ◌∷◌, map, ◌==◌,
  eqb, if◌then◌else◌, and_then, ◌or_else◌, is_some, filter_option, any, first, drop,
}
use free_claude_desktop.Prelude.Texts.{
  contains, is_empty_text, trim, to_ascii_lowercase, rsplit_once, parse_usize, char_indices,
}
use free_claude_desktop.Prelude.TextOrder.{text_less}
use free_claude_desktop.Prelude.Minimum.{min_by}
use free_claude_desktop.Prelude.Int.{ℤ, pos, suc_ℤ, pred_ℤ, is_zero}
use free_claude_desktop.Json.{Fields, string, insert}
use free_claude_desktop.Settings.{HashMap, get_key, ModelSettings, Settings}
use free_claude_desktop.Request.Effort.{base_model_alias}

unfoldable pub detect_family : String → Option String
detect_family req_lower =
    if contains req_lower "sonnet"
    then some "sonnet"
    else if contains req_lower "opus"
    then some "opus"
    else if contains req_lower "haiku"
    then some "haiku"
    else none

-- `!s.trim().is_empty()`
abbrev pub is_not_blank : String → Bool
is_not_blank s = not (is_empty_text (trim s))

unfoldable pub family_override_model : Settings → String → Option String
family_override_model settings family = filter_option is_not_blank (
    if family == "sonnet"
    then settings.models.real_model_sonnet
    else if family == "opus"
    then settings.models.real_model_opus
    else if family == "haiku"
    then settings.models.real_model_haiku
    else none)

unfoldable pub try_family_override : Settings → Option String → Option String
try_family_override settings family = and_then family (family_override_model settings)

unfoldable pub try_exact_routes : String → String → Settings → Option String
try_exact_routes requested_model clean_model settings =
    get_key requested_model settings.models.real_model_routes
    or_else get_key clean_model settings.models.real_model_routes

unfoldable pub try_discovered_direct : String → String → Settings → Option String
try_discovered_direct requested_model clean_model settings =
    if any (λ m. m == requested_model || m == clean_model) settings.models.discovered_models
    then some clean_model
    else none

-- The depth after a character, and the loop that looks for the bracket that closes the first.
abbrev bracket_depth : Char → ℤ → ℤ
bracket_depth c depth =
    if eqb (code c) b'[' then suc_ℤ depth else if eqb (code c) b']' then pred_ℤ depth else depth

bracket_end : ℤ → List (ℕ × Char) → Option ℕ
bracket_end depth [] = none
bracket_end depth ((i, c) ∷ rest) =
    let after = bracket_depth c depth in
    let later = bracket_end after rest in
    if eqb (code c) b']' && is_zero after then some i else later

-- `skip` counts characters, and `start` is a byte position.
unfoldable pub extract_bracket_inner : String → Option String
unfolding bracket_end
extract_bracket_inner clean_model = and_then (find? clean_model "[") (λ start.
    and_then (bracket_end (pos 0) (drop start (char_indices 0 clean_model)))
      (λ close. some (slice clean_model (start + 1) close)))

unfoldable pub try_bracket_inner_route : String → Settings → Option String
try_bracket_inner_route clean_model settings =
    and_then (extract_bracket_inner clean_model) (λ inner.
      if any (λ m. m == inner) settings.models.discovered_models
      then some inner
      else get_key inner settings.models.real_model_routes)

abbrev pub Entry : Type 0
Entry = String × String

abbrev better : Option Entry → Entry → Option Entry
better none entry = some entry
better (some best) entry = if text_less entry.0 best.0 then some entry else some best

-- The loop over the routes; the two best variables are set together and make one.
pub fuzzy_from : String → Option Entry → HashMap String → Option Entry
fuzzy_from family best [] = best
fuzzy_from family best (entry ∷ routes) =
    fuzzy_from family
      (if contains (to_ascii_lowercase entry.0) family then better best entry else best) routes

unfoldable pub try_fuzzy_family : Option String → Settings → Option String
unfolding fuzzy_from
try_fuzzy_family family settings =
    and_then family (λ fam.
      and_then (fuzzy_from fam none settings.models.real_model_routes) (λ best. some best.1))

unfoldable pub fallback_global_model : Settings → Option String
fallback_global_model settings = filter_option is_not_blank settings.models.real_model

abbrev has_claude_index : Option (String × String) → Bool
has_claude_index none = false
has_claude_index (some (prefix, index)) =
    starts_with prefix "claude-" && is_some (parse_usize index)

unfoldable pub is_indexed_claude_alias : String → Bool
is_indexed_claude_alias requested_model =
    any (λ sep. has_claude_index (rsplit_once sep requested_model)) (b'-' ∷ b'_' ∷ [])

abbrev pub values : HashMap String → List String
values routes = map (λ entry. entry.1) routes

unfoldable pub safety_net_route : String → Settings → Option String
safety_net_route requested_model settings =
    if (contains requested_model "[" && contains requested_model "]")
      || is_indexed_claude_alias requested_model
    then min_by text_less (values settings.models.real_model_routes)
      or_else first settings.models.discovered_models
    else none

unfoldable pub resolve_model_route : String → Settings → Option String
resolve_model_route requested_model settings =
    if is_empty_text requested_model
    then fallback_global_model settings
    else let family = detect_family (to_ascii_lowercase requested_model) in
      let clean_model = base_model_alias requested_model in
      try_family_override settings family
      or_else try_exact_routes requested_model clean_model settings
      or_else try_discovered_direct requested_model clean_model settings
      or_else try_bracket_inner_route clean_model settings
      or_else try_fuzzy_family family settings
      or_else fallback_global_model settings
      or_else safety_net_route requested_model settings

abbrev set_model : Fields → Option String → Fields
set_model fields none = fields
set_model fields (some mapped) = insert "model" (string mapped) fields

unfoldable pub apply_model_mapping : Fields → String → Settings → Fields
apply_model_mapping fields req_model settings =
    set_model fields (resolve_model_route req_model settings)
