-- ===== src/Openai.antt =====
-- core/src/models/openai.rs: the models of the upstream and those that are shown to the desktop.
-- A float is held by its 64 bits. What serde derives to read these types is a parameter of the
-- modules that use it.
use free_claude_desktop.Prelude.{ℕ, ◌%◌, ◌^◌, String, Bool, false, Option, some, List, [], ◌∷◌, eqb}
use free_claude_desktop.Json.{Value, bool, obj}
use free_claude_desktop.Settings.{HashMap}

abbrev pub default_capabilities : Value
default_capabilities = obj (
    (
      "thinking",
      obj (
          ("supported", bool false)
          ∷ ("types", obj (("enabled", obj (("supported", bool false) ∷ [])) ∷ []))
          ∷ []),
    )
    ∷ [])

pub record NormalizedModel : Type 0 where
  pub kind : String
  pub id : String
  pub name : String
  pub display_name : String
  pub created_at : String
  pub provider_model_id : String
  pub max_input_tokens : Option ℕ
  pub max_tokens : Option ℕ
  pub capabilities : Value
  pub supports1m : Option Bool
  pub prefer1m : Option Bool

pub record NormalizedModels : Type 0 where
  pub content : List NormalizedModel
  pub has_more : Bool
  pub first_id : Option String
  pub last_id : Option String
  pub routes : HashMap String
  pub reasoning_effort_routes : HashMap (List String)

pub record InferenceModel : Type 0 where
  pub name : String
  pub label_override : String
  pub provider_model_id : String
  pub display_name : String
  pub max_input_tokens : Option ℕ
  pub max_tokens : Option ℕ
  pub capabilities : Value
  pub supports1m : Option Bool
  pub prefer1m : Option Bool
  pub transport_type : Option String

abbrev pub default_transport_type : Option String
default_transport_type = some "openai_chat_completions"

pub record Pricing : Type 0 where
  pub prompt : Option ℕ
  pub completion : Option ℕ

pub record ProviderModel : Type 0 where
  pub id : String
  pub model_name : Option String
  pub name : Option String
  pub model_info : Option Value
  pub capabilities : Option Value
  pub pricing : Option Pricing
  pub context_length : Option ℕ
  pub max_input_tokens : Option ℕ
  pub max_output_tokens : Option ℕ
  pub max_completion_tokens : Option ℕ
  pub created : Option ℕ

-- `x == 0.0` on the bits of `x`: both zeros have all bits but the sign clear.
abbrev pub is_zero_float : ℕ → Bool
is_zero_float bits = eqb (bits % 2 ^ 63) 0
