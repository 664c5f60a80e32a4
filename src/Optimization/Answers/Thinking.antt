-- ===== src/Optimization/Answers/Thinking.antt =====
-- What is taken out of a request of the safety classifier.
use free_claude_desktop.Prelude.{
  ◌≡◌, refl, ap, ◌∙◌, String, Bool, true, false, not, ◌==◌, eq_iff, Option, none, some,
  if◌then◌else◌, and_then-eq-some, Bool-cases, inl, inr, arith,
}
use free_claude_desktop.Json.{
  Value, Fields, null, bool, number, string, array, object, end, field, get_field, remove,
}
use free_claude_desktop.Settings.{Settings}
use free_claude_desktop.Optimization.Detection.{is_safety_classifier_request}
use free_claude_desktop.Optimization.Answers.{stripped_value, maybe_strip_safety_thinking}

get_field-remove :
    (k j : String) (m : Fields)
    → get_field j (remove k m) ≡ (if k == j then none else get_field j m)
unfolding get_field remove
get_field-remove k j end = elim (Bool-cases (k == j)) [ inl t ↦ rw t refl | inr f ↦ rw f refl ]
get_field-remove k j (field i v m) =
    ground (arith, eq_iff k j, eq_iff i k, eq_iff i j, get_field-remove k j m)

if_some :
    (b : Bool) (text : String) {out : String}
    → (if b then some text else none) ≡ some out
    → out ≡ text
if_some true text h = ground arith
if_some false text h = cc

of_value :
    (print : Value → String) (v : Value) (out : String)
    → stripped_value print v ≡ some out
    → (fields : Fields) × (v ≡ object fields)
      × (out ≡ print (object (remove "budget_tokens" (remove "thinking" fields))))
of_value print null out h = cc
of_value print (bool b) out h = cc
of_value print (number n) out h = cc
of_value print (string s) out h = cc
of_value print (array vs) out h = cc
of_value print (object fields) out h = (fields, refl, if_some _ _ h)

unless :
    (b : Bool) (o : Option String) {out : String}
    → (if not b then none else o) ≡ some out
    → (b ≡ true) × (o ≡ some out)
unless true o h = (refl, h)
unless false o h = cc

without :
    (fields : Fields) (key : String)
    → get_field key (remove "budget_tokens" (remove "thinking" fields)) ≡ (
        if "budget_tokens" == key
        then none
        else if "thinking" == key
        then none
        else get_field key fields)
without fields key =
    get_field-remove "budget_tokens" key (remove "thinking" fields)
    ∙ ap (λ o. if "budget_tokens" == key then none else o) (get_field-remove "thinking" key fields)

module _ (from_str : String → Option Value) (to_lowercase : String → String) where
  -- If a request is changed, then the skip is switched on, the request is one of the safety
  -- classifier, and what is sent has neither thinking nor budget_tokens and every other field as
  -- it was.
  pub maybe_strip_safety_thinking_lem :
      (print : Value → String) (body_str : String) (settings : Settings) (out : String)
      → maybe_strip_safety_thinking from_str to_lowercase print body_str settings ≡ some out
      → (fields : Fields) × ((rest : Fields) × (settings.optimizations.enable_safety_check_skip
            ≡ true)
          × (is_safety_classifier_request from_str to_lowercase body_str ≡ true)
          × (from_str body_str ≡ some (object fields))
          × (out ≡ print (object rest))
          × ((key : String)
              → get_field key rest ≡ (
                  if "budget_tokens" == key
                  then none
                  else if "thinking" == key
                  then none
                  else get_field key fields)))
  unfolding maybe_strip_safety_thinking
  maybe_strip_safety_thinking_lem print body_str settings out h =
      let (on, h1) = unless settings.optimizations.enable_safety_check_skip _ h in
      let (classifier, h2) =
        unless (is_safety_classifier_request from_str to_lowercase body_str) _ h1 in
      let (v, parsed, h3) = and_then-eq-some (from_str body_str) (stripped_value print) h2 in
      let (fields, e, printed) = of_value print v out h3 in
      (
        fields,
        (
          remove "budget_tokens" (remove "thinking" fields),
          on,
          classifier,
          parsed ∙ ap some e,
          printed,
          without fields,
        ),
      )
