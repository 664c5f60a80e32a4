-- ===== src/Response/Convert/Outcome.antt =====
-- What a response of the upstream becomes, and when it is refused.
use free_claude_desktop.Prelude.{
  ℕ, String, ◌≡◌, ◌≢◌, refl, sym, ap, ◌∙◌, ◌↔◌, ◌⊎◌, inl, inr, Bool, true, false, ◌||◌, ◌==◌,
  eq_iff, Option, some, List, [], ◌∷◌, ◌++◌, map, keep, if◌then◌else◌, is_empty, unwrap_or, Result,
  ok, err, ok-injective, Bool-cases, if-elim, arith,
}
use free_claude_desktop.Prelude.Texts.{is_empty_text}
use free_claude_desktop.Json.{Value, string, array_of, insert, obj, get, get_field, get_str}
use free_claude_desktop.Request.Blocks.{tool_call}
use free_claude_desktop.Response.Convert.{
  content_text, reasoning_text, tool_calls, finish_reason, stop_reason, tool_use_block,
  content_blocks, response_of, normalized_body, parsed_response, openai_to_anthropic_response,
}

module _ (from_str : String → Result Value String) where
  parsed :
      (now : ℕ) (model : String) (r : Result Value String) {out : Value}
      → parsed_response from_str now model r ≡ ok out
      → (data_value : Value) × (r ≡ ok data_value)
  parsed now model (err e) h = cc
  parsed now model (ok data_value) h = (data_value, refl)

  --
  pub openai_to_anthropic_response-ok_iff :
      (now : ℕ) (body model : String)
      → ((out : Value) × (openai_to_anthropic_response from_str now body model ≡ ok out)) ↔ (
          (is_empty_text (normalized_body body) ≡ false)
          × ((data_value : Value) × (from_str (normalized_body body) ≡ ok data_value)))
  unfolding openai_to_anthropic_response
  openai_to_anthropic_response-ok_iff now body model = (
    λ (out, h). split out h,
    λ (filled, (data_value, p)). (response_of from_str now model data_value, rw (filled, p) refl),
  )
    where
      split :
          (out : Value)
          → openai_to_anthropic_response from_str now body model ≡ ok out
          → (is_empty_text (normalized_body body) ≡ false)
            × ((data_value : Value) × (from_str (normalized_body body) ≡ ok data_value))
      split out h = elim (Bool-cases (is_empty_text (normalized_body body))) [
        | inl blank ↦ cc (rw blank at h)
        | inr filled ↦ (filled, parsed now model (from_str (normalized_body body)) (rw filled at h))
      ]

  -- If the JSON reader reads back the printed input, then the tool_use block that the response
  -- conversion makes of the tool call that the request conversion made has the same identifier,
  -- name and input.
  pub tool_use_block-tool_call :
      (print : Value → String) (id name : String) (input : Value)
      → from_str (print input) ≡ ok input
      → tool_use_block from_str (tool_call print id name input)
        ≡ obj (
            ("type", string "tool_use")
            ∷ ("id", string id)
            ∷ ("name", string name)
            ∷ ("input", input)
            ∷ [])
  unfolding tool_use_block get_str get get_field insert
  tool_use_block-tool_call print id name input h = rw h refl

abbrev is_block : String → Value → Bool
is_block kind block = unwrap_or "" (get_str "type" block) == kind

abbrev stop_text : List Value → String → String
stop_text calls reason =
    if reason == "tool_calls" || reason == "function_call"
    then "tool_use"
    else (if is_empty calls then "end_turn" else "tool_use")

end_turn_differs : ◌≡◌ {A = String} "end_turn" "tool_use" → ⊥
end_turn_differs h = cc ((eq_iff "end_turn" "tool_use").1 h)

stops_for :
    (calls : List Value) (reason : String)
    → stop_text calls reason ≡ "tool_use"
    → (calls ≢ []) ⊎ (reason ≡ "tool_calls") ⊎ (reason ≡ "function_call")
stops_for (c ∷ calls) reason h = inl (λ e. cc)
stops_for [] reason h = elim (Bool-cases (reason == "tool_calls")) [
  | inl first ↦ inr (inl ((eq_iff reason "tool_calls").0 first))
  | inr other ↦ elim (Bool-cases (reason == "function_call")) [
    | inl second ↦ inr (inr ((eq_iff reason "function_call").0 second))
    | inr none_of ↦ absurd (end_turn_differs (rw (other, none_of) at h))
  ]
]

stop_when :
    (calls : List Value) (reason : String)
    → (calls ≢ []) ⊎ (reason ≡ "tool_calls") ⊎ (reason ≡ "function_call")
    → stop_text calls reason ≡ "tool_use"
stop_when [] reason (inl h) = absurd (h refl)
stop_when (c ∷ calls) reason (inl h) =
    if-elim (λ s. s ≡ "tool_use") (reason == "tool_calls" || reason == "function_call") (λ t. refl)
      (λ f. refl)
stop_when calls reason (inr (inl e)) = let t = (eq_iff reason "tool_calls").1 e in rw t refl
stop_when calls reason (inr (inr e)) =
    let t : (reason == "tool_calls" || reason == "function_call") ≡ true =
      ground (arith, (eq_iff reason "function_call").1 e) in
    rw t refl

abbrev pub ids_of : List Value → List (Option String)
ids_of blocks = map (get_str "id") (keep (is_block "tool_use") blocks)

module _ (from_str : String → Result Value String) where
  tool_ids :
      (calls : List Value)
      → ids_of (map (tool_use_block from_str) calls)
        ≡ map (λ tc. some (unwrap_or "" (get_str "id" tc))) calls
  unfolding tool_use_block get_str get get_field insert
  tool_ids [] = refl
  tool_ids (c ∷ calls) = ap (λ ids. some (unwrap_or "" (get_str "id" c)) ∷ ids) (tool_ids calls)

  tool_ids_of :
      (b c : Bool) (reasoning text : String) (blocks : List Value)
      → ids_of (
          (if b
            then []
            else obj (
                ("type", string "thinking")
                ∷ ("thinking", string reasoning)
                ∷ ("signature", string "")
                ∷ [])
              ∷ [])
          ++ (if c then [] else obj (("type", string "text") ∷ ("text", string text) ∷ []) ∷ [])
          ++ blocks)
        ≡ ids_of blocks
  unfolding get_str get get_field insert
  tool_ids_of true true reasoning text blocks = refl
  tool_ids_of true false reasoning text blocks = refl
  tool_ids_of false true reasoning text blocks = refl
  tool_ids_of false false reasoning text blocks = refl

  content_ids :
      (data_value : Value)
      → ids_of (content_blocks from_str data_value)
        ≡ map (λ tc. some (unwrap_or "" (get_str "id" tc))) (tool_calls data_value)
  unfolding content_blocks
  content_ids data_value =
      tool_ids_of (is_empty_text (reasoning_text data_value))
        (is_empty_text (content_text data_value)) (reasoning_text data_value)
        (content_text data_value) (map (tool_use_block from_str) (tool_calls data_value))
      ∙ tool_ids (tool_calls data_value)

  content_field :
      (now : ℕ) (model : String) (data_value : Value)
      → get "content" (response_of from_str now model data_value)
        ≡ some (array_of (content_blocks from_str data_value))
  unfolding get get_field insert
  content_field now model data_value = refl

  stop_field :
      (now : ℕ) (model : String) (data_value : Value)
      → get_str "stop_reason" (response_of from_str now model data_value)
        ≡ some (stop_text (tool_calls data_value) (finish_reason data_value))
  unfolding get_str get get_field insert stop_reason
  stop_field now model data_value = refl

  some_text : {a b : String} → ◌≡◌ {A = Option String} (some a) (some b) → a ≡ b
  some_text h = ground arith

  -- If a response is converted, then its tool_use blocks have the identifiers of the tool calls,
  -- in their order, and its stop reason is tool_use exactly when there are tool calls or the
  -- finish reason is tool_calls or function_call.
  pub openai_to_anthropic_response-tools :
      (now : ℕ) (body model : String) (out : Value)
      → openai_to_anthropic_response from_str now body model ≡ ok out
      → (data_value : Value) × ((blocks : List Value) × (from_str (normalized_body body)
            ≡ ok data_value)
          × (get "content" out ≡ some (array_of blocks))
          × (ids_of blocks
              ≡ map (λ tc. some (unwrap_or "" (get_str "id" tc))) (tool_calls data_value))
          × ((get_str "stop_reason" out ≡ some "tool_use") ↔ (
              (tool_calls data_value ≢ [])
              ⊎ (finish_reason data_value ≡ "tool_calls")
              ⊎ (finish_reason data_value ≡ "function_call"))))
  unfolding openai_to_anthropic_response
  openai_to_anthropic_response-tools now body model out h =
      let (filled, (data_value, p)) =
        (openai_to_anthropic_response-ok_iff from_str now body model).0 (out, h) in
      let made : response_of from_str now model data_value ≡ out =
        ok-injective (rw (filled, p) at h) in
      let stop = ap (get_str "stop_reason") (sym made) ∙ stop_field now model data_value in
      (
        data_value,
        (
          content_blocks from_str data_value,
          p,
          ap (get "content") (sym made) ∙ content_field now model data_value,
          content_ids data_value,
          (
            λ e.
                stops_for (tool_calls data_value) (finish_reason data_value)
                  (some_text (sym stop ∙ e)),
            λ c. stop ∙ ap some (stop_when (tool_calls data_value) (finish_reason data_value) c),
          ),
        ),
      )
