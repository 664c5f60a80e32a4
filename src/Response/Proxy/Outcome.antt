-- ===== src/Response/Proxy/Outcome.antt =====
-- The body that is passed on differs in the model only, and the model that takes the place of a
-- stale one is the least of the others.
use free_claude_desktop.Prelude.{
  String, ◌≡◌, ◌≢◌, refl, ap, ◌∙◌, inl, inr, false, ◌==◌, eq_iff, Option, none, some, and_then,
  if◌then◌else◌, Result, ok, unwrap_or, ◌or_else◌, Bool-cases, Option-cases, if-elim, arith,
}
use free_claude_desktop.Prelude.TextOrder.{
  text_less, text_less_trans, not-text_less_trans, text_less_irrefl,
}
use free_claude_desktop.Prelude.Minimum.{IsOrder}
use free_claude_desktop.Prelude.Members.{}
use free_claude_desktop.Prelude.Sort.Members.{first-sorted, first-sorted_none}
use free_claude_desktop.Json.{
  Value, Fields, string, object, insert, get, get_str, get_field, as_str,
}
use free_claude_desktop.Json.Laws.{get_field-insert}
use free_claude_desktop.Settings.{Settings}
use free_claude_desktop.Request.Routes.{resolve_model_route}
use free_claude_desktop.Response.Proxy.{
  set_mapped, fallback_models, first_fallback, prepare_proxy_body, rewrite_stale_model_request,
  prepared, rewritten, without_stale, replaced_by, StaleModelRewrite,
}
use free_claude_desktop.Response.Proxy.Candidates.{IsCandidate, candidates, is_compared}

text_less-IsOrder : IsOrder text_less
text_less-IsOrder = record {
  trans = text_less_trans;
  not_trans = not-text_less_trans;
  irrefl = text_less_irrefl;
}

module _ (settings : Settings) (requested stale : String) where
  -- No model is left, or the least of those that are left takes the place.
  pub data IsRewritten (fields : Fields) : Option StaleModelRewrite → Type 0 where
    nothing_left :
        ((m : String) → IsCandidate settings requested stale m → m ≡ stale)
        → IsRewritten fields none
    replaced :
        (fallback : String)
        → IsCandidate settings requested stale fallback
        → fallback ≢ stale
        → ((m : String)
            → IsCandidate settings requested stale m
            → m ≢ stale
            → text_less m fallback ≡ false)
        → IsRewritten fields (some (object (insert "model" (string fallback) fields), fallback))

  chosen :
      (fallback : String) (fields : Fields)
      → first_fallback settings requested stale ≡ some fallback
      → IsRewritten fields (some (object (insert "model" (string fallback) fields), fallback))
  chosen fallback fields h =
      let (there, least) =
        first-sorted text_less text_less-IsOrder (λ a b. a == b)
          (fallback_models settings requested stale) fallback h in
      let (candidate, apart) = candidates settings requested stale fallback there in
      replaced fallback candidate apart
        (λ m c other. least m (is_compared settings requested stale m c other))

  none_left :
      (fields : Fields) → first_fallback settings requested stale ≡ none → IsRewritten fields none
  none_left fields h = nothing_left (λ m c. elim (Bool-cases (m == stale)) [
    | inl same ↦ (eq_iff m stale).0 same
    | inr other ↦ absurd (
        first-sorted_none text_less text_less-IsOrder (λ a b. a == b)
          (fallback_models settings requested stale) h m
          (is_compared settings requested stale m c (λ e. ground (arith, (eq_iff m stale).1 e))))
  ])

abbrev some_string : Option String → Option Value
some_string none = none
some_string (some s) = some (string s)

mapped_lem :
    (fields : Fields) (mapped : Option String)
    → (out : Fields) × (set_mapped mapped (object fields) ≡ some (object out))
      × ((key : String)
          → get_field key out ≡ (
              if "model" == key
              then some_string mapped or_else get_field key fields
              else get_field key fields))
mapped_lem fields none = (
  fields,
  refl,
  λ key. if-elim (λ o. get_field key fields ≡ o) ("model" == key) (λ t. refl) (λ f. refl),
)
mapped_lem fields (some mapped) = (
  insert "model" (string mapped) fields,
  refl,
  λ key. get_field-insert "model" key (string mapped) fields,
)

-- What the body has for a key after the mapping.
abbrev pub mapped_field : Settings → Fields → String → Option Value
mapped_field settings fields key =
    let mapped = resolve_model_route (unwrap_or "" (get_str "model" (object fields))) settings in
    if "model" == key then some_string mapped or_else get_field key fields else get_field key fields

module _ (from_str : String → Result Value String) where
  -- If the body is an object with a stale model, then the rewriting gives nothing where no
  -- configured or discovered model but the stale one can take its place, and else replaces the
  -- model alone by the least of those that can.
  pub rewrite_stale_model_request-IsRewritten :
      (body : String) (settings : Settings) (requested stale : String) (fields : Fields)
      → from_str body ≡ ok (object fields)
      → get_field "model" fields ≡ some (string stale)
      → (r : Option StaleModelRewrite) × (rewrite_stale_model_request from_str body settings
            requested
          ≡ some r)
        × IsRewritten settings requested stale fields r
  unfolding rewrite_stale_model_request get_str get
  rewrite_stale_model_request-IsRewritten body settings requested stale fields p m =
      let start =
        ap (rewritten settings requested) p
        ∙ ap (λ o. without_stale settings requested (object fields) (and_then o as_str)) m in
      elim (Option-cases (first_fallback settings requested stale)) [
        | inl gone ↦ (
          none,
          start ∙ ap (replaced_by (object fields)) gone,
          none_left settings requested stale fields gone,
        )
        | inr (fallback, e) ↦ (
          some (object (insert "model" (string fallback) fields), fallback),
          start ∙ ap (replaced_by (object fields)) e,
          chosen settings requested stale fallback fields e,
        )
      ]

  -- If the body is an object, then it is passed on with the resolved model where there is one,
  -- and with every other field unchanged.
  prepare_proxy_body_lem :
      (to_string : Value → String) (body : String) (settings : Settings) (fields : Fields)
      → from_str body ≡ ok (object fields)
      → (out : Fields) × (prepare_proxy_body from_str to_string body settings
          ≡ some (to_string (object out)))
        × ((key : String) → get_field key out ≡ mapped_field settings fields key)
  unfolding prepare_proxy_body
  prepare_proxy_body_lem to_string body settings fields p =
      let (out, e, g) =
        mapped_lem fields
          (resolve_model_route (unwrap_or "" (get_str "model" (object fields))) settings) in
      (
        out,
        ap (prepared to_string body settings) p ∙ ap (λ o. and_then o (λ v. some (to_string v))) e,
        g,
      )
