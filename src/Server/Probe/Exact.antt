-- ===== src/Server/Probe/Exact.antt =====
-- When a request counts as a probe of the connection.
use Prim.Native.String.{len}
use free_claude_desktop.Prelude.{
  ℕ, ◌≤◌, ◌<◌, String, ◌≡◌, refl, ap, ◌∙◌, ◌↔◌, inl, inr, Bool, true, not, ◌||◌, Option, none, some,
  List, [], ◌∷◌, any, is_empty, Bool-cases, arith, leb, ltb, and_then, and_then-eq-some, unwrap_or,
}
use free_claude_desktop.Json.{Value}
use free_claude_desktop.Server.Answer.{HttpResponse}
use free_claude_desktop.Server.Probe.{
  get_array, get_u64, is_probe, is_some_and, has_content, probe_response, probe_answer,
  try_probe_response,
}

-- No messages, five tokens at most, and a short body.
pub record IsProbe (body : String) (v : Value) : Type 0 where
  pub no_messages : get_array "messages" v ≡ some []
  pub max_tokens : ℕ
  pub given : get_u64 "max_tokens" v ≡ some max_tokens
  pub few : max_tokens ≤ 5
  pub short : len body < 400

-- The test over the two fields as they are read.
abbrev test : Option (List Value) → Option ℕ → ℕ → Bool
test messages max_tokens n = not (
    is_some_and (any has_content) messages
    || not (is_some_and is_empty messages)
    || ltb 5 (unwrap_or 9999 max_tokens)
    || leb 400 n)

test-true :
    (messages : Option (List Value)) (max_tokens : Option ℕ) (n : ℕ)
    → test messages max_tokens n ≡ true
    → (messages ≡ some []) × ((m : ℕ) × (max_tokens ≡ some m) × (m ≤ 5)) × (n < 400)
test-true none max_tokens n h = cc
test-true (some (v ∷ vs)) max_tokens n h = ground arith
test-true (some []) none n h = ground arith
test-true (some []) (some m) n h = (refl, (m, refl, ground arith), ground arith)

is_probe_iff : (body : String) (v : Value) → (is_probe body v ≡ true) ↔ IsProbe body v
is_probe_iff body v = (
  λ h.
      let (no_messages, (m, given, few), short) =
        test-true (get_array "messages" v) (get_u64 "max_tokens" v) (len body) h in
      record { no_messages = no_messages; max_tokens = m; given = given; few = few; short = short },
  λ p. rw p.no_messages (rw p.given (let few = p.few in let short = p.short in ground arith)),
)

module _ (from_str : String → Option Value) (print : Value → String) (now : ℕ)
    (body model : String) where
  probe_response-some :
      (v : Value) (answer : HttpResponse)
      → probe_response from_str print now body model v ≡ some answer
      → is_probe body v ≡ true
  probe_response-some v answer h = elim (Bool-cases (is_probe body v)) [
    | inl probe ↦ probe
    | inr other ↦ cc (rw other at h)
  ]

  -- A request is answered as a probe exactly when its body parses, has an empty list of messages
  -- and five tokens at most, and is shorter than 400 bytes.
  pub try_probe_response_iff :
      ((answer : HttpResponse) × (try_probe_response from_str print now body model ≡ some answer))
      ↔ ((v : Value) × (from_str body ≡ some v) × IsProbe body v)
  unfolding try_probe_response
  try_probe_response_iff = (
    λ p.
        let (v, read, answered) =
          and_then-eq-some (from_str body) (probe_response from_str print now body model) p.1 in
        (v, read, (is_probe_iff body v).0 (probe_response-some v p.0 answered)),
    λ p. (
      probe_answer from_str print now model p.0,
      ap (λ o. and_then o (probe_response from_str print now body model)) p.1
          ∙ rw ((is_probe_iff body p.0).1 p.2) refl,
    ),
  )
