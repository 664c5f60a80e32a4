-- ===== src/Optimization/Answers/Allowed.antt =====
-- The handlers come to a result, and connect only where the policy of the settings allows it.
use free_claude_desktop.Prelude.{
  ℕ, ◌≤◌, ◌≡◌, refl, ap, String, Option, none, some, List, [], if-elim, length, All, arith,
}
use free_claude_desktop.Json.{Value}
use free_claude_desktop.Settings.{Settings}
use free_claude_desktop.Optimization.WebTools.Policy.{policy_from_settings}
use free_claude_desktop.Optimization.WebTools.Fetch.{Network, Outcome, Connection}
use free_claude_desktop.Optimization.WebTools.Calls.{
  WebToolCall, extract_latest_web_tool_call, execute_web_tool,
}
use free_claude_desktop.Optimization.WebTools.Calls.Allowed.{IsAllowed, execute_web_tool-IsAllowed}
use free_claude_desktop.Optimization.Answers.{
  OptimizationResponse, Answer, Tried, local_answer, tried, called, executed, web_text, responded,
  try_optimizations, build_optimized_text_response, extract_model,
}

module _ (from_str : String → Option Value) (to_lowercase : String → String) (net : Network)
    (settings : Settings) where
  -- A result with at most six connections, all of them allowed.
  abbrev IsGood :
      {A : Type 0} → Option (List (Connection net (policy_from_settings settings)) × A) → Type 0
  IsGood {A} o =
      (connections : List (Connection net (policy_from_settings settings))) × ((a : A) × (o
          ≡ some (connections, a))
        × (length connections ≤ 6)
        × All (IsAllowed net (policy_from_settings settings)) connections)

  no_connection : {A : Type 0} (a : A) → IsGood (some ([], a))
  no_connection a = ([], (a, refl, omega arith, tt))

  executed-IsGood :
      (name : String) (input : Value) (o : Option (Outcome net (policy_from_settings settings)))
      → execute_web_tool net (policy_from_settings settings) name input ≡ o
      → IsGood (executed from_str to_lowercase net settings o)
  executed-IsGood name input none e = no_connection none
  executed-IsGood name input (some outcome) e =
      let (connections, (text, f, l, a)) =
        execute_web_tool-IsAllowed net (policy_from_settings settings) name input outcome e in
      (
        connections,
        (some (text, 100, 100), ap (web_text from_str to_lowercase net settings) f, l, a),
      )

  called-IsGood :
      (call : Option WebToolCall) → IsGood (called from_str to_lowercase net settings call)
  called-IsGood none = no_connection none
  called-IsGood (some (id, name, input)) =
      executed-IsGood name input (execute_web_tool net (policy_from_settings settings) name input)
        refl

  tried-IsGood :
      (body_str : String) (o : Option (Answer from_str))
      → IsGood (tried from_str to_lowercase net body_str settings o)
  tried-IsGood body_str (some answer) = no_connection (some answer)
  tried-IsGood body_str none =
      if-elim IsGood settings.optimizations.enable_web_server_tools
        (λ t. called-IsGood (extract_latest_web_tool_call to_lowercase from_str body_str))
        (λ f. no_connection none)

  -- The handlers come to a result for every request, after at most six connections, and the
  -- policy of the settings allows each of them.
  pub try_optimizations-IsAllowed :
      (print : Value → String) (now : ℕ) (body_str : String)
      → (connections : List (Connection net (policy_from_settings settings))) × ((response : Option
            OptimizationResponse)
          × (try_optimizations from_str to_lowercase net print now body_str settings
              ≡ some (connections, response))
          × (length connections ≤ 6)
          × All (IsAllowed net (policy_from_settings settings)) connections)
  unfolding try_optimizations
  try_optimizations-IsAllowed print now body_str =
      respond
        (tried from_str to_lowercase net body_str settings
          (local_answer from_str to_lowercase body_str settings))
        (tried-IsGood body_str (local_answer from_str to_lowercase body_str settings))
    where
      respond :
          (t : Tried from_str to_lowercase net settings)
          → IsGood t
          → IsGood (responded from_str to_lowercase net print now body_str settings t)
      respond t (connections, (none, e, l, a)) = (
        connections,
        (none, ap (responded from_str to_lowercase net print now body_str settings) e, l, a),
      )
      respond t (connections, (some answer, e, l, a)) = (
        connections,
        (
          some (
              build_optimized_text_response from_str print now body_str
                (extract_model from_str body_str) answer),
          ap (responded from_str to_lowercase net print now body_str settings) e,
          l,
          a,
        ),
      )
