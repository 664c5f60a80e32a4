-- ===== src/Request/Tools/Laws.antt =====
-- Which tools are sent, and when their conversion fails.
use free_claude_desktop.Prelude.{
  ◌≡◌, refl, sym, ap, Bool, true, false, ◌||◌, Option, none, some, List, [], ◌∷◌, arith, All,
  is_some, ok, >>=-eq-ok, >>=-of-ok, Bool-cases, inl, inr, unwrap_or, cons_some,
}
use free_claude_desktop.Prelude.Blank.{is_blank, trim-is_blank}
use free_claude_desktop.Json.{Value, obj, get, get_str, get_field, insert}
use free_claude_desktop.Claude.{ClaudeTool}
use free_claude_desktop.Request.Tools.{
  openai_tool, build_single_openai_tool, build_openai_tools, with_type,
}

-- A tool that is left out, for its name has no character but white space, or that has a schema.
abbrev pub is_convertible : ClaudeTool → Bool
is_convertible tool = is_blank tool.name || is_some tool.input_schema

-- What a tool is sent as: a function of its name, with its description, the empty one if it has
-- none, and its schema.
pub record IsSent (tool : ClaudeTool) (sent : Value) : Type 0 where
  pub kind : get_str "type" sent ≡ some "function"
  pub body : Value
  pub holds : get "function" sent ≡ some body
  pub named : get_str "name" body ≡ some tool.name
  pub described : get_str "description" body ≡ some (unwrap_or "" tool.description)
  pub schema : get "parameters" body ≡ tool.input_schema

-- The tools that are sent for a list, in its order: one for each name that is not blank.
pub data AreSent : List ClaudeTool → List Value → Type 0 where
  nothing : AreSent [] []
  left_out :
      {tool : ClaudeTool} {tools : List ClaudeTool} {sent : List Value}
      → is_blank tool.name ≡ true
      → AreSent tools sent
      → AreSent (tool ∷ tools) sent
  sent_as :
      {tool : ClaudeTool} {tools : List ClaudeTool} {value : Value} {sent : List Value}
      → is_blank tool.name ≡ false
      → IsSent tool value
      → AreSent tools sent
      → AreSent (tool ∷ tools) (value ∷ sent)

openai_tool-IsSent :
    (tool : ClaudeTool) {schema : Value}
    → tool.input_schema ≡ some schema
    → IsSent tool (openai_tool tool schema)
unfolding get get_str get_field insert
openai_tool-IsSent tool given = record {
  kind = refl;
  body = _;
  holds = refl;
  named = refl;
  described = refl;
  schema = sym given;
}

with_type-openai_tool :
    (tool : ClaudeTool) (schema : Value)
    → with_type (openai_tool tool schema) ≡ some (openai_tool tool schema)
unfolding get get_field insert
with_type-openai_tool tool schema = refl

with_type-nil : with_type (obj []) ≡ none
unfolding get get_field
with_type-nil = refl

single-blank :
    (tool : ClaudeTool) → is_blank tool.name ≡ true → build_single_openai_tool tool ≡ ok (obj [])
unfolding build_single_openai_tool
single-blank tool blank = let same = trim-is_blank tool.name in ground arith

single-named :
    (tool : ClaudeTool) {schema : Value}
    → is_blank tool.name ≡ false
    → tool.input_schema ≡ some schema
    → build_single_openai_tool tool ≡ ok (openai_tool tool schema)
unfolding build_single_openai_tool
single-named tool named given = let same = trim-is_blank tool.name in ground arith

schema_of :
    (blank : Bool) (schema : Option Value)
    → (blank || is_some schema) ≡ true
    → blank ≡ false
    → (v : Value) × (schema ≡ some v)
schema_of blank (some v) h e = (v, refl)
schema_of true none h e = cc
schema_of false none h e = cc

-- If each tool has a blank name or a schema, then exactly the tools with a name that is not blank
-- are sent, in their order, each with its name, description and schema.
pub build_openai_tools-ok :
    (tools : List ClaudeTool)
    → All (λ tool. is_convertible tool ≡ true) tools
    → (sent : List Value) × (build_openai_tools tools ≡ ok sent) × AreSent tools sent
unfolding build_openai_tools
build_openai_tools-ok [] h = ([], refl, nothing)
build_openai_tools-ok (tool ∷ tools) h =
    let (sent, built, are_sent) = build_openai_tools-ok tools h.1 in
    elim (Bool-cases (is_blank tool.name)) [
      | inl blank ↦ (
        sent,
        >>=-of-ok (build_single_openai_tool tool) _ (single-blank tool blank) (
            >>=-of-ok (build_openai_tools tools) _ built
              (ap (λ o. ok (cons_some o sent)) with_type-nil)),
        left_out blank are_sent,
      )
      | inr named ↦
          let (schema, given) = schema_of (is_blank tool.name) tool.input_schema h.0 named in
          (
            openai_tool tool schema ∷ sent,
            >>=-of-ok (build_single_openai_tool tool) _ (single-named tool named given) (
                >>=-of-ok (build_openai_tools tools) _ built
                  (ap (λ o. ok (cons_some o sent)) (with_type-openai_tool tool schema))),
            sent_as named (openai_tool-IsSent tool given) are_sent,
          )
    ]

-- Otherwise the conversion fails.
pub build_openai_tools-convertible :
    (tools : List ClaudeTool) {vs : List Value}
    → build_openai_tools tools ≡ ok vs
    → All (λ tool. is_convertible tool ≡ true) tools
unfolding build_openai_tools build_single_openai_tool
build_openai_tools-convertible [] h = tt
build_openai_tools-convertible (tool ∷ tools) h =
    let (v, single, rest) = >>=-eq-ok (build_single_openai_tool tool) _ h in
    let (ws, later, _) = >>=-eq-ok (build_openai_tools tools) _ rest in
    (let same = trim-is_blank tool.name in ground arith, build_openai_tools-convertible tools later)
