-- ===== src/Request/Effort/Mapping.antt =====
-- What `apply_thinking_mapping` writes to the outgoing request.
use free_claude_desktop.Prelude.{
  String, ◌≡◌, ◌≢◌, ◌↔◌, inl, inr, Bool, true, false, Option, none, some, List, arith, ◌==◌, ◌||◌,
  eq_iff, eq_refl, Bool-cases, refl, if◌then◌else◌,
}
use mathlib.Core.Path.{subst}
use free_claude_desktop.Prelude.Members.{Member, any_iff-Member, any_of_Member}
use free_claude_desktop.Prelude.Texts.{contains}
use free_claude_desktop.Json.{Value, string, Fields, get_field, insert}
use free_claude_desktop.Json.Laws.{get_field-insert, get_field-insert_self}
use free_claude_desktop.Claude.{ClaudeMessagesRequest}
use free_claude_desktop.Settings.{Settings}
use free_claude_desktop.Request.Effort.{
  clamp_reasoning_effort, has_none, apply_effort, supported_efforts, thinking_disabled,
  requested_effort, target_model_of, apply_thinking_mapping, supports_none, apply_requested,
  set_effort,
}
use free_claude_desktop.Request.Effort.Clamp.{clamp-IsPositive}

abbrev key : String
key = "reasoning_effort"

has_none-Member : (levels : List String) → has_none levels ≡ true → Member "none" levels
has_none-Member levels h =
    let (e, m, same) = any_iff-Member (λ level. level == "none") levels h in
    subst (λ x. Member x levels) ((eq_iff e "none").0 same) m

-- The effort that is sent, as a function of the declared levels, whether thinking is off, the
-- effort that the request names, and the target model.
sent : Option (List String) → Bool → Option String → String → Option String
sent none true o target = none
sent (some levels) true o target = if has_none levels then some "none" else none
sent supported false none target = none
sent none false (some e) target =
    if contains target "o1" || contains target "o3" then some e else none
sent (some levels) false (some e) target =
    if e == "none"
    then if has_none levels then some "none" else none
    else clamp_reasoning_effort e levels

mapping : Fields → Option (List String) → Bool → Option String → String → Fields
mapping fields supported off o target =
    if off
    then if supports_none supported then insert key (string "none") fields else fields
    else apply_requested fields o supported target

mapping-eq-set_effort :
    (fields : Fields) (supported : Option (List String)) (off : Bool) (o : Option String)
    (target : String)
    → mapping fields supported off o target ≡ set_effort fields (sent supported off o target)
unfolding mapping sent apply_effort
mapping-eq-set_effort fields none true o target = refl
mapping-eq-set_effort fields (some levels) true o target = ground arith
mapping-eq-set_effort fields none false none target = refl
mapping-eq-set_effort fields (some levels) false none target = refl
mapping-eq-set_effort fields none false (some e) target = ground arith
mapping-eq-set_effort fields (some levels) false (some e) target = ground arith

get_field-set_effort :
    (fields : Fields) (o : Option String)
    → get_field key fields ≡ none
    → get_field key (set_effort fields o) ≡ elim o [ none ↦ none | some e ↦ some (string e) ]
get_field-set_effort fields none absent = absent
get_field-set_effort fields (some e) absent = get_field-insert_self key (string e) fields

if_none-Member :
    (levels : List String) (e : String)
    → (if has_none levels then some "none" else none) ≡ some e
    → Member e levels
if_none-Member levels e h = elim (Bool-cases (has_none levels)) [
  | inl listed ↦ subst (λ x. Member x levels) (ground arith) (has_none-Member levels listed)
  | inr unlisted ↦ ground arith
]

sent-Member :
    (levels : List String) (off : Bool) (o : Option String) (target e : String)
    → sent (some levels) off o target ≡ some e
    → Member e levels
unfolding sent
sent-Member levels true o target e h = if_none-Member levels e h
sent-Member levels false none target e h = cc
sent-Member levels false (some f) target e h = elim (Bool-cases (f == "none")) [
  | inl off ↦ if_none-Member levels e (ground arith)
  | inr on ↦ (clamp-IsPositive f levels {e = e} (ground arith)).1.0
]

-- The effort field after the mapping, from the effort that is sent.
sent-get_field :
    (fields : Fields) (o : Option String) (v : Value)
    → get_field key fields ≡ none
    → get_field key (set_effort fields o) ≡ some v
    → (e : String) × (v ≡ string e) × (o ≡ some e)
sent-get_field fields none v absent h = ground arith
sent-get_field fields (some e) v absent h =
    (e, ground (arith, get_field-insert_self key (string e) fields), refl)

get_field-sent :
    (fields : Fields) (o : Option String) (v : Value) (e : String)
    → v ≡ string e
    → o ≡ some e
    → get_field key (set_effort fields o) ≡ some v
get_field-sent fields none v e same h = cc
get_field-sent fields (some x) v e same h =
    ground (arith, get_field-insert_self key (string x) fields)

get_field-set_effort_ne :
    (fields : Fields) (o : Option String) (k : String)
    → k ≢ key
    → get_field k (set_effort fields o) ≡ get_field k fields
get_field-set_effort_ne fields none k other = refl
get_field-set_effort_ne fields (some e) k other =
    ground (arith, get_field-insert key k (string e) fields, eq_iff key k)

off_iff :
    (supported : Option (List String)) (o : Option String) (target e : String)
    → (sent supported true o target ≡ some e)
      ↔ ((e ≡ "none") × ((levels : List String) × (supported ≡ some levels) × Member "none" levels))
unfolding sent
off_iff none o target e = ((λ h. cc), λ (_, (_, eq, _)). cc)
off_iff (some levels) o target e = (to, from)
  where
    to :
        (if has_none levels then some "none" else none) ≡ some e
        → (e ≡ "none")
          × ((ls : List String) × (◌≡◌ {A = Option (List String)} (some levels) (some ls))
              × Member "none" ls)
    to h =
        let same : e ≡ "none" = ground arith in
        (same, (levels, refl, subst (λ x. Member x levels) same (if_none-Member levels e h)))

    from :
        (e ≡ "none")
          × ((ls : List String) × (◌≡◌ {A = Option (List String)} (some levels) (some ls))
              × Member "none" ls)
        → (if has_none levels then some "none" else none) ≡ some e
    from (same, (ls, eq, m)) =
        let listed : has_none ls ≡ true =
          any_of_Member (λ level. level == "none") ls m (eq_refl "none") in
        ground arith

undeclared_iff :
    (off : Bool) (o : Option String) (target e : String)
    → (sent none off o target ≡ some e)
      ↔ ((o ≡ some e) × (off ≡ false) × ((contains target "o1" || contains target "o3") ≡ true))
unfolding sent
undeclared_iff true none target e = ground arith
undeclared_iff true (some f) target e = ground arith
undeclared_iff false none target e = ground arith
undeclared_iff false (some f) target e = ground arith

module _ (fields : Fields) (req : ClaudeMessagesRequest) (settings : Settings) where
  outcome : Option String
  outcome =
      sent (supported_efforts settings req.model (target_model_of fields))
        (thinking_disabled req.thinking) (requested_effort req) (target_model_of fields)

  apply_thinking_mapping-eq-set_effort :
      apply_thinking_mapping fields req settings ≡ set_effort fields outcome
  unfolding apply_thinking_mapping outcome mapping
  apply_thinking_mapping-eq-set_effort = mapping-eq-set_effort fields _ _ _ _

  -- Where the upstream declares its levels and no effort was set before, an effort that the
  -- mapping sets is the text of one of these levels.
  pub apply_thinking_mapping-Member :
      (levels : List String) (v : Value)
      → supported_efforts settings req.model (target_model_of fields) ≡ some levels
      → get_field "reasoning_effort" fields ≡ none
      → get_field "reasoning_effort" (apply_thinking_mapping fields req settings) ≡ some v
      → (e : String) × (v ≡ string e) × Member e levels
  unfolding outcome
  apply_thinking_mapping-Member levels v declared absent h =
      let (e, same, sends) =
        sent-get_field fields outcome v absent (rw apply_thinking_mapping-eq-set_effort at h) in
      (
        e,
        same,
        sent-Member levels (thinking_disabled req.thinking) (requested_effort req)
            (target_model_of fields) e (rw declared at sends),
      )

  -- With thinking switched off and no effort set before, the mapping sets an effort exactly when
  -- the upstream declares levels with "none" among them, and then it is "none".
  apply_thinking_mapping-disabled :
      (v : Value)
      → thinking_disabled req.thinking ≡ true
      → get_field "reasoning_effort" fields ≡ none
      → (get_field "reasoning_effort" (apply_thinking_mapping fields req settings) ≡ some v) ↔ (
          (v ≡ string "none")
          × ((levels : List String) × (supported_efforts settings req.model (target_model_of fields)
                ≡ some levels)
              × Member "none" levels))
  unfolding outcome
  apply_thinking_mapping-disabled v off absent = rw apply_thinking_mapping-eq-set_effort (
    λ h.
        let (e, same, sends) = sent-get_field fields outcome v absent h in
        let (is_none, rest) = (off_iff _ _ _ e).0 (rw off at sends) in (ground arith, rest),
    λ (same, rest). get_field-sent fields outcome v "none" same (
        rw off ((off_iff _ (requested_effort req) (target_model_of fields) "none").1 (refl, rest))),
  )

  -- Where the upstream declares no levels and no effort was set before, the mapping sets an
  -- effort exactly when thinking is not switched off, the request asks for that effort and the
  -- target model's name contains o1 or o3.
  apply_thinking_mapping-undeclared :
      (e : String)
      → supported_efforts settings req.model (target_model_of fields) ≡ none
      → get_field "reasoning_effort" fields ≡ none
      → (get_field "reasoning_effort" (apply_thinking_mapping fields req settings)
          ≡ some (string e))
        ↔ ((requested_effort req ≡ some e)
            × (thinking_disabled req.thinking ≡ false)
            × ((contains (target_model_of fields) "o1" || contains (target_model_of fields) "o3")
                ≡ true))
  unfolding outcome
  apply_thinking_mapping-undeclared e undeclared absent = rw apply_thinking_mapping-eq-set_effort (
    λ h.
        let (f, same, sends) = sent-get_field fields outcome (string e) absent h in
        let same' : f ≡ e = ground arith in
        (undeclared_iff _ _ _ e).0 (rw (undeclared, same') at sends),
    λ h.
        get_field-sent fields outcome (string e) e refl
          (rw undeclared ((undeclared_iff _ _ _ e).1 h)),
  )

  -- The mapping of the effort keeps every field but reasoning_effort.
  pub get_field-apply_thinking_mapping :
      (k : String)
      → k ≢ "reasoning_effort"
      → get_field k (apply_thinking_mapping fields req settings) ≡ get_field k fields
  get_field-apply_thinking_mapping k other =
      rw apply_thinking_mapping-eq-set_effort (get_field-set_effort_ne fields outcome k other)
