-- ===== src/Response/Gateway/Secure.antt =====
-- Only trusted origins are allowed, and only secure or local gateways are called.
use Prim.Native.String.{◌++◌}
use free_claude_desktop.Prelude.{
  ℕ, String, ◌≡◌, refl, sym, ap, ◌∙◌, ◌↔◌, ◌⊎◌, inl, inr, true, ◌&&◌, ◌||◌, Option, none, some, [],
  ◌∷◌, ◌==◌, eq_iff, eqb_iff, if◌then◌else◌, Bool-cases, Option-cases, unwrap_or, ok, >>=-eq-ok,
  ok-injective, arith, or-cases, or-four_cases, if-elim, and-both, subst,
}
use free_claude_desktop.Prelude.Texts.{trim, ends_with, concat, trim_end_slashes}
use free_claude_desktop.Prelude.Decimal.{append_assoc, append-nil}
use free_claude_desktop.Prelude.TextEnds.{ends_with_iff}
use free_claude_desktop.Response.Gateway.{
  UrlLibrary, is_local_hostname, is_claude_host, is_allowed_origin, is_allowed_url, is_gateway,
  checked_url, with_path, normalize_gateway_url, is_port,
}

pub data IsLocal : String → Type 0 where
  localhost : IsLocal "localhost"
  loopback : IsLocal "127.0.0.1"
  loopback_6 : IsLocal "::1"
  bracketed : IsLocal "[::1]"

-- The hosts of Claude: a domain or what is under it.
pub data IsClaude (host : String) : Type 0 where
  domain : (host ≡ "claude.ai") ⊎ (host ≡ "claude.com") → IsClaude host
  below :
      (name : String)
      → (host ≡ name ++ ".claude.ai") ⊎ (host ≡ name ++ ".claude.com")
      → IsClaude host

local_lem : (host : String) → is_local_hostname host ≡ true → IsLocal host
unfolding is_local_hostname
local_lem host h =
    elim (or-four_cases (host == "localhost") (host == "127.0.0.1") (host == "::1")
      (host == "[::1]") h) [
        | inl a ↦ subst IsLocal (sym ((eq_iff host "localhost").0 a)) localhost
        | inr (inl a) ↦ subst IsLocal (sym ((eq_iff host "127.0.0.1").0 a)) loopback
        | inr (inr (inl a)) ↦ subst IsLocal (sym ((eq_iff host "::1").0 a)) loopback_6
        | inr (inr (inr a)) ↦ subst IsLocal (sym ((eq_iff host "[::1]").0 a)) bracketed
      ]

local_back : (host : String) → IsLocal host → is_local_hostname host ≡ true
unfolding is_local_hostname
local_back _ localhost = refl
local_back _ loopback = refl
local_back _ loopback_6 = refl
local_back _ bracketed = refl

IsClaude-is_claude_host : (host : String) → (is_claude_host host ≡ true) ↔ IsClaude host
IsClaude-is_claude_host host = (split, back)
  where
    split : is_claude_host host ≡ true → IsClaude host
    split h =
        elim (or-four_cases (host == "claude.ai") (ends_with host ".claude.ai")
          (host == "claude.com") (ends_with host ".claude.com") h) [
            | inl a ↦ domain (inl ((eq_iff host "claude.ai").0 a))
            | inr (inl a) ↦
                let (name, e) = (ends_with_iff host ".claude.ai").0 a in below name (inl e)
            | inr (inr (inl a)) ↦ domain (inr ((eq_iff host "claude.com").0 a))
            | inr (inr (inr a)) ↦
                let (name, e) = (ends_with_iff host ".claude.com").0 a in below name (inr e)
          ]

    back : IsClaude host → is_claude_host host ≡ true
    back (domain (inl e)) = ground (arith, (eq_iff host "claude.ai").1 e)
    back (domain (inr e)) = ground (arith, (eq_iff host "claude.com").1 e)
    back (below name (inl e)) = ground (arith, (ends_with_iff host ".claude.ai").1 (name, e))
    back (below name (inr e)) = ground (arith, (ends_with_iff host ".claude.com").1 (name, e))

-- The path is under `/v1`, whether or not the base has it already.
abbrev v1_path : String → String → String
v1_path base_path endpoint =
    if ends_with base_path "/v1"
    then concat (base_path ∷ "/" ∷ endpoint ∷ [])
    else concat (base_path ∷ "/v1/" ∷ endpoint ∷ [])

under_v1 :
    (base_path endpoint : String)
    → (prefix : String) × (v1_path base_path endpoint ≡ prefix ++ ("/v1/" ++ endpoint))
under_v1 base_path endpoint = elim (Bool-cases (ends_with base_path "/v1")) [
  | inl there ↦
      let (prefix, e) = (ends_with_iff base_path "/v1").0 there in
      (
        prefix,
        rw there (
            ap (λ b. b ++ ("/" ++ (endpoint ++ ""))) e
            ∙ append_assoc prefix "/v1" ("/" ++ (endpoint ++ ""))
            ∙ ap (λ x. prefix ++ x)
                (sym (append_assoc "/v1" "/" (endpoint ++ ""))
                  ∙ ap (λ x. "/v1/" ++ x) (append-nil endpoint))),
      )
  | inr missing ↦
      (base_path, rw missing (ap (λ x. base_path ++ ("/v1/" ++ x)) (append-nil endpoint)))
]

module _ (library : UrlLibrary) where
  open library use {
    Url, parse, scheme, host_str, port_or_known_default, path, set_path, clear_query,
    clear_fragment, to_string,
  }

  -- HTTP on this host at the port, or HTTPS at Claude.
  pub data IsTrusted (url : Url) (port : ℕ) : Type 0 where
    local_page :
        scheme url ≡ "http"
        → IsLocal (unwrap_or "" (host_str url))
        → port_or_known_default url ≡ some port
        → IsTrusted url port
    claude_page : scheme url ≡ "https" → IsClaude (unwrap_or "" (host_str url)) → IsTrusted url port

  port_lem : (port : ℕ) (o : Option ℕ) → is_port port o ≡ true → o ≡ some port
  port_lem port none h = cc
  port_lem port (some p) h = ap some ((eqb_iff p port).0 h)

  port_back : (port : ℕ) (o : Option ℕ) → o ≡ some port → is_port port o ≡ true
  port_back port none h = cc
  port_back port (some p) h = (eqb_iff p port).1 (ground arith)

  IsTrusted-is_allowed_url :
      (url : Url) (port : ℕ) → (is_allowed_url library url port ≡ true) ↔ IsTrusted url port
  IsTrusted-is_allowed_url url port = (split, back)
    where
      host : String
      host = unwrap_or "" (host_str url)

      split : is_allowed_url library url port ≡ true → IsTrusted url port
      split h =
          elim (or-cases
            (scheme url == "http"
              && is_local_hostname host
              && is_port port (port_or_known_default url))
            (scheme url == "https" && is_claude_host host) h) [
              | inl page ↦
                  let (rest, p) =
                    and-both (scheme url == "http" && is_local_hostname host)
                      (is_port port (port_or_known_default url)) page in
                  let (s, l) = and-both (scheme url == "http") (is_local_hostname host) rest in
                  local_page ((eq_iff (scheme url) "http").0 s) (local_lem host l)
                    (port_lem port (port_or_known_default url) p)
              | inr page ↦
                  let (s, c) = and-both (scheme url == "https") (is_claude_host host) page in
                  claude_page ((eq_iff (scheme url) "https").0 s)
                    ((IsClaude-is_claude_host host).0 c)
            ]

      back : IsTrusted url port → is_allowed_url library url port ≡ true
      back (local_page s l p) = ground (
        arith,
        (eq_iff (scheme url) "http").1 s,
        local_back host l,
        port_back port (port_or_known_default url) p,
      )
      back (claude_page s c) =
          ground (arith, (eq_iff (scheme url) "https").1 s, (IsClaude-is_claude_host host).1 c)

  -- An origin is allowed exactly when it is that of the desktop or of the local app, a page of
  -- this host over HTTP on the given port, or a page over HTTPS of claude.ai, claude.com or a
  -- host below one of them.
  pub is_allowed_origin_iff :
      (origin : String) (port : ℕ)
      → (is_allowed_origin library (some origin) port ≡ true) ↔ (
          (origin ≡ "anthropic://desktop")
          ⊎ (origin ≡ "app://localhost")
          ⊎ ((url : Url) × (parse origin ≡ some url) × IsTrusted url port))
  unfolding is_allowed_origin
  is_allowed_origin_iff origin port = (split, back)
    where
      split :
          is_allowed_origin library (some origin) port ≡ true
          → (origin ≡ "anthropic://desktop")
            ⊎ (origin ≡ "app://localhost")
            ⊎ ((url : Url) × (parse origin ≡ some url) × IsTrusted url port)
      split h = elim (Bool-cases (origin == "anthropic://desktop")) [
        | inl a ↦ inl ((eq_iff origin "anthropic://desktop").0 a)
        | inr other ↦ elim (Bool-cases (origin == "app://localhost")) [
          | inl a ↦ inr (inl ((eq_iff origin "app://localhost").0 a))
          | inr foreign ↦ elim (Option-cases (parse origin)) [
            | inl gone ↦ cc (rw (other, foreign, gone) at h)
            | inr (url, e) ↦
                inr (
                  inr (url, e, (IsTrusted-is_allowed_url url port).0 (rw (other, foreign, e) at h)))
          ]
        ]
      ]

      by_name :
          (origin == "anthropic://desktop" || origin == "app://localhost") ≡ true
          → is_allowed_origin library (some origin) port ≡ true
      by_name h = rw h refl

      back :
          (origin ≡ "anthropic://desktop")
            ⊎ (origin ≡ "app://localhost")
            ⊎ ((url : Url) × (parse origin ≡ some url) × IsTrusted url port)
          → is_allowed_origin library (some origin) port ≡ true
      back (inl e) = by_name (ground (arith, (eq_iff origin "anthropic://desktop").1 e))
      back (inr (inl e)) = by_name (ground (arith, (eq_iff origin "app://localhost").1 e))
      back (inr (inr (url, e, t))) =
          if-elim (λ b. b ≡ true) (origin == "anthropic://desktop" || origin == "app://localhost")
            (λ q. refl) (λ q. rw e ((IsTrusted-is_allowed_url url port).1 t))

  -- HTTPS, or HTTP on this host.
  abbrev pub IsSecure : Url → Type 0
  IsSecure url =
      (scheme url ≡ "https")
      ⊎ ((scheme url ≡ "http") × ((host : String) × (host_str url ≡ some host) × IsLocal host))

  secure : (url : Url) → is_gateway library url ≡ true → IsSecure url
  secure url h = elim (Bool-cases (scheme url == "https")) [
    | inl s ↦ inl ((eq_iff (scheme url) "https").0 s)
    | inr other ↦ elim (Option-cases (host_str url)) [
      | inl gone ↦ cc (rw (other, gone) at h)
      | inr (host, e) ↦
          let (l, s) =
            and-both (is_local_hostname host) (scheme url == "http") (rw (other, e) at h) in
          inr ((eq_iff (scheme url) "http").0 s, (host, e, local_lem host l))
    ]
  ]

  checked :
      (base_url : String) (url : Url)
      → checked_url library base_url ≡ ok url
      → (parse (trim base_url) ≡ some url) × IsSecure url
  checked base_url url h = elim (Option-cases (parse (trim base_url))) [
    | inl gone ↦ cc (rw (gone, checked_url) at h)
    | inr (u, e) ↦ elim (Bool-cases (is_gateway library u)) [
      | inl fine ↦
          let same : u ≡ url = ok-injective (rw (e, fine, checked_url) at h) in
          subst (λ v. (parse (trim base_url) ≡ some v) × IsSecure v) same (e, secure u fine)
      | inr bad ↦ cc (rw (e, bad, checked_url) at h)
    ]
  ]

  -- A gateway address that is accepted parses to an address over HTTPS, or over HTTP on this
  -- host, and the result is that address without query and fragment, with a path that ends in
  -- /v1/ and the endpoint.
  pub normalize_gateway_url-IsSecure :
      (base_url endpoint text : String)
      → normalize_gateway_url library base_url endpoint ≡ ok text
      → (url : Url) × ((prefix : String) × (parse (trim base_url) ≡ some url)
          × IsSecure url
          × (text
              ≡ to_string
                  (clear_fragment (clear_query (set_path (prefix ++ ("/v1/" ++ endpoint)) url)))))
  unfolding normalize_gateway_url
  normalize_gateway_url-IsSecure base_url endpoint text h =
      let (url, c, d) = >>=-eq-ok (checked_url library base_url) _ h in
      let (p, s) = checked base_url url c in
      let (prefix, e) = under_v1 (trim_end_slashes (path url)) endpoint in
      (url, (prefix, p, s, sym (ok-injective d) ∙ ap (with_path library url) e))
