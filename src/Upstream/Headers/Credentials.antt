-- ===== src/Upstream/Headers/Credentials.antt =====
-- A request to the gateway has one encoding, and where there is a key, one credential.
use free_claude_desktop.Prelude.{
  String, ◌≡◌, refl, sym, ap, subst, ◌∙◌, ◌⊎◌, inl, inr, Bool, true, false, not, ◌&&◌, ◌==◌, eq_iff,
  eq_refl, Option, some, List, [], ◌∷◌, ◌++◌, keep, Bool-cases, arith, Result, ok, >>=-eq-ok,
  ok-injective,
}
use free_claude_desktop.Prelude.Texts.{is_empty_text, to_ascii_lowercase}
use free_claude_desktop.Upstream.Headers.{
  Header, HeaderCall, header, bearer_auth, UpstreamRequest, with_call, accept_encoding, is_dropped,
  is_forwarded, forwarded, resolve_auth_header_name, credential, apply_gateway_auth, skipped,
  build_upstream_request, header_name, resolved_scheme, with_credential, request_with,
}

-- A call that gives the header of a name.
abbrev pub sets : String → HeaderCall → Bool
sets name (header h) = to_ascii_lowercase h.0 == name
sets name (bearer_auth key) = "authorization" == name

keep-append :
    (p : HeaderCall → Bool) (xs ys : List HeaderCall) → keep p (xs ++ ys) ≡ keep p xs ++ keep p ys
keep-append p [] ys = refl
keep-append p (x ∷ xs) ys = elim (Bool-cases (p x)) [
  | inl kept ↦ rw kept (ap (λ r. x ∷ r) (keep-append p xs ys))
  | inr other ↦ rw other (keep-append p xs ys)
]

-- A header that is dropped does not come from the client.
forwarded-apart :
    (skip : Option String) (native : Bool) (headers : List Header) (name : String)
    → is_dropped skip name ≡ true
    → keep (sets name) (forwarded skip native headers) ≡ []
unfolding forwarded
forwarded-apart skip native [] name h = refl
forwarded-apart skip native (c ∷ headers) name h =
    let lower = to_ascii_lowercase c.0 in
    let later = forwarded-apart skip native headers name h in
    elim (Bool-cases (not (is_dropped skip lower) && is_forwarded native lower)) [
      | inr out ↦ rw out later
      | inl passed ↦ elim (Bool-cases (lower == name)) [
        | inr apart ↦ rw passed (rw apart later)
        | inl same ↦
            let dropped : is_dropped skip lower ≡ true =
              ap (is_dropped skip) ((eq_iff lower name).0 same) ∙ h in
            absurd (ground (arith, dropped, passed))
      ]
    ]

header_name-cases :
    (resolved : String)
    → (header_name resolved ≡ "x-api-key") ⊎ (header_name resolved ≡ "authorization")
header_name-cases resolved = elim (Bool-cases (resolved == "x-api-key")) [
  | inl key ↦ inl (rw key refl)
  | inr other ↦ inr (rw other refl)
]

-- A credential gives its own header only, and the encoding gives another.
IsApart : String → String → Type 0
IsApart key name =
    (sets name (credential name key) ≡ true)
    × (sets "accept-encoding" (credential name key) ≡ false)
    × (sets name accept_encoding ≡ false)

credential-IsApart :
    (name key : String) → (name ≡ "x-api-key") ⊎ (name ≡ "authorization") → IsApart key name
unfolding IsApart to_ascii_lowercase
credential-IsApart name key (inl e) = subst (IsApart key) (sym e) (refl, refl, refl)
credential-IsApart name key (inr e) = subst (IsApart key) (sym e) (refl, refl, refl)

-- What is sent: the encoding, the client's headers, and the credential where there is a key.
module _ (target_url body api_key name : String) (native : Bool) (headers : List Header) where
  pub record IsGuarded (request : UpstreamRequest) : Type 0 where
    pub same_url : request.url ≡ target_url
    pub same_body : request.body ≡ body
    pub one_encoding : keep (sets "accept-encoding") request.calls ≡ accept_encoding ∷ []
    pub one_credential :
        is_empty_text api_key ≡ false
        → keep (sets name) request.calls ≡ credential name api_key ∷ []

  without_key :
      (skip : Option String)
      → is_empty_text api_key ≡ true
      → IsGuarded (request_with target_url body skip native headers)
  unfolding to_ascii_lowercase
  without_key skip empty = record {
    same_url = refl;
    same_body = refl;
    one_encoding =
        ap (λ r. accept_encoding ∷ r) (forwarded-apart skip native headers "accept-encoding" refl);
    one_credential = λ h. absurd (ground arith);
  }

  with_key :
      (name ≡ "x-api-key") ⊎ (name ≡ "authorization")
      → IsGuarded (
          with_call
            (credential name api_key)
            (request_with target_url body (some name) native headers))
  unfolding IsApart to_ascii_lowercase
  with_key known =
      let (own, other, apart) = credential-IsApart name api_key known in
      let clients = forwarded (some name) native headers in
      let call = credential name api_key in
      let named : is_dropped (some name) name ≡ true = rw (eq_refl name) (ground arith) in
      record {
        same_url = refl;
        same_body = refl;
        one_encoding =
            ap (λ r. accept_encoding ∷ r)
              (keep-append (sets "accept-encoding") clients (call ∷ [])
                ∙ rw (forwarded-apart (some name) native headers "accept-encoding" refl, other)
                    refl);
        one_credential = λ h. rw apart (
            keep-append (sets name) clients (call ∷ [])
            ∙ rw (forwarded-apart (some name) native headers name named, own) refl);
      }

module _ (host_str : String → Result (Option String) String) where
  resolve_auth_header_name-cases :
      (scheme url name : String)
      → resolve_auth_header_name host_str scheme url ≡ ok name
      → (name ≡ "x-api-key") ⊎ (name ≡ "authorization")
  unfolding resolve_auth_header_name
  resolve_auth_header_name-cases scheme url name h =
      let (resolved, _, same) =
        >>=-eq-ok (resolved_scheme host_str scheme url) (λ r. ok (header_name r)) h in
      subst (λ n. (n ≡ "x-api-key") ⊎ (n ≡ "authorization")) (ok-injective same)
        (header_name-cases resolved)

  skipped-key :
      (api_key auth_scheme target_url name : String)
      → is_empty_text api_key ≡ false
      → resolve_auth_header_name host_str auth_scheme target_url ≡ ok name
      → skipped host_str api_key auth_scheme target_url ≡ ok (some name)
  skipped-key api_key auth_scheme target_url name key given = rw key (rw given refl)

  -- If the request to the gateway is built, then it goes to the address with the body, it has
  -- accept-encoding once, with identity, and where the key is not empty the header that the
  -- scheme resolves to stands once, with the key: the client's own headers of these names are not
  -- passed on.
  pub build_upstream_request-IsGuarded :
      (target_url body : String) (headers : List Header) (api_key auth_scheme : String)
      (native : Bool) (request : UpstreamRequest)
      → build_upstream_request host_str target_url body headers api_key auth_scheme native
        ≡ ok request
      → (name : String) × (resolve_auth_header_name host_str auth_scheme target_url ≡ ok name)
        × IsGuarded target_url body api_key name native headers request
  unfolding build_upstream_request apply_gateway_auth
  build_upstream_request-IsGuarded target_url body headers api_key auth_scheme native request h =
      let (skip, skips, sent) =
        >>=-eq-ok (skipped host_str api_key auth_scheme target_url)
          (λ skip_header.
            apply_gateway_auth host_str (request_with target_url body skip_header native headers)
              auth_scheme api_key target_url)
          h in
      let (name, given, same) =
        >>=-eq-ok (resolve_auth_header_name host_str auth_scheme target_url)
          (λ name.
            ok (with_credential (request_with target_url body skip native headers) name api_key))
          sent in
      (
        name,
        given,
        elim (Bool-cases (is_empty_text api_key)) [
          | inl empty ↦
              subst (IsGuarded target_url body api_key name native headers)
                (ok-injective (rw empty at same))
                (without_key target_url body api_key name native headers skip empty)
          | inr key ↦
              let skips_name : some name ≡ skip =
                ok-injective
                  (sym (skipped-key api_key auth_scheme target_url name key given) ∙ skips) in
              subst (IsGuarded target_url body api_key name native headers)
                (ap
                    (λ s.
                      with_call (credential name api_key)
                        (request_with target_url body s native headers))
                    skips_name
                  ∙ ok-injective (rw key at same))
                (with_key target_url body api_key name native headers
                  (resolve_auth_header_name-cases auth_scheme target_url name given))
        ],
      )
