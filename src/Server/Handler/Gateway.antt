-- ===== src/Server/Handler/Gateway.antt =====
-- A request that is sent goes to the gateway, with its key.
use free_claude_desktop.Prelude.{
  ℕ, String, ◌≡◌, refl, sym, ap, subst, ◌∙◌, inl, inr, Bool, true, false, not, List, Result-cases,
  Result, ok, err, ok-injective,
}
use free_claude_desktop.AppError.{AppError}
use free_claude_desktop.Settings.{Settings}
use free_claude_desktop.ModelList.Normalize.{normalize_models_response_with_overrides_and_prefer1m}
use free_claude_desktop.Upstream.Headers.{
  Header, UpstreamRequest, build_upstream_request, resolve_auth_header_name,
}
use free_claude_desktop.Upstream.Headers.Credentials.{IsGuarded, build_upstream_request-IsGuarded}
use free_claude_desktop.Server.Answer.{UpstreamResponse}
use free_claude_desktop.Server.Outside.{Outside}
use free_claude_desktop.Server.Retry.{refresh_settings_for_retry, retry_settings}
use free_claude_desktop.Server.Dispatch.{Call}
use free_claude_desktop.Server.Dispatch.Sent.{IsRetryOf}
use free_claude_desktop.Server.Handler.{
  is_anthropic_native, normalized_url, build_target_url, unprotect_key_or_response, upstream_call,
  call_of, built_request, or_answer, or_app_error,
}

not-not : (b : Bool) → not (not b) ≡ b
not-not true = refl
not-not false = refl

module _ (outside : Outside) (headers : List Header) where
  open outside use {
    from_str, to_string, to_lowercase, decode, net, host_str, now, runtime_settings, unprotect_key,
  }

  -- A request goes to the gateway of the settings, with its key and no other.
  pub record IsTo (settings : Settings) (request : UpstreamRequest) : Type 0 where
    pub target_url : String
    pub address :
        normalized_url outside settings (not (is_anthropic_native settings)) ≡ ok target_url
    pub key : String
    pub unlocked : unprotect_key settings.gateway.real_api_key ≡ ok key
    pub name : String
    pub named :
        resolve_auth_header_name host_str settings.gateway.real_auth_scheme target_url ≡ ok name
    pub guarded :
        IsGuarded target_url request.body key name (is_anthropic_native settings) headers request

  or_answer-ok :
      {A : Type 0} (status : ℕ) (r : Result A String) (a : A)
      → or_answer outside status r ≡ ok a
      → r ≡ ok a
  or_answer-ok status (ok b) a h = ap ok (ok-injective h)
  or_answer-ok status (err e) a h = cc

  or_app_error-ok :
      {A : Type 0} (status : ℕ) (r : Result A AppError) (a : A)
      → or_app_error outside status r ≡ ok a
      → r ≡ ok a
  or_app_error-ok status (ok b) a h = ap ok (ok-injective h)
  or_app_error-ok status (err e) a h = cc

  -- What a call is made of.
  pub upstream_call-ok :
      (settings : Settings) (body_str : String) (body : String × Bool) (call : Call)
      (request : UpstreamRequest)
      → upstream_call outside settings headers body_str body ≡ ok (call, request)
      → (target_url : String) × ((key : String) × (normalized_url outside settings
              (not (is_anthropic_native settings))
            ≡ ok target_url)
          × (unprotect_key settings.gateway.real_api_key ≡ ok key)
          × (built_request outside settings headers body.0 target_url key ≡ ok request)
          × (call_of outside settings headers body_str body target_url key ≡ call))
  unfolding build_target_url unprotect_key_or_response
  upstream_call-ok settings body_str body call request h =
      elim (Result-cases (normalized_url outside settings (not (is_anthropic_native settings)))) [
        | inr (e, bad) ↦ cc (rw bad at h)
        | inl (target_url, address) ↦
            elim (Result-cases (unprotect_key settings.gateway.real_api_key)) [
              | inr (e, locked) ↦ cc (rw locked at (rw address at h))
              | inl (key, unlocked) ↦
                  elim (Result-cases
                    (built_request outside settings headers body.0 target_url key)) [
                      | inr (e, refused) ↦ cc (rw refused at (rw unlocked at (rw address at h)))
                      | inl (r, built) ↦
                          let same =
                            ok-injective (rw built at (rw unlocked at (rw address at h))) in
                          (
                            target_url,
                            (
                              key,
                              address,
                              unlocked,
                              built ∙ ap (λ x. ok x.1) same,
                              ap (λ x. x.0) same,
                            ),
                          )
                    ]
            ]
      ]

  refresh-gateway :
      (settings : Settings) (key : String)
      → (retry_settings outside settings key).gateway.real_auth_scheme
        ≡ settings.gateway.real_auth_scheme
  unfolding refresh_settings_for_retry normalize_models_response_with_overrides_and_prefer1m
  refresh-gateway settings key =
      elim (Result-cases (
        outside.fetch_models settings.gateway.real_base_url key
          settings.gateway.real_auth_scheme)) [
            | inl (raw, fetched) ↦ rw fetched refl
            | inr (e, failed) ↦ rw failed refl
          ]

  pub built-IsTo :
      (settings : Settings) (body target_url key : String) (request : UpstreamRequest)
      → normalized_url outside settings (not (is_anthropic_native settings)) ≡ ok target_url
      → unprotect_key settings.gateway.real_api_key ≡ ok key
      → built_request outside settings headers body target_url key ≡ ok request
      → IsTo settings request
  built-IsTo settings body target_url key request address unlocked built =
      let native = is_anthropic_native settings in
      let (name, named, guarded) =
        build_upstream_request-IsGuarded host_str target_url body headers key
          settings.gateway.real_auth_scheme native request built in
      record {
        target_url = target_url;
        address = address;
        key = key;
        unlocked = unlocked;
        name = name;
        named = named;
        guarded =
            subst (λ b. IsGuarded target_url b key name native headers request)
              (sym guarded.same_body) guarded;
      }

  -- The scheme of the retry is that of the settings, which the refresh keeps.
  pub retry-IsTo :
      (settings : Settings) (body_str : String) (body : String × Bool) (target_url key : String)
      (response : UpstreamResponse) (again : UpstreamRequest)
      → normalized_url outside settings (not (is_anthropic_native settings)) ≡ ok target_url
      → unprotect_key settings.gateway.real_api_key ≡ ok key
      → IsRetryOf outside
          (call_of outside settings headers body_str body target_url key)
          response
          again
      → IsTo settings again
  retry-IsTo settings body_str body target_url key response again address unlocked retry =
      built-IsTo settings (to_string retry.retry.rewrite.0) target_url key again address unlocked (
        ap
          (λ g.
            build_upstream_request host_str target_url (to_string retry.retry.rewrite.0) headers key
              g (is_anthropic_native settings))
          (sym (refresh-gateway settings key))
        ∙ ap
            (λ b.
              build_upstream_request host_str target_url (to_string retry.retry.rewrite.0) headers
                key (retry_settings outside settings key).gateway.real_auth_scheme b)
            (sym (not-not (is_anthropic_native settings)))
        ∙ retry.retry.built)
