-- ===== src/Server/Retry/Once.antt =====
-- A retry sends one request at most, and never panics.
use free_claude_desktop.Prelude.{
  String, ◌≡◌, refl, ◌⊎◌, inl, inr, Bool, true, Option, none, some, List, [], ◌∷◌, Bool-cases,
  Option-cases, Result-cases, Result, ok, err,
}
use free_claude_desktop.Json.{
  Value, Fields, null, bool, number, string, array, object, get, get_str,
}
use free_claude_desktop.Settings.{Settings}
use free_claude_desktop.Response.Proxy.{
  StaleModelRewrite, rewrite_stale_model_request, rewritten, without_stale, replaced_by,
  first_fallback,
}
use free_claude_desktop.Upstream.Headers.{Header, UpstreamRequest, build_upstream_request}
use free_claude_desktop.Server.Answer.{UpstreamResponse}
use free_claude_desktop.Server.Outside.{Outside}
use free_claude_desktop.Server.Retry.{
  Retried, is_model_gone_or_invalid_error, may_retry_stale_model, try_stale_model_retry,
  retry_settings, retry_with, retry_response,
}

replaced_by-some :
    (fields : Fields) (fallback : Option String)
    → (x : Option StaleModelRewrite) × (replaced_by (object fields) fallback ≡ some x)
replaced_by-some fields none = (none, refl)
replaced_by-some fields (some fallback) = (_, refl)

-- A model is replaced in an object only, so nothing panics.
without_stale-some :
    (settings : Settings) (requested : String) (v : Value)
    → (x : Option StaleModelRewrite) × (without_stale settings requested v (get_str "model" v)
        ≡ some x)
unfolding get_str get
without_stale-some settings requested (object fields) =
    elim (Option-cases (get_str "model" (object fields))) [
      | inl none_there ↦ (none, rw none_there refl)
      | inr (model, there) ↦
          let (x, e) = replaced_by-some fields (first_fallback settings requested model) in
          (x, rw there e)
    ]
without_stale-some settings requested null = (none, refl)
without_stale-some settings requested (bool b) = (none, refl)
without_stale-some settings requested (number n) = (none, refl)
without_stale-some settings requested (string s) = (none, refl)
without_stale-some settings requested (array l) = (none, refl)

module _ (outside : Outside) (settings : Settings)
    (api_key proxy_body request_model target_url : String) (headers : List Header) (native : Bool)
    (error_text : String) (require_success : Bool) where
  open outside use {from_str, to_string, host_str}

  abbrev retried : Retried
  retried =
      try_stale_model_retry outside settings api_key proxy_body request_model target_url headers
        native error_text require_success

  abbrev refreshed : Settings
  refreshed = retry_settings outside settings api_key

  -- The request of a retry: the error is that of a model that is gone, and the body has another.
  pub record IsRetry (request : UpstreamRequest) : Type 0 where
    pub gone : is_model_gone_or_invalid_error error_text ≡ true
    pub rewrite : StaleModelRewrite
    pub replaced :
        rewrite_stale_model_request from_str proxy_body refreshed request_model
        ≡ some (some rewrite)
    pub built :
        build_upstream_request host_str target_url
          (to_string rewrite.0)
          headers
          api_key
          refreshed.gateway.real_auth_scheme
          native
        ≡ ok request

  -- Nothing is sent and there is no response, or one request is sent.
  abbrev pub Sends : List UpstreamRequest → Option UpstreamResponse → Type 0
  Sends sent response =
      ((sent ≡ []) × (response ≡ none))
      ⊎ ((request : UpstreamRequest) × (sent ≡ request ∷ []) × IsRetry request)

  rewritten-some :
      (r : Result Value String)
      → (x : Option StaleModelRewrite) × (rewritten refreshed request_model r ≡ some x)
  rewritten-some (err e) = (none, refl)
  rewritten-some (ok v) = without_stale-some refreshed request_model v

  rewrite-some :
      (x : Option StaleModelRewrite) × (rewrite_stale_model_request from_str proxy_body refreshed
          request_model
        ≡ some x)
  unfolding rewrite_stale_model_request
  rewrite-some = rewritten-some (from_str proxy_body)

  retry_response-some :
      (request : UpstreamRequest) (r : Result UpstreamResponse String)
      → (response : Option UpstreamResponse) × (retry_response outside require_success request r
          ≡ some (request ∷ [], response))
  retry_response-some request (err e) = (none, refl)
  retry_response-some request (ok r) = (_, refl)

  retry_with-Sends :
      (o : Option StaleModelRewrite)
      → is_model_gone_or_invalid_error error_text ≡ true
      → rewrite_stale_model_request from_str proxy_body refreshed request_model ≡ some o
      → (sent : List UpstreamRequest) × ((response : Option UpstreamResponse) × ((retry_with outside
                refreshed api_key target_url headers native require_success
                (some o)
              ≡ some (sent, response))
            × Sends sent response))
  retry_with-Sends none gone replaced = ([], (none, (refl, inl (refl, refl))))
  retry_with-Sends (some r) gone replaced =
      elim (Result-cases (
        build_upstream_request host_str target_url (to_string r.0) headers api_key
          refreshed.gateway.real_auth_scheme native)) [
            | inr (e, refused) ↦ ([], (none, (rw refused refl, inl (refl, refl))))
            | inl (request, built) ↦
                let (response, e) = retry_response-some request (outside.send 1 request) in
                (
                  request ∷ [],
                  (
                    response,
                    (
                      rw built e,
                      inr (
                        request,
                        refl,
                        record { gone = gone; rewrite = r; replaced = replaced; built = built },
                      ),
                    ),
                  ),
                )
          ]

  -- A retry comes to an end, and sends one request at most.
  pub try_stale_model_retry-Sends :
      (sent : List UpstreamRequest) × ((response : Option UpstreamResponse) × ((retried
            ≡ some (sent, response))
          × Sends sent response))
  unfolding try_stale_model_retry may_retry_stale_model
  try_stale_model_retry-Sends = elim (Bool-cases (is_model_gone_or_invalid_error error_text)) [
    | inr alive ↦ ([], (none, (rw alive refl, inl (refl, refl))))
    | inl gone ↦
        let (o, replaced) = rewrite-some in
        let (sent, (response, (e, sends))) = retry_with-Sends o gone replaced in
        (sent, (response, (rw gone (rw replaced e), sends)))
  ]
