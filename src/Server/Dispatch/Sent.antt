-- ===== src/Server/Dispatch/Sent.antt =====
-- What is sent for a request that goes to the upstream: the request, and one retry at most.
use free_claude_desktop.Prelude.{
  ◌≡◌, refl, sym, ap, subst, ◌∙◌, ◌⊎◌, inl, inr, Bool, true, false, not, Option, none, some, List,
  [], ◌∷◌, Bool-cases, Result, ok, err, String,
}
use free_claude_desktop.Json.{Value}
use free_claude_desktop.Upstream.Headers.{UpstreamRequest}
use free_claude_desktop.Upstream.Errors.{read_bounded_error}
use free_claude_desktop.Server.Answer.{HttpResponse, UpstreamResponse, is_success}
use free_claude_desktop.Server.Outside.{Outside}
use free_claude_desktop.Server.Retry.Once.{IsRetry, Sends, try_stale_model_retry-Sends}
use free_claude_desktop.Server.Dispatch.{
  Call, Answered, Handled, retried, answer_with, handle_openai_stream_response, handle_openai_error,
  handle_anthropic_passthrough, answer_upstream, handled, dispatched, dispatch_upstream,
}

module _ (outside : Outside) (call : Call) where
  -- A retry for what the upstream answered: an error that a model is gone.
  pub record IsRetryOf (response : UpstreamResponse) (request : UpstreamRequest) : Type 0 where
    pub failed : is_success response.status ≡ false
    pub retry :
        IsRetry outside call.settings call.api_key call.proxy_body call.req_model call.target_url
          call.headers
          (not call.is_openai_format)
          (read_bounded_error outside.decode response.chunks)
          call.is_openai_format
          request

  abbrev Retries : UpstreamResponse → List UpstreamRequest → Type 0
  Retries response sent =
      (sent ≡ [])
      ⊎ ((request : UpstreamRequest) × (sent ≡ request ∷ []) × IsRetryOf response request)

  -- An answer, with what is sent for it.
  abbrev Answers : UpstreamResponse → Answered → Type 0
  Answers response answered =
      (sent : List UpstreamRequest) × ((answer : HttpResponse) × (answered ≡ some (sent, answer))
        × Retries response sent)

  at_once :
      (response : UpstreamResponse) (answer : HttpResponse) → Answers response (some ([], answer))
  at_once response answer = ([], (answer, refl, inl refl))

  answer_with-some :
      (f : UpstreamResponse → HttpResponse) (otherwise : HttpResponse) (sent : List UpstreamRequest)
      (given : Option UpstreamResponse)
      → (answer : HttpResponse) × (answer_with outside f otherwise (some (sent, given))
          ≡ some (sent, answer))
  answer_with-some f otherwise sent none = (otherwise, refl)
  answer_with-some f otherwise sent (some retry) = (f retry, refl)

  retries :
      (response : UpstreamResponse) (sent : List UpstreamRequest) (given : Option UpstreamResponse)
      (openai : Bool)
      → call.is_openai_format ≡ openai
      → is_success response.status ≡ false
      → Sends outside call.settings call.api_key call.proxy_body call.req_model call.target_url
          call.headers
          (not openai)
          (read_bounded_error outside.decode response.chunks)
          openai
          sent
          given
      → Retries response sent
  retries response sent given openai format failed (inl (nothing, _)) = inl nothing
  retries response sent given openai format failed (inr (request, e, retry)) = inr (
    request,
    e,
    record {
      failed = failed;
      retry =
          subst
            (λ b.
              IsRetry outside call.settings call.api_key call.proxy_body call.req_model
                call.target_url call.headers (not b)
                (read_bounded_error outside.decode response.chunks) b request)
            (sym format) retry;
    },
  )

  retried-Answers :
      (response : UpstreamResponse) (f : UpstreamResponse → HttpResponse) (otherwise : HttpResponse)
      (openai : Bool)
      → call.is_openai_format ≡ openai
      → is_success response.status ≡ false
      → Answers response (
          answer_with outside f otherwise (
            retried outside call
              (read_bounded_error outside.decode response.chunks)
              (not openai)
              openai))
  retried-Answers response f otherwise openai format failed =
      let error = read_bounded_error outside.decode response.chunks in
      let (sent, (given, (tried, sends))) =
        try_stale_model_retry-Sends outside call.settings call.api_key call.proxy_body
          call.req_model call.target_url call.headers (not openai) error openai in
      let (answer, e) = answer_with-some f otherwise sent given in
      (
        sent,
        (
          answer,
          ap (answer_with outside f otherwise) tried ∙ e,
          retries response sent given openai format failed sends,
        ),
      )

  answer_upstream-Answers :
      (response : UpstreamResponse) → Answers response (answer_upstream outside call response)
  unfolding answer_upstream handle_openai_stream_response handle_openai_error
      handle_anthropic_passthrough
  answer_upstream-Answers response = elim (Bool-cases call.is_openai_format) [
    | inl openai ↦ elim (Bool-cases call.is_stream) [
      | inl stream ↦ elim (Bool-cases (is_success response.status)) [
        | inl success ↦ simp (openai, stream, success) (at_once response _)
        | inr failed ↦
            simp (openai, stream, failed) (retried-Answers response _ _ true openai failed)
      ]
      | inr whole ↦ elim (Bool-cases (is_success response.status)) [
        | inl success ↦ simp (openai, whole, success) (at_once response _)
        | inr failed ↦
            simp (openai, whole, failed) (retried-Answers response _ _ true openai failed)
      ]
    ]
    | inr native ↦ elim (Bool-cases (is_success response.status)) [
      | inl success ↦ simp (native, success) (at_once response _)
      | inr failed ↦ simp (native, failed) (retried-Answers response _ _ false native failed)
    ]
  ]

  -- The request is sent; behind it, where the upstream answered an error, one retry at most.
  pub data IsDispatched (request : UpstreamRequest) (sent : List UpstreamRequest) : Type 0 where
    once : sent ≡ request ∷ [] → IsDispatched request sent
    twice :
        (response : UpstreamResponse)
        → outside.send 0 request ≡ ok response
        → (again : UpstreamRequest) → IsRetryOf response again
        → sent ≡ request ∷ again ∷ []
        → IsDispatched request sent

  handled-IsDispatched :
      (request : UpstreamRequest) (logged : List Value) (response : UpstreamResponse)
      (answered : Answered)
      → outside.send 0 request ≡ ok response
      → Answers response answered
      → (h : Handled) × (handled outside request logged answered ≡ some h)
        × IsDispatched request h.sent
  handled-IsDispatched request logged response answered arrived (sent, (answer, e, inl nothing)) =
      (_, ap (handled outside request logged) e, once (ap (λ l. request ∷ l) nothing))
  handled-IsDispatched request logged response answered arrived
        (sent, (answer, e, inr (again, same, retry))) =
      (
        _,
        ap (handled outside request logged) e,
        twice response arrived again retry (ap (λ l. request ∷ l) same),
      )

  dispatched-IsDispatched :
      (request : UpstreamRequest) (r : Result UpstreamResponse String)
      → outside.send 0 request ≡ r
      → (h : Handled) × (dispatched outside call request r ≡ some h) × IsDispatched request h.sent
  dispatched-IsDispatched request (ok response) arrived =
      handled-IsDispatched request _ response (answer_upstream outside call response) arrived
        (answer_upstream-Answers response)
  dispatched-IsDispatched request (err e) arrived = (_, refl, once refl)

  -- The dispatch of a request comes to an answer.
  pub dispatch_upstream-IsDispatched :
      (request : UpstreamRequest)
      → (h : Handled) × (dispatch_upstream outside call request ≡ some h)
        × IsDispatched request h.sent
  unfolding dispatch_upstream
  dispatch_upstream-IsDispatched request =
      dispatched-IsDispatched request (outside.send 0 request) refl
