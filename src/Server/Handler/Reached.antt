-- ===== src/Server/Handler/Reached.antt =====
-- Every request of the desktop is handled, and what of it reaches the upstream.
use free_claude_desktop.Prelude.{
  String, ◌≡◌, ◌≢◌, refl, sym, ap, subst, ◌∙◌, ◌⊎◌, inl, inr, Bool, true, not, Option, none, some,
  List, [], All, Bool-cases, Result-cases, Result, ok, err,
}
use free_claude_desktop.Json.{Value}
use free_claude_desktop.Settings.{Settings}
use free_claude_desktop.Response.Proxy.{prepare_proxy_body}
use free_claude_desktop.Stream.Lines.{Bytes}
use free_claude_desktop.Upstream.Headers.{Header, UpstreamRequest}
use free_claude_desktop.Optimization.WebTools.Policy.{policy_from_settings}
use free_claude_desktop.Optimization.WebTools.Fetch.{Connection}
use free_claude_desktop.Optimization.Answers.{OptimizationResponse, try_optimizations}
use free_claude_desktop.Optimization.Answers.Allowed.{try_optimizations-IsAllowed}
use free_claude_desktop.Server.Answer.{HttpResponse, into_response}
use free_claude_desktop.Server.Probe.{try_probe_response}
use free_claude_desktop.Server.Probe.Exact.{IsProbe, try_probe_response_iff}
use free_claude_desktop.Server.Outside.{Outside}
use free_claude_desktop.Server.Dispatch.{Call, Handled, dispatch_upstream}
use free_claude_desktop.Server.Dispatch.Sent.{
  IsDispatched, once, twice, dispatch_upstream-IsDispatched,
}
use free_claude_desktop.Server.Handler.{
  is_anthropic_native, build_proxy_body, upstream_call, call_of, dispatch_call, forward_body,
  probed, optimized, effective_body, handled_with, handle_proxy, extract_req_model,
  load_settings_or_response, parsed, with_stream,
}
use free_claude_desktop.Server.Handler.Gateway.{IsTo, upstream_call-ok, built-IsTo, retry-IsTo}

module _ (outside : Outside) (headers : List Header) where
  open outside use {from_str, to_string, to_lowercase, decode, net, now, runtime_settings}

  abbrev optimization :
      (settings : Settings)
      → String
      → Option (List (Connection net (policy_from_settings settings)) × Option OptimizationResponse)
  optimization settings body_str =
      try_optimizations (parsed outside) to_lowercase net to_string now body_str settings

  abbrev proxy_body : Settings → String → Option (Result (String × Bool) HttpResponse)
  proxy_body settings body_str =
      build_proxy_body outside body_str settings (not (is_anthropic_native settings))

  -- The settings and the body of a request that no optimization answers and that is no probe.
  pub record IsForUpstream (body : Bytes) (settings : Settings) (body_str : String) : Type 0 where
    pub found : runtime_settings ≡ ok (some settings)
    pub same_body : body_str ≡ effective_body outside settings (decode body)
    pub connections : List (Connection net (policy_from_settings settings))
    pub declined : optimization settings body_str ≡ some (connections, none)
    pub no_probe :
        try_probe_response
          (parsed outside)
          to_string
          now
          body_str
          (extract_req_model outside body_str)
        ≡ none

  pub data Reaches (body : Bytes) : Option Handled → Type 0 where
    unconfigured :
        (h : Handled)
        → ((settings : Settings) → runtime_settings ≢ ok (some settings))
        → h.sent ≡ []
        → h.response.status ≡ 500
        → Reaches body (some h)
    optimized_away :
        (settings : Settings) (h : Handled)
        (connections : List (Connection net (policy_from_settings settings)))
        (answer : OptimizationResponse)
        → runtime_settings ≡ ok (some settings)
        → optimization settings (effective_body outside settings (decode body))
          ≡ some (connections, some answer)
        → h.sent ≡ []
        → h.response ≡ into_response answer
        → Reaches body (some h)
    probe :
        (settings : Settings) (h : Handled) (v : Value)
        → runtime_settings ≡ ok (some settings)
        → parsed outside (effective_body outside settings (decode body)) ≡ some v
        → IsProbe (effective_body outside settings (decode body)) v
        → h.sent ≡ []
        → Reaches body (some h)
    panicked :
        (settings : Settings) (body_str : String)
        → IsForUpstream body settings body_str
        → is_anthropic_native settings ≡ true
        → prepare_proxy_body from_str to_string body_str settings ≡ none
        → Reaches body none
    refused :
        (settings : Settings) (body_str : String) (h : Handled)
        → IsForUpstream body settings body_str
        → (proxy_body settings body_str ≡ some (err h.response))
          ⊎ ((b : String × Bool) × (proxy_body settings body_str ≡ some (ok b))
              × (upstream_call outside settings headers body_str b ≡ err h.response))
        → h.sent ≡ []
        → Reaches body (some h)
    to_upstream :
        (settings : Settings) (body_str : String) (b : String × Bool) (call : Call)
        (request : UpstreamRequest) (h : Handled)
        → IsForUpstream body settings body_str
        → proxy_body settings body_str ≡ some (ok b)
        → upstream_call outside settings headers body_str b ≡ ok (call, request)
        → All (IsTo outside headers settings) h.sent
        → IsDispatched outside call request h.sent
        → Reaches body (some h)

  dispatch_call-Reaches :
      (bytes : Bytes) (settings : Settings) (body_str : String) (body : String × Bool)
      (r : Result (Call × UpstreamRequest) HttpResponse)
      → IsForUpstream bytes settings body_str
      → proxy_body settings body_str ≡ some (ok body)
      → upstream_call outside settings headers body_str body ≡ r
      → Reaches bytes (dispatch_call outside r)
  dispatch_call-Reaches bytes settings body_str body (err response) passes converted made =
      refused settings body_str _ passes (inr (body, converted, made)) refl
  dispatch_call-Reaches bytes settings body_str body (ok (call, request)) passes converted made =
      let (target_url, (key, address, unlocked, built, same)) =
        upstream_call-ok outside headers settings body_str body call request made in
      let c = call_of outside settings headers body_str body target_url key in
      let (h, e, sends) = dispatch_upstream-IsDispatched outside c request in
      let to =
        built-IsTo outside headers settings body.0 target_url key request address unlocked built in
      let all : All (IsTo outside headers settings) h.sent = elim sends [
        | once sent ↦ subst (All (IsTo outside headers settings)) (sym sent) (to, tt)
        | twice response arrived again retry sent ↦
            subst (All (IsTo outside headers settings)) (sym sent) (
              to,
              (
                retry-IsTo outside headers settings body_str body target_url key response again
                    address unlocked retry,
                tt,
              ),
            )
      ] in
      subst (Reaches bytes) (sym (ap (λ x. dispatch_upstream outside x request) (sym same) ∙ e)) (
        to_upstream settings body_str body call request h passes converted made all
          (subst (λ x. IsDispatched outside x request h.sent) same sends))

  with_stream-none :
      (is_stream : Bool) (o : Option String) → with_stream outside is_stream o ≡ none → o ≡ none
  with_stream-none is_stream none h = refl
  with_stream-none is_stream (some body) h = cc

  forward_body-Reaches :
      (bytes : Bytes) (settings : Settings) (body_str : String)
      → IsForUpstream bytes settings body_str
      → (o : Option (Result (String × Bool) HttpResponse)) → proxy_body settings body_str ≡ o
      → Reaches bytes (forward_body outside settings headers body_str o)
  unfolding build_proxy_body
  forward_body-Reaches bytes settings body_str passes none built =
      elim (Bool-cases (is_anthropic_native settings)) [
        | inr openai ↦ cc (simp (openai) at built)
        | inl native ↦ panicked settings body_str passes native (
            with_stream-none _ (prepare_proxy_body from_str to_string body_str settings)
              (simp (native) at built))
      ]
  forward_body-Reaches bytes settings body_str passes (some (err response)) built =
      refused settings body_str _ passes (inl built) refl
  forward_body-Reaches bytes settings body_str passes (some (ok body)) built =
      dispatch_call-Reaches bytes settings body_str body _ passes built refl

  probed-Reaches :
      (bytes : Bytes) (settings : Settings)
      → runtime_settings ≡ ok (some settings)
      → (connections : List (Connection net (policy_from_settings settings)))
      → optimization settings (effective_body outside settings (decode bytes))
        ≡ some (connections, none)
      → (answer : Option HttpResponse)
      → try_probe_response
          (parsed outside)
          to_string
          now
          (effective_body outside settings (decode bytes))
          (extract_req_model outside (effective_body outside settings (decode bytes)))
        ≡ answer
      → Reaches bytes
          (probed outside settings headers (effective_body outside settings (decode bytes)) answer)
  probed-Reaches bytes settings found connections declined (some response) tried =
      let body_str = effective_body outside settings (decode bytes) in
      let (v, read, is_probe) =
        (try_probe_response_iff (parsed outside) to_string now body_str
            (extract_req_model outside body_str)).0
          (response, tried) in
      probe settings _ v found read is_probe refl
  probed-Reaches bytes settings found connections declined none tried =
      forward_body-Reaches bytes settings (effective_body outside settings (decode bytes))
        (record {
          found = found;
          same_body = refl;
          connections = connections;
          declined = declined;
          no_probe = tried;
        })
        _ refl

  optimized-Reaches :
      (bytes : Bytes) (settings : Settings)
      → runtime_settings ≡ ok (some settings)
      → (connections : List (Connection net (policy_from_settings settings)))
        (response : Option OptimizationResponse)
      → optimization settings (effective_body outside settings (decode bytes))
        ≡ some (connections, response)
      → Reaches bytes (
          optimized outside settings headers
            (effective_body outside settings (decode bytes))
            (some (connections, response)))
  optimized-Reaches bytes settings found connections (some answer) given =
      optimized_away settings _ connections answer found given refl refl
  optimized-Reaches bytes settings found connections none given =
      probed-Reaches bytes settings found connections given _ refl

  handled_with-Reaches :
      (bytes : Bytes) (settings : Settings)
      → runtime_settings ≡ ok (some settings)
      → Reaches bytes (handled_with outside headers bytes (ok settings))
  handled_with-Reaches bytes settings found =
      let body_str = effective_body outside settings (decode bytes) in
      let (connections, (response, e, _, _)) =
        try_optimizations-IsAllowed (parsed outside) to_lowercase net settings to_string now
          body_str in
      subst (λ o. Reaches bytes (optimized outside settings headers body_str o)) (sym e)
        (optimized-Reaches bytes settings found connections response e)

  -- Every request of the desktop is handled in one of these ways. Where there are no settings,
  -- nothing is sent and the status is 500. Where an optimization answers, its answer is given,
  -- and where the request is a probe, it is answered too, and nothing is sent. Of the rest, a
  -- request whose body cannot be converted, or whose address, key or scheme is refused, is
  -- answered so and nothing is sent; it panics only where the upstream speaks Anthropic's API and
  -- the passing on of the body panics; else it is sent once, and at most once more, where the
  -- first answer is an error that says that the model is gone, with the rewritten body. Each
  -- request that is sent goes to the normalized gateway address, and where the key of the
  -- settings is not empty, the header that the scheme resolves to stands once, with that key.
  pub handle_proxy-Reaches : (bytes : Bytes) → Reaches bytes (handle_proxy outside headers bytes)
  unfolding handle_proxy load_settings_or_response
  handle_proxy-Reaches bytes = elim (Result-cases runtime_settings) [
    | inr (e, unread) ↦
        simp (unread) (unconfigured _ (λ settings found. cc (sym unread ∙ found)) refl refl)
    | inl (none, absent) ↦
        simp (absent) (unconfigured _ (λ settings found. cc (sym absent ∙ found)) refl refl)
    | inl (some settings, found) ↦ simp (found) (handled_with-Reaches bytes settings found)
  ]
