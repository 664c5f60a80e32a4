-- ===== src/Optimization/WebTools/Calls/Allowed.antt =====
-- Every connection of a fetch is one that the policy allows, and a fetch comes to an end.
use free_claude_desktop.Prelude.{
  ℕ, suc, ◌≤◌, ◌≡◌, refl, sym, ap, ◌⊎◌, inl, inr, String, Bool, true, false, not, ◌&&◌, ◌||◌, ◌==◌,
  eq_iff, Option, none, some, List, [], ◌∷◌, any, if◌then◌else◌, Result, ok, err, >>=-eq-ok,
  ok-injective, length, All, Bool-cases, arith, eqb, subst, if-elim,
}
use free_claude_desktop.Prelude.Members.{Member, any_iff-Member}
use free_claude_desktop.ModelList.Order.{is_member}
use free_claude_desktop.Optimization.WebTools.Address.{IpAddr, is_public_ip}
use free_claude_desktop.Optimization.WebTools.Policy.{
  WebFetchEgressPolicy, validate_url, checked_parse, checked_scheme,
}
use free_claude_desktop.Json.{Value}
use free_claude_desktop.Optimization.WebTools.Calls.{
  execute_web_tool, execute_web_fetch, execute_web_search, fetched, fetched_url, searched, query_of,
}
use free_claude_desktop.Optimization.WebTools.Fetch.{
  extract_web_fetch_url, Network, ResolvedTarget, chosen_target, resolve_target, Outcome, stop,
  connected, handle_redirect, redirected, answered, with_client, with_target, fetch_rounds,
  rounds_to_max, parsed_url, fetch_url, Response, max_redirects, or_error,
}

module _ (net : Network) (policy : WebFetchEgressPolicy) where
  open net use {urls, parse_error, debug, parse_ip, join, lookup_host, build_client, send}
  open urls use {Url, parse, scheme, host_str, port_or_known_default, to_string}

  -- The tools are switched on, the scheme is allowed, and the address is public or the policy
  -- allows private networks.
  pub record IsAllowed (connection : Url × IpAddr) : Type 0 where
    pub enabled : policy.enabled ≡ true
    pub allowed_scheme :
        (parsed : Url) × (parse (to_string connection.0) ≡ some parsed)
        × Member (scheme parsed) policy.allow_schemes
    pub public_address : (policy.allow_private_networks ≡ true) ⊎ (is_public_ip connection.1 ≡ true)

  valid_scheme :
      (url : String) (o : Option Url)
      → checked_parse urls parse_error debug parse_ip policy url o ≡ ok tt
      → (parsed : Url) × (o ≡ some parsed) × Member (scheme parsed) policy.allow_schemes
  valid_scheme url none h = cc
  valid_scheme url (some parsed) h =
      elim (Bool-cases (is_member (scheme parsed) policy.allow_schemes)) [
        | inl there ↦
            let (s, m, e) = any_iff-Member (λ y. y == scheme parsed) policy.allow_schemes there in
            (
              parsed,
              refl,
              subst (λ x. Member x policy.allow_schemes) ((eq_iff s (scheme parsed)).0 e) m,
            )
        | inr gone ↦ cc (rw (gone, checked_scheme) at h)
      ]

  valid_url :
      (url : String)
      → validate_url urls parse_error debug parse_ip policy url ≡ ok tt
      → (policy.enabled ≡ true)
        × ((parsed : Url) × (parse url ≡ some parsed) × Member (scheme parsed) policy.allow_schemes)
  unfolding validate_url
  valid_url url h = elim (Bool-cases policy.enabled) [
    | inl on ↦ (on, valid_scheme url (parse url) (rw on at h))
    | inr off ↦ cc (rw off at h)
  ]

  not_blocked :
      (b : Bool) (text : String) (made target : ResolvedTarget net policy)
      → (if b then err text else ok made) ≡ ok target
      → (b ≡ false) × (made ≡ target)
  not_blocked true text made target h = cc
  not_blocked false text made target h = (refl, ok-injective h)

  open_or_public :
      (allow first chosen rest : Bool)
      → (not allow && (not first || rest)) ≡ false
      → first ≡ chosen
      → (allow ≡ true) ⊎ (chosen ≡ true)
  open_or_public true first chosen rest h e = inl refl
  open_or_public false true chosen rest h e = inr (sym e)
  open_or_public false false chosen rest h e = cc

  chosen :
      (url : Url) (host : String) (addrs : List IpAddr) (target : ResolvedTarget net policy)
      → chosen_target net policy url host addrs ≡ ok target
      → (target.url ≡ url)
        × ((policy.allow_private_networks ≡ true) ⊎ (is_public_ip target.addr ≡ true))
  chosen url host [] target h = cc
  chosen url host (addr ∷ addrs) target h =
      let (passed, e) =
        not_blocked
          (not policy.allow_private_networks && any (λ a. not (is_public_ip a)) (addr ∷ addrs)) _
          (record { url = url; host = host; addr = addr }) target h in
      let same : is_public_ip addr ≡ is_public_ip target.addr = ap (λ t. is_public_ip t.addr) e in
      (
        ap (λ t. t.url) (sym e),
        open_or_public policy.allow_private_networks (is_public_ip addr) (is_public_ip target.addr)
            (any (λ a. not (is_public_ip a)) addrs) passed same,
      )

  target-IsAllowed :
      (round : ℕ) (url : Url) (target : ResolvedTarget net policy)
      → resolve_target net policy round url ≡ ok target
      → IsAllowed (target.url, target.addr)
  unfolding resolve_target
  target-IsAllowed round url target h =
      let (valid, v, h1) =
        >>=-eq-ok (validate_url urls parse_error debug parse_ip policy (to_string url)) _ h in
      let (host, x, h2) =
        >>=-eq-ok (or_error net policy "URL must include a host" (host_str url)) _ h1 in
      let (port, y, h3) =
        >>=-eq-ok (or_error net policy "URL has no usable port" (port_or_known_default url)) _ h2 in
      let (addrs, z, h4) = >>=-eq-ok _ (λ addrs. chosen_target net policy url host addrs) h3 in
      let (same, public_one) = chosen url host addrs target h4 in
      let (on, parsed) = valid_url (to_string url) v in
      record {
        enabled = on;
        allowed_scheme =
            subst
              (λ u.
                (p : Url) × (parse (to_string u) ≡ some p) × Member (scheme p) policy.allow_schemes)
              (sym same) parsed;
        public_address = public_one;
      }

  -- At most `n` connections, all of them allowed.
  abbrev IsGood : ℕ → Outcome net policy → Type 0
  IsGood n outcome =
      (connections : List (Url × IpAddr)) × ((text : String) × (outcome ≡ some (connections, text))
        × (length connections ≤ n)
        × All IsAllowed connections)

  -- The last of the rounds is the one in which a redirection is refused.
  abbrev AreRounds : List ℕ → Type 0
  AreRounds [] = ⊥
  AreRounds (r ∷ []) = r ≡ max_redirects
  AreRounds (r ∷ s ∷ rs) = AreRounds (s ∷ rs)

  stop-IsGood : (n : ℕ) (text : String) → IsGood n (stop net policy text)
  stop-IsGood n text = ([], (text, refl, omega arith, tt))

  connected-IsGood :
      (n : ℕ) (c : Url × IpAddr) (o : Outcome net policy)
      → IsAllowed c
      → IsGood n o
      → IsGood (suc n) (connected net policy c o)
  connected-IsGood n c o fine (connections, (text, e, l, a)) =
      (c ∷ connections, (text, ap (connected net policy c) e, omega arith, (fine, a)))

  module _ (round : ℕ) (again : Url → Outcome net policy) (n : ℕ)
      (good : (round ≡ max_redirects) ⊎ ((next_url : Url) → IsGood n (again next_url))) where
    redirected-IsGood :
        (response : Response) (target : ResolvedTarget net policy)
        → IsGood n (redirected net policy again (handle_redirect net policy response target round))
    unfolding handle_redirect
    redirected-IsGood response target = elim good [
      | inl last ↦
          let e : eqb round max_redirects ≡ true = ground arith in
          rw e (stop-IsGood n "web request exceeded 5 redirects")
      | inr more ↦ next_good more (handle_redirect net policy response target round)
    ]
      where
        next_good :
            ((next_url : Url) → IsGood n (again next_url))
            → (r : Result Url String) → IsGood n (redirected net policy again r)
        next_good more (ok next_url) = more next_url
        next_good more (err error) = stop-IsGood n error

    answered-IsGood :
        (target : ResolvedTarget net policy) (r : Result Response String)
        → IsGood n (answered net policy again round target r)
    answered-IsGood target (err error) = stop-IsGood n _
    answered-IsGood target (ok response) =
        if-elim (IsGood n) response.is_redirection (λ t. redirected-IsGood response target)
          (λ f. stop-IsGood n _)

    client-IsGood :
        (target : ResolvedTarget net policy)
        → IsAllowed (target.url, target.addr)
        → (r : Result Unit String) → IsGood (suc n) (with_client net policy again round target r)
    client-IsGood target fine (err error) = stop-IsGood (suc n) _
    client-IsGood target fine (ok _) =
        connected-IsGood n (target.url, target.addr) _ fine
          (answered-IsGood target (send round target.url target.addr))

    target-IsGood :
        (current : Url) (r : Result (ResolvedTarget net policy) String)
        → resolve_target net policy round current ≡ r
        → IsGood (suc n) (with_target net policy again round r)
    target-IsGood current (err error) e = stop-IsGood (suc n) error
    target-IsGood current (ok target) e =
        client-IsGood target (target-IsAllowed round current target e)
          (build_client round target.host target.addr)

  rounds-IsGood :
      (rounds : List ℕ)
      → AreRounds rounds
      → (current : Url) → IsGood (length rounds) (fetch_rounds net policy rounds current)
  unfolding fetch_rounds
  rounds-IsGood [] h current = elim h [ ]
  rounds-IsGood (r ∷ []) h current =
      target-IsGood r (fetch_rounds net policy []) 0 (inl h) current
        (resolve_target net policy r current) refl
  rounds-IsGood (r ∷ s ∷ rs) h current =
      target-IsGood r (fetch_rounds net policy (s ∷ rs)) (length (s ∷ rs))
        (inr (rounds-IsGood (s ∷ rs) h)) current (resolve_target net policy r current) refl

  fetch_url-IsGood : (url : String) → IsGood 6 (fetch_url net policy url)
  unfolding fetch_url
  fetch_url-IsGood url = from (parse url)
    where
      from : (o : Option Url) → IsGood 6 (parsed_url net policy url o)
      from none = stop-IsGood 6 _
      from (some current) = rounds-IsGood (rounds_to_max net policy) refl current

  fetched-IsGood : (r : Result Unit String) (url : String) → IsGood 6 (fetched net policy url r)
  fetched-IsGood (err error) url = stop-IsGood 6 error
  fetched-IsGood (ok _) url = fetch_url-IsGood url

  fetched_url-IsGood : (o : Option String) → IsGood 6 (fetched_url net policy o)
  fetched_url-IsGood none = stop-IsGood 6 "web_fetch is missing the url parameter."
  fetched_url-IsGood (some url) =
      fetched-IsGood (validate_url urls parse_error debug parse_ip policy url) url

  searched-IsGood : (o : Option String) → IsGood 6 (searched net policy o)
  searched-IsGood none = stop-IsGood 6 "web_search is missing the query parameter."
  searched-IsGood (some query) = fetch_url-IsGood _

  -- If the name is that of a web tool, then its execution comes to a text after at most six
  -- connections, redirections included, and at each of them the tools are switched on, the scheme
  -- is allowed, and the address is public unless the policy allows private networks.
  pub execute_web_tool-IsAllowed :
      (tool_name : String) (input : Value) (outcome : Outcome net policy)
      → execute_web_tool net policy tool_name input ≡ some outcome
      → (connections : List (Url × IpAddr)) × ((text : String) × (outcome
            ≡ some (connections, text))
          × (length connections ≤ 6)
          × All IsAllowed connections)
  unfolding execute_web_tool execute_web_fetch execute_web_search
  execute_web_tool-IsAllowed tool_name input outcome h =
      elim (Bool-cases (tool_name == "web_fetch")) [
        | inl fetch ↦
            subst (IsGood 6) (same (rw fetch at h))
              (fetched_url-IsGood (extract_web_fetch_url input))
        | inr other ↦ elim (Bool-cases (tool_name == "web_search")) [
          | inl search ↦
              subst (IsGood 6) (same (rw (other, search) at h))
                (searched-IsGood (query_of net policy input))
          | inr neither ↦ cc (rw (other, neither) at h)
        ]
      ]
    where
      same :
          {a b : Outcome net policy}
          → ◌≡◌ {A = Option (Outcome net policy)} (some a) (some b)
          → a ≡ b
      same e = ground arith
