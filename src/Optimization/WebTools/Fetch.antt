-- ===== src/Optimization/WebTools/Fetch.antt =====
-- The fetch: each address is checked, resolved and connected to, and a redirection starts anew.
use Prim.Native.String as Native
use free_claude_desktop.Prelude.{
  ℕ, zero, suc, ◌+◌, ◌*◌, String, Bool, true, false, not, ◌&&◌, Option, none, some, List, [], ◌∷◌,
  ◌++◌, eqb, ltb, any, if◌then◌else◌, unwrap_or, Result, ok, err, ◌>>=◌, length,
}
use free_claude_desktop.Prelude.Texts.{concat}
use Prim.Native.Char.{code}
use free_claude_desktop.Json.{Value, get_str}
use free_claude_desktop.Response.Gateway.{UrlLibrary}
use free_claude_desktop.Optimization.WebTools.Address.{IpAddr, is_public_ip}
use free_claude_desktop.Optimization.WebTools.Policy.{WebFetchEgressPolicy, validate_url}

abbrev pub max_web_fetch_bytes : ℕ
max_web_fetch_bytes = 2 * 1024 * 1024

abbrev pub max_redirects : ℕ
max_redirects = 5

unfoldable pub extract_web_fetch_url : Value → Option String
extract_web_fetch_url args = get_str "url" args

-- The text outside the tags.
strip_tags : Bool → String → String
strip_tags in_tag Native.[] = ""
strip_tags in_tag (Native.◌∷◌ c s) =
    let inside = strip_tags true s in
    let outside = strip_tags false s in
    if eqb (code c) b'<'
    then inside
    else if eqb (code c) b'>'
    then outside
    else if in_tag
    then inside
    else Native.◌∷◌ c outside

unfoldable pub strip_html_tags : String → String
unfolding strip_tags
strip_html_tags text = strip_tags false text

-- The first characters, and whether there are more.
abbrev take_chars : ℕ → String → String × Bool
take_chars n Native.[] = ("", false)
take_chars zero (Native.◌∷◌ c s) = ("", true)
take_chars (suc n) (Native.◌∷◌ c s) =
    let (taken, more) = take_chars n s in (Native.◌∷◌ c taken, more)

unfoldable pub truncate_chars : String → ℕ → String
truncate_chars text max_chars =
    let (truncated, more) = take_chars max_chars text in
    if more then concat (truncated ∷ "\n\n[truncated]" ∷ []) else truncated

-- A response as it is read: the chunks of its body, or errors in their place.
pub record Response : Type 0 where
  pub status : String
  pub is_redirection : Bool
  pub location : Option String
  pub content_type : Option String
  pub chunks : List (Result (List ℕ) String)

abbrev add_chunk : List ℕ → Result (List ℕ) String → Result (List ℕ) String
add_chunk body (err error) = err (concat ("web response read failed: " ∷ error ∷ []))
add_chunk body (ok chunk) =
    if ltb max_web_fetch_bytes (length body + length chunk)
    then err "web response exceeds 2 MiB limit"
    else ok (body ++ chunk)

collect_from : List ℕ → List (Result (List ℕ) String) → Result (List ℕ) String
collect_from body [] = ok body
collect_from body (chunk ∷ chunks) = do longer ← add_chunk body chunk; collect_from longer chunks

unfoldable pub collect_limited : Response → Result (List ℕ) String
unfolding collect_from
collect_limited response = collect_from [] response.chunks

-- The network, the crates reqwest and url, and the reader of addresses. What an operation gives
-- may depend on the round in which it is called.
pub record Network : Type 1 where
  pub urls : UrlLibrary
  pub parse_error : String → String
  pub debug : List String → String
  pub parse_ip : String → Option IpAddr
  pub join : urls.Url → String → Result urls.Url String
  pub lookup_host : ℕ → String → ℕ → Result (List IpAddr) String
  pub build_client : ℕ → String → IpAddr → Result Unit String
  pub send : ℕ → urls.Url → IpAddr → Result Response String
  pub decode : List ℕ → String
  pub byte_serialize : String → String

module _ (net : Network) (policy : WebFetchEgressPolicy) where
  open net use {urls, parse_error, debug, parse_ip, join, lookup_host, build_client, send, decode}
  open urls use {Url, parse, host_str, port_or_known_default, to_string}

  -- The address that is asked for, its host, and the address of the network that was chosen.
  pub record ResolvedTarget : Type 0 where
    pub url : Url
    pub host : String
    pub addr : IpAddr

  abbrev pub or_error : {A : Type 0} → String → Option A → Result A String
  or_error error none = err error
  or_error error (some a) = ok a

  abbrev looked_up : String → Result (List IpAddr) String → Result (List IpAddr) String
  looked_up host (ok addrs) = ok addrs
  looked_up host (err error) =
      err (concat ("DNS resolution failed for " ∷ host ∷ ": " ∷ error ∷ []))

  abbrev pub chosen_target : Url → String → List IpAddr → Result ResolvedTarget String
  chosen_target url host [] = err (concat ("DNS resolution returned no addresses for " ∷ host ∷ []))
  chosen_target url host (addr ∷ addrs) =
      if not policy.allow_private_networks && any (λ a. not (is_public_ip a)) (addr ∷ addrs)
      then err (concat ("Private network access is not allowed: " ∷ host ∷ []))
      else ok (record { url = url; host = host; addr = addr })

  unfoldable pub resolve_target : ℕ → Url → Result ResolvedTarget String
  resolve_target round url = do
    _ ← validate_url urls parse_error debug parse_ip policy (to_string url)
    host ← or_error "URL must include a host" (host_str url)
    port ← or_error "URL has no usable port" (port_or_known_default url)
    addrs ← looked_up host (lookup_host round host port)
    chosen_target url host addrs

  -- A connection that is made: for which address, and to which address of the network.
  abbrev pub Connection : Type 0
  Connection = Url × IpAddr

  -- The connections made, and the text; `none` stands for `unreachable!()`.
  abbrev pub Outcome : Type 0
  Outcome = Option (List Connection × String)

  abbrev pub stop : String → Outcome
  stop text = some ([], text)

  abbrev pub connected : Connection → Outcome → Outcome
  connected connection none = none
  connected connection (some (connections, text)) = some (connection ∷ connections, text)

  abbrev joined : Result Url String → Result Url String
  joined (ok url) = ok url
  joined (err error) = err (concat ("invalid redirect URL: " ∷ error ∷ []))

  unfoldable pub handle_redirect : Response → ResolvedTarget → ℕ → Result Url String
  handle_redirect response target redirects =
      if eqb redirects max_redirects
      then err "web request exceeded 5 redirects"
      else (or_error "web redirect missing Location header" response.location >>= λ location.
          joined (join target.url location))

  abbrev success_text : Response → ResolvedTarget → Result (List ℕ) String → String
  success_text response target (err error) = error
  success_text response target (ok bytes) = concat (
      "URL: "
      ∷ to_string target.url
      ∷ "\nStatus: "
      ∷ response.status
      ∷ "\nContent-Type: "
      ∷ unwrap_or "unknown" response.content_type
      ∷ "\n\n"
      ∷ truncate_chars (strip_html_tags (decode bytes)) 20000
      ∷ [])

  unfoldable pub format_success_response : Response → ResolvedTarget → String
  format_success_response response target = success_text response target (collect_limited response)

  abbrev pub redirected : (Url → Outcome) → Result Url String → Outcome
  redirected again (ok next_url) = again next_url
  redirected again (err error) = stop error

  abbrev pub answered : (Url → Outcome) → ℕ → ResolvedTarget → Result Response String → Outcome
  answered again redirects target (err error) = stop (concat ("web request failed: " ∷ error ∷ []))
  answered again redirects target (ok response) =
      if response.is_redirection
      then redirected again (handle_redirect response target redirects)
      else stop (format_success_response response target)

  abbrev pub with_client : (Url → Outcome) → ℕ → ResolvedTarget → Result Unit String → Outcome
  with_client again redirects target (err error) =
      stop (concat ("web client build failed: " ∷ error ∷ []))
  with_client again redirects target (ok _) =
      connected (target.url, target.addr)
        (answered again redirects target (send redirects target.url target.addr))

  abbrev pub with_target : (Url → Outcome) → ℕ → Result ResolvedTarget String → Outcome
  with_target again redirects (err error) = stop error
  with_target again redirects (ok target) =
      with_client again redirects target (build_client redirects target.host target.addr)

  -- The loop over the numbers of redirections.
  unfoldable pub fetch_rounds : List ℕ → Url → Outcome
  fetch_rounds [] current = none
  fetch_rounds (redirects ∷ rounds) current =
      with_target (fetch_rounds rounds) redirects (resolve_target redirects current)

  abbrev pub rounds_to_max : List ℕ
  rounds_to_max = 0 ∷ 1 ∷ 2 ∷ 3 ∷ 4 ∷ 5 ∷ []

  abbrev pub parsed_url : String → Option Url → Outcome
  parsed_url url none = stop (concat ("Invalid URL: " ∷ parse_error url ∷ []))
  parsed_url url (some current) = fetch_rounds rounds_to_max current

  unfoldable pub fetch_url : String → Outcome
  fetch_url url = parsed_url url (parse url)
