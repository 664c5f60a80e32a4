-- ===== src/Optimization/WebTools/Policy.antt =====
-- What a policy lets through: the schemes, and the hosts that are named or written as addresses.
-- `parse_ip` stands for the reader of addresses of `std::net`, `debug` for the printer of a set,
-- and `parse_error` for the text of the crate url's error.
use text.Mathlib.Text.{starts_with}
use free_claude_desktop.Prelude.{
  ℕ, String, Bool, false, not, ◌&&◌, ◌||◌, ◌==◌, Option, none, some, List, [], ◌∷◌, map, keep, eqb,
  leb, if◌then◌else◌, unwrap_or, Result, ok, err,
}
use free_claude_desktop.Prelude.Texts.{
  trim, is_empty_text, to_ascii_lowercase, concat, ends_with, split_char, parse_u8,
}
use free_claude_desktop.Settings.{Settings}
use free_claude_desktop.ModelList.Order.{is_member}
use free_claude_desktop.Response.Gateway.{UrlLibrary}
use free_claude_desktop.Optimization.WebTools.Address.{IpAddr, is_public_ip}

-- A set of schemes is the list of its members.
pub record WebFetchEgressPolicy : Type 0 where
  pub allow_schemes : List String
  pub allow_private_networks : Bool
  pub enabled : Bool

unfoldable pub policy_from_settings : Settings → WebFetchEgressPolicy
policy_from_settings settings = record {
  allow_schemes = map to_ascii_lowercase (
      keep (λ scheme. not (is_empty_text scheme))
        (map trim (split_char b',' settings.optimizations.web_fetch_allowed_schemes)));
  allow_private_networks = settings.optimizations.web_fetch_allow_private_networks;
  enabled = settings.optimizations.enable_web_server_tools;
}

abbrev is_local_name : String → Bool
is_local_name host =
    host == "localhost"
    || ends_with host ".localhost"
    || starts_with host "localhost."
    || ends_with host ".local"

abbrev is_private_block : ℕ → String → Bool
is_private_block first second =
    eqb first 10
    || (eqb first 172
        && leb 16 (unwrap_or 0 (parse_u8 second))
        && leb (unwrap_or 255 (parse_u8 second)) 31)
    || (eqb first 192 && second == "168")
    || eqb first 127

-- Four parts of which the first is a byte.
abbrev is_private_dotted : List String → Bool
is_private_dotted (first ∷ second ∷ third ∷ fourth ∷ []) = elim (parse_u8 first) [
  | none ↦ false
  | some n ↦ is_private_block n second
]
is_private_dotted _ = false

unfoldable pub is_private_address : String → Bool
is_private_address host =
    is_local_name host
    || is_private_dotted (split_char b'.' host)
    || host == "::1"
    || host == "::ffff:127.0.0.1"

module _ (library : UrlLibrary) (parse_error : String → String) (debug : List String → String)
    (parse_ip : String → Option IpAddr) where
  open library use {Url, parse, scheme, host_str}

  abbrev pub is_private_ip : Option IpAddr → Bool
  is_private_ip none = false
  is_private_ip (some ip) = not (is_public_ip ip)

  abbrev pub is_blocked : WebFetchEgressPolicy → String → Bool
  is_blocked policy host =
      let normalized = to_ascii_lowercase host in
      not policy.allow_private_networks
      && (is_private_address normalized || is_private_ip (parse_ip normalized))

  abbrev pub checked_host : WebFetchEgressPolicy → Option String → Result Unit String
  checked_host policy none = err "URL must include a host"
  checked_host policy (some host) =
      if is_blocked policy host
      then err (concat ("Private network access is not allowed: " ∷ host ∷ []))
      else ok tt

  abbrev pub checked_scheme : WebFetchEgressPolicy → Url → Result Unit String
  checked_scheme policy parsed =
      if is_member (scheme parsed) policy.allow_schemes
      then checked_host policy (host_str parsed)
      else err (
          concat (
            "URL scheme '"
            ∷ scheme parsed
            ∷ "' is not allowed. Allowed: "
            ∷ debug policy.allow_schemes
            ∷ []))

  abbrev pub checked_parse : WebFetchEgressPolicy → String → Option Url → Result Unit String
  checked_parse policy url none = err (concat ("Invalid URL: " ∷ parse_error url ∷ []))
  checked_parse policy url (some parsed) = checked_scheme policy parsed

  unfoldable pub validate_url : WebFetchEgressPolicy → String → Result Unit String
  validate_url policy url =
      if policy.enabled
      then checked_parse policy url (parse url)
      else err "Web fetch is disabled by policy"
