-- ===== src/Optimization/WebTools/Sample.antt =====
-- A network on which the theorems are run.
use free_claude_desktop.Prelude.{ℕ, String, Bool, true, false, none, some, [], ◌∷◌, ok, ◌==◌}
use free_claude_desktop.Response.Gateway.{UrlLibrary}
use free_claude_desktop.Optimization.WebTools.Address.{IpAddr}
use free_claude_desktop.Optimization.WebTools.Fetch.{Network, Response}

-- Every text is an address of the host with that name.
abbrev pub library : UrlLibrary
library = record {
  Url = String;
  parse = λ text. some text;
  scheme = λ url. "https";
  host_str = λ url. some url;
  port_or_known_default = λ url. some 443;
  path = λ url. "/";
  set_path = λ path url. url;
  clear_query = λ url. url;
  clear_fragment = λ url. url;
  to_string = λ url. url;
}

-- The first answer leads to an address within the network.
abbrev answer : ℕ → Response
answer round = record {
  status = "302 Found";
  is_redirection = true;
  location = some "intranet.example";
  content_type = none;
  chunks = [];
}

abbrev address_of : Bool → IpAddr
address_of true = IpAddr.v4 10 0 0 1
address_of false = IpAddr.v4 93 184 216 34

abbrev pub network : Network
network = record {
  urls = library;
  parse_error = λ text. "";
  debug = λ schemes. "";
  parse_ip = λ text. none;
  join = λ url location. ok location;
  lookup_host = λ round host port. ok (address_of (host == "intranet.example") ∷ []);
  build_client = λ round host addr. ok tt;
  send = λ round url addr. ok (answer round);
  decode = λ bytes. "";
  byte_serialize = λ query. query;
}
