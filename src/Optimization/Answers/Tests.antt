-- ===== src/Optimization/Answers/Tests.antt =====
-- Runs of the theorems on a request of the safety classifier.
use free_claude_desktop.Prelude.{
  ◌≤◌, ◌≡◌, refl, String, true, none, some, Option, List, [], ok, err, length, All, ◌==◌,
  if◌then◌else◌,
}
use free_claude_desktop.Prelude.Texts.{contains}
use free_claude_desktop.Json.{
  Value, Fields, null, string, object, field, end, get, get_str, get_field, remove,
}
use free_claude_desktop.Settings.{Settings}
use free_claude_desktop.Settings.Sample.{settings_with}
use free_claude_desktop.Response.Gateway.{UrlLibrary}
use free_claude_desktop.Optimization.Detection.{extract_system_text, is_safety_classifier_request}
use free_claude_desktop.Optimization.WebTools.Policy.{policy_from_settings}
use free_claude_desktop.Optimization.WebTools.Fetch.{Network, Connection}
use free_claude_desktop.Optimization.WebTools.Calls.Allowed.{IsAllowed}
use free_claude_desktop.Optimization.Answers.{
  OptimizationResponse, try_optimizations, maybe_strip_safety_thinking,
}
use free_claude_desktop.Optimization.Answers.Allowed.{try_optimizations-IsAllowed}
use free_claude_desktop.Optimization.Answers.Thinking.{maybe_strip_safety_thinking_lem}

abbrev fields : Fields
fields = field "system" (string "a safety classifier: is it safe") (field "thinking" null end)

read : String → Option Value
read text = if text == "a body" then some (object fields) else none

abbrev lower : String → String
lower text = text

print : Value → String
print v = "printed"

abbrev settings : Settings
settings = settings_with [] []

stripped_body : maybe_strip_safety_thinking read lower print "a body" settings ≡ some "printed"
unfolding maybe_strip_safety_thinking is_safety_classifier_request extract_system_text contains read
    print get get_str get_field remove
stripped_body = refl

maybe_strip_safety_thinking_lem_example :
    (before : Fields) × ((rest : Fields) × (settings.optimizations.enable_safety_check_skip ≡ true)
      × (is_safety_classifier_request read lower "a body" ≡ true)
      × (read "a body" ≡ some (object before))
      × ("printed" ≡ print (object rest))
      × ((key : String)
          → get_field key rest ≡ (
              if "budget_tokens" == key
              then none
              else if "thinking" == key
              then none
              else get_field key before)))
maybe_strip_safety_thinking_lem_example =
    maybe_strip_safety_thinking_lem read lower print "a body" settings "printed" stripped_body

abbrev library : UrlLibrary
library = record {
  Url = String;
  parse = λ text. some text;
  scheme = λ url. "https";
  host_str = λ url. some url;
  port_or_known_default = λ url. some 443;
  path = λ url. "/";
  set_path = λ path url. url;
  clear_query = λ url. url;
  clear_fragment = λ url. url;
  to_string = λ url. url;
}

-- A network without names.
abbrev network : Network
network = record {
  urls = library;
  parse_error = λ text. "";
  debug = λ schemes. "";
  parse_ip = λ text. none;
  join = λ url location. ok location;
  lookup_host = λ round host port. err "no such host";
  build_client = λ round host addr. ok tt;
  send = λ round url addr. err "no route";
  decode = λ bytes. "";
  byte_serialize = λ query. query;
}

try_optimizations-IsAllowed_example :
    (connections : List (Connection network (policy_from_settings settings))) × ((response : Option
        OptimizationResponse)
      × (try_optimizations read lower network print 0 "a body" settings
          ≡ some (connections, response))
      × (length connections ≤ 6)
      × All (IsAllowed network (policy_from_settings settings)) connections)
try_optimizations-IsAllowed_example =
    try_optimizations-IsAllowed read lower network settings print 0 "a body"
