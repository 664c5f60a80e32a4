-- ===== src/Optimization/WebTools/Calls.antt =====
-- The call of a web tool in a request, and its answer. `from_str` stands for the JSON reader of
-- serde_json, `none` for its error, and `to_lowercase` for the method, which follows Unicode.
pub mod Allowed
use free_claude_desktop.Prelude.{
  String, Bool, true, false, not, ◌||◌, ◌==◌, Option, none, some, List, [], ◌∷◌, ◌++◌,
  if◌then◌else◌, unwrap_or, and_then, ◌or_else◌, filter_option, Result, ok, err,
}
use free_claude_desktop.Prelude.Texts.{concat, trim, is_empty_text}
use free_claude_desktop.Json.{Value, obj, get, get_str, as_str, as_array}
use free_claude_desktop.Optimization.WebTools.Policy.{WebFetchEgressPolicy, validate_url}
use free_claude_desktop.Optimization.WebTools.Fetch.{
  Network, Outcome, stop, fetch_url, extract_web_fetch_url,
}

-- `iter().rev()`
abbrev reversed_onto : {A : Type 0} → List A → List A → List A
reversed_onto acc [] = acc
reversed_onto acc (x ∷ xs) = reversed_onto (x ∷ acc) xs

abbrev pub WebToolCall : Type 0
WebToolCall = String × String × Value

-- `none` stands for an early return of nothing, `some none` for going on.
abbrev Search : Type 0
Search = Option (Option WebToolCall)

abbrev or_later : Search → Search → Search
or_later none later = none
or_later (some none) later = later
or_later (some (some call)) later = some (some call)

module _ (to_lowercase : String → String) where
  unfoldable pub is_web_server_tool : String → Bool
  is_web_server_tool tool_name =
      let name = to_lowercase tool_name in name == "web_fetch" || name == "web_search"

  abbrev is_tool_use : Value → Bool
  is_tool_use block = elim (get_str "type" block) [ none ↦ false | some kind ↦ kind == "tool_use" ]

  abbrev named_call : Value → String → Search
  named_call block name =
      if is_web_server_tool name
      then some (
          some (
            unwrap_or "web_tool" (get_str "id" block),
            name,
            unwrap_or (obj []) (get "input" block),
          ))
      else some none

  abbrev call_of_block : Value → Search
  call_of_block block =
      if is_tool_use block then and_then (get_str "name" block) (named_call block) else some none

  abbrev search_blocks : List Value → Search
  search_blocks [] = some none
  search_blocks (block ∷ blocks) = or_later (call_of_block block) (search_blocks blocks)

  -- A message whose content is no list ends the search.
  abbrev search_messages : List Value → Search
  search_messages [] = some none
  search_messages (message ∷ messages) =
      or_later
        (and_then (and_then (get "content" message) as_array)
          (λ blocks. search_blocks (reversed_onto [] blocks)))
        (search_messages messages)

  abbrev found_call : Search → Option WebToolCall
  found_call none = none
  found_call (some call) = call

  unfoldable pub extract_latest_web_tool_call :
      (String → Option Value) → String → Option WebToolCall
  extract_latest_web_tool_call from_str body_str = and_then (from_str body_str) (λ body.
      and_then (and_then (get "messages" body) as_array)
        (λ messages. found_call (search_messages (reversed_onto [] messages))))

module _ (net : Network) (policy : WebFetchEgressPolicy) where
  open net use {urls, parse_error, debug, parse_ip, byte_serialize}

  abbrev pub fetched : String → Result Unit String → Outcome net policy
  fetched url (err error) = stop net policy error
  fetched url (ok _) = fetch_url net policy url

  abbrev pub fetched_url : Option String → Outcome net policy
  fetched_url none = stop net policy "web_fetch is missing the url parameter."
  fetched_url (some url) = fetched url (validate_url urls parse_error debug parse_ip policy url)

  unfoldable pub execute_web_fetch : Value → Outcome net policy
  execute_web_fetch input = fetched_url (extract_web_fetch_url input)

  abbrev pub query_of : Value → Option String
  query_of input =
      filter_option (λ query. not (is_empty_text query))
        (and_then (and_then (get "query" input or_else get "q" input) as_str)
          (λ query. some (trim query)))

  abbrev pub searched : Option String → Outcome net policy
  searched none = stop net policy "web_search is missing the query parameter."
  searched (some query) =
      fetch_url net policy (concat ("https://duckduckgo.com/html/?q=" ∷ byte_serialize query ∷ []))

  unfoldable pub execute_web_search : Value → Outcome net policy
  execute_web_search input = searched (query_of input)

  unfoldable pub execute_web_tool : String → Value → Option (Outcome net policy)
  execute_web_tool tool_name input =
      if tool_name == "web_fetch"
      then some (execute_web_fetch input)
      else if tool_name == "web_search"
      then some (execute_web_search input)
      else none
