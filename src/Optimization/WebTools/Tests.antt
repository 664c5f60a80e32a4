-- ===== src/Optimization/WebTools/Tests.antt =====
-- Runs of the theorems on two addresses.
use free_claude_desktop.Prelude.{
  ◌≤◌, ◌≡◌, refl, String, true, false, not, some, List, [], ◌∷◌, arith, any, length, All,
}
use free_claude_desktop.Json.{Value, string, obj}
use free_claude_desktop.Optimization.WebTools.Sample.{network}
use free_claude_desktop.Optimization.WebTools.Address.{IpAddr, is_public_ipv4}
use free_claude_desktop.Optimization.WebTools.Address.Ranges.{
  in_block, number_of, reserved, is_public_ipv4-reserved,
}
use free_claude_desktop.Optimization.WebTools.Policy.{WebFetchEgressPolicy}
use free_claude_desktop.Optimization.WebTools.Calls.{execute_web_tool, execute_web_fetch}
use free_claude_desktop.Optimization.WebTools.Calls.Allowed.{IsAllowed, execute_web_tool-IsAllowed}

is_public_ipv4-reserved_example :
    is_public_ipv4 169 254 169 254 ≡ not (any (in_block (number_of 169 254 169 254)) reserved)
is_public_ipv4-reserved_example =
    is_public_ipv4-reserved 169 254 169 254 (omega arith) (omega arith) (omega arith) (omega arith)

abbrev policy : WebFetchEgressPolicy
policy = record { allow_schemes = "https" ∷ []; allow_private_networks = false; enabled = true }

abbrev input : Value
input = obj (("url", string "site.example") ∷ [])

executed :
    execute_web_tool network policy "web_fetch" input
    ≡ some (execute_web_fetch network policy input)
unfolding execute_web_tool
executed = refl

execute_web_tool-IsAllowed_example :
    (connections : List (String × IpAddr)) × ((text : String) × (execute_web_fetch network policy
          input
        ≡ some (connections, text))
      × (length connections ≤ 6)
      × All (IsAllowed network policy) connections)
execute_web_tool-IsAllowed_example =
    execute_web_tool-IsAllowed network policy "web_fetch" input
      (execute_web_fetch network policy input) executed
