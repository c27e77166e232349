-- ===== src/Maps/Tests.antt =====
-- Tests of the free-form maps (internal/core), and their theorems at a concrete chain.
use origamy_go_sdk.Base.{◌≡◌, refl, String, some, List, [], ◌∷◌}
use origamy_go_sdk.Data.{Value, string}
use origamy_go_sdk.Data.Dict.{Dict, lookup, insert}
use origamy_go_sdk.Maps.{set}
use origamy_go_sdk.Maps.Properties.{new_properties, set_title, set_url}
use origamy_go_sdk.Maps.Chain.{and_then, Call, disables, enables_all, chain, decided, chain-decided}

retitled :
    and_then (and_then (set_title "a" new_properties) (set_url "/")) (set_title "b")
    ≡ some (some (("title", string "b") ∷ ("url", string "/") ∷ []))
unfolding new_properties set_title set_url set insert
retitled = refl

-- `NewIntegrations().EnableAll().Disable("Salesforce").Disable("Marketo")`
abbrev calls : List Call
calls = disables "Marketo" ∷ disables "Salesforce" ∷ enables_all ∷ []

chain-decided_example :
    (m : Dict Value) × (chain calls (some []) ≡ some (some m))
    × ((name : String) → lookup name m ≡ decided [] name calls)
chain-decided_example = chain-decided [] calls
