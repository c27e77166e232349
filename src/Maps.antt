-- ===== src/Maps.antt =====
-- The free-form maps that an application fills: internal/core/properties.go, traits.go and
-- integrations.go. A setter writes to the map in place and returns it, so that calls chain.
pub mod Properties
pub mod Traits
pub mod Integrations
pub mod Chain
mod Tests
use origamy_go_sdk.Base.{String, Option, none, some, []}
use origamy_go_sdk.Data.{Value}
use origamy_go_sdk.Data.Dict.{Dict, insert}

-- A Go map: nil, or one with its entries.
abbrev pub Map : Type 0
Map = Option (Dict Value)

-- `make(M, 10)`
abbrev pub new_map : Map
new_map = some []

-- `m[name] = value; return m`, which panics on a nil map: `none`.
unfoldable pub set : String → Value → Map → Option Map
set name value none = none
set name value (some m) = some (some (insert name value m))
