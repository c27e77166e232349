-- ===== src/Maps/Integrations.antt =====
-- The free-form map of internal/core/integrations.go.
use origamy_go_sdk.Base.{String, Option, true, false}
use origamy_go_sdk.Data.{Value, bool}
use origamy_go_sdk.Maps.{Map, new_map, set}

unfoldable pub new_integrations : Map
new_integrations = new_map

abbrev pub set_integration : String → Value → Map → Option Map
set_integration name value i = set name value i

unfoldable pub enable : String → Map → Option Map
enable name m = set_integration name (bool true) m

unfoldable pub disable : String → Map → Option Map
disable name m = set_integration name (bool false) m

unfoldable pub enable_all : Map → Option Map
enable_all m = enable "all" m

unfoldable pub disable_all : Map → Option Map
disable_all m = disable "all" m
