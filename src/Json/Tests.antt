-- ===== src/Json/Tests.antt =====
-- Tests of the maps that structs become (internal/core/json.go), and the theorems at concrete values.
use origamy_go_sdk.Base.{◌≡◌, refl, ◌↔◌, true, false, some, [], ◌∷◌}
use origamy_go_sdk.Data.{bool, string, struct, StructFields, last, field}
use origamy_go_sdk.Data.Dict.{lookup}
use origamy_go_sdk.Message.Context.{Context, zero_context}
use origamy_go_sdk.Config.{own_library}
use origamy_go_sdk.Json.{split, parse_json_tag, struct_to_map}
use origamy_go_sdk.Json.Shown.{lookup-struct_to_map}
use origamy_go_sdk.Json.Tags.{parse_json_tag_lem}
use origamy_go_sdk.Json.Marshallable.{DictIsJson, IsPlaced, IsAddress, context_map-DictIsJson}
use origamy_go_sdk.Json.Contexts.{
  context_map, copy, library_info_fields, lookup-context_map, own_library-shown,
}

parts : split "a,b," ≡ "a" ∷ "b" ∷ "" ∷ []
unfolding split
parts = refl

empty_context : context_map zero_context ≡ []
unfolding context_map copy struct_to_map parse_json_tag
empty_context = refl

parsed_tag :
    (parse_json_tag "userId" "UserID" ≡ ("userId", false))
    × (parse_json_tag "userId,omitempty" "UserID" ≡ ("userId", true))
parsed_tag = parse_json_tag_lem "userId" "UserID" (refl, (refl, (refl, (refl, (refl, (refl, tt))))))

abbrev fields : StructFields
fields = field "ID" "id,omitempty" (string "") (field "Name" "" (string "n") last)

struct_to_map_test : lookup "id" (struct_to_map fields (("id", bool true) ∷ [])) ≡ some (bool true)
unfolding lookup parse_json_tag
struct_to_map_test = lookup-struct_to_map "id" fields (("id", bool true) ∷ [])

abbrev extended : Context
extended = record zero_context {
  locale = "en";
  extra = ("locale", string "fr") ∷ ("library", string "mine") ∷ [];
}

lookup-context_map_example : lookup "locale" (context_map extended) ≡ some (string "en")
unfolding parse_json_tag
lookup-context_map_example = lookup-context_map "locale" extended

library_is_shown :
    lookup "library" (context_map (own_library extended))
    ≡ some (struct (library_info_fields (own_library extended).library))
library_is_shown = own_library-shown extended

abbrev addressed : Context
addressed = record extended { ip = 10 ∷ 0 ∷ 0 ∷ 1 ∷ [] }

context_map-DictIsJson_example :
    DictIsJson (context_map addressed)
    ↔ (IsPlaced addressed.location × IsAddress addressed.ip × DictIsJson addressed.traits)
context_map-DictIsJson_example = context_map-DictIsJson addressed (tt, (tt, tt))
