-- ===== src/Maps/Traits.antt =====
-- The free-form maps of internal/core/traits.go.
use origamy_go_sdk.Base.{String, Option}
use origamy_go_sdk.Base.Int.{ℤ}
use origamy_go_sdk.Data.{Value, Time, string, int, instant}
use origamy_go_sdk.Maps.{Map, new_map, set}

abbrev pub set_trait : String → Value → Map → Option Map
set_trait field value t = set field value t

unfoldable pub new_traits : Map
new_traits = new_map

unfoldable pub set_address : String → Map → Option Map
set_address address m = set_trait "address" (string address) m

unfoldable pub set_age : ℤ → Map → Option Map
set_age age m = set_trait "age" (int age) m

unfoldable pub set_avatar : String → Map → Option Map
set_avatar url m = set_trait "avatar" (string url) m

unfoldable pub set_birthday : Time → Map → Option Map
set_birthday date m = set_trait "birthday" (instant date) m

unfoldable pub set_created_at : Time → Map → Option Map
set_created_at date m = set_trait "createdAt" (instant date) m

unfoldable pub set_description : String → Map → Option Map
set_description desc m = set_trait "description" (string desc) m

unfoldable pub set_email : String → Map → Option Map
set_email email m = set_trait "email" (string email) m

unfoldable pub set_first_name : String → Map → Option Map
set_first_name first_name m = set_trait "firstName" (string first_name) m

unfoldable pub set_gender : String → Map → Option Map
set_gender gender m = set_trait "gender" (string gender) m

unfoldable pub set_last_name : String → Map → Option Map
set_last_name last_name m = set_trait "lastName" (string last_name) m

unfoldable pub set_name : String → Map → Option Map
set_name name m = set_trait "name" (string name) m

unfoldable pub set_phone : String → Map → Option Map
set_phone phone m = set_trait "phone" (string phone) m

unfoldable pub set_title : String → Map → Option Map
set_title title m = set_trait "title" (string title) m

unfoldable pub set_username : String → Map → Option Map
set_username username m = set_trait "username" (string username) m

unfoldable pub set_website : String → Map → Option Map
set_website url m = set_trait "website" (string url) m
