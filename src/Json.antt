-- ===== src/Json.antt =====
-- internal/core/json.go: how the fields of a struct become the entries of a map. A reflected struct is
-- the list of its fields, each with its Go name, its `json` tag and its value.
pub mod Contexts
pub mod Marshallable
pub mod Shown
pub mod Tags
mod Tests
use Prim.Native.Char.{Char, code}
use origamy_go_sdk.Base.{
  ℕ, ◌&&◌, ◌||◌, Bool, true, false, not, String, Option, none, some, List, [], ◌∷◌, is_empty, ◌==◌,
  if◌then◌else◌,
}
use origamy_go_sdk.Base.Int.{is_zero}
use origamy_go_sdk.Data.{
  Float, finite, inf, nan, is_zero_time, Value, nil, bool, int, uint, float, string, instant,
  address, slice, dict, nil_ptr, ptr, struct, opaque, Items, done, item, Entries, end, entry,
  StructFields, last, field,
}
use origamy_go_sdk.Data.Dict.{Dict, same, insert}

-- A character in front of the parts of the text behind it: a comma begins a new part.
abbrev pub split_at : Char → List String → List String
split_at c [] = []
split_at c (part ∷ parts) = if code c == b',' then "" ∷ part ∷ parts else String.◌∷◌ c part ∷ parts

-- `strings.Split(s, ",")`
unfoldable pub split : String → List String
split String.[] = "" ∷ []
split (String.◌∷◌ c s) = split_at c (split s)

abbrev pub name_of : List String → String → String
name_of [] def_name = def_name
name_of (arg ∷ args) def_name = if is_empty arg then def_name else arg

abbrev pub has_omitempty : List String → Bool
has_omitempty (arg ∷ option ∷ args) = same option "omitempty"
has_omitempty _ = false

unfoldable pub parse_json_tag : String → String → String × Bool
unfolding split
parse_json_tag tag def_name = let args = split tag in (name_of args def_name, has_omitempty args)

abbrev pub null : List ℕ → Bool
null [] = true
null (b ∷ bs) = false

-- Functions and channels are no zero values here, nil or not.
abbrev mutual
  pub is_zero_value : Value → Bool
  is_zero_value nil = true
  is_zero_value (bool b) = not b
  is_zero_value (int n) = is_zero n
  is_zero_value (uint n) = n == 0
  is_zero_value (float (finite m e)) = is_zero m
  is_zero_value (float (inf s)) = false
  is_zero_value (float nan) = false
  is_zero_value (string s) = is_empty s
  is_zero_value (instant t) = is_zero_time t
  is_zero_value (address bs) = null bs
  is_zero_value (slice done) = true
  is_zero_value (slice (item v vs)) = false
  is_zero_value (dict end) = true
  is_zero_value (dict (entry k v es)) = false
  is_zero_value nil_ptr = true
  is_zero_value (ptr v) = false
  is_zero_value (struct fs) = all_zero fs
  is_zero_value opaque = false

  -- The loop over the fields of a struct.
  pub all_zero : StructFields → Bool
  all_zero last = true
  all_zero (field name tag v fs) = is_zero_value v && all_zero fs

-- `name != "-" && !(omitempty && isZeroValue(value))`
abbrev pub is_kept : String × Bool → Value → Bool
is_kept (name, omitempty) v = not (same name "-") && not (omitempty && is_zero_value v)

unfoldable pub struct_to_map : StructFields → Dict Value → Dict Value
struct_to_map last m = m
struct_to_map (field name tag v fs) m =
    struct_to_map fs
      (if is_kept (parse_json_tag tag name) v then insert (parse_json_tag tag name).0 v m else m)
