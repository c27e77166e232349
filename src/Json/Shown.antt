-- ===== src/Json/Shown.antt =====
-- What `structToMap` (internal/core/json.go) leaves under each key.
use origamy_go_sdk.Base.{
  ◌≡◌, refl, Bool, true, false, ◌&&◌, Bool-cases, inl, inr, String, Option, none, some,
  if◌then◌else◌,
}
use origamy_go_sdk.Data.{Value, StructFields, last, field}
use origamy_go_sdk.Data.Dict.{Dict, same, lookup, lookup-insert}
use origamy_go_sdk.Json.{parse_json_tag, is_kept, struct_to_map}

-- Two answers, the first one's first.
abbrev pub or_else : Option Value → Option Value → Option Value
or_else none o = o
or_else (some v) o = some v

-- A field is shown under a key if its tag names the key and its value is not left out.
abbrev pub is_shown : String → String → String → Value → Bool
is_shown key name tag v =
    same key (parse_json_tag tag name).0 && is_kept (parse_json_tag tag name) v

-- The value of the last field that is shown under a key.
abbrev pub shown : String → StructFields → Option Value
shown key last = none
shown key (field name tag v fs) =
    or_else (shown key fs) (if is_shown key name tag v then some v else none)

or_else_assoc : (a b c : Option Value) → or_else a (or_else b c) ≡ or_else (or_else a b) c
or_else_assoc none b c = refl
or_else_assoc (some v) b c = refl

and_false : (b : Bool) → (b && false) ≡ false
and_false true = refl
and_false false = refl

-- The map of a struct has, under each key, the value of the last field that is shown under it, and
-- where there is none what it had before.
pub lookup-struct_to_map :
    (key : String) (fs : StructFields) (m : Dict Value)
    → lookup key (struct_to_map fs m) ≡ or_else (shown key fs) (lookup key m)
unfolding struct_to_map
lookup-struct_to_map key last m = refl
lookup-struct_to_map key (field name tag v fs) m =
    elim (Bool-cases (is_kept (parse_json_tag tag name) v)) [
      | inl k ↦ elim (Bool-cases (same key (parse_json_tag tag name).0)) [
        | inl e ↦
            rw (k, e, lookup-struct_to_map key fs, lookup-insert, e)
              (or_else_assoc (shown key fs) (some v) (lookup key m))
        | inr e ↦
            rw (k, e, lookup-struct_to_map key fs, lookup-insert, e)
              (or_else_assoc (shown key fs) none (lookup key m))
      ]
      | inr k ↦
          rw (k, and_false, lookup-struct_to_map key fs)
            (or_else_assoc (shown key fs) none (lookup key m))
    ]
