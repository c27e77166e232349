-- ===== src/Json/Tags.antt =====
-- How `parseJsonTag` (internal/core/json.go) reads the tags that structs are written with.
use Prim.Native.Char.{code}
use Prim.Native.String.{◌++◌ as ◌<>◌}
use Prim.Native.String.append.{nil, cons}
use origamy_go_sdk.Base.{
  ◌≡◌, refl, true, false, String, List, [], ◌∷◌, is_empty, ◌==◌, if◌then◌else◌,
}
use origamy_go_sdk.Json.{split, parse_json_tag}

-- No character of the text is a comma.
abbrev pub IsPlain : String → Type 0
IsPlain String.[] = Unit
IsPlain (String.◌∷◌ c s) = ((code c == b',') ≡ false) × IsPlain s

split-plain : (s : String) → IsPlain s → split s ≡ s ∷ []
unfolding split
split-plain String.[] p = refl
split-plain (String.◌∷◌ c s) p = rw (split-plain s p.1, p.0) refl

-- Text that begins with a comma begins a new part.
split-append :
    (s u : String) {us : List String} → IsPlain s → split u ≡ "" ∷ us → split (s <> u) ≡ s ∷ us
unfolding split
split-append String.[] u p e = rw (nil u) e
split-append (String.◌∷◌ c s) u p e = rw (cons c s u, split-append s u p.1 e, p.0) refl

-- A tag without commas is the name, or leaves the default if it is empty; with `,omitempty` behind it
-- the name is the same and zero values are left out.
pub parse_json_tag_lem :
    (name def_name : String)
    → IsPlain name
    → (parse_json_tag name def_name ≡ (if is_empty name then def_name else name, false))
      × (parse_json_tag (name <> ",omitempty") def_name
          ≡ (if is_empty name then def_name else name, true))
unfolding parse_json_tag
parse_json_tag_lem name def_name p = (
  rw (split-plain name p) refl,
  rw (split-append name ",omitempty" {us = "omitempty" ∷ []} p refl) refl,
)
