-- ===== src/Json/Marshallable.antt =====
-- Which contexts `json.Marshal` takes, once `Context.MarshalJSON` of internal/core/context.go and
-- `structToMap` of internal/core/json.go have made their map.
use origamy_go_sdk.Base.{
  ℕ, ◌≡◌, refl, ◌⊎◌, ◌↔◌, subst, Bool, true, false, Bool-cases, inl, inr, Option, none, some,
  String, List, [], ◌∷◌, All, arith, length, if◌then◌else◌,
}
use origamy_go_sdk.Data.{
  Float, finite, inf, nan, Value, nil, bool, int, uint, float, string, instant, address, slice,
  dict, nil_ptr, ptr, struct, opaque, Items, done, item, Entries, end, entry, StructFields, last,
  field,
}
use origamy_go_sdk.Data.Dict.{Dict, insert, same, lookup}
use origamy_go_sdk.Message.Context.{Context, LocationInfo}
use origamy_go_sdk.Json.{parse_json_tag, is_kept, is_zero_value, all_zero, null, struct_to_map}
use origamy_go_sdk.Json.Contexts.{
  context_fields, context_map, copy, entries_of, location_info_fields, lookup-context_map,
}

-- JSON has numbers for the finite floats only.
abbrev pub IsFinite : Float → Type 0
IsFinite (finite m e) = Unit
IsFinite (inf s) = ⊥
IsFinite nan = ⊥

-- `MarshalText` of a `net.IP` takes no bytes, four or sixteen.
abbrev pub IsAddress : List ℕ → Type 0
IsAddress bs = (length bs ≡ 0) ⊎ (length bs ≡ 4) ⊎ (length bs ≡ 16)

-- No function, no channel, no `net.IP` of another length and no float that JSON has not, at any depth. A `time.Time` after the year 9999,
-- which `json.Marshal` refuses too, is not told apart.
abbrev mutual
  pub IsJson : Value → Type 0
  IsJson (float x) = IsFinite x
  IsJson (address bs) = IsAddress bs
  IsJson (slice vs) = AreJson vs
  IsJson (dict es) = HaveJson es
  IsJson (ptr v) = IsJson v
  IsJson (struct fs) = FieldsAreJson fs
  IsJson opaque = ⊥
  IsJson nil = Unit
  IsJson (bool b) = Unit
  IsJson (int n) = Unit
  IsJson (uint n) = Unit
  IsJson (string s) = Unit
  IsJson (instant t) = Unit
  IsJson nil_ptr = Unit

  pub AreJson : Items → Type 0
  AreJson done = Unit
  AreJson (item v vs) = IsJson v × AreJson vs

  pub HaveJson : Entries → Type 0
  HaveJson end = Unit
  HaveJson (entry k v es) = IsJson v × HaveJson es

  pub FieldsAreJson : StructFields → Type 0
  FieldsAreJson last = Unit
  FieldsAreJson (field name tag v fs) = IsJson v × FieldsAreJson fs

abbrev pub DictIsJson : Dict Value → Type 0
DictIsJson m = All (λ e. IsJson e.1) m

either_dict :
    (b : Bool) (m n : Dict Value) → DictIsJson m → DictIsJson n → DictIsJson (if b then m else n)
either_dict true m n h k = h
either_dict false m n h k = k

insert-DictIsJson :
    (key : String) (v : Value) (m : Dict Value)
    → IsJson v
    → DictIsJson m
    → DictIsJson (insert key v m)
unfolding insert
insert-DictIsJson key v [] h k = (h, tt)
insert-DictIsJson key v (e ∷ m) h k =
    either_dict (same key e.0) ((key, v) ∷ m) (e ∷ insert key v m) (h, k.1)
      (k.0, insert-DictIsJson key v m h k.1)

struct_to_map-DictIsJson :
    (fs : StructFields) (m : Dict Value)
    → FieldsAreJson fs
    → DictIsJson m
    → DictIsJson (struct_to_map fs m)
unfolding struct_to_map
struct_to_map-DictIsJson last m h k = k
struct_to_map-DictIsJson (field name tag v fs) m h k = struct_to_map-DictIsJson fs _ h.1 (
    either_dict (is_kept (parse_json_tag tag name) v) _ m
      (insert-DictIsJson (parse_json_tag tag name).0 v m h.0 k) k)

copy-DictIsJson : (m : Dict Value) → DictIsJson m → DictIsJson (copy m)
unfolding copy
copy-DictIsJson [] h = tt
copy-DictIsJson (e ∷ m) h = insert-DictIsJson e.0 e.1 (copy m) h.0 (copy-DictIsJson m h.1)

entries_have : (m : Dict Value) → DictIsJson m → HaveJson (entries_of m)
entries_have [] h = tt
entries_have (e ∷ m) h = (h.0, entries_have m h.1)

abbrev pub IsPlaced : LocationInfo → Type 0
IsPlaced x = IsFinite x.latitude × IsFinite x.longitude × IsFinite x.speed

context_fields-FieldsAreJson :
    (ctx : Context)
    → IsPlaced ctx.location
    → IsAddress ctx.ip
    → DictIsJson ctx.traits
    → DictIsJson ctx.extra
    → FieldsAreJson (context_fields ctx)
context_fields-FieldsAreJson ctx (a, b, c) w t e =
    search (a, b, c, w, entries_have ctx.traits t, entries_have ctx.extra e)

marshallable :
    (ctx : Context)
    → IsPlaced ctx.location
    → IsAddress ctx.ip
    → DictIsJson ctx.traits
    → DictIsJson ctx.extra
    → DictIsJson (context_map ctx)
unfolding context_map
marshallable ctx p w t e =
    struct_to_map-DictIsJson (context_fields ctx) (copy ctx.extra)
      (context_fields-FieldsAreJson ctx p w t e) (copy-DictIsJson ctx.extra e)

taken_apart : (m : Dict Value) → HaveJson (entries_of m) → DictIsJson m
taken_apart [] h = tt
taken_apart (e ∷ m) h = (h.0, taken_apart m h.1)

abbrev Given : Option Value → Type 0
Given none = Unit
Given (some v) = IsJson v

either-Given : (b : Bool) (o p : Option Value) → Given o → Given p → Given (if b then o else p)
either-Given true o p h k = h
either-Given false o p h k = k

lookup-Given : (key : String) (m : Dict Value) → DictIsJson m → Given (lookup key m)
unfolding lookup
lookup-Given key [] h = tt
lookup-Given key (e ∷ m) h = either-Given (same key e.0) _ _ h.0 (lookup-Given key m h.1)

zero-IsFinite : (x : Float) → is_zero_value (float x) ≡ true → IsFinite x
zero-IsFinite (finite m e) h = tt
zero-IsFinite (inf s) h = absurd (ground (arith, h))
zero-IsFinite nan h = absurd (ground (arith, h))

module _ (ctx : Context) where
  -- What is shown of the three fields that may hold what JSON has not.
  given_location :
      DictIsJson (context_map ctx)
      → all_zero (location_info_fields ctx.location) ≡ false
      → FieldsAreJson (location_info_fields ctx.location)
  unfolding parse_json_tag
  given_location h z =
      rw z at
        (rw (lookup-context_map "location" ctx) at (lookup-Given "location" (context_map ctx) h))

  given_ip : DictIsJson (context_map ctx) → null ctx.ip ≡ false → IsAddress ctx.ip
  unfolding parse_json_tag
  given_ip h z =
      rw z at (rw (lookup-context_map "ip" ctx) at (lookup-Given "ip" (context_map ctx) h))

  given_traits : (t : Dict Value) → ctx.traits ≡ t → DictIsJson (context_map ctx) → DictIsJson t
  unfolding parse_json_tag
  given_traits [] e h = tt
  given_traits (x ∷ t) e h = taken_apart (x ∷ t) (
      rw e at (rw (lookup-context_map "traits" ctx) at (lookup-Given "traits" (context_map ctx) h)))

  location-IsPlaced : DictIsJson (context_map ctx) → IsPlaced ctx.location
  location-IsPlaced h = elim (Bool-cases (all_zero (location_info_fields ctx.location))) [
    | inl z ↦ (
      zero-IsFinite ctx.location.latitude (ground (arith, z)),
      zero-IsFinite ctx.location.longitude (ground (arith, z)),
      zero-IsFinite ctx.location.speed (ground (arith, z)),
    )
    | inr z ↦ let k = given_location h z in (k.1.1.1.0, k.1.1.1.1.0, k.1.1.1.1.1.0)
  ]

  ip-IsAddress : (bs : List ℕ) → ctx.ip ≡ bs → DictIsJson (context_map ctx) → IsAddress bs
  ip-IsAddress [] e h = inl refl
  ip-IsAddress (b ∷ bs) e h = subst IsAddress e (given_ip h (rw e refl))

  -- With extensions that JSON has, the map that `MarshalJSON` of a context hands to `json.Marshal` holds
  -- values of JSON only, at every depth, exactly when the location's floats are finite, the IP has no
  -- bytes, four or sixteen, and the traits are values of JSON.
  pub context_map-DictIsJson :
      DictIsJson ctx.extra
      → DictIsJson (context_map ctx)
        ↔ (IsPlaced ctx.location × IsAddress ctx.ip × DictIsJson ctx.traits)
  context_map-DictIsJson e = (
    λ h. (location-IsPlaced h, ip-IsAddress ctx.ip refl h, given_traits ctx.traits refl h),
    λ k. marshallable ctx k.0 k.1 k.2 e,
  )
