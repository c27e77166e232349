-- ===== src/Validate/Agreement.antt =====
-- `ValidateFields` (internal/core/validate.go) against `Validate` of the message types.
use origamy_go_sdk.Base.{Bool-cases, inl, inr, ◌≡◌, refl, String, none, arith}
use origamy_go_sdk.Data.{Value, string}
use origamy_go_sdk.Message
use origamy_go_sdk.Message.{Message, alias, group, identify, page, screen, track}
use origamy_go_sdk.Validate.{
  FieldGetter, get_string, validate_type, validate_fields, unknown_type, alias_of, group_of,
  identify_of, page_of, screen_of, track_of,
}
use origamy_go_sdk.Data.Dict.{same, same-eq}

abbrev pub type_of : Message → String
type_of (alias m) = "alias"
type_of (group m) = "group"
type_of (identify m) = "identify"
type_of (page m) = "page"
type_of (screen m) = "screen"
type_of (track m) = "track"

-- The getter gives the texts of the fields that `Validate` reads.
abbrev pub Describes : FieldGetter → Message → Type 0
Describes g (alias m) =
    (get_string g "userId" ≡ m.user_id) × (get_string g "previousId" ≡ m.previous_id)
Describes g (group m) =
    (get_string g "userId" ≡ m.user_id)
    × (get_string g "anonymousId" ≡ m.anonymous_id)
    × (get_string g "groupId" ≡ m.group_id)
Describes g (identify m) =
    (get_string g "userId" ≡ m.user_id) × (get_string g "anonymousId" ≡ m.anonymous_id)
Describes g (page m) =
    (get_string g "userId" ≡ m.user_id) × (get_string g "anonymousId" ≡ m.anonymous_id)
Describes g (screen m) =
    (get_string g "userId" ≡ m.user_id) × (get_string g "anonymousId" ≡ m.anonymous_id)
Describes g (track m) =
    (get_string g "userId" ≡ m.user_id)
    × (get_string g "anonymousId" ≡ m.anonymous_id)
    × (get_string g "event" ≡ m.event)

-- For every type of message, `ValidateFields` gives the answer of `Validate`, the error included, to a
-- getter that knows the message by its type's text and its fields.
pub validate_fields_agrees :
    (g : FieldGetter) (m : Message)
    → (g "type").0 ≡ string (type_of m)
    → Describes g m
    → validate_fields g ≡ Message.validate m
unfolding validate_fields validate_type Message.validate
validate_fields_agrees g (alias m) t (u, p) = rw (t, validate_fields, u, p)
validate_fields_agrees g (group m) t (u, a, i) = rw (t, validate_fields, u, a, i)
validate_fields_agrees g (identify m) t (u, a) = rw (t, validate_fields, u, a)
validate_fields_agrees g (page m) t (u, a) = rw (t, validate_fields, u, a)
validate_fields_agrees g (screen m) t (u, a) = rw (t, validate_fields, u, a)
validate_fields_agrees g (track m) t (u, a, e) = rw (t, validate_fields, u, a, e)

-- What a getter says that `ValidateFields` accepts: some valid message, by its type and its fields.
abbrev pub Known : FieldGetter → String → Type 0
Known g str = (m : Message) × (str ≡ type_of m) × Describes g m × (Message.validate m ≡ none)

validate_type_sound : (g : FieldGetter) (str : String) → validate_type g str ≡ none → Known g str
unfolding validate_type Message.validate unknown_type
validate_type_sound g str e = elim (Bool-cases (same str "alias")) [
  | inl h ↦ (alias (alias_of g), same-eq str _ h, (refl, refl), rw (h, validate_type) at e)
  | inr a ↦ elim (Bool-cases (same str "group")) [
    | inl h ↦
        (group (group_of g), same-eq str _ h, (refl, refl, refl), rw (a, h, validate_type) at e)
    | inr b ↦ elim (Bool-cases (same str "identify")) [
      | inl h ↦ (
        identify (identify_of g),
        same-eq str _ h,
        (refl, refl),
        rw (a, b, h, validate_type) at e,
      )
      | inr c ↦ elim (Bool-cases (same str "page")) [
        | inl h ↦
            (page (page_of g), same-eq str _ h, (refl, refl), rw (a, b, c, h, validate_type) at e)
        | inr d ↦ elim (Bool-cases (same str "screen")) [
          | inl h ↦ (
            screen (screen_of g),
            same-eq str _ h,
            (refl, refl),
            rw (a, b, c, d, h, validate_type) at e,
          )
          | inr s ↦ elim (Bool-cases (same str "track")) [
            | inl h ↦ (
              track (track_of g),
              same-eq str _ h,
              (refl, refl, refl),
              rw (a, b, c, d, s, h, validate_type) at e,
            )
            | inr t ↦ absurd (ground (arith, a, b, c, d, s, t))
          ]
        ]
      ]
    ]
  ]
]

-- What `ValidateFields` accepts is the type and the fields of a valid message of one of the six types.
pub validate_fields_sound :
    (g : FieldGetter)
    → validate_fields g ≡ none
    → (str : String) × ((g "type").0 ≡ string str) × Known g str
unfolding validate_fields unknown_type
validate_fields_sound g e = of_type (g "type").0 refl
  where
    of_type :
        (v : Value) → (g "type").0 ≡ v → (str : String) × ((g "type").0 ≡ string str) × Known g str
    of_type (string str) p = (str, p, validate_type_sound g str (rw (p, validate_fields) at e))
    of_type (Value.bool b) p = absurd (ground (arith, p))
    of_type v p = absurd (ground (arith, p))
