-- ===== src/Validate/Tests.antt =====
-- The theorems of `ValidateFields` (internal/core/validate.go) at a concrete getter.
use origamy_go_sdk.Base.{◌≡◌, refl, true, false, String, if◌then◌else◌}
use origamy_go_sdk.Data.{nil, string, field_error}
use origamy_go_sdk.Data.Dict.{same}
use origamy_go_sdk.Message
use origamy_go_sdk.Message.Track
use origamy_go_sdk.Samples.{bought}
use origamy_go_sdk.Data.Texts.{error_text, field_error_text}
use origamy_go_sdk.Validate.{FieldGetter, get_string, validate_fields, validate_type}
use origamy_go_sdk.Validate.Agreement.{Known, validate_fields_agrees, validate_fields_sound}

abbrev getter : FieldGetter
getter f =
    if same f "type"
    then (string "track", true)
    else (if same f "userId"
        then (string "u", true)
        else (if same f "event" then (string "bought", true) else (nil, false)))

validate_fields_agrees_example : validate_fields getter ≡ Message.validate bought
unfolding get_string
validate_fields_agrees_example = validate_fields_agrees getter bought refl (refl, refl, refl)

validate_fields_sound_example : (str : String) × (string "track" ≡ string str) × Known getter str
unfolding validate_fields validate_type get_string Track.validate
validate_fields_sound_example = validate_fields_sound getter refl

missing_user_id :
    error_text
      (λ v. "\"\"")
      (field_error (record { type = "analytics.Track"; name = "UserId"; value = string "" }))
    ≡ "analytics.Track.UserId: invalid field value: \"\""
unfolding error_text field_error_text
missing_user_id = refl
