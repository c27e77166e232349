-- ===== src/Validate.antt =====
-- internal/core/validate.go: the validation of a message that is known by its fields.
pub mod Agreement
mod Tests
use origamy_go_sdk.Base.{Bool, true, false, String, Option, none, some, [], if◌then◌else◌}
use origamy_go_sdk.Data.{zero_time, Value, nil, string, Error, field_error}
use origamy_go_sdk.Data.Dict.{same}
use origamy_go_sdk.Message.Alias
use origamy_go_sdk.Message.Group
use origamy_go_sdk.Message.Identify
use origamy_go_sdk.Message.Page
use origamy_go_sdk.Message.Screen
use origamy_go_sdk.Message.Track

-- `GetField` returns a value and whether the field is there.
abbrev pub FieldGetter : Type 0
FieldGetter = String → Value × Bool

abbrev string_of : Value → String
string_of (string s) = s
string_of _ = ""

unfoldable pub get_string : FieldGetter → String → String
get_string msg field = let (val, found) = msg field in if found then string_of val else ""

unfoldable pub unknown_type : Value → Option Error
unknown_type typ =
    some (field_error (record { type = "analytics.Event"; name = "Type"; value = typ }))

-- The messages that are validated: the fields that are not named have their zero values.
abbrev pub alias_of : FieldGetter → Alias.Alias
alias_of msg = record {
  type = "alias";
  message_id = "";
  previous_id = get_string msg "previousId";
  user_id = get_string msg "userId";
  timestamp = zero_time;
  context = none;
  integrations = [];
}

abbrev pub group_of : FieldGetter → Group.Group
group_of msg = record {
  type = "group";
  message_id = "";
  anonymous_id = get_string msg "anonymousId";
  user_id = get_string msg "userId";
  group_id = get_string msg "groupId";
  timestamp = zero_time;
  context = none;
  traits = [];
  integrations = [];
}

abbrev pub identify_of : FieldGetter → Identify.Identify
identify_of msg = record {
  type = "identify";
  message_id = "";
  anonymous_id = get_string msg "anonymousId";
  user_id = get_string msg "userId";
  timestamp = zero_time;
  context = none;
  traits = [];
  integrations = [];
}

abbrev pub page_of : FieldGetter → Page.Page
page_of msg = record {
  type = "page";
  message_id = "";
  anonymous_id = get_string msg "anonymousId";
  user_id = get_string msg "userId";
  name = "";
  timestamp = zero_time;
  context = none;
  properties = [];
  integrations = [];
}

abbrev pub screen_of : FieldGetter → Screen.Screen
screen_of msg = record {
  type = "screen";
  message_id = "";
  anonymous_id = get_string msg "anonymousId";
  user_id = get_string msg "userId";
  name = "";
  timestamp = zero_time;
  context = none;
  properties = [];
  integrations = [];
}

abbrev pub track_of : FieldGetter → Track.Track
track_of msg = record {
  type = "track";
  message_id = "";
  anonymous_id = get_string msg "anonymousId";
  user_id = get_string msg "userId";
  event = get_string msg "event";
  timestamp = zero_time;
  context = none;
  properties = [];
  integrations = [];
}

-- The switch on the text of the type.
unfoldable pub validate_type : FieldGetter → String → Option Error
validate_type msg str =
    if same str "alias"
    then Alias.validate (alias_of msg)
    else (if same str "group"
        then Group.validate (group_of msg)
        else (if same str "identify"
            then Identify.validate (identify_of msg)
            else (if same str "page"
                then Page.validate (page_of msg)
                else (if same str "screen"
                    then Screen.validate (screen_of msg)
                    else (if same str "track"
                        then Track.validate (track_of msg)
                        else unknown_type (string str))))))

abbrev typed : FieldGetter → Value → Option Error
typed msg (string str) = validate_type msg str
typed msg typ = unknown_type typ

unfoldable pub validate_fields : FieldGetter → Option Error
validate_fields msg = typed msg (msg "type").0
