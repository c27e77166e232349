-- ===== src/Message/Identify.antt =====
-- internal/core/identify.go: the message of an identify call and its validation.
use origamy_go_sdk.Base.{◌&&◌, String, Option, none, is_empty, if◌then◌else◌}
use origamy_go_sdk.Data.{Time, Value, Error, invalid}
use origamy_go_sdk.Data.Dict.{Dict}
use origamy_go_sdk.Message.Context.{Context}

pub record Identify : Type 0 where
  pub type : String
  pub message_id : String
  pub anonymous_id : String
  pub user_id : String
  pub timestamp : Time
  pub context : Option Context
  pub traits : Dict Value
  pub integrations : Dict Value

-- nil, or the error of the first field that is missing.
unfoldable pub validate : Identify → Option Error
validate msg =
    if is_empty msg.user_id && is_empty msg.anonymous_id
    then invalid "analytics.Identify" "UserId" msg.user_id
    else none
