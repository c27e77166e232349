-- ===== src/Message/Track.antt =====
-- internal/core/track.go: the message of a track call and its validation.
use origamy_go_sdk.Base.{◌&&◌, String, Option, none, is_empty, if◌then◌else◌}
use origamy_go_sdk.Data.{Time, Value, Error, invalid}
use origamy_go_sdk.Data.Dict.{Dict}
use origamy_go_sdk.Message.Context.{Context}

pub record Track : Type 0 where
  pub type : String
  pub message_id : String
  pub anonymous_id : String
  pub user_id : String
  pub event : String
  pub timestamp : Time
  pub context : Option Context
  pub properties : Dict Value
  pub integrations : Dict Value

-- nil, or the error of the first field that is missing.
unfoldable pub validate : Track → Option Error
validate msg =
    if is_empty msg.event
    then invalid "analytics.Track" "Event" msg.event
    else (if is_empty msg.user_id && is_empty msg.anonymous_id
        then invalid "analytics.Track" "UserId" msg.user_id
        else none)
