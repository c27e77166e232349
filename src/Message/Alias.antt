-- ===== src/Message/Alias.antt =====
-- internal/core/alias.go: the message of an alias call and its validation.
use origamy_go_sdk.Base.{String, Option, none, is_empty, if◌then◌else◌}
use origamy_go_sdk.Data.{Time, Value, Error, invalid}
use origamy_go_sdk.Data.Dict.{Dict}
use origamy_go_sdk.Message.Context.{Context}

pub record Alias : Type 0 where
  pub type : String
  pub message_id : String
  pub previous_id : String
  pub user_id : String
  pub timestamp : Time
  pub context : Option Context
  pub integrations : Dict Value

-- nil, or the error of the first field that is missing.
unfoldable pub validate : Alias → Option Error
validate msg =
    if is_empty msg.user_id
    then invalid "analytics.Alias" "UserId" msg.user_id
    else (if is_empty msg.previous_id
        then invalid "analytics.Alias" "PreviousId" msg.previous_id
        else none)
