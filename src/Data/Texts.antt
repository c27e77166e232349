-- ===== src/Data/Texts.antt =====
-- The texts of errors: the `Error` methods of internal/core/error.go, internal/queue/queue.go and segments.go,
-- and the errors that the program makes with `errors.New` and `fmt.Errorf`.
use Prim.Native.String.{◌++◌ as ◌<>◌}
use origamy_go_sdk.Base.{String, is_empty, if◌then◌else◌}
use origamy_go_sdk.Base.Int.{pos}
use origamy_go_sdk.Data.{
  Value, FieldError, ConfigError, SegmentError, Error, field_error, config_error, closed,
  too_many_requests, message_too_big, queue_closed, queue_full, custom_type, status, segment_error,
  decoding, joined, other,
}
use origamy_go_sdk.Segments.Text.{format_int}

-- `go_syntax` is what the verb %#v makes of a value.
module _ (go_syntax : Value → String) where
  unfoldable pub config_error_text : ConfigError → String
  config_error_text e =
      "analytics.NewWithConfig: "
      <> e.reason
      <> " (analytics.Config."
      <> e.field
      <> ": "
      <> go_syntax e.value
      <> ")"

  unfoldable pub field_error_text : FieldError → String
  field_error_text e = e.type <> "." <> e.name <> ": invalid field value: " <> go_syntax e.value

  unfoldable pub segment_error_text : SegmentError → String
  segment_error_text e =
      if is_empty e.code
      then "origamy: segment members: " <> format_int (pos e.status_code) <> ": " <> e.message
      else "origamy: segment members: "
        <> format_int (pos e.status_code)
        <> " "
        <> e.code
        <> ": "
        <> e.message

  -- `Error()`
  unfoldable pub error_text : Error → String
  error_text (field_error e) = field_error_text e
  error_text (config_error e) = config_error_text e
  error_text closed = "the client was already closed"
  error_text too_many_requests = "too many requests are already in-flight"
  error_text message_too_big = "the message exceeds the maximum allowed size"
  error_text queue_closed = "queue is closed"
  error_text queue_full = "queue is full"
  error_text (custom_type t) = "messages with custom types cannot be enqueued: " <> t
  error_text (status code text) = format_int (pos code) <> " " <> text
  error_text (segment_error e) = segment_error_text e
  error_text (decoding e) = "origamy: segment members: decoding response: " <> error_text e
  error_text (joined e e') = error_text e <> "\n" <> error_text e'
  error_text (other text) = text
