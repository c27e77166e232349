-- ===== src/Dispatcher/Timeout.antt =====
-- internal/dispatcher/timeout_15.go: `supportsTimeout` for a Go release before 1.6, beside that of timeout_16.go,
-- which Dispatcher/Http has.
use origamy_go_sdk.Base.{Bool, Option, none, some}
use origamy_go_sdk.Data.{Reference}

-- A transport, and whether its type has the method `CancelRequest(*http.Request)`: the interface
-- `requestCanceler`.
pub record Transport : Type 0 where
  pub identity : Reference
  pub is_request_canceler : Bool

-- A type assertion on a nil interface is false.
unfoldable pub supports_timeout : Option Transport → Bool
supports_timeout none = Bool.false
supports_timeout (some t) = t.is_request_canceler
