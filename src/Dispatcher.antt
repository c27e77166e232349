-- ===== src/Dispatcher.antt =====
-- internal/dispatcher/dispatcher.go: the configuration that the dispatchers share. The HTTP
-- dispatcher stands in the child `Http`.
pub mod Http
pub mod Timeout
pub mod Noop
use origamy_go_sdk.Base.{Bool, String, Option}
use origamy_go_sdk.Data.{Reference}

pub record Config : Type 0 where
  pub endpoint : String
  pub write_key : String
  pub version : String
  pub verbose : Bool
  pub logger : Option Reference
