-- ===== src/Log.antt =====
-- Calls of the `Logger` interfaces of internal/core/logger.go and internal/dispatcher/dispatcher.go, as
-- values.
pub mod Std
use origamy_go_sdk.Base.{ℕ, String, List}
use origamy_go_sdk.Data.{Error}
use origamy_go_sdk.Message.{Message}

-- A call of a `Logger`: its level, its format and its arguments.
pub data Level : Type 0 where
  info error : Level

pub data Arg : Type 0 where
  text : String → Arg
  number : ℕ → Arg
  bytes : List ℕ → Arg
  failure : Error → Arg
  message : Message → Arg

pub record LogEntry : Type 0 where
  pub level : Level
  pub format : String
  pub args : List Arg
