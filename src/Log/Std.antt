-- ===== src/Log/Std.antt =====
-- The loggers of internal/core/logger.go: how a call of a `Logger` reaches a logger of the log package.
use Prim.Native.String.{◌++◌ as ◌<>◌}
use origamy_go_sdk.Base.{ℕ, String, List}
use origamy_go_sdk.Log.{Level, info, error, Arg, LogEntry}

-- A `*log.Logger`, as `log.New` makes it.
pub record LogLogger : Type 0 where
  pub out : String
  pub prefix : String
  pub flags : ℕ

pub record StdLogger : Type 0 where
  pub logger : LogLogger

-- A call of `Printf`.
pub record Printed : Type 0 where
  pub logger : LogLogger
  pub format : String
  pub args : List Arg

unfoldable pub std_logger : LogLogger → StdLogger
std_logger logger = record { logger = logger }

unfoldable pub logf : StdLogger → String → List Arg → Printed
logf l format args = record { logger = l.logger; format = "INFO: " <> format; args = args }

unfoldable pub errorf : StdLogger → String → List Arg → Printed
errorf l format args = record { logger = l.logger; format = "ERROR: " <> format; args = args }

-- `log.LstdFlags`
abbrev std_flags : ℕ
std_flags = 3

unfoldable pub new_default_logger : StdLogger
unfolding std_logger
new_default_logger = std_logger (record { out = "stderr"; prefix = "segment "; flags = std_flags })

-- What the method of an entry's level prints.
abbrev pub print_at : Level → StdLogger → String → List Arg → Printed
print_at info l format args = logf l format args
print_at error l format args = errorf l format args

abbrev pub print_entry : StdLogger → LogEntry → Printed
print_entry l entry = print_at entry.level l entry.format entry.args
