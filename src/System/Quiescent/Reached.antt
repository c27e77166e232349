-- ===== src/System/Quiescent/Reached.antt =====
-- What has become of the client as a whole (internal/core/analytics.go) where none of its goroutines can act.
use origamy_go_sdk.Base.{ℕ, Bool, List}
use origamy_go_sdk.Data.{Reference}
use origamy_go_sdk.Message.{Message}
use origamy_go_sdk.Queue.{ChannelOption}
use origamy_go_sdk.Client.Loop.{Settings}
use origamy_go_sdk.Client.Close
use origamy_go_sdk.Client.Close.{Lifecycle}
use origamy_go_sdk.Client.Close.Once as Calls
use origamy_go_sdk.Client.Close.Once.{IsStuck}
use origamy_go_sdk.System.{System}
use origamy_go_sdk.System.Weights.{reporting}

module _ (c : Reference) (verbose : Bool) (size cap : ℕ) (opts : List ChannelOption)
    (sent_at : List ℕ) where
  abbrev cfg : Settings
  cfg = reporting c verbose size cap
