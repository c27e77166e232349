-- ===== src/System/Once.antt =====
-- How often the client as a whole (internal/core/analytics.go) reports a message, against the calls of
-- `Enqueue` that have accepted it.
use origamy_go_sdk.Base.{ℕ, ◌+◌, ◌≡◌, ◌≤◌, ◌∙◌, Bool, List, arith}
use origamy_go_sdk.Data.{Reference}
use origamy_go_sdk.Message.{Message}
use origamy_go_sdk.Queue.{ChannelOption}
use origamy_go_sdk.System.{System, Reach, new_system}
use origamy_go_sdk.System.Weights.{weigh, told, reporting}
use origamy_go_sdk.System.Balance.{under_way, reached-IsBalanced}
use origamy_go_sdk.System.Accepted.{accepted_by}
use origamy_go_sdk.System.Accepted.Reached.{reached-IsAccounted}

module _ (f : Message → ℕ) (c : Reference) (verbose : Bool) (size cap : ℕ)
    (opts : List ChannelOption) (sent_at : List ℕ) where
  -- However the goroutines of a client with a callback interleave: the messages with which a call of the
  -- queue's `Enqueue` or `TryEnqueue` has returned nil are, each as often as it was accepted, those that
  -- are reported, lost to a panic of the dispatcher or of the callback, with a goroutine that sends,
  -- pending, or in the queue; so that none is reported more often than it was accepted.
  pub reported_once :
      {s : System}
      → Reach
          (reporting c verbose size cap)
          (new_system (reporting c verbose size cap) opts sent_at)
          s
      → (accepted_by f s ≡ under_way f c verbose size cap s)
        × (told f s.log + weigh f s.lost ≤ accepted_by f s)
  reported_once r =
      let all =
        (reached-IsAccounted (reporting c verbose size cap) f opts sent_at r).nils
        ∙ reached-IsBalanced f c verbose size cap opts sent_at r in
      (all, omega (arith, all))
