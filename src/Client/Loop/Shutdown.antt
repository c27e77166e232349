-- ===== src/Client/Loop/Shutdown.antt =====
-- The end of the loop of internal/core/analytics.go on the queue of internal/queue/channel.go: it closes
-- the queue and takes what that still yields.
use mathlib.Core.List.{Perm}
use origamy_go_sdk.Base.{ℕ, suc, ◌≡◌, ap, ◌∙◌, Bool, Option, none, some, List, [], ◌++◌}
use origamy_go_sdk.Data.{Reference}
use origamy_go_sdk.Message.{Message}
use origamy_go_sdk.Queue
use origamy_go_sdk.Queue.{ChannelQueue, len, range}
use origamy_go_sdk.Queue.Calls.{IsValid, close-IsValid, range_shut}
use origamy_go_sdk.Client.Send.{Effect}
use origamy_go_sdk.Client.Send.Reported.{reported, IsCalm}
use origamy_go_sdk.Client.Loop.{Surroundings, Settings, LoopState, Event, loop}
use origamy_go_sdk.Client.Loop.Delivered.{arrivals, pending_in, loop_reports}

module _ (env : Surroundings) (cfg : Settings) (sent_at : List ℕ) (events : List Event) where
  abbrev with_rest : Option (List Message) → Option (List Effect × LoopState)
  with_rest none = none
  with_rest (some left) = some (loop env cfg sent_at events left)

  -- The loop until `quit`, then `c.queue.Close()` and `range c.queue.Drain()`, on fuel for the range.
  unfoldable pub loop_on : ℕ → ChannelQueue Message → Option (List Effect × LoopState)
  loop_on fuel q = with_rest (range fuel (Queue.drain (Queue.close q)))

range-close :
    (q : ChannelQueue Message)
    → IsValid q
    → range (suc (len q)) (Queue.drain (Queue.close q)) ≡ some q.ch.buffer
unfolding len Queue.drain
range-close q v =
    let c = close-IsValid q v in
    range_shut q.ch.buffer (Queue.close q).ch (ap (λ s. s.items) c.1)
      (c.0.agree ∙ ap (λ s. s.is_shut) c.1)

module _ (env : Surroundings) (callback : Reference) (verbose : Bool) (batch_size cap : ℕ) where
  abbrev cfg : Settings
  cfg = record {
    callback = some callback;
    verbose = verbose;
    batch_size = batch_size;
    max_concurrent_requests = cap;
  }

  -- The loop returns, and every message that it received before `Close` and every one that was in the
  -- queue then is reported to the callback exactly once, and none is left waiting. The queue is valid
  -- when `Close` comes, and no answer of the dispatcher is a panic.
  pub queue_reports :
      (calm : (n : ℕ) → IsCalm (env.delivery n)) (sent_at : List ℕ) (events : List Event)
      (q : ChannelQueue Message)
      → IsValid q
      → (out : List Effect × LoopState) × (loop_on env cfg sent_at events (suc (len q)) q
          ≡ some out)
        × Perm (reported out.0) (arrivals events ++ q.ch.buffer)
        × (pending_in out.1 ≡ [])
  unfolding loop_on
  queue_reports calm sent_at events q v =
      let (p, k) =
        loop_reports env callback verbose batch_size cap calm sent_at events q.ch.buffer in
      (
        loop env cfg sent_at events q.ch.buffer,
        ap (with_rest env cfg sent_at events) (range-close q v),
        p,
        k,
      )
