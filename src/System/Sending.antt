-- ===== src/System/Sending.antt =====
-- The goroutine that `client.sendAsync` (internal/core/analytics.go) starts for a batch, taken apart into
-- the steps that other goroutines can come between: marshalling, each attempt, each wait, and each
-- call of the logger and of the callback.
pub mod Alone
use origamy_go_sdk.Base.{
  ℕ, zero, suc, ◌+◌, Bool, true, false, Option, none, some, List, [], ◌∷◌, map, if◌then◌else◌,
}
use origamy_go_sdk.Data.{Reference, Error, Result, ok, err}
use origamy_go_sdk.Log.{LogEntry, Level, error, Arg, failure}
use origamy_go_sdk.Message.{Message}
use origamy_go_sdk.Batch.{Serialized}
use origamy_go_sdk.Client.Send.Reported.{reported}
use origamy_go_sdk.Client.Send.{
  Effect, dispatches, waits, logs, succeeded, failed, Reply, accepted, refused, crashed, Wake,
  timer, quit, attempts, no_error, notify_success, notify_failure, dropped_by_close,
  dropped_after_attempts, recovered,
}

-- `attempting` has the payload, the batch, how many attempts are left, the number of the next one and
-- the error of the last; `pausing` is in the wait after an attempt that failed with the error.
pub data Sender : Type 0 where
  starting : List Serialized → Sender
  attempting : List ℕ → List Serialized → ℕ → ℕ → Error → Sender
  pausing : List ℕ → List Serialized → ℕ → ℕ → Error → Sender
  finishing : List Effect → Sender

-- What the world decides: what marshalling gives, what the dispatcher answers, how a wait ends, and
-- whether a call of the callback returns or panics.
pub data Choice : Type 0 where
  marshals : Result (List ℕ) → Choice
  replies : Reply → Choice
  wakes : Wake → Choice
  goes : Choice
  breaks : Choice

-- What a step does, the messages that it loses, and the goroutine after it, if it has not ended.
pub record Outcome : Type 0 where
  pub effects : List Effect
  pub lost : List Message
  pub sender : Option Sender

abbrev pub becomes : List Effect → Sender → Option Outcome
becomes es s = some (record { effects = es; lost = []; sender = some s })

module _ (callback : Option Reference) where
  abbrev marshalled : List Serialized → Result (List ℕ) → Option Outcome
  marshalled msgs (err e) = becomes [] (
      finishing (
        logs (record { level = error; format = "marshalling messages - %s"; args = failure e ∷ [] })
        ∷ notify_failure callback msgs e))
  marshalled msgs (ok b) = becomes [] (attempting b msgs attempts 0 no_error)

  abbrev answered : List ℕ → List Serialized → ℕ → ℕ → Reply → Option Outcome
  answered b msgs left i accepted =
      becomes (dispatches b ∷ []) (finishing (notify_success callback msgs))
  answered b msgs left i (refused e) =
      becomes (dispatches b ∷ waits i ∷ []) (pausing b msgs left i e)
  answered b msgs left i crashed = some (record {
    effects = dispatches b ∷ [];
    lost = map (λ m. m.msg) msgs;
    sender = some (finishing (recovered callback));
  })

  -- The callback is called with a message, and panics: the deferred `recover` logs it.
  abbrev broken : Effect → List Effect → Option Outcome
  broken (succeeded m) es = some (record {
    effects = succeeded m ∷ [];
    lost = reported es;
    sender = some (finishing (recovered callback));
  })
  broken (failed m e) es = some (record {
    effects = failed m e ∷ [];
    lost = reported es;
    sender = some (finishing (recovered callback));
  })
  broken _ es = none

  -- The step of a goroutine, with whether `c.quit` is closed; `none` where the choice does not fit or
  -- the wait goes on.
  unfoldable pub act : Bool → Choice → Sender → Option Outcome
  act q (marshals r) (starting msgs) = marshalled msgs r
  act q (replies r) (attempting b msgs (suc left) i e) = answered b msgs left i r
  act q goes (attempting b msgs zero i e) =
      becomes [] (finishing (dropped_after_attempts callback msgs e))
  act q (wakes timer) (pausing b msgs left i e) = becomes [] (attempting b msgs left (i + 1) e)
  act q (wakes quit) (pausing b msgs left i e) =
      if q then becomes [] (finishing (dropped_by_close callback msgs e)) else none
  act q goes (finishing (e ∷ es)) = becomes (e ∷ []) (finishing es)
  act q goes (finishing []) = some (record { effects = []; lost = []; sender = none })
  act q breaks (finishing (e ∷ es)) = broken e es
  act _ _ _ = none
