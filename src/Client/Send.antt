-- ===== src/Client/Send.antt =====
-- `client.send`, `client.sendAsync` and the notifications of internal/core/analytics.go. What the
-- dispatcher answers, which way a wait ends, and whether the executor takes a task are arguments; what
-- a call does is the list of its effects, in order.
pub mod Told
pub mod Attempts
pub mod OverHttp
pub mod Reported
use origamy_go_sdk.Base.{
  ℕ, zero, suc, ◌+◌, Bool, true, false, Option, none, some, List, [], ◌∷◌, ◌++◌, map, length,
  if◌then◌else◌,
}
use origamy_go_sdk.Data.{Reference, Error, Result, ok, err, too_many_requests, other}
use origamy_go_sdk.Log.{LogEntry, Level, info, error, Arg, text, number, failure}
use origamy_go_sdk.Message.{Message}
use origamy_go_sdk.Batch.{Serialized}

-- `dispatcher.Send` returns an error or nil, or panics.
pub data Reply : Type 0 where
  accepted : Reply
  refused : Error → Reply
  crashed : Reply

-- The wait after an attempt ends by its timer or by `Close`.
pub data Wake : Type 0 where
  timer quit : Wake

-- The world that one batch meets: what marshalling it gives, the answer to each attempt, and how each
-- wait ends.
pub record Delivery : Type 0 where
  pub payload : Result (List ℕ)
  pub reply : ℕ → Reply
  pub wake : ℕ → Wake

-- `dispatches`: a payload goes to the dispatcher. `waits`: `RetryAfter` is asked how long to wait.
pub data Effect : Type 0 where
  dispatches : List ℕ → Effect
  waits : ℕ → Effect
  succeeded : Message → Effect
  failed : Message → Error → Effect
  logs : LogEntry → Effect

abbrev pub attempts : ℕ
attempts = 10

-- `err` before the first attempt; every path that reads it has assigned it.
abbrev pub no_error : Error
no_error = other ""

module _ (callback : Option Reference) where
  abbrev each : Option Reference → List Effect → List Effect
  each none es = []
  each (some c) es = es

  unfoldable pub notify_success : List Serialized → List Effect
  notify_success msgs = each callback (map (λ m. succeeded m.msg) msgs)

  unfoldable pub notify_failure : List Serialized → Error → List Effect
  notify_failure msgs e = each callback (map (λ m. failed m.msg e) msgs)

  abbrev pub errorf : LogEntry → List Effect
  errorf entry = logs entry ∷ []

  unfoldable pub dropped_by_close : List Serialized → Error → List Effect
  dropped_by_close msgs e =
      logs (record {
        level = error;
        format = "%d messages dropped because they failed to be sent and the client was closed";
        args = number (length msgs) ∷ [];
      })
      ∷ notify_failure msgs e

  unfoldable pub dropped_after_attempts : List Serialized → Error → List Effect
  dropped_after_attempts msgs e =
      logs (record {
        level = error;
        format = "%d messages dropped because they failed to be sent after %d attempts";
        args = number (length msgs) ∷ number attempts ∷ [];
      })
      ∷ notify_failure msgs e

  -- The deferred `recover` of the task that `sendAsync` starts.
  abbrev pub recovered : List Effect
  recovered = errorf (record { level = error; format = "panic - %s"; args = [] })

  -- The `select` after a refused attempt; `rest` are the further attempts.
  unfoldable pub after_wake : List Serialized → Error → List Effect → Wake → List Effect
  after_wake msgs e rest quit = dropped_by_close msgs e
  after_wake msgs e rest timer = rest

  unfoldable pub after_reply :
      Delivery → List Serialized → ℕ → (Error → List Effect) → Reply → List Effect
  after_reply w msgs i rest accepted = notify_success msgs
  after_reply w msgs i rest crashed = recovered
  after_reply w msgs i rest (refused e) = waits i ∷ after_wake msgs e (rest e) (w.wake i)

  -- The attempts from number `i` on, with `left` of them to go and the error of the last one.
  unfoldable pub retry : Delivery → List ℕ → List Serialized → ℕ → ℕ → Error → List Effect
  retry w b msgs zero i e = dropped_after_attempts msgs e
  retry w b msgs (suc left) i e =
      dispatches b ∷ after_reply w msgs i (λ e'. retry w b msgs left (i + 1) e') (w.reply i)

  abbrev pub marshalled : Delivery → List Serialized → Result (List ℕ) → List Effect
  marshalled w msgs (err e) =
      logs (record { level = error; format = "marshalling messages - %s"; args = failure e ∷ [] })
      ∷ notify_failure msgs e
  marshalled w msgs (ok b) = retry w b msgs attempts 0 no_error

  -- The task of a batch.
  unfoldable pub send : Delivery → List Serialized → List Effect
  send w msgs = marshalled w msgs w.payload

  -- `sendAsync`: what the executor takes is sent, at some time; what it refuses is reported at once.
  unfoldable pub send_async : Bool → Delivery → List Serialized → List Effect
  send_async taken w msgs =
      if taken
      then send w msgs
      else logs (record {
        level = error;
        format = "sending messages failed - %s";
        args = failure too_many_requests ∷ [];
      })
        ∷ notify_failure msgs too_many_requests
