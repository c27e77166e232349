-- ===== src/Client/Loop.antt =====
-- The batch loop of internal/core/analytics.go: `loop`, `push` and `flush` of the client.
-- Which case of a `select` is taken is the list of events that the loop meets. The goroutines that
-- send are run to their end one after the other here: their effects are in the order of the batches.
pub mod Delivered
pub mod Shutdown
use origamy_go_sdk.Base.{
  ℕ, zero, suc, ◌+◌, ◌-◌, Bool, true, false, Option, none, some, List, [], ◌∷◌, ◌++◌, length,
  elements, if◌then◌else◌,
}
use origamy_go_sdk.Data.{Reference, Error, Result, ok, err}
use origamy_go_sdk.Log.{LogEntry, Level, info, error, Arg, number, message, failure}
use origamy_go_sdk.Message.{Message}
use origamy_go_sdk.Batch.{
  Serialized, make_message, max_message_bytes, max_batch_bytes, MessageQueue, push, flush,
  encode_batch,
}
use origamy_go_sdk.Client.Send.{Effect, logs, Delivery, notify_failure, send_async}

-- What `json.Marshal` makes of a message, what each batch meets, by its number, and which batches the
-- executor takes.
pub record Surroundings : Type 0 where
  pub marshal : Message → Result (List ℕ)
  pub admits : ℕ → Bool
  pub delivery : ℕ → Delivery

-- What the loop reads of the configuration.
pub record Settings : Type 0 where
  pub callback : Option Reference
  pub verbose : Bool
  pub batch_size : ℕ
  pub max_concurrent_requests : ℕ

-- The loop's own variables: the messages that wait, and how many batches have been handed over.
pub record LoopState : Type 0 where
  pub queue : MessageQueue
  pub batches : ℕ

-- `500000 - len(b)`, for the payload of no batch.
unfoldable pub max_batch_bytes_at : List ℕ → ℕ
max_batch_bytes_at sent_at = max_batch_bytes - length (encode_batch sent_at none)

-- The cases of the `select`: a message, or a closed channel; the ticker; or `quit`, and then what is
-- left in the closed queue.
pub data Event : Type 0 where
  arrives : Message → Event
  exhausted : Event
  ticks : Event

abbrev pub exit_requested : LogEntry
exit_requested = record { level = info; format = "exit requested – draining messages"; args = [] }

abbrev pub exited : LogEntry
exited = record { level = info; format = "exit"; args = [] }

module _ (env : Surroundings) (cfg : Settings) where
  abbrev pub debugf : LogEntry → List Effect
  debugf entry = if cfg.verbose then logs entry ∷ [] else []

  -- `if msgs != nil { sendAsync(msgs) }`
  unfoldable pub hand_over :
      LogEntry → Option (List Serialized) → LoopState → List Effect × LoopState
  hand_over entry none s = ([], s)
  hand_over entry (some msgs) s = (
    debugf entry ++ send_async cfg.callback (env.admits s.batches) (env.delivery s.batches) msgs,
    record s { batches = s.batches + 1 },
  )

  unfoldable pub push_serialized : Serialized → LoopState → List Effect × LoopState
  push_serialized m s =
      let (b, q) = push m s.queue in
      hand_over
        (record {
          level = info;
          format = "exceeded messages batch limit with batch of %d messages – flushing";
          args = number (length (elements b)) ∷ [];
        })
        b (record s { queue = q })

  abbrev pub made : Message → Result Serialized → LoopState → List Effect × LoopState
  made m (err e) s = (
    logs (record { level = error; format = "%s - %v"; args = failure e ∷ message m ∷ [] })
        ∷ notify_failure cfg.callback (record { msg = m; json = [] } ∷ []) e,
    s,
  )
  made m (ok msg) s =
      let (es, s') = push_serialized msg s in
      (
        debugf (record {
          level = info;
          format = "buffer (%d/%d) %v";
          args =
              number (length (elements s.queue.pending)) ∷ number cfg.batch_size ∷ message m ∷ [];
        })
            ++ es,
        s',
      )

  -- `client.push`
  unfoldable pub push_message : Message → LoopState → List Effect × LoopState
  push_message m s = made m (make_message m (env.marshal m) max_message_bytes) s

  -- `client.flush`
  unfoldable pub flush_pending : LoopState → List Effect × LoopState
  flush_pending s =
      let (b, q) = flush s.queue in
      hand_over
        (record {
          level = info;
          format = "flushing %d messages";
          args = number (length (elements b)) ∷ [];
        })
        b (record s { queue = q })

  unfoldable pub on_event : Event → LoopState → List Effect × LoopState
  on_event (arrives m) s = push_message m s
  on_event exhausted s = ([], s)
  on_event ticks s = flush_pending s

  unfoldable pub run : List Event → LoopState → List Effect × LoopState
  run [] s = ([], s)
  run (e ∷ events) s =
      let (es, s') = on_event e s in let (rest, last) = run events s' in (es ++ rest, last)

  -- `for msg := range c.queue.Drain()`
  unfoldable pub drain : List Message → LoopState → List Effect × LoopState
  drain [] s = ([], s)
  drain (m ∷ ms) s =
      let (es, s') = push_message m s in let (rest, last) = drain ms s' in (es ++ rest, last)

  abbrev pub start : List ℕ → LoopState
  start sent_at = record {
    queue = record {
      pending = none;
      bytes = 0;
      max_batch_size = cfg.batch_size;
      max_batch_bytes = max_batch_bytes_at sent_at;
    };
    batches = 0;
  }

  -- From the start of the loop to its return: the events before `quit`, and what the closed queue
  -- still yields.
  unfoldable pub loop : List ℕ → List Event → List Message → List Effect × LoopState
  unfolding run drain
  loop sent_at events left =
      let (es, s) = run events (start sent_at) in
      let (fs, t) = drain left s in
      let (gs, u) = flush_pending t in
      (es ++ (debugf exit_requested ++ (fs ++ (gs ++ debugf exited))), u)
