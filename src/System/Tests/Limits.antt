-- ===== src/System/Tests/Limits.antt =====
-- The run of the client as a whole (internal/core/analytics.go) against the limits on its goroutines and its
-- batches, an `Enqueue` that comes too late, and a callback that panics.
use origamy_go_sdk.Base.{
  ◌+◌, All, ◌≡◌, ◌≢◌, ◌≤◌, ◌↔◌, refl, true, false, none, some, [], ◌∷◌, arith, length,
}
use origamy_go_sdk.Data.{ok, object, queue_closed, closed, zero_time}
use origamy_go_sdk.Samples.{bought}
use origamy_go_sdk.Message.{Message}
use origamy_go_sdk.Message.Context.{zero_context}
use origamy_go_sdk.Client.Enqueue.{queued}
use origamy_go_sdk.Client.Loop.{max_batch_bytes_at}
use origamy_go_sdk.Client.Send.{succeeded, recovered, no_error}
use origamy_go_sdk.Batch.{encode_batch}
use origamy_go_sdk.Queue.{returns}
use origamy_go_sdk.Queue.Interface.{channel_queue}
use origamy_go_sdk.Queue.Race
use origamy_go_sdk.Queue.Race.{enqueue_load, enqueue_return, close_return, enqueue_begins}
use origamy_go_sdk.System.{
  returned, admits, System, queue_acts, sender_acts, moves, calls, Reach, next, new_system,
}
use origamy_go_sdk.System.Sending
use origamy_go_sdk.System.Sending.{starting, attempting, finishing, marshals, breaks}
use origamy_go_sdk.System.Capacity.{reached_capped}
use origamy_go_sdk.System.Batches.{Batched, reached-Batched}
use origamy_go_sdk.System.Payloads.{SendsSmall, reached-SendsSmall}
use origamy_go_sdk.System.Accepted.Reached.{failed_enqueue}
use origamy_go_sdk.System.Bounded.{remaining}
use origamy_go_sdk.System.Bounded.Ends.{Works, stay, onward, CanWork, drain_terminates}
use origamy_go_sdk.Client.Close
use origamy_go_sdk.System.Tests.{ended, cfg, batch, joined, shut, shuts, drains}

reached_capped_example :
    (length joined.senders + joined.returning ≤ 1)
    × (joined.wait ≤ 1)
    × (admits cfg joined ≡ false ↔ length joined.senders + joined.returning ≡ 1)
reached_capped_example = reached_capped cfg [] [] drains

reached-Batched_example : Batched cfg (max_batch_bytes_at []) joined.pending joined.senders
unfolding max_batch_bytes_at encode_batch
reached-Batched_example = reached-Batched cfg [] [] drains (omega arith) (omega arith)

reached-SendsSmall_example : All (SendsSmall []) joined.senders
unfolding max_batch_bytes_at encode_batch
reached-SendsSmall_example = reached-SendsSmall cfg [] [] refl [] drains (omega arith) (omega arith)

-- The queue is closed when the call begins.
abbrev late : System
late = record shut {
  race = record shut.race {
    threads =
        enqueue_return bought (some queue_closed) ∷ close_return ∷ enqueue_return bought none ∷ [];
  };
}

refuses : Reach cfg (new_system cfg [] []) late
unfolding Race.act
refuses = next (next shuts (calls (enqueue_begins bought) tt)) (
    moves (
      queue_acts [] (enqueue_load bought) (close_return ∷ enqueue_return bought none ∷ []) _ refl
        refl tt))

failed_enqueue_example :
    (queue_closed ≡ queue_closed)
    × (late.race.queue.closed ≡ true)
    × (queued
          (channel_queue Message)
          "id"
          zero_time
          zero_context
          (returns late.race.queue (some queue_closed))
        ≡ returns late.race.queue (some closed))
failed_enqueue_example =
    failed_enqueue cfg [] [] "id" zero_time zero_context bought queue_closed [] _ refuses refl

-- The callback panics at the first of two messages: the second is not reported.
callback_panics :
    Sending.act
      (some (object 0))
      false
      breaks
      (finishing (succeeded bought ∷ succeeded bought ∷ []))
    ≡ some (record {
      effects = succeeded bought ∷ [];
      lost = bought ∷ [];
      sender = some (finishing (recovered (some (object 0))));
    })
unfolding Sending.act
callback_panics = refl

-- The goroutine of the last batch has its payload.
abbrev marshalled : System
marshalled = record joined { senders = attempting (b'x' ∷ []) batch 10 0 no_error ∷ [] }

works : Works cfg joined 1 marshalled
unfolding Sending.act
works =
    onward stay (moves (sender_acts [] (starting batch) [] (marshals (ok (b'x' ∷ []))) _ refl refl))

drain_terminates_example :
    (1 + remaining marshalled ≤ remaining joined)
    × (marshalled.stage ≢ returned → CanWork cfg marshalled)
drain_terminates_example = drain_terminates cfg [] [] drains refl works

-- Everything has come to its end.
abbrev final : System
final = record ended { size = 0; returning = 0 }
