-- ===== src/System/Tests.antt =====
-- A run of the client as a whole (internal/core/analytics.go): a message goes in, the client is closed, the
-- loop drains its queue, and the batch is sent.
mod Limits
use origamy_go_sdk.Base.{
  zero, suc, ◌+◌, ◌≡◌, ◌≤◌, refl, true, false, none, some, List, [], ◌∷◌, arith,
}
use origamy_go_sdk.Data.{Reference, object, ok, closed}
use origamy_go_sdk.Samples.{bought}
use origamy_go_sdk.Client.Loop.{Settings, max_batch_bytes_at}
use origamy_go_sdk.Queue.{
  with_default, apply_options, default_capacity, finished, new_channel_queue,
}
use origamy_go_sdk.Queue.Race
use origamy_go_sdk.Queue.Race.{
  enqueue_return, close_return, enqueue_load, enqueue_send, close_enter, close_store, close_chan,
  enqueue_begins,
}
use origamy_go_sdk.Batch.{encode_batch, Serialized, make_message, push, flush}
use origamy_go_sdk.Client.Send.{
  Effect, Delivery, refused, timer, send, dispatches, no_error, accepted, succeeded, notify_success,
}
use origamy_go_sdk.Client.Close
use origamy_go_sdk.Client.Close.{
  calm, new_world, close_return, close_quit, await_shutdown, close_dispatcher,
}
use origamy_go_sdk.System.Sending
use origamy_go_sdk.System.Sending.{starting, attempting, finishing, marshals, replies, goes}
use origamy_go_sdk.System.{
  Moves, draining, joining, returned, System, message_case, quit_case, loop_act, queue_acts,
  loop_acts, sender_acts, closer_acts, moves, calls, closes, Reach, start, next, new_system,
}
use origamy_go_sdk.System.Turns.{hand_over, push_turn, flush_turn}
use origamy_go_sdk.System.Sending.Alone.{Runs, starting-send}
use origamy_go_sdk.System.Balance.{under_way}
use origamy_go_sdk.System.Once.{reported_once}
use origamy_go_sdk.System.Shutdown.{seen, reached-IsSeen}
use origamy_go_sdk.System.Progress.{Helps, close_progresses}
use origamy_go_sdk.System.Drain.{loop_can_end}
use origamy_go_sdk.System.Accepted.{accepted_by}
use origamy_go_sdk.System.Closed.{close_reports}
use origamy_go_sdk.System.Weights.{weigh, told, reporting}

abbrev pub callback : Reference
callback = object 0

abbrev pub cfg : Settings
cfg = reporting callback false 5 1

abbrev pub batch : List Serialized
batch = record { msg = bought; json = [] } ∷ []

-- The loop waits for the goroutine of its last batch.
abbrev pub joined : System
joined = record {
  race = record {
    queue = record {
      ch = record { buffer = []; capacity = 100; is_shut = true };
      closed = true;
      close_once = finished;
      config = record { capacity = default_capacity; logger = none };
    };
    threads = close_return ∷ enqueue_return bought none ∷ [];
  };
  stage = joining;
  pending = record {
    pending = none;
    bytes = 0;
    max_batch_size = 5;
    max_batch_bytes = max_batch_bytes_at [];
  };
  wait = 1;
  size = 1;
  returning = 0;
  senders = starting batch ∷ [];
  lifecycle = record {
    quit = true;
    shutdown = false;
    dispatcher_closes = 0;
    dispatcher_panics = 0;
  };
  closers = await_shutdown ∷ [];
  taken = bought ∷ [];
  log = [];
  lost = [];
}

abbrev pub ended : System
ended = record joined {
  stage = returned;
  wait = 0;
  returning = 1;
  senders = [];
  lifecycle = record { quit = true; shutdown = true; dispatcher_closes = 1; dispatcher_panics = 0 };
  closers = close_return none ∷ [];
  log = dispatches (b'x' ∷ []) ∷ succeeded bought ∷ [];
}

-- The loop has closed the queue.
abbrev pub shut : System
shut = record joined {
  race = record joined.race {
    queue = record joined.race.queue {
      ch = record { buffer = bought ∷ []; capacity = 100; is_shut = true };
    };
  };
  stage = draining;
  wait = 0;
  size = 0;
  senders = [];
}

pub shuts : Reach cfg (new_system cfg [] []) shut
unfolding loop_act new_channel_queue with_default apply_options Race.act Close.act
shuts =
    next
      (next
        (next
          (next
            (next
              (next
                (next
                  (next
                    (next (next start (calls (enqueue_begins bought) tt))
                      (moves (queue_acts [] (enqueue_load bought) [] _ refl refl tt)))
                    (moves (queue_acts [] (enqueue_send bought) [] _ refl refl tt)))
                  closes)
                (moves (closer_acts [] close_quit [] calm _ refl refl)))
              (moves (loop_acts quit_case refl)))
            (moves (queue_acts [] close_enter (enqueue_return bought none ∷ []) _ refl refl tt)))
          (moves (queue_acts [] close_store (enqueue_return bought none ∷ []) _ refl refl tt)))
        (moves (queue_acts [] close_chan (enqueue_return bought none ∷ []) _ refl refl tt)))
      (moves (loop_acts quit_case refl))

pub drains : Reach cfg (new_system cfg [] []) joined
unfolding loop_act push_turn flush_turn hand_over make_message push flush max_batch_bytes_at
    encode_batch
drains =
    next (next shuts (moves (loop_acts (message_case (ok [])) refl)))
      (moves (loop_acts (message_case (ok [])) refl))

pub finishes : Reach cfg (new_system cfg [] []) ended
unfolding loop_act notify_success Close.act Sending.act
finishes =
    next
      (next
        (next
          (next
            (next
              (next
                (next drains (
                  moves
                    (sender_acts [] (starting batch) [] (marshals (ok (b'x' ∷ []))) _ refl refl)))
                (moves (
                  sender_acts [] (attempting _ batch 10 0 no_error) [] (replies accepted) _ refl
                    refl)))
              (moves (sender_acts [] (finishing _) [] goes _ refl refl)))
            (moves (sender_acts [] (finishing []) [] goes _ refl refl)))
          (moves (loop_acts quit_case refl)))
        (moves (closer_acts [] await_shutdown [] calm _ refl refl)))
      (moves (closer_acts [] close_dispatcher [] calm _ refl refl))

close_reports_example :
    (accepted_by (λ m. 1) ended ≡ told (λ m. 1) ended.log + weigh (λ m. 1) ended.lost)
    × (weigh (λ m. 1) ended.taken ≡ told (λ m. 1) ended.log + weigh (λ m. 1) ended.lost)
    × (ended.senders ≡ [])
    × (ended.race.queue.ch.buffer ≡ [])
    × (ended.pending.pending ≡ none)
    × (ended.race.queue.closed ≡ true)
    × (ended.lifecycle.shutdown ≡ true)
    × (ended.lifecycle.dispatcher_closes ≡ 1)
close_reports_example = close_reports (object 0) false 5 1 [] [] (λ m. 1) finishes (omega arith)

reported_once_example :
    (accepted_by (λ m. 1) joined ≡ under_way (λ m. 1) (object 0) false 5 1 joined)
    × (told (λ m. 1) joined.log + weigh (λ m. 1) joined.lost ≤ accepted_by (λ m. 1) joined)
reported_once_example = reported_once (λ m. 1) (object 0) false 5 1 [] [] drains

ended_is_seen : Close.Reach new_world (seen ended)
ended_is_seen = reached-IsSeen cfg [] [] finishes

-- The first attempt is refused, the second accepted.
abbrev twice : Delivery
twice = record {
  payload = ok (b'x' ∷ []);
  reply = λ i. elim i [ zero ↦ refused closed | suc j ↦ accepted ];
  wake = λ i. timer;
}

twice_runs :
    Runs (some callback) twice (starting batch) (send (some callback) twice batch)
    × ((es : List Effect)
        → Runs (some callback) twice (starting batch) es
        → es ≡ send (some callback) twice batch)
twice_runs = starting-send (some (object 0)) twice batch

goes_on : (u : System) × (m : Moves cfg shut u) × Helps cfg m
goes_on = close_progresses cfg [] [] shuts refl (λ e. ground arith)

loop_can_end_example : (u : System) × Reach cfg shut u × (u.stage ≡ returned)
loop_can_end_example = loop_can_end cfg [] [] shuts refl
