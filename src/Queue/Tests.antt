-- ===== src/Queue/Tests.antt =====
-- Tests of the queue (internal/queue/channel.go), and its theorems at concrete queues.
use origamy_go_sdk.Base.{
  ℕ, ◌≡◌, refl, ◌≤◌, true, false, none, some, List, [], ◌∷◌, ◌++◌, arith, length,
}
use origamy_go_sdk.Base.Int.{pos, negsuc}
use origamy_go_sdk.Queue.{
  ChannelQueue, fresh, finished, new_channel_queue, new_channel_queue_with_config, with_capacity,
  with_logger, enqueue, try_enqueue, dequeue, try_dequeue, close, range, cap,
}
use origamy_go_sdk.Queue.Calls.{
  IsValid, view, Refines, put, try_put, take_from, try_take_from, calls-Refine, range_shut,
  new_channel_queue-IsValid,
}
use origamy_go_sdk.Queue.Race.{
  World, enqueue_load, enqueue_send, try_send, try_panic, close_return, close_enter, close_store,
  close_chan, Event, quiet, act, Trace, start, next, begins, acts, close_begins, enqueue_begins,
  enqueue_return, try_receive_begins, try_receive_from, receive_return, sends, receives,
}
use origamy_go_sdk.Queue.Race.Invariant.{tally, stopped}
use origamy_go_sdk.Queue.Race.History.{sent_in, received_in}
use origamy_go_sdk.Queue.Race.Faults.{
  fresh_world, quits, interleaved_fifo, after_close, try_enqueue_panics,
}

-- Two places, one message.
abbrev half : ChannelQueue ℕ
half = record {
  ch = record { buffer = 7 ∷ []; capacity = 2; is_shut = false };
  closed = false;
  close_once = fresh;
  config = record { capacity = pos 2; logger = none };
}

half-IsValid : IsValid half
half-IsValid = record { agree = refl; once = refl; within = omega arith; room = omega arith }

default_capacities :
    (cap (new_channel_queue ℕ []) ≡ 100)
    × (cap (new_channel_queue ℕ (with_capacity (negsuc 4) ∷ with_logger 1 ∷ [])) ≡ 100)
    × (cap (new_channel_queue_with_config ℕ (record { capacity = pos 3; logger = none })) ≡ 3)
unfolding cap new_channel_queue new_channel_queue_with_config with_capacity with_logger
default_capacities = (refl, refl, refl)

calls-Refine_example :
    Refines 2 (put 2 9 (view half)) (enqueue 9 half)
    × Refines 2 (try_put 2 9 (view half)) (try_enqueue 9 half)
    × Refines 2 (take_from (7 ∷ []) false) (dequeue half)
    × Refines 2 (try_take_from (7 ∷ []) false) (try_dequeue half)
    × (IsValid (close half)
        × (view (close half) ≡ record { items = 7 ∷ []; is_shut = true })
        × (close (close half) ≡ close half))
calls-Refine_example = calls-Refine 9 half half-IsValid

range_shut_run :
    range {A = ℕ} 2 (record { buffer = 7 ∷ []; capacity = 2; is_shut = true }) ≡ some (7 ∷ [])
range_shut_run =
    range_shut (7 ∷ []) (record { buffer = 7 ∷ []; capacity = 2; is_shut = true }) refl refl

new_queue_holds :
    IsValid (new_channel_queue ℕ (with_capacity (pos 2) ∷ []))
    × (view (new_channel_queue ℕ (with_capacity (pos 2) ∷ []))
        ≡ record { items = []; is_shut = false })
new_queue_holds = new_channel_queue-IsValid ℕ (with_capacity (pos 2) ∷ [])

abbrev shut_queue : ChannelQueue ℕ
shut_queue = record {
  ch = record { buffer = []; capacity = 100; is_shut = true };
  closed = true;
  close_once = finished;
  config = record { capacity = pos 100; logger = none };
}

abbrev shut_world : World ℕ
shut_world = record { queue = shut_queue; threads = close_return ∷ [] }

closing : Trace (fresh_world ℕ []) (quiet ∷ quiet ∷ quiet ∷ quiet ∷ []) shut_world
unfolding act new_channel_queue
closing =
    next
      (next (next (next start (begins close_begins)) (acts [] close_enter [] _ refl refl))
        (acts [] close_store [] _ refl refl))
      (acts [] close_chan [] _ refl refl)

-- Two calls of `Enqueue`, and a `TryDequeue` between their sends.
abbrev busy : World ℕ
busy = record {
  queue = record {
    ch = record { buffer = 6 ∷ []; capacity = 100; is_shut = false };
    closed = false;
    close_once = fresh;
    config = record { capacity = pos 100; logger = none };
  };
  threads = enqueue_return 6 none ∷ receive_return (some 5) ∷ enqueue_return 5 none ∷ [];
}

abbrev traffic : List (Event ℕ)
traffic = sends 6 ∷ receives 5 ∷ quiet ∷ quiet ∷ quiet ∷ sends 5 ∷ quiet ∷ quiet ∷ []

exchanging : Trace (fresh_world ℕ []) traffic busy
unfolding act new_channel_queue
exchanging =
    next
      (next
        (next
          (next
            (next
              (next
                (next (next start (begins (enqueue_begins 5)))
                  (acts [] (enqueue_load 5) [] _ refl refl))
                (acts [] (enqueue_send 5) [] _ refl refl))
              (begins try_receive_begins))
            (begins (enqueue_begins 6)))
          (acts [] (enqueue_load 6) (try_receive_from ∷ enqueue_return 5 none ∷ []) _ refl refl))
        (acts (enqueue_send 6 ∷ []) try_receive_from (enqueue_return 5 none ∷ []) _ refl refl))
      (acts [] (enqueue_send 6) (receive_return (some 5) ∷ enqueue_return 5 none ∷ []) _ refl refl)

interleaved_fifo_example :
    (received_in traffic ++ busy.queue.ch.buffer ≡ sent_in traffic)
    × (length busy.queue.ch.buffer ≤ 100)
    × (tally stopped busy.threads ≡ 0)
    × (busy.queue.ch.is_shut ≡ true → busy.queue.closed ≡ true)
interleaved_fifo_example = interleaved_fifo [] exchanging

after_close_example :
    (act shut_queue (enqueue_load 5) ≡ some (quits shut_queue 5))
    × (act shut_queue (enqueue_send 5) ≡ some (quits shut_queue 5))
    × (act shut_queue (try_send 5)
        ≡ some (record { queue = shut_queue; thread = try_panic 5; event = quiet }))
after_close_example = after_close [] 5 closing refl

try_can_panic :
    (es : List (Event ℕ)) × (v : World ℕ) × Trace (fresh_world ℕ []) es v
    × (v.threads ≡ close_return ∷ try_panic 5 ∷ [])
try_can_panic = try_enqueue_panics [] 5
