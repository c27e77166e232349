-- ===== src/Queue/Calls.antt =====
-- ChannelQueue (internal/queue/channel.go): its calls one after the other, against a bounded queue
-- that is open or closed.
use origamy_go_sdk.Base.{
  ℕ, suc, ◌≡◌, ◌≤◌, ◌<◌, Bool, true, false, Option, none, some, List, [], ◌∷◌, ◌++◌, arith, length,
  length-append, ltb, if◌then◌else◌,
}
use origamy_go_sdk.Data.{Error, queue_closed, queue_full}
use origamy_go_sdk.Queue.{
  Chan, ChannelQueue, ChannelOption, fresh, finished, Call, returns, blocks, new_channel_queue,
  enqueue, try_enqueue, dequeue, try_dequeue, close, range,
}

-- What a queue is between two calls: the flag, the channel and `closeOnce` agree, the buffer is
-- within its capacity, and there is room for a message at all.
module _ {A : Type 0} where
  pub record IsValid (q : ChannelQueue A) : Type 0 where
    pub agree : q.ch.is_shut ≡ q.closed
    pub once : q.close_once ≡ (if q.closed then finished else fresh)
    pub within : length q.ch.buffer ≤ q.ch.capacity
    pub room : 0 < q.ch.capacity

-- The specification: the messages that wait, oldest first, and whether the queue is closed.
pub record Fifo (A : Type 0) : Type 0 where
  pub items : List A
  pub is_shut : Bool

abbrev pub view : {A : Type 0} → ChannelQueue A → Fifo A
view q = record { items = q.ch.buffer; is_shut = q.closed }

module _ {A : Type 0} where
  -- A call that has returned left the specification's state and answer; one that blocks was told to.
  abbrev pub Refines : {B : Type 0} → ℕ → Option (Fifo A × B) → Call (ChannelQueue A) B → Type 0
  Refines n (some (s, b)) (returns q c) = IsValid q × (view q ≡ s) × (c ≡ b) × (q.ch.capacity ≡ n)
  Refines n none blocks = Unit
  Refines n _ _ = ⊥

  abbrev pub put : ℕ → A → Fifo A → Option (Fifo A × Option Error)
  put n a s =
      if s.is_shut
      then some (s, some queue_closed)
      else (if ltb (length s.items) n
          then some (record s { items = s.items ++ a ∷ [] }, none)
          else none)

  abbrev pub try_put : ℕ → A → Fifo A → Option (Fifo A × Option Error)
  try_put n a s =
      if s.is_shut
      then some (s, some queue_closed)
      else (if ltb (length s.items) n
          then some (record s { items = s.items ++ a ∷ [] }, none)
          else some (s, some queue_full))

  abbrev pub take_from : List A → Bool → Option (Fifo A × Option A)
  take_from (x ∷ xs) b = some (record { items = xs; is_shut = b }, some x)
  take_from [] true = some (record { items = []; is_shut = true }, none)
  take_from [] false = none

  abbrev pub try_take_from : List A → Bool → Option (Fifo A × Option A)
  try_take_from (x ∷ xs) b = some (record { items = xs; is_shut = b }, some x)
  try_take_from [] b = some (record { items = []; is_shut = b }, none)

  -- `Enqueue` on a valid queue is `put` of the specification: `ErrQueueClosed` if it is closed, the
  -- message behind the others if there is room, and blocked otherwise; the queue stays valid.
  pub enqueue-Refines :
      (msg : A) (q : ChannelQueue A)
      → IsValid q
      → Refines q.ch.capacity (put q.ch.capacity msg (view q)) (enqueue msg q)
  unfolding enqueue
  enqueue-Refines msg q v = ground (arith, length-append q.ch.buffer (msg ∷ []))

  -- `TryEnqueue` on a valid queue is `try_put`: as `Enqueue`, with `ErrQueueFull` and no change where
  -- that blocks; it never panics when no other goroutine runs.
  pub try_enqueue-Refines :
      (msg : A) (q : ChannelQueue A)
      → IsValid q
      → Refines q.ch.capacity (try_put q.ch.capacity msg (view q)) (try_enqueue msg q)
  unfolding try_enqueue
  try_enqueue-Refines msg q v = ground (arith, length-append q.ch.buffer (msg ∷ []))

  -- `Dequeue` on a valid queue takes the oldest message, of a closed queue too; empty, it returns false
  -- if the queue is closed and blocks if it is open. The queue stays valid.
  pub dequeue-Refines :
      (q : ChannelQueue A)
      → IsValid q
      → Refines q.ch.capacity (take_from q.ch.buffer q.closed) (dequeue q)
  unfolding dequeue
  dequeue-Refines q v = ground arith

  -- `TryDequeue` on a valid queue takes the oldest message, or returns false with no change if there
  -- is none, and never blocks.
  pub try_dequeue-Refines :
      (q : ChannelQueue A)
      → IsValid q
      → Refines q.ch.capacity (try_take_from q.ch.buffer q.closed) (try_dequeue q)
  unfolding try_dequeue
  try_dequeue-Refines q v = ground arith

  -- `Close` of a valid queue gives a valid queue that is closed and holds the same messages, and a
  -- second `Close` changes nothing.
  pub close-IsValid :
      (q : ChannelQueue A)
      → IsValid q
      → IsValid (close q)
        × (view (close q) ≡ record { items = q.ch.buffer; is_shut = true })
        × (close (close q) ≡ close q)
  unfolding close
  close-IsValid q v = ground arith

  -- Every method on a valid queue does what the bounded queue of the specification does, and leaves the
  -- queue valid: `Enqueue` returns `ErrQueueClosed` if it is closed, appends the message if there is
  -- room, and blocks otherwise, where `TryEnqueue` returns `ErrQueueFull`; `Dequeue` takes the oldest
  -- message, also of a closed queue; empty, it returns false if closed and blocks if open, where
  -- `TryDequeue` returns false; `Close` keeps the messages, and a second `Close` changes nothing.
  pub calls-Refine :
      (msg : A) (q : ChannelQueue A)
      → IsValid q
      → Refines q.ch.capacity (put q.ch.capacity msg (view q)) (enqueue msg q)
        × Refines q.ch.capacity (try_put q.ch.capacity msg (view q)) (try_enqueue msg q)
        × Refines q.ch.capacity (take_from q.ch.buffer q.closed) (dequeue q)
        × Refines q.ch.capacity (try_take_from q.ch.buffer q.closed) (try_dequeue q)
        × (IsValid (close q)
            × (view (close q) ≡ record { items = q.ch.buffer; is_shut = true })
            × (close (close q) ≡ close q))
  calls-Refine msg q v = (
    enqueue-Refines msg q v,
    try_enqueue-Refines msg q v,
    dequeue-Refines q v,
    try_dequeue-Refines q v,
    close-IsValid q v,
  )

  -- Ranging over a closed channel ends, and yields all that was buffered, in order: one step for each
  -- message and one more are enough.
  pub range_shut :
      (xs : List A) (c : Chan A)
      → c.buffer ≡ xs
      → c.is_shut ≡ true
      → range (suc (length xs)) c ≡ some xs
  unfolding range
  range_shut [] c e s = ground arith
  range_shut (x ∷ xs) c e s = ground (arith, range_shut xs (record c { buffer = xs }))

-- A new queue is valid, open and empty, whatever options it is made with: a capacity of zero or less
-- has been replaced.
pub new_channel_queue-IsValid :
    (A : Type 0) (opts : List ChannelOption)
    → IsValid (new_channel_queue A opts)
      × (view (new_channel_queue A opts) ≡ record { items = []; is_shut = false })
unfolding new_channel_queue
new_channel_queue-IsValid A opts = ground arith
