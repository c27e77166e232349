-- ===== src/Queue/Race.antt =====
-- ChannelQueue (internal/queue/channel.go): its calls interleaved. A goroutine is a program counter
-- in one of the methods; a step of the system lets any goroutine do its next atomic action: a load or
-- a store of the flag, an operation on the channel, or entering `closeOnce`. `Drain` and `Channel` hand out
-- the channel, which is received from as in `Dequeue`; `Len`, `Cap` and `IsClosed` only read.
pub mod Invariant
pub mod History
pub mod Faults
use origamy_go_sdk.Base.{
  ◌≡◌, Bool, true, false, Option, none, some, List, [], ◌∷◌, ◌++◌, if◌then◌else◌,
}
use origamy_go_sdk.Data.{Error, queue_closed, queue_full}
use origamy_go_sdk.Queue.{
  ChannelQueue, Once, fresh, running, finished, Send, sent, blocked, panicked, Receive, received,
  ended, waiting, send, receive,
}

pub data Thread (A : Type 0) : Type 0 where
  -- `Enqueue`: before the load of the flag, before the send, returned
  enqueue_load : A → Thread A
  enqueue_send : A → Thread A
  enqueue_return : A → Option Error → Thread A
  -- `TryEnqueue`: the same, and stopped by a panic
  try_load : A → Thread A
  try_send : A → Thread A
  try_return : A → Option Error → Thread A
  try_panic : A → Thread A
  -- `Close`: before `closeOnce.Do`, inside it before the store, before `close(q.ch)`, returned
  close_enter : Thread A
  close_store : Thread A
  close_chan : Thread A
  close_return : Thread A
  close_panic : Thread A
  -- `Dequeue`
  receive_from : Thread A
  -- `TryDequeue`
  try_receive_from : Thread A
  -- Either of them has returned.
  receive_return : Option A → Thread A

-- What an action does to the channel.
pub data Event (A : Type 0) : Type 0 where
  quiet : Event A
  sends : A → Event A
  receives : A → Event A

pub record Action (A : Type 0) : Type 0 where
  pub queue : ChannelQueue A
  pub thread : Thread A
  pub event : Event A

module _ {A : Type 0} where
  abbrev quietly : ChannelQueue A → Thread A → Option (Action A)
  quietly q t = some (record { queue = q; thread = t; event = quiet })

  abbrev after_send : ChannelQueue A → A → Send A → Option (Action A)
  after_send q msg (sent c) =
      some (record {
        queue = record q { ch = c };
        thread = enqueue_return msg none;
        event = sends msg;
      })
  after_send q msg blocked = none
  after_send q msg panicked = quietly q (enqueue_return msg (some queue_closed))

  abbrev after_try : ChannelQueue A → A → Send A → Option (Action A)
  after_try q msg (sent c) =
      some (record { queue = record q { ch = c }; thread = try_return msg none; event = sends msg })
  after_try q msg blocked = quietly q (try_return msg (some queue_full))
  after_try q msg panicked = quietly q (try_panic msg)

  abbrev enter_once : Once → ChannelQueue A → Option (Action A)
  enter_once fresh q = quietly (record q { close_once = running }) close_store
  enter_once running q = none
  enter_once finished q = quietly q close_return

  abbrev close_shut : Bool → ChannelQueue A → Option (Action A)
  close_shut true q = quietly q close_panic
  close_shut false q =
      quietly (record q { ch = record q.ch { is_shut = true }; close_once = finished }) close_return

  abbrev after_receive : ChannelQueue A → Receive A → Option (Action A)
  after_receive q (received msg c) = some (record {
    queue = record q { ch = c };
    thread = receive_return (some msg);
    event = receives msg;
  })
  after_receive q ended = quietly q (receive_return none)
  after_receive q waiting = none

  abbrev after_try_receive : ChannelQueue A → Receive A → Option (Action A)
  after_try_receive q (received msg c) = after_receive q (received msg c)
  after_try_receive q ended = quietly q (receive_return none)
  after_try_receive q waiting = quietly q (receive_return none)

  -- The next action of a goroutine; `none` where it is blocked or has returned.
  unfoldable pub act : ChannelQueue A → Thread A → Option (Action A)
  act q (enqueue_load msg) =
      quietly q (if q.closed then enqueue_return msg (some queue_closed) else enqueue_send msg)
  act q (enqueue_send msg) = after_send q msg (send msg q.ch)
  act q (try_load msg) =
      quietly q (if q.closed then try_return msg (some queue_closed) else try_send msg)
  act q (try_send msg) = after_try q msg (send msg q.ch)
  act q close_enter = enter_once q.close_once q
  act q close_store = quietly (record q { closed = true }) close_chan
  act q close_chan = close_shut q.ch.is_shut q
  act q receive_from = after_receive q (receive q.ch)
  act q try_receive_from = after_try_receive q (receive q.ch)
  act q (enqueue_return _ _) = none
  act q (try_return _ _) = none
  act q (try_panic _) = none
  act q close_return = none
  act q close_panic = none
  act q (receive_return _) = none

-- Goroutines round a shared queue.
pub record World (A : Type 0) : Type 0 where
  pub queue : ChannelQueue A
  pub threads : List (Thread A)

-- What begins a call of a method.
pub data Begins {A : Type 0} : Thread A → Type 0 where
  enqueue_begins : (msg : A) → Begins (enqueue_load msg)
  try_begins : (msg : A) → Begins (try_load msg)
  close_begins : Begins close_enter
  receive_begins : Begins receive_from
  try_receive_begins : Begins try_receive_from

-- A new call begins, or one goroutine acts.
pub data Step {A : Type 0} (w : World A) : Event A → World A → Type 0 where
  begins :
      {t : Thread A} → Begins t → Step w quiet (record { queue = w.queue; threads = t ∷ w.threads })
  acts :
      (before : List (Thread A)) (t : Thread A) (after : List (Thread A)) (a : Action A)
      → w.threads ≡ before ++ t ∷ after
      → act w.queue t ≡ some a
      → Step w a.event (record { queue = a.queue; threads = before ++ a.thread ∷ after })

-- Any number of steps, with what they did to the channel, newest first.
pub data Trace {A : Type 0} (w : World A) : List (Event A) → World A → Type 0 where
  start : Trace w [] w
  next :
      {es : List (Event A)} {e : Event A} {u v : World A}
      → Trace w es u
      → Step u e v
      → Trace w (e ∷ es) v
