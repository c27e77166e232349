-- ===== src/Queue.antt =====
-- internal/queue: the `Queue` interface's in-memory implementation over a buffered Go channel
-- (channel.go) and its configuration (queue.go). A call is one step here; the child `Race` takes the
-- calls apart into the steps that other goroutines can come between.
pub mod Calls
pub mod Interface
pub mod Race
mod Tests
use origamy_go_sdk.Base.{
  ℕ, zero, suc, Bool, true, false, Option, none, some, List, [], ◌∷◌, ◌++◌, length, ltb,
  if◌then◌else◌,
}
use origamy_go_sdk.Base.Int.{ℤ, pos, pos_part, is_nonpositive}
use origamy_go_sdk.Data.{Handle, Error, queue_closed, queue_full}

-- A Go channel: what is buffered, oldest first, how much may be, and whether it is closed.
pub record Chan (A : Type 0) : Type 0 where
  pub buffer : List A
  pub capacity : ℕ
  pub is_shut : Bool

pub record Config : Type 0 where
  pub capacity : ℤ
  pub logger : Option Handle

-- A `sync.Once`: not yet called, inside its function, or done.
pub data Once : Type 0 where
  fresh running finished : Once

pub record ChannelQueue (A : Type 0) : Type 0 where
  pub ch : Chan A
  pub closed : Bool
  pub close_once : Once
  pub config : Config

abbrev pub default_capacity : ℤ
default_capacity = pos 100

-- The package's options write the configuration; no other code can reach a field of the queue.
abbrev pub ChannelOption : Type 0
ChannelOption = Config → Config

unfoldable pub with_capacity : ℤ → ChannelOption
with_capacity capacity c = record c { capacity = capacity }

unfoldable pub with_logger : Handle → ChannelOption
with_logger logger c = record c { logger = some logger }

unfoldable pub apply_options : List ChannelOption → Config → Config
apply_options [] c = c
apply_options (opt ∷ opts) c = apply_options opts (opt c)

-- `if config.Capacity <= 0 { config.Capacity = 100 }`
unfoldable pub with_default : Config → Config
with_default c = if is_nonpositive c.capacity then record c { capacity = default_capacity } else c

-- A send on a channel: done, blocked while the buffer is full, or a panic if it is closed.
pub data Send (A : Type 0) : Type 0 where
  sent : Chan A → Send A
  blocked : Send A
  panicked : Send A

-- A receive: a message, the zero value and false of a closed channel, or blocked.
pub data Receive (A : Type 0) : Type 0 where
  received : A → Chan A → Receive A
  ended : Receive A
  waiting : Receive A

-- What a call comes to when no other goroutine runs: it returns, blocks, or panics.
pub data Call (S B : Type 0) : Type 0 where
  returns : S → B → Call S B
  blocks : Call S B
  panics : Call S B

module _ {A : Type 0} where
  -- `make(chan T, capacity)`
  abbrev pub make_chan : ℕ → Chan A
  make_chan n = record { buffer = []; capacity = n; is_shut = false }

  abbrev pub send : A → Chan A → Send A
  send msg c =
      if c.is_shut
      then panicked
      else (if ltb (length c.buffer) c.capacity
          then sent (record c { buffer = c.buffer ++ msg ∷ [] })
          else blocked)

  abbrev receive_from : List A → Chan A → Receive A
  receive_from [] c = if c.is_shut then ended else waiting
  receive_from (x ∷ xs) c = received x (record c { buffer = xs })

  abbrev pub receive : Chan A → Receive A
  receive c = receive_from c.buffer c

module _ (A : Type 0) where
  unfoldable pub new_channel_queue_with_config : Config → ChannelQueue A
  unfolding with_default
  new_channel_queue_with_config config =
      let c = with_default config in
      record {
        ch = make_chan (pos_part c.capacity);
        closed = false;
        close_once = fresh;
        config = c;
      }

  unfoldable pub new_channel_queue : List ChannelOption → ChannelQueue A
  unfolding with_default apply_options
  new_channel_queue opts =
      let c =
        with_default (apply_options opts (record { capacity = default_capacity; logger = none })) in
      record {
        ch = make_chan (pos_part c.capacity);
        closed = false;
        close_once = fresh;
        config = c;
      }

module _ {A : Type 0} where
  -- The deferred `recover` turns the panic of a send on a closed channel into an error.
  abbrev enqueue_result : ChannelQueue A → Send A → Call (ChannelQueue A) (Option Error)
  enqueue_result q (sent c) = returns (record q { ch = c }) none
  enqueue_result q blocked = blocks
  enqueue_result q panicked = returns q (some queue_closed)

  unfoldable pub enqueue : A → ChannelQueue A → Call (ChannelQueue A) (Option Error)
  enqueue msg q =
      if q.closed then returns q (some queue_closed) else enqueue_result q (send msg q.ch)

  -- `select` with a default: a send that would block is not made; a panic is not recovered.
  abbrev try_enqueue_result : ChannelQueue A → Send A → Call (ChannelQueue A) (Option Error)
  try_enqueue_result q (sent c) = returns (record q { ch = c }) none
  try_enqueue_result q blocked = returns q (some queue_full)
  try_enqueue_result q panicked = panics

  unfoldable pub try_enqueue : A → ChannelQueue A → Call (ChannelQueue A) (Option Error)
  try_enqueue msg q =
      if q.closed then returns q (some queue_closed) else try_enqueue_result q (send msg q.ch)

  -- A pair `(msg, true)` is `some msg`, and `(zero, false)` is `none`.
  abbrev dequeue_result : ChannelQueue A → Receive A → Call (ChannelQueue A) (Option A)
  dequeue_result q (received msg c) = returns (record q { ch = c }) (some msg)
  dequeue_result q ended = returns q none
  dequeue_result q waiting = blocks

  unfoldable pub dequeue : ChannelQueue A → Call (ChannelQueue A) (Option A)
  dequeue q = dequeue_result q (receive q.ch)

  abbrev try_dequeue_result : ChannelQueue A → Receive A → Call (ChannelQueue A) (Option A)
  try_dequeue_result q (received msg c) = returns (record q { ch = c }) (some msg)
  try_dequeue_result q ended = returns q none
  try_dequeue_result q waiting = returns q none

  unfoldable pub try_dequeue : ChannelQueue A → Call (ChannelQueue A) (Option A)
  try_dequeue q = try_dequeue_result q (receive q.ch)

  unfoldable pub drain : ChannelQueue A → Chan A
  drain q = q.ch

  unfoldable pub channel : ChannelQueue A → Chan A
  channel q = q.ch

  unfoldable pub len : ChannelQueue A → ℕ
  len q = length q.ch.buffer

  unfoldable pub cap : ChannelQueue A → ℕ
  cap q = q.ch.capacity

  unfoldable pub is_closed : ChannelQueue A → Bool
  is_closed q = q.closed

  -- The whole `Close`, when nobody is inside `closeOnce`.
  abbrev close_once_do : Once → ChannelQueue A → ChannelQueue A
  close_once_do fresh q = record q {
    ch = record q.ch { is_shut = true };
    closed = true;
    close_once = finished;
  }
  close_once_do running q = q
  close_once_do finished q = q

  unfoldable pub close : ChannelQueue A → ChannelQueue A
  close q = close_once_do q.close_once q

  -- `for msg := range ch`, on fuel: `none` is a loop that has not ended.
  unfoldable pub range : ℕ → Chan A → Option (List A)
  range zero c = none
  range (suc f) c = elim (receive c) [
    | received msg c' ↦ elim (range f c') [ none ↦ none | some msgs ↦ some (msg ∷ msgs) ]
    | ended ↦ some []
    | waiting ↦ none
  ]
