-- ===== src/System/Accepted.antt =====
-- What the calls of `Enqueue` (internal/core/analytics.go, internal/queue/channel.go) on the client as a
-- whole have returned, against what the queue has taken and whether it is closed.
pub mod Reached
use origamy_go_sdk.Base.{
  ℕ, ◌+◌, ◌≡◌, ◌<◌, refl, subst, ap, Bool, String, true, none, some, List, ◌∷◌, ◌++◌, arith,
}
use origamy_go_sdk.Data.{Error, queue_closed, closed}
use origamy_go_sdk.Data.{Result, Time}
use origamy_go_sdk.Message.{Message}
use origamy_go_sdk.Message.Context.{Context}
use origamy_go_sdk.Queue
use origamy_go_sdk.Queue.{ChannelOption, Call, returns, Receive, received, ended, waiting, receive}
use origamy_go_sdk.Queue.Race
use origamy_go_sdk.Queue.Race.{
  Thread, enqueue_load, enqueue_send, enqueue_return, try_return, close_enter, receive_from,
  try_receive_from, Begins, enqueue_begins, try_begins, close_begins, receive_begins,
  try_receive_begins,
}
use origamy_go_sdk.Queue.Race.Invariant.{tally, tally-split}
use origamy_go_sdk.Queue.Race.History.{sent_by}
use origamy_go_sdk.Queue.Interface.{channel_queue}
use origamy_go_sdk.Client.Enqueue.{queued}
use origamy_go_sdk.Client.Loop.{Settings}
use origamy_go_sdk.System.{
  Stage, selecting, closing, draining, joining, returned, System, IsCall, Case, message_case,
  tick_case, quit_case, on_message, on_left, admits, loop_at, loop_act, queue_acts, loop_acts,
  sender_acts, closer_acts, gives_back, Step, moves, calls, closes, Reach, start, next, new_system,
}
use origamy_go_sdk.System.Weights.{weigh, weigh-append}
use origamy_go_sdk.System.Invariant.{Always, guarded, IsOrdered}
use origamy_go_sdk.System.Invariant.Steps.{Step-IsOrdered, new-IsOrdered}

-- The weight of the messages with which a call has returned nil.
abbrev pub accepted : (Message → ℕ) → Thread Message → ℕ
accepted f (enqueue_return m none) = f m
accepted f (try_return m none) = f m
accepted f _ = 0

-- `Enqueue` has returned an error; one that is not `ErrQueueClosed`.
abbrev pub denied : Thread Message → ℕ
denied (enqueue_return m (some e)) = 1
denied _ = 0

abbrev pub oddly : Thread Message → ℕ
oddly (enqueue_return m (some queue_closed)) = 0
oddly (enqueue_return m (some e)) = 1
oddly _ = 0

-- Before a receive of `Dequeue`.
abbrev pub receiving : Thread Message → ℕ
receiving receive_from = 1
receiving try_receive_from = 1
receiving _ = 0

-- What calls have had accepted, in the client as a whole.
abbrev pub accepted_by : (Message → ℕ) → System → ℕ
accepted_by f s = tally (accepted f) s.race.threads

-- How many messages the calls have had accepted is what the queue has taken; an `Enqueue` fails on a
-- closed queue only, and with its error.
pub record Accounts (f : Message → ℕ) (ts : List (Thread Message)) (closed : Bool)
    (taken : List Message) : Type 0 where
  pub nils : tally (accepted f) ts ≡ weigh f taken
  pub errors : 0 < tally denied ts → closed ≡ true
  pub named : tally oddly ts ≡ 0
  pub calls_only : tally receiving ts ≡ 0

abbrev pub IsAccounted : (Message → ℕ) → System → Type 0
IsAccounted f s = Accounts f s.race.threads s.race.queue.closed s.taken

pub act-accepted :
    (f : Message → ℕ) (q : Queue.ChannelQueue Message) (t : Thread Message)
    (a : Race.Action Message)
    → Race.act q t ≡ some a
    → accepted f a.thread ≡ accepted f t + weigh f (sent_by a.event)
unfolding Race.act
act-accepted f q (enqueue_load m) a e = ground arith
act-accepted f q t a e = ground arith

pub act-denied :
    (q : Queue.ChannelQueue Message) (t : Thread Message) (a : Race.Action Message) (n : ℕ)
    → (q.ch.is_shut ≡ true → q.closed ≡ true)
    → (0 < denied t + n → q.closed ≡ true)
    → Race.act q t ≡ some a
    → 0 < denied a.thread + n
    → a.queue.closed ≡ true
unfolding Race.act
act-denied q (enqueue_load m) a n k v e h = ground arith
act-denied q (enqueue_send m) a n k v e h = ground arith
act-denied q t a n k v e h = ground arith

pub act-oddly :
    (q : Queue.ChannelQueue Message) (t : Thread Message) (a : Race.Action Message)
    → oddly t ≡ 0
    → Race.act q t ≡ some a
    → oddly a.thread ≡ 0
unfolding Race.act
act-oddly q (enqueue_load m) a v e = ground arith
act-oddly q t a v e = ground arith

pub act-receiving :
    (q : Queue.ChannelQueue Message) (t : Thread Message) (a : Race.Action Message)
    → IsCall t
    → Race.act q t ≡ some a
    → receiving a.thread ≡ 0
unfolding Race.act
act-receiving q (enqueue_load m) a c e = ground arith
act-receiving q t a c e = ground arith

pub starts_plainly :
    (f : Message → ℕ) (t : Thread Message)
    → Begins t
    → IsCall t
    → (accepted f t ≡ 0) × (denied t ≡ 0) × (oddly t ≡ 0) × (receiving t ≡ 0)
starts_plainly f t (enqueue_begins m) c = (refl, refl, refl, refl)
starts_plainly f t (try_begins m) c = (refl, refl, refl, refl)
starts_plainly f t close_begins c = (refl, refl, refl, refl)
starts_plainly f t receive_begins c = absurd c
starts_plainly f t try_receive_begins c = absurd c

pub even : (m : Message) (e : Error) → oddly (enqueue_return m (some e)) ≡ 0 → e ≡ queue_closed
even m e h = ground arith
