-- ===== src/System/Invariant.antt =====
-- What holds of the client as a whole (internal/core/analytics.go) however its goroutines interleave:
-- the wait group counts the goroutines that send, the loop goes past its drain with an empty queue
-- only, and its stages are those of the client that `Close` sees.
pub mod Loop
pub mod Steps
use origamy_go_sdk.Base.{
  ℕ, ◌+◌, ◌≡◌, refl, subst, sym, ap, ◌∙◌, Bool, true, false, Option, none, some, List, [], ◌∷◌,
  ◌++◌, arith, length, length-append, zero, suc, ap₂, if◌then◌else◌,
}
use origamy_go_sdk.Data.{Result}
use origamy_go_sdk.Log.{LogEntry}
use origamy_go_sdk.Message.{Message}
use origamy_go_sdk.Batch.{Serialized, MessageQueue, flush}
use origamy_go_sdk.Client.Send.{Effect}
use origamy_go_sdk.Client.Close
use origamy_go_sdk.Client.Close.{Lifecycle}
use origamy_go_sdk.Queue.{Chan, ChannelOption, Receive, received, ended, waiting, receive}
use origamy_go_sdk.Queue
use origamy_go_sdk.Queue.Race
use origamy_go_sdk.Queue.Race.{close_begins}
use origamy_go_sdk.Queue.Race.Invariant.{IsSound, acts-IsSound, Begins-IsSound, is_finished}
use origamy_go_sdk.Queue.Race.History.{sent_by, received_by, act-fifo, act-shut}
use origamy_go_sdk.Queue.Race.Faults.{fresh-IsSound}
use origamy_go_sdk.Client.Loop.{Settings}
use origamy_go_sdk.System.Sending.{Sender}
use origamy_go_sdk.System.{
  on_message, on_left, on_quit, Stage, selecting, closing, draining, joining, returned, System,
  IsCall, Case, message_case, tick_case, quit_case, takes_turn, with_chan, loop_at, loop_act, Moves,
  queue_acts, loop_acts, sender_acts, closer_acts, Step, moves, calls, closes, kept, leave, back,
  Reach, start, next, new_system,
}
use origamy_go_sdk.System.Turns.{flushing, Turn, hand_over, push_turn, flush_turn}

-- The loop has closed the queue; it has taken all that was in it.
abbrev pub has_closed : Stage → Bool
has_closed selecting = false
has_closed closing = false
has_closed _ = true

abbrev pub has_drained : Stage → Bool
has_drained joining = true
has_drained returned = true
has_drained _ = false

pub drained_closed : (p : Stage) → has_drained p ≡ true → has_closed p ≡ true
drained_closed p h = ground arith

pub record IsOrdered (s : System) : Type 0 where
  pub sound : IsSound s.race
  pub counted : s.wait ≡ length s.senders
  pub slots : s.size ≡ length s.senders + s.returning
  pub shut : has_closed s.stage ≡ true → s.race.queue.ch.is_shut ≡ true
  pub empty : has_drained s.stage ≡ true → s.race.queue.ch.buffer ≡ []
  pub idle : has_drained s.stage ≡ true → s.pending.pending ≡ none
  pub joined : s.stage ≡ returned → s.wait ≡ 0
  pub over : s.stage ≡ returned → s.lifecycle.shutdown ≡ true

-- What a receive finds.
pub receive_takes :
    (ch c : Chan Message) (m : Message)
    → receive ch ≡ received m c
    → (ch.buffer ≡ m ∷ c.buffer) × (c.is_shut ≡ ch.is_shut) × (c.capacity ≡ ch.capacity)
receive_takes ch c m e = ground arith

pub receive_ends : (ch : Chan Message) → receive ch ≡ ended → (ch.buffer ≡ []) × (ch.is_shut ≡ true)
receive_ends ch e = ground arith

-- An action that is no receive leaves what is in the buffer.
pub act-keeps :
    (q : Queue.ChannelQueue Message) (t : Race.Thread Message) (a : Race.Action Message)
    → IsCall t
    → Race.act q t ≡ some a
    → received_by a.event ≡ []
unfolding Race.act
act-keeps q t a c e = ground arith

pub act_appends :
    (q : Queue.ChannelQueue Message) (t : Race.Thread Message) (a : Race.Action Message)
    → IsCall t
    → Race.act q t ≡ some a
    → a.queue.ch.buffer ≡ q.ch.buffer ++ sent_by a.event
act_appends q t a c e =
    ap (λ l. l ++ a.queue.ch.buffer) (sym (act-keeps q t a c e)) ∙ act-fifo q q.ch.buffer t a refl e

pub takes-IsSound :
    (w : Race.World Message) (c : Chan Message) (m : Message)
    → receive w.queue.ch ≡ received m c
    → IsSound w
    → IsSound (record w { queue = record w.queue { ch = c } })
takes-IsSound w c m e v =
    let (b, s, n) = receive_takes w.queue.ch c m e in ground (arith, ap length b)

-- Every result of an action has a property.
abbrev pub Always : {A : Type 0} → (A → Type 0) → Option A → Type 0
Always P none = Unit
Always P (some x) = P x

pub leaves :
    (xs ys : List Sender) (t : Sender) (u : Option Sender)
    → length (xs ++ (kept u ++ ys)) ≡ leave u (length (xs ++ t ∷ ys))
leaves xs ys t none = omega (arith, length-append xs ys, length-append xs (t ∷ ys))
leaves xs ys t (some u) = omega (arith, length-append xs (u ∷ ys), length-append xs (t ∷ ys))

pub slots_kept :
    (xs ys : List Sender) (t : Sender) (u : Option Sender) (n : ℕ)
    → length (xs ++ (kept u ++ ys)) + back u n ≡ length (xs ++ t ∷ ys) + n
slots_kept xs ys t none n = omega (arith, length-append xs ys, length-append xs (t ∷ ys))
slots_kept xs ys t (some u) n = omega (arith, length-append xs (u ∷ ys), length-append xs (t ∷ ys))

pub guarded :
    {A : Type 0} (P : A → Type 0) (b : Bool) (x : A)
    → (b ≡ true → P x)
    → Always P (if b then some x else none)
guarded P true x h = h refl
guarded P false x h = tt
