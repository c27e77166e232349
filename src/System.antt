-- ===== src/System.antt =====
-- The client as a whole: the goroutines that call `Enqueue` and `Close` of internal/core/analytics.go,
-- the goroutine of its loop, and those that send batches, on one queue of internal/queue/channel.go.
-- They interleave: a step lets any of them do its next action. One turn of the loop's `select` or of
-- its drain is one action, with all that it logs; the executor takes a batch or refuses it.
pub mod Sending
pub mod Turns
pub mod Weights
pub mod Drain
pub mod Finish
pub mod Entering
pub mod Progress
mod Tests
pub mod Closed
pub mod Shutdown
pub mod Balance
pub mod Capacity
pub mod Accepted
pub mod Batches
pub mod Payloads
pub mod Once
pub mod Quiescent
pub mod Bounded
pub mod Invariant
use origamy_go_sdk.Base.{
  ℕ, zero, suc, ◌+◌, ◌-◌, ◌≡◌, Bool, true, false, Option, none, some, List, [], ◌∷◌, ◌++◌, length,
  elements, ◌==◌, if◌then◌else◌,
}
use origamy_go_sdk.Data.{Reference, Error, Result, ok, err, too_many_requests}
use origamy_go_sdk.Log.{LogEntry, Level, info, error, Arg, number, message, failure}
use origamy_go_sdk.Message.{Message}
use origamy_go_sdk.Batch.{Serialized, make_message, max_message_bytes, MessageQueue, push, flush}
use origamy_go_sdk.Queue.{
  Chan, ChannelOption, new_channel_queue, Receive, received, ended, waiting, receive,
}
use origamy_go_sdk.Queue.Race
use origamy_go_sdk.Queue.Race.{
  Thread, Event, Begins, receive_from, try_receive_from, close_enter, enqueue_begins,
}
use origamy_go_sdk.Queue.Race.History.{sent_by}
use origamy_go_sdk.Queue.Race.Invariant.{is_finished}
use origamy_go_sdk.Client.Send.{Effect, logs, notify_failure}
use origamy_go_sdk.Client.Loop.{Settings, max_batch_bytes_at, exit_requested, exited}
use origamy_go_sdk.Client.Close
use origamy_go_sdk.Client.Close.{Lifecycle}
use origamy_go_sdk.System.Turns.{Turn, debug, push_turn, flush_turn}
use origamy_go_sdk.System.Sending
use origamy_go_sdk.System.Sending.{Sender, starting, Choice, Outcome}

-- Where the loop is: in its `select`; in `c.queue.Close()`; ranging over what the queue still holds;
-- in `wg.Wait()`; returned.
pub data Stage : Type 0 where
  selecting closing draining joining returned : Stage

-- `race` has the queue and the goroutines inside its methods; `wait` is the counter of the wait group.
-- For the statements, the record also keeps which messages the queue has taken, what has been done,
-- in order, and which messages a panic of the dispatcher or of the callback has cost. `size` is the
-- executor's count; `returning` are its goroutines between the end of their task and `e.size--`.
pub record System : Type 0 where
  pub race : Race.World Message
  pub stage : Stage
  pub pending : MessageQueue
  pub wait : ℕ
  pub size : ℕ
  pub returning : ℕ
  pub senders : List Sender
  pub lifecycle : Lifecycle
  pub closers : List Close.Thread
  pub taken : List Message
  pub log : List Effect
  pub lost : List Message

-- Nobody calls `Dequeue` or `TryDequeue` on the client's queue: the loop reads the channel itself.
abbrev pub IsCall : Thread Message → Type 0
IsCall receive_from = ⊥
IsCall try_receive_from = ⊥
IsCall _ = Unit

-- What the world decides in a turn: which case of the `select` goes on, and what `json.Marshal` makes
-- of a message.
pub data Case : Type 0 where
  message_case : Result (List ℕ) → Case
  tick_case quit_case : Case

abbrev pub kept : Option Sender → List Sender
kept none = []
kept (some t) = t ∷ []

-- `defer wg.Done()`
abbrev pub leave : Option Sender → ℕ → ℕ
leave none n = n - 1
leave (some t) n = n

-- The goroutine of the executor that the task has returned to, if it has.
abbrev pub back : Option Sender → ℕ → ℕ
back none n = n + 1
back (some t) n = n

module _ (cfg : Settings) where
  abbrev pub takes_turn : Turn → System → System
  takes_turn t s = record s {
    pending = t.pending;
    wait = s.wait + length t.started;
    size = s.size + length t.started;
    senders = t.started ++ s.senders;
    log = s.log ++ t.effects;
  }

  abbrev pub with_chan : Chan Message → System → System
  with_chan c s = record s { race = record s.race { queue = record s.race.queue { ch = c } } }

  abbrev pub on_message : Result (List ℕ) → Bool → System → Receive Message → Option System
  on_message r admits s (received m c) =
      some (takes_turn (push_turn cfg m r admits s.pending) (with_chan c s))
  on_message r admits s ended = some s
  on_message r admits s waiting = none

  abbrev pub on_left : Result (List ℕ) → Bool → System → Receive Message → Option System
  on_left r admits s (received m c) =
      some (takes_turn (push_turn cfg m r admits s.pending) (with_chan c s))
  on_left r admits s ended =
      let t = flush_turn cfg admits s.pending in
      some (record (takes_turn t s) {
        stage = joining;
        log = s.log ++ (t.effects ++ debug cfg exited);
      })
  on_left r admits s waiting = none

  abbrev pub on_quit : System → System
  on_quit s = record s {
    stage = closing;
    race = record s.race { threads = close_enter ∷ s.race.threads };
    log = s.log ++ debug cfg exit_requested;
  }

  -- The test of `executor.do` (internal/core/executor.go).
  abbrev pub admits : System → Bool
  admits s = if s.size == cfg.max_concurrent_requests then false else true

  abbrev pub loop_at : Stage → Case → System → Option System
  loop_at selecting (message_case r) s = on_message r (admits s) s (receive s.race.queue.ch)
  loop_at selecting tick_case s = some (takes_turn (flush_turn cfg (admits s) s.pending) s)
  loop_at selecting quit_case s = if s.lifecycle.quit then some (on_quit s) else none
  loop_at closing k s =
      if is_finished s.race.queue.close_once then some (record s { stage = draining }) else none
  loop_at draining (message_case r) s = on_left r (admits s) s (receive s.race.queue.ch)
  loop_at draining _ s = none
  loop_at joining k s =
      if s.wait == 0
      then some (record s { stage = returned; lifecycle = record s.lifecycle { shutdown = true } })
      else none
  loop_at returned k s = none

  -- The next action of the loop; `none` where it waits or has returned. `Close` of the queue has
  -- returned to the loop when `closeOnce` is done.
  unfoldable pub loop_act : Case → System → Option System
  unfolding push_turn flush_turn
  loop_act k s = loop_at s.stage k s

  -- One action of one goroutine.
  pub data Moves (s : System) : System → Type 0 where
    queue_acts :
        (before : List (Thread Message)) (t : Thread Message) (after : List (Thread Message))
        (a : Race.Action Message)
        → s.race.threads ≡ before ++ t ∷ after
        → Race.act s.race.queue t ≡ some a
        → IsCall t
        → Moves s (record s {
          race = record { queue = a.queue; threads = before ++ a.thread ∷ after };
          taken = s.taken ++ sent_by a.event;
        })
    loop_acts : (k : Case) {s' : System} → loop_act k s ≡ some s' → Moves s s'
    sender_acts :
        (before : List Sender) (t : Sender) (after : List Sender) (ch : Choice) (o : Outcome)
        → s.senders ≡ before ++ t ∷ after
        → Sending.act cfg.callback s.lifecycle.quit ch t ≡ some o
        → Moves s (record s {
          senders = before ++ (kept o.sender ++ after);
          wait = leave o.sender s.wait;
          returning = back o.sender s.returning;
          log = s.log ++ o.effects;
          lost = s.lost ++ o.lost;
        })
    gives_back :
        (n : ℕ) → s.returning ≡ suc n → Moves s (record s { size = s.size - 1; returning = n })
    closer_acts :
        (before : List Close.Thread) (t : Close.Thread) (after : List Close.Thread)
        (d : Close.Ending) (a : Close.Action)
        → s.closers ≡ before ++ t ∷ after
        → Close.act d s.lifecycle t ≡ some a
        → Moves s (record s { lifecycle = a.0; closers = before ++ a.1 ∷ after })

  -- A goroutine acts, or a call begins: of a method of the queue, as `Enqueue` makes one, or of `Close`
  -- of the client.
  pub data Step (s : System) : System → Type 0 where
    moves : {s' : System} → Moves s s' → Step s s'
    calls :
        {t : Thread Message}
        → Begins t
        → IsCall t
        → Step s (record s { race = record s.race { threads = t ∷ s.race.threads } })
    closes : Step s (record s { closers = Close.close_quit ∷ s.closers })

  pub data Reach (s : System) : System → Type 0 where
    start : Reach s s
    next : {t u : System} → Reach s t → Step t u → Reach s u

  -- A client as `NewWithConfig` leaves it, its loop started, on a queue that was made with options.
  abbrev pub new_system : List ChannelOption → List ℕ → System
  new_system opts sent_at = record {
    race = record { queue = new_channel_queue Message opts; threads = [] };
    stage = selecting;
    pending = record {
      pending = none;
      bytes = 0;
      max_batch_size = cfg.batch_size;
      max_batch_bytes = max_batch_bytes_at sent_at;
    };
    wait = 0;
    size = 0;
    returning = 0;
    senders = [];
    lifecycle = record {
      quit = false;
      shutdown = false;
      dispatcher_closes = 0;
      dispatcher_panics = 0;
    };
    closers = [];
    taken = [];
    log = [];
    lost = [];
  }
