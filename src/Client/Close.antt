-- ===== src/Client/Close.antt =====
-- `client.Close` of internal/core/analytics.go, called from any number of goroutines, beside the
-- goroutine of the loop: what they do with `c.quit`, `c.shutdown` and the dispatcher. A client that
-- `NewWithConfig` made has a dispatcher.
pub mod Once
mod Tests
use origamy_go_sdk.Base.{
  ℕ, ◌+◌, ◌≡◌, Bool, true, false, Option, none, some, List, [], ◌∷◌, ◌++◌, if◌then◌else◌,
}
use origamy_go_sdk.Data.{Error, closed}

-- Whether the two channels are closed; how often the dispatcher's `Close` has been called, and how often
-- that call has panicked.
pub record Lifecycle : Type 0 where
  pub quit : Bool
  pub shutdown : Bool
  pub dispatcher_closes : ℕ
  pub dispatcher_panics : ℕ

-- How a call of the dispatcher's `Close` ends, whose error nobody reads.
pub data Ending : Type 0 where
  calm panics : Ending

pub data Thread : Type 0 where
  -- `Close`: before `close(c.quit)`, before `<-c.shutdown`, before `c.dispatcher.Close()`, returned
  close_quit : Thread
  await_shutdown : Thread
  close_dispatcher : Thread
  close_return : Option Error → Thread
  -- `loop`: in its `select`, behind the case of `c.quit`, returned
  loop_select : Thread
  loop_exit : Thread
  loop_return : Thread

abbrev pub Action : Type 0
Action = Lifecycle × Thread

-- A panic of the dispatcher is recovered as well.
abbrev disposed : Ending → Lifecycle → Action
disposed calm s = (s, close_return none)
disposed panics s =
    (record s { dispatcher_panics = s.dispatcher_panics + 1 }, close_return (some closed))

-- The next action of a goroutine, and how the dispatcher's `Close` ends should it be that call; `none`
-- where it waits or has returned. The panic of closing `c.quit` twice is recovered and becomes
-- `ErrClosed`. In its `select` the loop goes on as long as `c.quit` is
-- open. At its end it drains the queue, waits for the goroutines that send, and closes `c.shutdown`.
unfoldable pub act : Ending → Lifecycle → Thread → Option Action
act e s close_quit =
    some (
      if s.quit
      then (s, close_return (some closed))
      else (record s { quit = true }, await_shutdown))
act e s await_shutdown = if s.shutdown then some (s, close_dispatcher) else none
act e s close_dispatcher =
    some (disposed e (record s { dispatcher_closes = s.dispatcher_closes + 1 }))
act e s loop_select = if s.quit then some (s, loop_exit) else none
act e s loop_exit = some (record s { shutdown = true }, loop_return)
act e s (close_return r) = none
act e s loop_return = none

pub record World : Type 0 where
  pub state : Lifecycle
  pub threads : List Thread

-- `NewWithConfig` starts the loop.
abbrev pub new_world : World
new_world = record {
  state = record { quit = false; shutdown = false; dispatcher_closes = 0; dispatcher_panics = 0 };
  threads = loop_select ∷ [];
}

pub data Step (w : World) : World → Type 0 where
  calls : Step w (record { state = w.state; threads = close_quit ∷ w.threads })
  acts :
      (before : List Thread) (t : Thread) (after : List Thread) (e : Ending) (a : Action)
      → w.threads ≡ before ++ t ∷ after
      → act e w.state t ≡ some a
      → Step w (record { state = a.0; threads = before ++ a.1 ∷ after })

pub data Reach (w : World) : World → Type 0 where
  start : Reach w w
  next : {u v : World} → Reach w u → Step u v → Reach w v
