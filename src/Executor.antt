-- ===== src/Executor.antt =====
-- internal/core/executor.go: the executor that starts a goroutine for each task, and refuses tasks
-- while `cap` of them are in flight. A goroutine is a program counter in one of the functions; a step
-- of the system lets any goroutine do its next atomic action.
pub mod Capacity
pub mod Slots
mod Tests
use origamy_go_sdk.Base.{
  ℕ, zero, suc, ◌+◌, ◌-◌, ◌≡◌, Bool, true, false, Option, none, some, List, [], ◌∷◌, ◌++◌, ◌==◌,
  if◌then◌else◌,
}
use origamy_go_sdk.Queue.{
  Chan, Send, sent, blocked, panicked, send, Receive, received, ended, waiting, receive,
}

-- A task is a closure; `Task` stands for its type.
pub record Executor (Task : Type 0) : Type 0 where
  pub queue : Chan Task
  pub locked : Bool
  pub size : ℕ
  pub cap : ℕ

unfoldable pub new_executor : (Task : Type 0) → ℕ → Executor Task
new_executor Task cap = record {
  queue = record { buffer = []; capacity = 1; is_shut = false };
  locked = false;
  size = 0;
  cap = cap;
}

pub data Thread (Task : Type 0) : Type 0 where
  -- `do`: before the lock, before the test, before the send, before `e.size++`, before the unlock,
  -- returned, stopped by a send on the closed channel
  do_lock : Task → Thread Task
  do_check : Task → Thread Task
  do_send : Task → Thread Task
  do_count : Task → Thread Task
  do_unlock : Bool → Thread Task
  do_return : Bool → Thread Task
  do_panic : Thread Task
  -- `loop`: before the receive, before the `go` statement, returned
  loop_receive : Thread Task
  loop_spawn : Task → Thread Task
  loop_return : Thread Task
  -- `run`: inside the task, then `done`: before the lock, before `e.size--`, before the unlock
  run_task : Task → Thread Task
  done_lock : Thread Task
  done_count : Thread Task
  done_unlock : Thread Task
  run_return : Thread Task
  -- `close`
  close_queue : Thread Task
  close_return : Thread Task
  close_panic : Thread Task

-- The executor and the goroutine after an action, and the goroutine that it has started.
pub record Action (Task : Type 0) : Type 0 where
  pub executor : Executor Task
  pub thread : Thread Task
  pub started : List (Thread Task)

module _ {Task : Type 0} where
  abbrev goes : Executor Task → Thread Task → Option (Action Task)
  goes e t = some (record { executor = e; thread = t; started = [] })

  -- `Lock` waits for the mutex.
  abbrev lock : Executor Task → Thread Task → Option (Action Task)
  lock e t = if e.locked then none else goes (record e { locked = true }) t

  abbrev unlock : Executor Task → Thread Task → Option (Action Task)
  unlock e t = goes (record e { locked = false }) t

  abbrev after_send : Executor Task → Task → Send Task → Option (Action Task)
  after_send e task (sent c) = goes (record e { queue = c }) (do_count task)
  after_send e task blocked = none
  after_send e task panicked = goes e do_panic

  abbrev after_receive : Executor Task → Receive Task → Option (Action Task)
  after_receive e (received task c) = goes (record e { queue = c }) (loop_spawn task)
  after_receive e ended = goes e loop_return
  after_receive e waiting = none

  abbrev close_chan : Bool → Executor Task → Option (Action Task)
  close_chan true e = goes e close_panic
  close_chan false e = goes (record e { queue = record e.queue { is_shut = true } }) close_return

  -- The next action of a goroutine; `none` where it waits or has ended. `run_task` leaves its task:
  -- the task itself returns, since `sendAsync` recovers from its panics.
  unfoldable pub act : Executor Task → Thread Task → Option (Action Task)
  act e (do_lock task) = lock e (do_check task)
  act e (do_check task) = goes e (if e.size == e.cap then do_unlock false else do_send task)
  act e (do_send task) = after_send e task (send task e.queue)
  act e (do_count task) = goes (record e { size = e.size + 1 }) (do_unlock true)
  act e (do_unlock ok) = unlock e (do_return ok)
  act e loop_receive = after_receive e (receive e.queue)
  act e (loop_spawn task) =
      some (record { executor = e; thread = loop_receive; started = run_task task ∷ [] })
  act e (run_task task) = goes e done_lock
  act e done_lock = lock e done_count
  act e done_count = goes (record e { size = e.size - 1 }) done_unlock
  act e done_unlock = unlock e run_return
  act e close_queue = close_chan e.queue.is_shut e
  act e (do_return _) = none
  act e do_panic = none
  act e loop_return = none
  act e run_return = none
  act e close_return = none
  act e close_panic = none

-- An executor and the goroutines round it.
pub record World (Task : Type 0) : Type 0 where
  pub executor : Executor Task
  pub threads : List (Thread Task)

-- `newExecutor` starts the loop.
abbrev pub new_world : (Task : Type 0) → ℕ → World Task
new_world Task cap = record { executor = new_executor Task cap; threads = loop_receive ∷ [] }

pub data Step {Task : Type 0} (w : World Task) : World Task → Type 0 where
  does :
      (task : Task) → Step w (record { executor = w.executor; threads = do_lock task ∷ w.threads })
  closes : Step w (record { executor = w.executor; threads = close_queue ∷ w.threads })
  acts :
      (before : List (Thread Task)) (t : Thread Task) (after : List (Thread Task)) (a : Action Task)
      → w.threads ≡ before ++ t ∷ after
      → act w.executor t ≡ some a
      → Step w
          (record { executor = a.executor; threads = before ++ a.thread ∷ (a.started ++ after) })

pub data Reach {Task : Type 0} (w : World Task) : World Task → Type 0 where
  start : Reach w w
  next : {u v : World Task} → Reach w u → Step u v → Reach w v
