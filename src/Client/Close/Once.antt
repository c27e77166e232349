-- ===== src/Client/Close/Once.antt =====
-- However calls of `client.Close` (internal/core/analytics.go) interleave with the end of the loop: one
-- of them closes the client.
use origamy_go_sdk.Base.{
  ℕ, ◌+◌, ◌≡◌, subst, ◌≤◌, ◌<◌, Bool, true, false, none, some, List, [], ◌∷◌, ◌++◌, All, arith,
}
use origamy_go_sdk.Client.Close.{
  Lifecycle, Ending, calm, Thread, await_shutdown, close_dispatcher, close_return, loop_select,
  loop_exit, Action, act, World, new_world, Step, calls, acts, Reach, start, next,
}

abbrev bit : Bool → ℕ
bit true = 1
bit false = 0

abbrev pub tally : (Thread → ℕ) → List Thread → ℕ
tally f [] = 0
tally f (t ∷ ts) = f t + tally f ts

pub tally-split :
    (f : Thread → ℕ) (xs : List Thread) (t : Thread) (ys : List Thread)
    → tally f (xs ++ t ∷ ys) ≡ f t + (tally f xs + tally f ys)
tally-split f [] t ys = omega arith
tally-split f (x ∷ xs) t ys = omega (arith, tally-split f xs t ys)

-- A call that has closed `c.quit` and not reached the dispatcher; one that has found `c.shutdown` closed;
-- one that has returned nil; one that has returned an error.
abbrev winner : Thread → ℕ
winner await_shutdown = 1
winner close_dispatcher = 1
winner _ = 0

abbrev past : Thread → ℕ
past close_dispatcher = 1
past _ = 0

abbrev pub returned_nil : Thread → ℕ
returned_nil (close_return none) = 1
returned_nil _ = 0

abbrev pub returned_error : Thread → ℕ
returned_error (close_return (some e)) = 1
returned_error _ = 0

-- The loop has not returned; it is behind the case of `c.quit`.
abbrev pub looping : Thread → ℕ
looping loop_select = 1
looping loop_exit = 1
looping _ = 0

abbrev exiting : Thread → ℕ
exiting loop_exit = 1
exiting _ = 0

record Counted (s : Lifecycle) (nw np nr ne nl nx : ℕ) : Type 0 where
  one : nw + s.dispatcher_closes ≡ bit s.quit
  after : 0 < np → s.shutdown ≡ true
  disposed : 0 < s.dispatcher_closes → s.shutdown ≡ true
  closes : s.dispatcher_closes ≡ nr + s.dispatcher_panics
  recovered : s.dispatcher_panics ≤ ne
  errors : 0 < ne → s.quit ≡ true
  loop : nl + bit s.shutdown ≡ 1
  exits : 0 < nx → s.quit ≡ true
  order : s.shutdown ≡ true → s.quit ≡ true

act-Counted :
    (d : Ending) (s : Lifecycle) (t : Thread) (w p r e l x : ℕ) (a : Action)
    → Counted s
        (winner t + w)
        (past t + p)
        (returned_nil t + r)
        (returned_error t + e)
        (looping t + l)
        (exiting t + x)
    → act d s t ≡ some a
    → Counted a.0
        (winner a.1 + w)
        (past a.1 + p)
        (returned_nil a.1 + r)
        (returned_error a.1 + e)
        (looping a.1 + l)
        (exiting a.1 + x)
unfolding act
act-Counted d s t w p r e l x a c q = ground arith

abbrev IsSound : World → Type 0
IsSound w =
    Counted w.state (tally winner w.threads) (tally past w.threads) (tally returned_nil w.threads)
      (tally returned_error w.threads) (tally looping w.threads) (tally exiting w.threads)

acts-IsSound :
    (d : Ending) (s : Lifecycle) (xs : List Thread) (t : Thread) (ys : List Thread) (a : Action)
    → IsSound (record { state = s; threads = xs ++ t ∷ ys })
    → act d s t ≡ some a
    → IsSound (record { state = a.0; threads = xs ++ a.1 ∷ ys })
acts-IsSound d s xs t ys a v e =
    rw
      (
        tally-split winner xs a.1 ys,
        tally-split past xs a.1 ys,
        tally-split returned_nil xs a.1 ys,
        tally-split returned_error xs a.1 ys,
        tally-split looping xs a.1 ys,
        tally-split exiting xs a.1 ys,
      )
      (act-Counted d s t _ _ _ _ _ _ a
        (rw
          (
            tally-split winner xs t ys,
            tally-split past xs t ys,
            tally-split returned_nil xs t ys,
            tally-split returned_error xs t ys,
            tally-split looping xs t ys,
            tally-split exiting xs t ys,
          )
          at v)
        e)

Step-IsSound : {w v : World} → Step w v → IsSound w → IsSound v
Step-IsSound {w} calls s = ground arith
Step-IsSound {w} (acts xs t ys d a split e) s =
    acts-IsSound d w.state xs t ys a
      (subst (λ ts. IsSound (record { state = w.state; threads = ts })) split s) e

Reach-IsSound : {w v : World} → Reach w v → IsSound w → IsSound v
Reach-IsSound start s = s
Reach-IsSound (next r st) s = Step-IsSound st (Reach-IsSound r s)

new-IsSound : IsSound new_world
new-IsSound = ground arith

-- No goroutine can act, however the dispatcher's `Close` would end.
abbrev pub IsStuck : Lifecycle → List Thread → Type 0
IsStuck s ts = All (λ t. act calm s t ≡ none) ts

pub stuck_any : (s : Lifecycle) (t : Thread) (d : Ending) → act calm s t ≡ none → act d s t ≡ none
unfolding act
stuck_any s t d h = ground arith

module _ {v : World} (reach : Reach new_world v) where
  -- However calls of `Close` interleave with each other and with the loop, and however the dispatcher's
  -- own `Close` ends: the dispatcher has been closed once at most, and not before the loop has ended;
  -- it was closed as often as a call has returned nil or has met a panic of the dispatcher, and at least
  -- as many calls as have met such a panic have returned an error; a call has returned an error only if
  -- one has closed `c.quit`.
  pub close_once :
      (v.state.dispatcher_closes ≡ tally returned_nil v.threads + v.state.dispatcher_panics)
      × (v.state.dispatcher_closes ≤ 1)
      × (0 < v.state.dispatcher_closes → v.state.shutdown ≡ true)
      × (v.state.dispatcher_panics ≤ tally returned_error v.threads)
      × (0 < tally returned_error v.threads → v.state.quit ≡ true)
  close_once =
      let c = Reach-IsSound reach new-IsSound in
      (c.closes, ground (arith, c.one), c.disposed, c.recovered, c.errors)

  -- Once `c.shutdown` is closed, no loop is running.
  pub loop_over : v.state.shutdown ≡ true → tally looping v.threads ≡ 0
  loop_over q = let c = Reach-IsSound reach new-IsSound in ground (arith, c.loop)

  -- `c.quit` was closed before.
  pub quit_before : v.state.shutdown ≡ true → v.state.quit ≡ true
  quit_before = (Reach-IsSound reach new-IsSound).order
