-- ===== src/Executor/Slots.antt =====
-- The executor of internal/core/executor.go, action by action, against a count of slots: what the client as a
-- whole needs to know of it.
use origamy_go_sdk.Base.{ℕ, ◌+◌, ◌≡◌, ◌≤◌, ◌<◌, subst, sym, some, List, ◌∷◌, ◌++◌, arith}
use origamy_go_sdk.Executor.{
  Executor, Thread, do_check, do_send, do_panic, done_count, Action, act, World, new_world,
  new_executor, Reach,
}
use origamy_go_sdk.Executor.Capacity.{
  tally, holds, admitted, uncounted, Counted, IsSound, Reach-IsSound, new-IsSound, tally-le,
  tally-split, tally-started, in_flight,
}

-- What an action is for a caller: a task is taken or refused, a task that has ended gives its slot back, or
-- a `do` is stopped by a send on the closed channel.
pub data Label : Type 0 where
  takes refuses gives stops quiet : Label

-- From one number of slots in use to another, of `cap`.
abbrev pub Slots : ℕ → Label → ℕ → ℕ → Type 0
Slots cap takes n m = (n < cap) × (m ≡ n + 1)
Slots cap refuses n m = (n ≡ cap) × (m ≡ n)
Slots cap gives n m = n ≡ m + 1
Slots cap stops n m = n ≡ m + 1
Slots cap quiet n m = m ≡ n

module _ {Task : Type 0} where
  -- The goroutine before the action, and after it.
  abbrev pub label_of : Thread Task → Thread Task → Label
  label_of (do_check _) (do_send _) = takes
  label_of (do_check _) _ = refuses
  label_of (do_send _) do_panic = stops
  label_of done_count _ = gives
  label_of _ _ = quiet

  -- The slots in use: a task counts as soon as its `do` has passed the test.
  abbrev pub used : World Task → ℕ
  used w = w.executor.size + tally admitted w.threads

  act-Slots :
      (e : Executor Task) (t : Thread Task) (h d u f : ℕ) (a : Action Task)
      → d ≤ h
      → u ≤ d
      → Counted e (holds t + h) (admitted t + d) (uncounted t + u) (in_flight t + f)
      → act e t ≡ some a
      → Slots e.cap
          (label_of t a.thread)
          (e.size + (admitted t + d))
          (a.executor.size + (admitted a.thread + (tally admitted a.started + d)))
  unfolding act
  act-Slots e (do_check task) h d u f a p q v eq = ground (arith, v.mutex, v.capped)
  act-Slots e t h d u f a p q v eq = ground arith

  acts-Slots :
      (e : Executor Task) (xs : List (Thread Task)) (t : Thread Task) (ys : List (Thread Task))
      (a : Action Task)
      → IsSound (record { executor = e; threads = xs ++ t ∷ ys })
      → act e t ≡ some a
      → Slots e.cap
          (label_of t a.thread)
          (e.size + tally admitted (xs ++ t ∷ ys))
          (a.executor.size + tally admitted (xs ++ a.thread ∷ (a.started ++ ys)))
  acts-Slots e xs t ys a v eq =
      rw (tally-split admitted xs t ys, tally-started admitted xs a.thread a.started ys)
        (act-Slots e t _ _ _ _ a (omega (arith, tally-le xs, tally-le ys))
          (omega (arith, tally-le xs, tally-le ys))
          (rw
            (
              tally-split holds xs t ys,
              tally-split admitted xs t ys,
              tally-split uncounted xs t ys,
              tally-split in_flight xs t ys,
            )
            at v)
          eq)

-- Whatever calls of `do` and `close` interleave on a new executor, each action of one of its goroutines is
-- one on a count of slots: a `do` that passes its test takes a slot, and there was
-- one; a `do` is refused only while all `cap` slots are in use; the end of a task gives its slot back, as
-- does a `do` that is stopped by the panic of its send; and no other action changes the count.
pub reached-Slots :
    {Task : Type 0} (cap : ℕ) {w : World Task} (before : List (Thread Task)) (t : Thread Task)
    (after : List (Thread Task)) (a : Action Task)
    → Reach (new_world Task cap) w
    → w.threads ≡ before ++ t ∷ after
    → act w.executor t ≡ some a
    → Slots cap (label_of t a.thread) (used w) (
        used
          (record { executor = a.executor; threads = before ++ a.thread ∷ (a.started ++ after) }))
unfolding new_executor
reached-Slots {Task} cap {w} xs t ys a r split e =
    let (s, c) = Reach-IsSound r (new-IsSound Task cap) in
    let fine =
      acts-Slots w.executor xs t ys a
        (subst (λ ts. IsSound (record { executor = w.executor; threads = ts })) split s) e in
    subst
      (λ ts.
        Slots cap (label_of t a.thread) (w.executor.size + tally admitted ts)
          (used (record { executor = a.executor; threads = xs ++ a.thread ∷ (a.started ++ ys) })))
      (sym split)
      (subst
        (λ n.
          Slots n (label_of t a.thread) (w.executor.size + tally admitted (xs ++ t ∷ ys))
            (used (record { executor = a.executor; threads = xs ++ a.thread ∷ (a.started ++ ys) })))
        c fine)
