-- ===== src/Executor/Capacity.antt =====
-- No more than `cap` tasks are in flight, however the goroutines of internal/core/executor.go
-- interleave.
use native.Mathlib.Nat.{zero-add}
use origamy_go_sdk.Base.{
  ◌↔◌, ◌∙◌, ap, ℕ, ◌+◌, ◌≡◌, refl, subst, ◌≤◌, false, some, List, [], ◌∷◌, ◌++◌, arith, length,
  length-append, if◌then◌else◌,
}
use origamy_go_sdk.Executor.{
  Executor, Thread, do_lock, do_check, do_send, do_count, do_unlock, do_panic, loop_spawn, run_task,
  done_lock, done_count, done_unlock, Action, act, World, new_world, new_executor, Step, does,
  closes, acts, Reach, start, next,
}

module _ {Task : Type 0} where
  abbrev pub tally : (Thread Task → ℕ) → List (Thread Task) → ℕ
  tally f [] = 0
  tally f (t ∷ ts) = f t + tally f ts

  tally-append :
      (f : Thread Task → ℕ) (xs ys : List (Thread Task))
      → tally f (xs ++ ys) ≡ tally f xs + tally f ys
  tally-append f [] ys = omega arith
  tally-append f (x ∷ xs) ys = omega (arith, tally-append f xs ys)

  -- Between the lock and the unlock; a panic of `do` leaves the mutex locked.
  abbrev pub holds : Thread Task → ℕ
  holds (do_check _) = 1
  holds (do_send _) = 1
  holds (do_count _) = 1
  holds (do_unlock _) = 1
  holds do_panic = 1
  holds done_count = 1
  holds done_unlock = 1
  holds _ = 0

  -- Past the test of `do`, and past its send.
  abbrev pub admitted : Thread Task → ℕ
  admitted (do_send _) = 1
  admitted (do_count _) = 1
  admitted _ = 0

  abbrev pub uncounted : Thread Task → ℕ
  uncounted (do_count _) = 1
  uncounted _ = 0

  -- Taken from the channel and not yet given back by `done`.
  abbrev pub in_flight : Thread Task → ℕ
  in_flight (loop_spawn _) = 1
  in_flight (run_task _) = 1
  in_flight done_lock = 1
  in_flight done_count = 1
  in_flight _ = 0

  pub record Counted (e : Executor Task) (nh na nu nf : ℕ) : Type 0 where
    pub mutex : nh ≡ (if e.locked then 1 else 0)
    pub order : na ≤ nh
    pub suborder : nu ≤ na
    pub flight : e.size + nu ≡ length e.queue.buffer + nf
    pub capped : e.size + na ≤ e.cap

  act-Counted :
      (e : Executor Task) (t : Thread Task) (h d u f : ℕ) (a : Action Task)
      → d ≤ h
      → u ≤ d
      → Counted e (holds t + h) (admitted t + d) (uncounted t + u) (in_flight t + f)
      → act e t ≡ some a
      → Counted a.executor
          (holds a.thread + h)
          (admitted a.thread + d)
          (uncounted a.thread + u)
          (in_flight a.thread + (tally in_flight a.started + f))
        × (tally holds a.started ≡ 0)
        × (tally admitted a.started ≡ 0)
        × (tally uncounted a.started ≡ 0)
        × (a.executor.cap ≡ e.cap)
  unfolding act
  act-Counted e (do_lock task) h d u f a p q v eq = ground arith
  act-Counted e (do_send task) h d u f a p q v eq =
      ground (arith, length-append e.queue.buffer (task ∷ []))
  act-Counted e t h d u f a p q v eq = ground arith

  abbrev pub IsSound : World Task → Type 0
  IsSound w =
      Counted w.executor (tally holds w.threads) (tally admitted w.threads)
        (tally uncounted w.threads) (tally in_flight w.threads)

  pub tally-le :
      (ts : List (Thread Task))
      → (tally admitted ts ≤ tally holds ts) × (tally uncounted ts ≤ tally admitted ts)
  tally-le [] = omega arith
  tally-le (t ∷ ts) = ground (arith, tally-le ts)

  pub tally-split :
      (f : Thread Task → ℕ) (xs : List (Thread Task)) (t : Thread Task) (ys : List (Thread Task))
      → tally f (xs ++ t ∷ ys) ≡ f t + (tally f xs + tally f ys)
  tally-split f xs t ys = omega (arith, tally-append f xs (t ∷ ys))

  pub tally-started :
      (f : Thread Task → ℕ) (xs : List (Thread Task)) (t : Thread Task)
      (new ys : List (Thread Task))
      → tally f (xs ++ t ∷ (new ++ ys)) ≡ f t + (tally f new + (tally f xs + tally f ys))
  tally-started f xs t new ys =
      omega (arith, tally-append f xs (t ∷ (new ++ ys)), tally-append f new ys)

  acts-IsSound :
      (e : Executor Task) (xs : List (Thread Task)) (t : Thread Task) (ys : List (Thread Task))
      (a : Action Task)
      → IsSound (record { executor = e; threads = xs ++ t ∷ ys })
      → act e t ≡ some a
      → IsSound (record { executor = a.executor; threads = xs ++ a.thread ∷ (a.started ++ ys) })
        × (a.executor.cap ≡ e.cap)
  acts-IsSound e xs t ys a v eq =
      let (s, h, d, u, c) =
        act-Counted e t _ _ _ _ a (omega (arith, tally-le xs, tally-le ys))
          (omega (arith, tally-le xs, tally-le ys))
          (rw
            (
              tally-split holds xs t ys,
              tally-split admitted xs t ys,
              tally-split uncounted xs t ys,
              tally-split in_flight xs t ys,
            )
            at v)
          eq in
      (
        rw
            (
              tally-started holds xs a.thread a.started ys,
              tally-started admitted xs a.thread a.started ys,
              tally-started uncounted xs a.thread a.started ys,
              tally-started in_flight xs a.thread a.started ys,
              h,
              d,
              u,
              zero-add,
              zero-add,
              zero-add,
            )
            s,
        c,
      )

  Step-IsSound :
      {w v : World Task} → Step w v → IsSound w → IsSound v × (v.executor.cap ≡ w.executor.cap)
  Step-IsSound {w} (does task) s = (ground arith, refl)
  Step-IsSound {w} closes s = (ground arith, refl)
  Step-IsSound {w} (acts xs t ys a split e) s =
      acts-IsSound w.executor xs t ys a
        (subst (λ ts. IsSound (record { executor = w.executor; threads = ts })) split s) e

  pub Reach-IsSound :
      {w v : World Task} → Reach w v → IsSound w → IsSound v × (v.executor.cap ≡ w.executor.cap)
  Reach-IsSound start s = (s, refl)
  Reach-IsSound (next r st) s =
      let (s', c) = Reach-IsSound r s in let (s'', c') = Step-IsSound st s' in (s'', c' ∙ c)

pub new-IsSound : (Task : Type 0) (cap : ℕ) → IsSound (new_world Task cap)
unfolding new_executor
new-IsSound Task cap = ground arith

module _ {Task : Type 0} (cap : ℕ) {w : World Task} (reached : Reach (new_world Task cap) w) where
  -- Whatever calls of `do` and `close` interleave on a new executor, the tasks in its channel and
  -- those that its goroutines hold number at most `cap`, and `size` counts them whenever no `do` is
  -- between its send and its `e.size++`.
  pub in_flight_capped :
      (length w.executor.queue.buffer + tally in_flight w.threads ≤ cap)
      × (tally uncounted w.threads ≡ 0
          → w.executor.size ≡ length w.executor.queue.buffer + tally in_flight w.threads)
      × (tally holds w.threads ≤ 1)
  unfolding new_executor
  in_flight_capped =
      let (s, c) = Reach-IsSound reached (new-IsSound Task cap) in
      (omega (arith, s, c), λ none_left. omega (arith, s), ground (arith, s.mutex))

  -- A `do` that is at its test refuses its task exactly when `cap` tasks are in flight.
  pub refuses_exactly_full :
      (task : Task) (before after : List (Thread Task))
      → w.threads ≡ before ++ do_check task ∷ after
      → (act w.executor (do_check task)
          ≡ some (record { executor = w.executor; thread = do_unlock false; started = [] }))
        ↔ (length w.executor.queue.buffer + tally in_flight w.threads ≡ cap)
  unfolding act new_executor
  refuses_exactly_full task before after e =
      let (s, c) = Reach-IsSound reached (new-IsSound Task cap) in
      ground (
        arith,
        s,
        c,
        ap (tally holds) e ∙ tally-split holds before (do_check task) after,
        ap (tally admitted) e ∙ tally-split admitted before (do_check task) after,
        tally-le before,
        tally-le after,
      )
