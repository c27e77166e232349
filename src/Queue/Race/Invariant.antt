-- ===== src/Queue/Race/Invariant.antt =====
-- What holds of a queue and its goroutines (internal/queue/channel.go) however their steps
-- interleave: `closeOnce` has one holder, the flag is stored before the channel is closed, and the
-- channel is closed once.
use origamy_go_sdk.Base.{
  ℕ, ◌+◌, ◌≡◌, subst, ◌≤◌, ◌<◌, Bool, true, false, some, List, [], ◌∷◌, ◌++◌, arith, length,
  length-append,
}
use origamy_go_sdk.Queue.{ChannelQueue, Once, running, finished}
use origamy_go_sdk.Queue.Race.{
  Thread, enqueue_load, enqueue_send, try_send, close_store, close_chan, close_panic, Event, Action,
  act, World, Step, begins, acts, Begins, enqueue_begins, try_begins, close_begins, receive_begins,
  try_receive_begins, Trace, start, next,
}

abbrev pub holder : Once → ℕ
holder running = 1
holder _ = 0

abbrev pub is_finished : Once → Bool
is_finished finished = true
is_finished _ = false

module _ {A : Type 0} where
  abbrev pub tally : (Thread A → ℕ) → List (Thread A) → ℕ
  tally f [] = 0
  tally f (t ∷ ts) = f t + tally f ts

  pub tally-split :
      (f : Thread A → ℕ) (xs : List (Thread A)) (t : Thread A) (ys : List (Thread A))
      → tally f (xs ++ t ∷ ys) ≡ f t + (tally f xs + tally f ys)
  tally-split f [] t ys = omega arith
  tally-split f (x ∷ xs) t ys = omega (arith, tally-split f xs t ys)

  -- Inside the function of `closeOnce`; about to close the channel; stopped by a second close.
  abbrev pub inside : Thread A → ℕ
  inside close_store = 1
  inside close_chan = 1
  inside _ = 0

  abbrev pub at_chan : Thread A → ℕ
  at_chan close_chan = 1
  at_chan _ = 0

  abbrev pub stopped : Thread A → ℕ
  stopped close_panic = 1
  stopped _ = 0

  -- A queue beside the numbers of goroutines at those points.
  pub record Counted (q : ChannelQueue A) (ni nc ns : ℕ) : Type 0 where
    pub shut : q.ch.is_shut ≡ is_finished q.close_once
    pub flag : q.ch.is_shut ≡ true → q.closed ≡ true
    pub held : ni ≡ holder q.close_once
    pub stored : 0 < nc → q.closed ≡ true
    pub order : nc ≤ ni
    pub calm : ns ≡ 0
    pub within : length q.ch.buffer ≤ q.ch.capacity

  act-Counted :
      (q : ChannelQueue A) (t : Thread A) (i c s : ℕ) (a : Action A)
      → c ≤ i
      → Counted q (inside t + i) (at_chan t + c) (stopped t + s)
      → act q t ≡ some a
      → Counted a.queue (inside a.thread + i) (at_chan a.thread + c) (stopped a.thread + s)
  unfolding act
  act-Counted q (enqueue_load msg) i c s a le v e = ground arith
  act-Counted q (enqueue_send msg) i c s a le v e =
      ground (arith, length-append q.ch.buffer (msg ∷ []))
  act-Counted q (try_send msg) i c s a le v e = ground (arith, length-append q.ch.buffer (msg ∷ []))
  act-Counted q t i c s a le v e = ground arith

  abbrev pub IsSound : World A → Type 0
  IsSound w =
      Counted w.queue (tally inside w.threads) (tally at_chan w.threads) (tally stopped w.threads)

  tally-le : (ts : List (Thread A)) → tally at_chan ts ≤ tally inside ts
  tally-le [] = omega arith
  tally-le (t ∷ ts) = ground (arith, tally-le ts)

  pub Begins-IsSound :
      (w : World A) (t : Thread A)
      → Begins t
      → IsSound w
      → IsSound (record { queue = w.queue; threads = t ∷ w.threads })
  Begins-IsSound w t (enqueue_begins msg) v = ground arith
  Begins-IsSound w t (try_begins msg) v = ground arith
  Begins-IsSound w t close_begins v = ground arith
  Begins-IsSound w t receive_begins v = ground arith
  Begins-IsSound w t try_receive_begins v = ground arith

  pub acts-IsSound :
      (q : ChannelQueue A) (xs : List (Thread A)) (t : Thread A) (ys : List (Thread A))
      (a : Action A)
      → IsSound (record { queue = q; threads = xs ++ t ∷ ys })
      → act q t ≡ some a
      → IsSound (record { queue = a.queue; threads = xs ++ a.thread ∷ ys })
  acts-IsSound q xs t ys a v e =
      rw
        (
          tally-split inside xs a.thread ys,
          tally-split at_chan xs a.thread ys,
          tally-split stopped xs a.thread ys,
        )
        (act-Counted q t _ _ _ a (omega (arith, tally-le xs, tally-le ys))
          (rw (tally-split inside xs t ys, tally-split at_chan xs t ys, tally-split stopped xs t ys)
            at v)
          e)

  Step-IsSound : {w v : World A} {e : Event A} → Step w e v → IsSound w → IsSound v
  Step-IsSound {w} (begins b) s = Begins-IsSound w _ b s
  Step-IsSound {w} (acts xs t ys a split e) s =
      acts-IsSound w.queue xs t ys a
        (subst (λ ts. IsSound (record { queue = w.queue; threads = ts })) split s) e

  pub Trace-IsSound : {w v : World A} {es : List (Event A)} → Trace w es v → IsSound w → IsSound v
  Trace-IsSound start s = s
  Trace-IsSound (next tr st) s = Step-IsSound st (Trace-IsSound tr s)
