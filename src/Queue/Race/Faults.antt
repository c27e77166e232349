-- ===== src/Queue/Race/Faults.antt =====
-- Closing a ChannelQueue (internal/queue/channel.go) while other goroutines are inside its methods:
-- `Enqueue` recovers from the send on a closed channel, `TryEnqueue` does not.
use origamy_go_sdk.Base.{◌≡◌, refl, ◌≤◌, true, some, List, [], ◌∷◌, ◌++◌, arith, length}
use origamy_go_sdk.Data.{queue_closed}
use origamy_go_sdk.Queue.{ChannelQueue, ChannelOption, new_channel_queue}
use origamy_go_sdk.Queue.Race.{
  enqueue_load, enqueue_send, enqueue_return, try_load, try_send, try_panic, close_enter,
  close_store, close_chan, close_return, Event, quiet, Action, act, World, begins, acts, try_begins,
  close_begins, Trace, start, next,
}
use origamy_go_sdk.Queue.Race.Invariant.{IsSound, Trace-IsSound, tally, stopped}
use origamy_go_sdk.Queue.Race.History.{sent_in, received_in, Trace-fifo}

-- A queue fresh from its constructor, with nobody inside a method.
abbrev pub fresh_world : (A : Type 0) → List ChannelOption → World A
fresh_world A opts = record { queue = new_channel_queue A opts; threads = [] }

pub fresh-IsSound : (A : Type 0) (opts : List ChannelOption) → IsSound (fresh_world A opts)
unfolding new_channel_queue
fresh-IsSound A opts = ground arith

module _ {A : Type 0} where
  -- However calls of `Enqueue`, `TryEnqueue`, `Dequeue`, `TryDequeue` and `Close` interleave on a new
  -- queue: what was received, followed by what is buffered, is
  -- what was sent, in that order; the buffer keeps within the capacity; no goroutine is stopped by
  -- closing the channel a second time; and a closed channel has its flag set.
  pub interleaved_fifo :
      (opts : List ChannelOption) {es : List (Event A)} {v : World A}
      → Trace (fresh_world A opts) es v
      → (received_in es ++ v.queue.ch.buffer ≡ sent_in es)
        × (length v.queue.ch.buffer ≤ v.queue.ch.capacity)
        × (tally stopped v.threads ≡ 0)
        × (v.queue.ch.is_shut ≡ true → v.queue.closed ≡ true)
  unfolding new_channel_queue
  interleaved_fifo opts tr =
      let sound = Trace-IsSound tr (fresh-IsSound A opts) in
      (Trace-fifo tr, sound.within, sound.calm, sound.flag)

  abbrev pub quits : ChannelQueue A → A → Action A
  quits q msg = record { queue = q; thread = enqueue_return msg (some queue_closed); event = quiet }

  -- Once `Close` has closed the channel of a reachable queue, an `Enqueue` that had not returned
  -- by then, one blocked on a full buffer too, returns `ErrQueueClosed` at its next action, and a
  -- `TryEnqueue` that had passed its check panics.
  pub after_close :
      (opts : List ChannelOption) {es : List (Event A)} {v : World A} (msg : A)
      → Trace (fresh_world A opts) es v
      → v.queue.ch.is_shut ≡ true
      → (act v.queue (enqueue_load msg) ≡ some (quits v.queue msg))
        × (act v.queue (enqueue_send msg) ≡ some (quits v.queue msg))
        × (act v.queue (try_send msg)
            ≡ some (record { queue = v.queue; thread = try_panic msg; event = quiet }))
  unfolding act
  after_close opts {v = v} msg tr shut =
      let flag = (Trace-IsSound tr (fresh-IsSound A opts)).flag shut in ground arith

  -- A `TryEnqueue` that loads the flag before a concurrent `Close` stores it panics in every new
  -- queue: the steps lead from the fresh queue to a goroutine stopped by the panic.
  pub try_enqueue_panics :
      (opts : List ChannelOption) (msg : A)
      → (es : List (Event A)) × (v : World A) × Trace (fresh_world A opts) es v
        × (v.threads ≡ close_return ∷ try_panic msg ∷ [])
  unfolding act new_channel_queue
  try_enqueue_panics opts msg = (
    _,
    _,
    next
        (next
          (next
            (next
              (next (next (next start (begins (try_begins msg))) (begins close_begins))
                (acts (close_enter ∷ []) (try_load msg) [] _ refl refl))
              (acts [] close_enter (try_send msg ∷ []) _ refl refl))
            (acts [] close_store (try_send msg ∷ []) _ refl refl))
          (acts [] close_chan (try_send msg ∷ []) _ refl refl))
        (acts (close_return ∷ []) (try_send msg) [] _ refl refl),
    refl,
  )
