-- ===== src/Queue/Race/History.antt =====
-- What the interleaved calls of ChannelQueue (internal/queue/channel.go) deliver: first in first out,
-- nothing lost, nothing after the close.
use origamy_go_sdk.Base.{
  ◌≡◌, refl, sym, ap, ap₂, ◌∙◌, true, some, List, [], ◌∷◌, ◌++◌, arith, append_assoc, append-nil,
}
use origamy_go_sdk.Queue.{ChannelQueue}
use origamy_go_sdk.Queue.Race.{
  Thread, enqueue_load, Event, sends, receives, Action, act, World, Step, begins, acts, Trace,
  start, next,
}

module _ {A : Type 0} where
  abbrev pub sent_by : Event A → List A
  sent_by (sends a) = a ∷ []
  sent_by _ = []

  abbrev pub received_by : Event A → List A
  received_by (receives a) = a ∷ []
  received_by _ = []

  -- What was sent and what was received, oldest first, of events that stand newest first.
  abbrev pub sent_in : List (Event A) → List A
  sent_in [] = []
  sent_in (e ∷ es) = sent_in es ++ sent_by e

  abbrev pub received_in : List (Event A) → List A
  received_in [] = []
  received_in (e ∷ es) = received_in es ++ received_by e

  pub act-fifo :
      (q : ChannelQueue A) (xs : List A) (t : Thread A) (a : Action A)
      → q.ch.buffer ≡ xs
      → act q t ≡ some a
      → received_by a.event ++ a.queue.ch.buffer ≡ xs ++ sent_by a.event
  unfolding act
  act-fifo q [] t a b e = ground (arith, append-nil q.ch.buffer)
  act-fifo q (x ∷ xs) (enqueue_load msg) a b e = ground (arith, append-nil (x ∷ xs))
  act-fifo q (x ∷ xs) t a b e = ground (arith, append-nil xs)

  Step-fifo :
      {w v : World A} {e : Event A}
      → Step w e v
      → received_by e ++ v.queue.ch.buffer ≡ w.queue.ch.buffer ++ sent_by e
  Step-fifo {w} (begins b) = sym (append-nil w.queue.ch.buffer)
  Step-fifo {w} (acts xs t ys a split e) = act-fifo w.queue w.queue.ch.buffer t a refl e

  pub Trace-fifo :
      {w v : World A} {es : List (Event A)}
      → Trace w es v
      → received_in es ++ v.queue.ch.buffer ≡ w.queue.ch.buffer ++ sent_in es
  Trace-fifo {w} start = sym (append-nil w.queue.ch.buffer)
  Trace-fifo {w} {v} (next {es} {e} {u = u} tr st) =
      append_assoc (received_in es) (received_by e) v.queue.ch.buffer
      ∙ ap (λ l. received_in es ++ l) (Step-fifo st)
      ∙ sym (append_assoc (received_in es) u.queue.ch.buffer (sent_by e))
      ∙ ap (λ l. l ++ sent_by e) (Trace-fifo tr)
      ∙ append_assoc w.queue.ch.buffer (sent_in es) (sent_by e)

  -- Once the channel is closed, it stays so, and no send succeeds.
  pub act-shut :
      (q : ChannelQueue A) (t : Thread A) (a : Action A)
      → q.ch.is_shut ≡ true
      → act q t ≡ some a
      → (a.queue.ch.is_shut ≡ true) × (sent_by a.event ≡ [])
  unfolding act
  act-shut q (enqueue_load msg) a h e = ground arith
  act-shut q t a h e = ground arith

  Step-shut :
      {w v : World A} {e : Event A}
      → Step w e v
      → w.queue.ch.is_shut ≡ true
      → (v.queue.ch.is_shut ≡ true) × (sent_by e ≡ [])
  Step-shut (begins b) h = (h, refl)
  Step-shut {w} (acts xs t ys a split e) h = act-shut w.queue t a h e

  pub Trace-shut :
      {w v : World A} {es : List (Event A)}
      → Trace w es v
      → w.queue.ch.is_shut ≡ true
      → (v.queue.ch.is_shut ≡ true) × (sent_in es ≡ [])
  Trace-shut start h = (h, refl)
  Trace-shut (next tr st) h =
      let earlier = Trace-shut tr h in
      let now = Step-shut st earlier.0 in (now.0, ap₂ ◌++◌ earlier.1 now.1)
