-- ===== src/System/Closed.antt =====
-- The client as a whole once a call of its `Close` (internal/core/analytics.go) has returned nil: what has
-- become of the messages, and of the goroutines.
use origamy_go_sdk.Base.{
  ℕ, ◌+◌, ◌≡◌, sym, refl, ap, ◌∙◌, ◌<◌, Bool, true, none, List, [], ◌∷◌, arith, length, elements,
}
use origamy_go_sdk.Data.{Reference}
use origamy_go_sdk.Message.{Message}
use origamy_go_sdk.Queue.{ChannelOption}
use origamy_go_sdk.Client.Send.Reported.{bodies}
use origamy_go_sdk.Client.Close.Once.{
  tally, tally-split, returned_nil, looping, close_once, loop_over,
}
use origamy_go_sdk.System.{Stage, returned, System, Reach, new_system}
use origamy_go_sdk.System.Weights.{weigh, told, owes, reporting}
use origamy_go_sdk.System.Invariant.Steps.{reached-IsOrdered}
use origamy_go_sdk.System.Invariant.{has_closed, has_drained, IsOrdered}
use origamy_go_sdk.System.Accepted.{accepted_by}
use origamy_go_sdk.System.Accepted.Reached.{reached-IsAccounted}
use origamy_go_sdk.System.Balance.{reached-IsBalanced}
use origamy_go_sdk.System.Shutdown.{as_loop, reached-IsSeen}

not_looping : (p : Stage) → looping (as_loop p) ≡ 0 → p ≡ returned
not_looping p h = ground arith

nobody : {A : Type 0} (xs : List A) → length xs ≡ 0 → xs ≡ []
nobody [] h = refl
nobody (x ∷ xs) h = ground (arith, h)

-- A loop that has returned has nothing in hand.
rests :
    (s : System)
    → IsOrdered s
    → s.stage ≡ returned
    → (s.senders ≡ [])
      × (s.race.queue.ch.buffer ≡ [])
      × (s.pending.pending ≡ none)
      × (s.race.queue.closed ≡ true)
rests s v p = (
  nobody s.senders (sym v.counted ∙ v.joined p),
  v.empty (ap has_drained p),
  v.idle (ap has_drained p),
  v.sound.flag (v.shut (ap has_closed p)),
)

module _ (c : Reference) (verbose : Bool) (size cap : ℕ) (opts : List ChannelOption)
    (sent_at : List ℕ) where
  abbrev Reached : System → Type 0
  Reached s =
      Reach (reporting c verbose size cap) (new_system (reporting c verbose size cap) opts sent_at)
        s

  closed-returned : {s : System} → Reached s → s.lifecycle.shutdown ≡ true → s.stage ≡ returned
  closed-returned {s} r d = not_looping s.stage (
      omega (
        arith,
        loop_over (reached-IsSeen (reporting c verbose size cap) opts sent_at r) d,
        tally-split looping s.closers (as_loop s.stage) [],
      ))

  -- The same once a call of `Close` has called the dispatcher's.
  pub disposed_reports :
      (f : Message → ℕ) {s : System}
      → Reached s
      → 0 < s.lifecycle.dispatcher_closes
      → (accepted_by f s ≡ told f s.log + weigh f s.lost)
        × (weigh f s.taken ≡ told f s.log + weigh f s.lost)
        × (s.senders ≡ [])
        × (s.race.queue.ch.buffer ≡ [])
        × (s.pending.pending ≡ none)
        × (s.race.queue.closed ≡ true)
        × (s.lifecycle.shutdown ≡ true)
        × (s.lifecycle.dispatcher_closes ≡ 1)
  disposed_reports f {s} r h =
      let view = close_once (reached-IsSeen (reporting c verbose size cap) opts sent_at r) in
      let d = view.2 h in
      let ordered = reached-IsOrdered (reporting c verbose size cap) opts sent_at r in
      let (no_senders, no_buffer, no_pending, flag) = rests s ordered (closed-returned r d) in
      let all_told : weigh f s.taken ≡ told f s.log + weigh f s.lost = omega (
        arith,
        reached-IsBalanced f c verbose size cap opts sent_at r,
        ap (owes f) no_senders,
        ap (weigh f) no_buffer,
        ap (λ b. weigh f (bodies (elements b))) no_pending,
      ) in
      (
        (reached-IsAccounted (reporting c verbose size cap) f opts sent_at r).nils ∙ all_told,
        all_told,
        no_senders,
        no_buffer,
        no_pending,
        flag,
        d,
        omega (arith, h, view.1),
      )

  -- However its goroutines interleave, once a call of `Close` has returned nil on a client that
  -- `NewWithConfig` made with a callback: `c.shutdown` is closed and the dispatcher closed once; the
  -- queue is closed and empty, no batch is pending and no goroutine sends; and each message with which an
  -- `Enqueue` or `TryEnqueue` of the queue has returned nil, which are those that the queue has taken,
  -- has been reported to the callback as often as it was accepted, or was lost when the dispatcher or
  -- the callback panicked while its batch was sent or reported.
  pub close_reports :
      (f : Message → ℕ) {s : System}
      → Reached s
      → 0 < tally returned_nil s.closers
      → (accepted_by f s ≡ told f s.log + weigh f s.lost)
        × (weigh f s.taken ≡ told f s.log + weigh f s.lost)
        × (s.senders ≡ [])
        × (s.race.queue.ch.buffer ≡ [])
        × (s.pending.pending ≡ none)
        × (s.race.queue.closed ≡ true)
        × (s.lifecycle.shutdown ≡ true)
        × (s.lifecycle.dispatcher_closes ≡ 1)
  close_reports f {s} r h =
      let view = close_once (reached-IsSeen (reporting c verbose size cap) opts sent_at r) in
      let nil = tally-split returned_nil s.closers (as_loop s.stage) [] in
      disposed_reports f r (omega (arith, h, nil, view.0))
