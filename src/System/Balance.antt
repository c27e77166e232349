-- ===== src/System/Balance.antt =====
-- The messages of the client as a whole (internal/core/analytics.go), however its goroutines interleave:
-- what the queue has taken is reported, lost to a panic, owed by a goroutine that sends, pending in
-- the batch, or in the queue.
use origamy_go_sdk.Base.{
  ℕ, ◌+◌, ◌≡◌, refl, subst, sym, ap, ◌∙◌, Bool, some, List, ◌∷◌, ◌++◌, arith, elements,
}
use origamy_go_sdk.Data.{Reference, Result}
use origamy_go_sdk.Message.{Message}
use origamy_go_sdk.Queue.{
  Chan, ChannelOption, Receive, received, ended, waiting, receive, new_channel_queue,
}
use origamy_go_sdk.Queue.Race
use origamy_go_sdk.Queue.Race.History.{sent_by}
use origamy_go_sdk.Client.Send.Reported.{bodies}
use origamy_go_sdk.Client.Loop.{Settings, exited, exit_requested}
use origamy_go_sdk.System.Sending
use origamy_go_sdk.System.Sending.{Sender}
use origamy_go_sdk.System.{
  Stage, selecting, closing, draining, joining, returned, System, IsCall, Case, message_case,
  tick_case, quit_case, takes_turn, with_chan, on_message, on_left, on_quit, loop_at, admits,
  loop_act, queue_acts, loop_acts, sender_acts, closer_acts, gives_back, Step, moves, calls, closes,
  kept, leave, back, Reach, start, next, new_system,
}
use origamy_go_sdk.System.Turns.{Turn, push_turn, flush_turn, debug}
use origamy_go_sdk.System.Weights.{
  weigh, weigh-append, told, told-append, owes, owes-append, act-owed, reporting, waiting_in,
  push_turn-owed, flush_turn-owed, told-debug,
}
use origamy_go_sdk.System.Invariant.{act_appends, receive_takes, Always, guarded}

module _ (f : Message → ℕ) (c : Reference) (verbose : Bool) (size cap : ℕ) where
  abbrev pub under_way : System → ℕ
  under_way s =
      told f s.log
      + weigh f s.lost
      + owes f s.senders
      + waiting_in f s.pending
      + weigh f s.race.queue.ch.buffer

  abbrev pub IsBalanced : System → Type 0
  IsBalanced s = weigh f s.taken ≡ under_way s

  abbrev cfg : Settings
  cfg = reporting c verbose size cap

  turn_balance :
      (s : System) (t : Turn) (w : ℕ)
      → told f t.effects + owes f t.started + waiting_in f t.pending ≡ waiting_in f s.pending + w
      → under_way (takes_turn cfg t s) ≡ under_way s + w
  turn_balance s t w h =
      omega (arith, h, told-append f s.log t.effects, owes-append f t.started s.senders)

  message_balance :
      (s : System) (r : Result (List ℕ)) (admits : Bool) (ch : Chan Message) (m : Message)
      → receive s.race.queue.ch ≡ received m ch
      → IsBalanced s
      → IsBalanced (takes_turn cfg (push_turn cfg m r admits s.pending) (with_chan cfg ch s))
  message_balance s r admits ch m e v = omega (
    arith,
    v,
    turn_balance (with_chan cfg ch s) (push_turn cfg m r admits s.pending) (f m)
        (push_turn-owed f c verbose size cap m r admits s.pending),
    ap (weigh f) (receive_takes s.race.queue.ch ch m e).0,
  )

  flush_balance :
      (s : System) (admits : Bool)
      → under_way (takes_turn cfg (flush_turn cfg admits s.pending) s) ≡ under_way s
  flush_balance s admits =
      let (sum, none_left) = flush_turn-owed f c verbose size cap admits s.pending in
      omega (
        arith,
        turn_balance s (flush_turn cfg admits s.pending) 0
            (omega (arith, sum, ap (λ b. weigh f (bodies (elements b))) none_left)),
      )

  received-IsBalanced :
      (s : System) (r : Result (List ℕ)) (admits : Bool) (x : Receive Message)
      → receive s.race.queue.ch ≡ x
      → IsBalanced s
      → Always IsBalanced (on_message cfg r admits s x)
  received-IsBalanced s r admits (received m ch) e v = message_balance s r admits ch m e v
  received-IsBalanced s r admits ended e v = v
  received-IsBalanced s r admits waiting e v = tt

  left-IsBalanced :
      (s : System) (r : Result (List ℕ)) (admits : Bool) (x : Receive Message)
      → receive s.race.queue.ch ≡ x
      → IsBalanced s
      → Always IsBalanced (on_left cfg r admits s x)
  left-IsBalanced s r admits (received m ch) e v = message_balance s r admits ch m e v
  left-IsBalanced s r admits ended e v =
      let t = flush_turn cfg admits s.pending in
      omega (
        arith,
        v,
        flush_balance s admits,
        told-debug f c verbose size cap exited,
        told-append f s.log t.effects,
        told-append f s.log (t.effects ++ debug cfg exited),
        told-append f t.effects (debug cfg exited),
      )
  left-IsBalanced s r admits waiting e v = tt

  quit-IsBalanced : (s : System) → IsBalanced s → IsBalanced (on_quit cfg s)
  quit-IsBalanced s v = omega (
    arith,
    v,
    told-debug f c verbose size cap exit_requested,
    told-append f s.log (debug cfg exit_requested),
  )

  loop_at-IsBalanced :
      (p : Stage) (k : Case) (s : System) → IsBalanced s → Always IsBalanced (loop_at cfg p k s)
  loop_at-IsBalanced selecting (message_case r) s v =
      received-IsBalanced s r (admits cfg s) _ refl v
  loop_at-IsBalanced selecting tick_case s v = v ∙ sym (flush_balance s (admits cfg s))
  loop_at-IsBalanced selecting quit_case s v =
      guarded IsBalanced s.lifecycle.quit _ (λ h. quit-IsBalanced s v)
  loop_at-IsBalanced closing k s v = guarded IsBalanced _ _ (λ h. v)
  loop_at-IsBalanced draining (message_case r) s v = left-IsBalanced s r (admits cfg s) _ refl v
  loop_at-IsBalanced draining tick_case s v = tt
  loop_at-IsBalanced draining quit_case s v = tt
  loop_at-IsBalanced joining k s v = guarded IsBalanced _ _ (λ h. v)
  loop_at-IsBalanced returned k s v = tt

  queue_acts-IsBalanced :
      (s : System) (t : Race.Thread Message) (a : Race.Action Message)
      (ts : List (Race.Thread Message))
      → Race.act s.race.queue t ≡ some a
      → IsCall t
      → IsBalanced s
      → IsBalanced (record s {
        race = record { queue = a.queue; threads = ts };
        taken = s.taken ++ sent_by a.event;
      })
  queue_acts-IsBalanced s t a ts e k v = omega (
    arith,
    v,
    weigh-append f s.taken (sent_by a.event),
    weigh-append f s.race.queue.ch.buffer (sent_by a.event),
    ap (weigh f) (act_appends s.race.queue t a k e),
  )

  senders-IsBalanced :
      (s : System) (xs ys : List Sender) (t : Sender) (ch : Sending.Choice) (o : Sending.Outcome)
      → s.senders ≡ xs ++ t ∷ ys
      → Sending.act (some c) s.lifecycle.quit ch t ≡ some o
      → IsBalanced s
      → IsBalanced (record s {
        senders = xs ++ (kept o.sender ++ ys);
        wait = leave o.sender s.wait;
        returning = back o.sender s.returning;
        log = s.log ++ o.effects;
        lost = s.lost ++ o.lost;
      })
  senders-IsBalanced s xs ys t ch o split e v = omega (
    arith,
    v,
    told-append f s.log o.effects,
    weigh-append f s.lost o.lost,
    act-owed f c s.lifecycle.quit ch t o e,
    ap (owes f) split,
    owes-append f xs (t ∷ ys),
    owes-append f xs (kept o.sender ++ ys),
    owes-append f (kept o.sender) ys,
  )

  Step-IsBalanced : {s u : System} → Step cfg s u → IsBalanced s → IsBalanced u
  unfolding loop_act
  Step-IsBalanced {s} (moves (queue_acts xs t ys a split e k)) v =
      queue_acts-IsBalanced s t a (xs ++ a.thread ∷ ys) e k v
  Step-IsBalanced {s} (moves (loop_acts k e)) v =
      subst (Always IsBalanced) e (loop_at-IsBalanced s.stage k s v)
  Step-IsBalanced {s} (moves (sender_acts xs t ys ch o split e)) v =
      senders-IsBalanced s xs ys t ch o split e v
  Step-IsBalanced (moves (gives_back n e)) v = v
  Step-IsBalanced (moves (closer_acts xs t ys d a split e)) v = v
  Step-IsBalanced (calls b k) v = v
  Step-IsBalanced closes v = v

  Reach-IsBalanced : {s u : System} → Reach cfg s u → IsBalanced s → IsBalanced u
  Reach-IsBalanced start v = v
  Reach-IsBalanced (next r st) v = Step-IsBalanced st (Reach-IsBalanced r v)

  -- However the goroutines interleave: each message that the queue has taken is, as often as it was
  -- taken, reported, lost to a panic of the dispatcher or of the callback, with a goroutine that sends,
  -- pending, or in the queue.
  pub reached-IsBalanced :
      (opts : List ChannelOption) (sent_at : List ℕ) {s : System}
      → Reach cfg (new_system cfg opts sent_at) s
      → IsBalanced s
  unfolding new_channel_queue
  reached-IsBalanced opts sent_at r = Reach-IsBalanced r (omega arith)
