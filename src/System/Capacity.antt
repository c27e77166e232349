-- ===== src/System/Capacity.antt =====
-- The executor of internal/core/executor.go inside the client as a whole (internal/core/analytics.go): how
-- many goroutines send at once, and when the loop's batch is refused.
use origamy_go_sdk.Base.{
  ℕ, ◌+◌, ◌≡◌, ◌≤◌, ◌↔◌, subst, Bool, true, false, Option, List, arith, length,
}
use origamy_go_sdk.Data.{Result, ok, err}
use origamy_go_sdk.Log.{LogEntry}
use origamy_go_sdk.Message.{Message}
use origamy_go_sdk.Batch.{Serialized, MessageQueue, make_message, max_message_bytes, push, flush}
use origamy_go_sdk.Queue.{ChannelOption, Receive, received, ended, waiting}
use origamy_go_sdk.Client.Loop.{Settings}
use origamy_go_sdk.System.{
  Stage, selecting, closing, draining, joining, returned, System, Case, message_case, tick_case,
  quit_case, on_message, on_left, admits, loop_at, loop_act, queue_acts, loop_acts, sender_acts,
  closer_acts, gives_back, Step, moves, calls, closes, Reach, start, next, new_system,
}
use origamy_go_sdk.System.Turns.{hand_over, made, push_turn, flush_turn, exceeded, flushing}
use origamy_go_sdk.System.Invariant.{Always, guarded}
use origamy_go_sdk.System.Invariant.Steps.{reached-IsOrdered}

-- The goroutines that a turn starts: one at most, and none where the executor refuses.
abbrev room : Bool → ℕ
room true = 1
room false = 0

module _ (cfg : Settings) where
  abbrev pub IsCapped : System → Type 0
  IsCapped s = s.size ≤ cfg.max_concurrent_requests

  hand_over-starts :
      (b : Bool) (entry : LogEntry) (batch : Option (List Serialized)) (q : MessageQueue)
      → length (hand_over cfg b entry batch q).started ≤ room b
  unfolding hand_over
  hand_over-starts b entry batch q = ground arith

  made-starts :
      (m : Message) (b : Bool) (q : MessageQueue) (r : Result Serialized)
      → length (made cfg m b q r).started ≤ room b
  made-starts m b q (err e) = ground arith
  made-starts m b q (ok x) = hand_over-starts b (exceeded (push x q).0) (push x q).0 (push x q).1

  push_turn-starts :
      (m : Message) (r : Result (List ℕ)) (b : Bool) (q : MessageQueue)
      → length (push_turn cfg m r b q).started ≤ room b
  unfolding push_turn
  push_turn-starts m r b q = made-starts m b q (make_message m r max_message_bytes)

  flush_turn-starts : (b : Bool) (q : MessageQueue) → length (flush_turn cfg b q).started ≤ room b
  unfolding flush_turn
  flush_turn-starts b q = hand_over-starts b (flushing (flush q).0) (flush q).0 (flush q).1

  turn-IsCapped :
      (s : System) (n : ℕ)
      → n ≤ room (admits cfg s)
      → IsCapped s
      → s.size + n ≤ cfg.max_concurrent_requests
  turn-IsCapped s n h v = ground (arith, h, v)

  message-IsCapped :
      (s : System) (r : Result (List ℕ)) (x : Receive Message)
      → IsCapped s
      → Always IsCapped (on_message cfg r (admits cfg s) s x)
  message-IsCapped s r (received m c) v =
      turn-IsCapped s _ (push_turn-starts m r (admits cfg s) s.pending) v
  message-IsCapped s r ended v = v
  message-IsCapped s r waiting v = tt

  left-IsCapped :
      (s : System) (r : Result (List ℕ)) (x : Receive Message)
      → IsCapped s
      → Always IsCapped (on_left cfg r (admits cfg s) s x)
  left-IsCapped s r (received m c) v =
      turn-IsCapped s _ (push_turn-starts m r (admits cfg s) s.pending) v
  left-IsCapped s r ended v = turn-IsCapped s _ (flush_turn-starts (admits cfg s) s.pending) v
  left-IsCapped s r waiting v = tt

  loop_at-IsCapped :
      (p : Stage) (k : Case) (s : System) → IsCapped s → Always IsCapped (loop_at cfg p k s)
  loop_at-IsCapped selecting (message_case r) s v = message-IsCapped s r _ v
  loop_at-IsCapped selecting tick_case s v =
      turn-IsCapped s _ (flush_turn-starts (admits cfg s) s.pending) v
  loop_at-IsCapped selecting quit_case s v = guarded IsCapped s.lifecycle.quit _ (λ h. v)
  loop_at-IsCapped closing k s v = guarded IsCapped _ _ (λ h. v)
  loop_at-IsCapped draining (message_case r) s v = left-IsCapped s r _ v
  loop_at-IsCapped draining tick_case s v = tt
  loop_at-IsCapped draining quit_case s v = tt
  loop_at-IsCapped joining k s v = guarded IsCapped _ _ (λ h. v)
  loop_at-IsCapped returned k s v = tt

  Step-IsCapped : {s u : System} → Step cfg s u → IsCapped s → IsCapped u
  unfolding loop_act
  Step-IsCapped (moves (queue_acts xs t ys a split e c)) v = v
  Step-IsCapped {s} (moves (loop_acts k e)) v =
      subst (Always IsCapped) e (loop_at-IsCapped s.stage k s v)
  Step-IsCapped (moves (sender_acts xs t ys ch o split e)) v = v
  Step-IsCapped (moves (gives_back n e)) v = omega (arith, v)
  Step-IsCapped (moves (closer_acts xs t ys d a split e)) v = v
  Step-IsCapped (calls b c) v = v
  Step-IsCapped closes v = v

  Reach-IsCapped : {s u : System} → Reach cfg s u → IsCapped s → IsCapped u
  Reach-IsCapped start v = v
  Reach-IsCapped (next r st) v = Step-IsCapped st (Reach-IsCapped r v)

  -- However the goroutines of a client that `NewWithConfig` made interleave: those that send a batch and
  -- those that have yet to do `e.size--` number at most `maxConcurrentRequests`, the wait group counts no
  -- more than that, and the executor refuses the next batch exactly when they number as many.
  pub reached_capped :
      (opts : List ChannelOption) (sent_at : List ℕ) {s : System}
      → Reach cfg (new_system cfg opts sent_at) s
      → (length s.senders + s.returning ≤ cfg.max_concurrent_requests)
        × (s.wait ≤ cfg.max_concurrent_requests)
        × (admits cfg s ≡ false ↔ length s.senders + s.returning ≡ cfg.max_concurrent_requests)
  reached_capped opts sent_at {s} r =
      let v = reached-IsOrdered cfg opts sent_at r in
      let c = Reach-IsCapped r (omega arith) in
      (omega (arith, v.slots, c), omega (arith, v.slots, v.counted, c), ground (arith, v.slots))
