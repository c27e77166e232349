-- ===== src/System/Invariant/Loop.antt =====
-- The actions of the loop of internal/core/analytics.go keep the client as a whole in order.
use origamy_go_sdk.Base.{
  ℕ, ◌≡◌, refl, ap, ◌∙◌, Bool, true, false, Option, none, List, [], arith, length-append,
}
use origamy_go_sdk.Data.{Result}
use origamy_go_sdk.Log.{LogEntry}
use origamy_go_sdk.Message.{Message}
use origamy_go_sdk.Batch.{Serialized, MessageQueue, flush}
use origamy_go_sdk.Client.Send.{Effect}
use origamy_go_sdk.Client.Close.{Lifecycle}
use origamy_go_sdk.Queue.{Chan, Receive, received, ended, waiting, receive}
use origamy_go_sdk.Queue.Race.{close_begins}
use origamy_go_sdk.Queue.Race.Invariant.{Begins-IsSound, is_finished}
use origamy_go_sdk.Client.Loop.{Settings}
use origamy_go_sdk.System.{
  on_message, on_left, on_quit, Stage, selecting, closing, draining, joining, returned, System,
  Case, message_case, tick_case, quit_case, takes_turn, with_chan, loop_at, admits,
}
use origamy_go_sdk.System.Turns.{flushing, Turn, hand_over, push_turn, flush_turn}
use origamy_go_sdk.System.Invariant.{
  has_closed, has_drained, IsOrdered, receive_takes, receive_ends, takes-IsSound, Always, guarded,
}

module _ (cfg : Settings) where
  -- A turn of the loop outside its end.
  turn-IsOrdered :
      (s : System) (t : Turn)
      → has_drained s.stage ≡ false
      → IsOrdered s
      → IsOrdered (takes_turn cfg t s)
  turn-IsOrdered s t h v = record {
    sound = v.sound;
    counted = omega (arith, v.counted, length-append t.started s.senders);
    slots = omega (arith, v.slots, length-append t.started s.senders);
    shut = v.shut;
    empty = v.empty;
    idle = ground arith;
    joined = ground arith;
    over = ground arith;
  }

  receive-IsOrdered :
      (s : System) (c : Chan Message) (m : Message)
      → receive s.race.queue.ch ≡ received m c
      → IsOrdered s
      → IsOrdered (with_chan cfg c s)
  receive-IsOrdered s c m e v =
      let (b, sh, n) = receive_takes s.race.queue.ch c m e in
      record {
        sound = takes-IsSound s.race c m e v.sound;
        counted = v.counted;
        slots = v.slots;
        shut = λ h. sh ∙ v.shut h;
        empty = λ h. ground (arith, b, v.empty h);
        idle = v.idle;
        joined = v.joined;
        over = v.over;
      }

  hand_over-keeps :
      (admits : Bool) (entry : LogEntry) (b : Option (List Serialized)) (q : MessageQueue)
      → (hand_over cfg admits entry b q).pending ≡ q
  unfolding hand_over
  hand_over-keeps admits entry b q = ground arith

  flush_turn-empties :
      (admits : Bool) (q : MessageQueue) → (flush_turn cfg admits q).pending.pending ≡ none
  unfolding flush_turn flush
  flush_turn-empties admits q =
      ap (λ p. p.pending) (hand_over-keeps admits (flushing (flush q).0) (flush q).0 (flush q).1)

  message-IsOrdered :
      (s : System) (r : Result (List ℕ)) (admits : Bool) (x : Receive Message)
      → s.stage ≡ selecting
      → receive s.race.queue.ch ≡ x
      → IsOrdered s
      → Always IsOrdered (on_message cfg r admits s x)
  message-IsOrdered s r admits (received m c) p e v =
      turn-IsOrdered (with_chan cfg c s) (push_turn cfg m r admits s.pending) (ap has_drained p)
        (receive-IsOrdered s c m e v)
  message-IsOrdered s r admits ended p e v = v
  message-IsOrdered s r admits waiting p e v = tt

  last_turn-IsOrdered :
      (s : System) (t : Turn) (log : List Effect)
      → t.pending.pending ≡ none
      → s.race.queue.ch.buffer ≡ []
      → s.race.queue.ch.is_shut ≡ true
      → IsOrdered s
      → IsOrdered (record (takes_turn cfg t s) { stage = joining; log = log })
  last_turn-IsOrdered s t log n b sh v = record {
    sound = v.sound;
    counted = omega (arith, v.counted, length-append t.started s.senders);
    slots = omega (arith, v.slots, length-append t.started s.senders);
    shut = λ h. sh;
    empty = λ h. b;
    idle = λ h. n;
    joined = ground arith;
    over = ground arith;
  }

  left-IsOrdered :
      (s : System) (r : Result (List ℕ)) (admits : Bool) (x : Receive Message)
      → s.stage ≡ draining
      → receive s.race.queue.ch ≡ x
      → IsOrdered s
      → Always IsOrdered (on_left cfg r admits s x)
  left-IsOrdered s r admits (received m c) p e v =
      turn-IsOrdered (with_chan cfg c s) (push_turn cfg m r admits s.pending) (ap has_drained p)
        (receive-IsOrdered s c m e v)
  left-IsOrdered s r admits ended p e v =
      let (b, sh) = receive_ends s.race.queue.ch e in
      last_turn-IsOrdered s (flush_turn cfg admits s.pending) _
        (flush_turn-empties admits s.pending) b sh v
  left-IsOrdered s r admits waiting p e v = tt

  quit-IsOrdered : (s : System) → s.stage ≡ selecting → IsOrdered s → IsOrdered (on_quit cfg s)
  quit-IsOrdered s p v = record {
    sound = Begins-IsSound s.race _ close_begins v.sound;
    counted = v.counted;
    slots = v.slots;
    shut = ground arith;
    empty = ground arith;
    idle = ground arith;
    joined = ground arith;
    over = ground arith;
  }

  drains-IsOrdered :
      (s : System)
      → is_finished s.race.queue.close_once ≡ true
      → IsOrdered s
      → IsOrdered (record s { stage = draining })
  drains-IsOrdered s f v = record {
    sound = v.sound;
    counted = v.counted;
    slots = v.slots;
    shut = λ h. v.sound.shut ∙ f;
    empty = ground arith;
    idle = ground arith;
    joined = ground arith;
    over = ground arith;
  }

  returns-IsOrdered :
      (s : System) (l : Lifecycle)
      → s.stage ≡ joining
      → s.wait ≡ 0
      → l.shutdown ≡ true
      → IsOrdered s
      → IsOrdered (record s { stage = returned; lifecycle = l })
  returns-IsOrdered s l p w d v = record {
    sound = v.sound;
    counted = v.counted;
    slots = v.slots;
    shut = λ h. v.shut (ap has_closed p);
    empty = λ h. v.empty (ap has_drained p);
    idle = λ h. v.idle (ap has_drained p);
    joined = λ h. w;
    over = λ h. d;
  }

  pub loop_at-IsOrdered :
      (p : Stage) (k : Case) (s : System)
      → s.stage ≡ p
      → IsOrdered s
      → Always IsOrdered (loop_at cfg p k s)
  loop_at-IsOrdered selecting (message_case r) s e v =
      message-IsOrdered s r (admits cfg s) _ e refl v
  loop_at-IsOrdered selecting tick_case s e v =
      turn-IsOrdered s (flush_turn cfg (admits cfg s) s.pending) (ap has_drained e) v
  loop_at-IsOrdered selecting quit_case s e v =
      guarded IsOrdered s.lifecycle.quit _ (λ h. quit-IsOrdered s e v)
  loop_at-IsOrdered closing k s e v = guarded IsOrdered _ _ (λ h. drains-IsOrdered s h v)
  loop_at-IsOrdered draining (message_case r) s e v = left-IsOrdered s r (admits cfg s) _ e refl v
  loop_at-IsOrdered draining tick_case s e v = tt
  loop_at-IsOrdered draining quit_case s e v = tt
  loop_at-IsOrdered joining k s e v =
      guarded IsOrdered _ _ (λ h. returns-IsOrdered s _ e (ground (arith, h)) refl v)
  loop_at-IsOrdered returned k s e v = tt
