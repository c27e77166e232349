-- ===== src/System/Invariant/Steps.antt =====
-- The steps of the client as a whole (internal/core/analytics.go) keep it in order.
use origamy_go_sdk.Base.{
  ℕ, suc, ◌-◌, ◌≡◌, refl, subst, ap, ◌∙◌, Option, some, List, ◌∷◌, ◌++◌, arith, length, ap₂, true,
}
use origamy_go_sdk.Message.{Message}
use origamy_go_sdk.Client.Send.{Effect}
use origamy_go_sdk.Client.Close
use origamy_go_sdk.Client.Close.{Lifecycle}
use origamy_go_sdk.Queue.{ChannelOption}
use origamy_go_sdk.Queue.Race
use origamy_go_sdk.Queue.Race.{close_begins}
use origamy_go_sdk.Queue.Race.Invariant.{IsSound, acts-IsSound, Begins-IsSound}
use origamy_go_sdk.Queue.Race.History.{sent_by, act-shut}
use origamy_go_sdk.Queue.Race.Faults.{fresh-IsSound}
use origamy_go_sdk.Client.Loop.{Settings}
use origamy_go_sdk.System.Sending.{Sender}
use origamy_go_sdk.System.{
  System, IsCall, loop_act, Moves, queue_acts, loop_acts, sender_acts, closer_acts, gives_back,
  Step, moves, calls, closes, kept, leave, back, Reach, start, next, new_system,
}
use origamy_go_sdk.System.Invariant.{
  drained_closed, IsOrdered, act_appends, Always, leaves, slots_kept,
}
use origamy_go_sdk.System.Invariant.Loop.{loop_at-IsOrdered}

-- `c.shutdown` is not opened again.
act-shutdown :
    (d : Close.Ending) (l : Lifecycle) (t : Close.Thread) (a : Close.Action)
    → Close.act d l t ≡ some a
    → l.shutdown ≡ true
    → a.0.shutdown ≡ true
unfolding Close.act
act-shutdown d l t a e h = ground arith

module _ (cfg : Settings) where
  queue_acts-IsOrdered :
      (s : System) (xs ys : List (Race.Thread Message)) (t : Race.Thread Message)
      (a : Race.Action Message)
      → s.race.threads ≡ xs ++ t ∷ ys
      → Race.act s.race.queue t ≡ some a
      → IsCall t
      → IsOrdered s
      → IsOrdered (record s {
        race = record { queue = a.queue; threads = xs ++ a.thread ∷ ys };
        taken = s.taken ++ sent_by a.event;
      })
  queue_acts-IsOrdered s xs ys t a split e c v = record {
    sound =
        acts-IsSound s.race.queue xs t ys a
          (subst (λ ts. IsSound (record { queue = s.race.queue; threads = ts })) split v.sound) e;
    counted = v.counted;
    slots = v.slots;
    shut = λ h. (act-shut s.race.queue t a (v.shut h) e).0;
    empty = λ h.
        act_appends s.race.queue t a c e
        ∙ ap₂ ◌++◌ (v.empty h) (act-shut s.race.queue t a (v.shut (drained_closed s.stage h)) e).1;
    idle = v.idle;
    joined = v.joined;
    over = v.over;
  }

  senders-IsOrdered :
      (s : System) (xs ys : List Sender) (t : Sender) (u : Option Sender) (log : List Effect)
      (lost : List Message)
      → s.senders ≡ xs ++ t ∷ ys
      → IsOrdered s
      → IsOrdered (record s {
        senders = xs ++ (kept u ++ ys);
        wait = leave u s.wait;
        returning = back u s.returning;
        log = log;
        lost = lost;
      })
  senders-IsOrdered s xs ys t u log lost split v = record {
    sound = v.sound;
    counted = ground (arith, leaves xs ys t u, v.counted, ap length split);
    slots = omega (arith, slots_kept xs ys t u s.returning, v.slots, ap length split);
    shut = v.shut;
    empty = v.empty;
    idle = v.idle;
    joined = λ h. ground (arith, leaves xs ys t u, v.counted, ap length split, v.joined h);
    over = v.over;
  }

  gives_back-IsOrdered :
      (s : System) (n : ℕ)
      → s.returning ≡ suc n
      → IsOrdered s
      → IsOrdered (record s { size = s.size - 1; returning = n })
  gives_back-IsOrdered s n e v = record {
    sound = v.sound;
    counted = v.counted;
    slots = omega (arith, v.slots, e);
    shut = v.shut;
    empty = v.empty;
    idle = v.idle;
    joined = v.joined;
    over = v.over;
  }

  closers-IsOrdered :
      (s : System) (l : Lifecycle) (cs : List Close.Thread)
      → (s.lifecycle.shutdown ≡ true → l.shutdown ≡ true)
      → IsOrdered s
      → IsOrdered (record s { lifecycle = l; closers = cs })
  closers-IsOrdered s l cs k v = record {
    sound = v.sound;
    counted = v.counted;
    slots = v.slots;
    shut = v.shut;
    empty = v.empty;
    idle = v.idle;
    joined = v.joined;
    over = λ h. k (v.over h);
  }

  calls-IsOrdered :
      (s : System) (ts : List (Race.Thread Message))
      → IsSound (record s.race { threads = ts })
      → IsOrdered s
      → IsOrdered (record s { race = record s.race { threads = ts } })
  calls-IsOrdered s ts w v = record {
    sound = w;
    counted = v.counted;
    slots = v.slots;
    shut = v.shut;
    empty = v.empty;
    idle = v.idle;
    joined = v.joined;
    over = v.over;
  }

  Moves-IsOrdered : {s u : System} → Moves cfg s u → IsOrdered s → IsOrdered u
  unfolding loop_act
  Moves-IsOrdered {s} (queue_acts xs t ys a split e c) v =
      queue_acts-IsOrdered s xs ys t a split e c v
  Moves-IsOrdered {s} (loop_acts k e) v =
      subst (Always IsOrdered) e (loop_at-IsOrdered cfg s.stage k s refl v)
  Moves-IsOrdered {s} (sender_acts xs t ys ch o split e) v =
      senders-IsOrdered s xs ys t o.sender _ _ split v
  Moves-IsOrdered {s} (gives_back n e) v = gives_back-IsOrdered s n e v
  Moves-IsOrdered {s} (closer_acts xs t ys d a split e) v =
      closers-IsOrdered s a.0 _ (act-shutdown d s.lifecycle t a e) v

  pub Step-IsOrdered : {s u : System} → Step cfg s u → IsOrdered s → IsOrdered u
  Step-IsOrdered (moves m) v = Moves-IsOrdered m v
  Step-IsOrdered {s} (calls b c) v = calls-IsOrdered s _ (Begins-IsSound s.race _ b v.sound) v
  Step-IsOrdered {s} closes v = closers-IsOrdered s s.lifecycle _ (λ h. h) v

  pub Reach-IsOrdered : {s u : System} → Reach cfg s u → IsOrdered s → IsOrdered u
  Reach-IsOrdered start v = v
  Reach-IsOrdered (next r st) v = Step-IsOrdered st (Reach-IsOrdered r v)

  pub new-IsOrdered :
      (opts : List ChannelOption) (sent_at : List ℕ) → IsOrdered (new_system cfg opts sent_at)
  new-IsOrdered opts sent_at = record {
    sound = fresh-IsSound Message opts;
    counted = refl;
    slots = refl;
    shut = ground arith;
    empty = ground arith;
    idle = ground arith;
    joined = ground arith;
    over = ground arith;
  }

  pub reached-IsOrdered :
      (opts : List ChannelOption) (sent_at : List ℕ) {s : System}
      → Reach cfg (new_system cfg opts sent_at) s
      → IsOrdered s
  reached-IsOrdered opts sent_at r = Reach-IsOrdered r (new-IsOrdered opts sent_at)
