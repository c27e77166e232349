-- ===== src/System/Progress.antt =====
-- The end of the loop of internal/core/analytics.go does not wait for ever: once `c.quit` is closed, the loop,
-- or a goroutine that it waits for, can act.
use origamy_go_sdk.Base.{
  ℕ, zero, suc, ◌+◌, ◌≡◌, ◌≢◌, refl, ap, ◌∙◌, ◌<◌, Bool, true, false, Option, none, some, List, [],
  ◌∷◌, ◌++◌, arith, length, ◌==◌, if◌then◌else◌,
}
use origamy_go_sdk.Data.{Reference, ok}
use origamy_go_sdk.Message.{Message}
use origamy_go_sdk.Queue
use origamy_go_sdk.Queue.{
  Chan, ChannelOption, Receive, received, ended, waiting, receive, Once, fresh, running, finished,
}
use origamy_go_sdk.Queue.Race
use origamy_go_sdk.Queue.Race.{Thread, close_enter, close_store, close_chan, Begins}
use origamy_go_sdk.Queue.Race.Invariant.{holder, is_finished, tally, inside}
use origamy_go_sdk.Client.Loop.{Settings}
use origamy_go_sdk.Client.Send.{accepted, timer}
use origamy_go_sdk.System.Sending
use origamy_go_sdk.System.Sending.{
  Sender, starting, attempting, pausing, finishing, Choice, marshals, replies, wakes, goes, Outcome,
}
use origamy_go_sdk.System.{
  Stage, selecting, closing, draining, joining, returned, System, IsCall, Case, message_case,
  quit_case, on_left, on_quit, loop_at, admits, loop_act, Moves, queue_acts, loop_acts, sender_acts,
  closer_acts, gives_back, Reach, new_system,
}
use origamy_go_sdk.System.Entering.{at_enter, IsEntering, Reach-IsEntering}
use origamy_go_sdk.System.Invariant.{has_closed, IsOrdered}
use origamy_go_sdk.System.Invariant.Steps.{reached-IsOrdered}

abbrev Found : (Thread Message → ℕ) → List (Thread Message) → Type 0
Found g ts =
    (xs : List (Thread Message)) × (t : Thread Message) × (ys : List (Thread Message)) × (ts
      ≡ xs ++ t ∷ ys)
    × (0 < g t)

found :
    (g : Thread Message → ℕ) (t : Thread Message) (ts : List (Thread Message)) (n : ℕ)
    → g t ≡ n
    → 0 < g t + tally g ts
    → (0 < tally g ts → Found g ts)
    → Found g (t ∷ ts)
found g t ts (suc n) e h later = ([], t, ts, refl, omega (arith, e))
found g t ts zero e h later =
    let (xs, u, ys, split, pos) = later (omega (arith, e, h)) in
    (t ∷ xs, u, ys, ap (λ l. t ∷ l) split, pos)

pub find : (g : Thread Message → ℕ) (ts : List (Thread Message)) → 0 < tally g ts → Found g ts
find g [] h = ground arith
find g (t ∷ ts) h = found g t ts (g t) refl h (find g ts)

-- Closing the queue, and not a call of another method.
abbrev pub IsClose : Thread Message → Type 0
IsClose close_enter = Unit
IsClose close_store = Unit
IsClose close_chan = Unit
IsClose _ = ⊥

enter_acts :
    (q : Queue.ChannelQueue Message) (t : Thread Message)
    → q.close_once ≡ fresh
    → 0 < at_enter t
    → IsClose t × IsCall t × ((a : Race.Action Message) × (Race.act q t ≡ some a))
unfolding Race.act
enter_acts q close_enter f h =
    (tt, tt, (_, ap (λ o. Race.act (record q { close_once = o }) close_enter) f))
enter_acts q t f h = ground arith

pub chan_acts :
    (q : Queue.ChannelQueue Message) (b : Bool)
    → q.ch.is_shut ≡ b
    → (a : Race.Action Message) × (Race.act q close_chan ≡ some a)
unfolding Race.act
chan_acts q true e =
    (_, ap (λ b. Race.act (record q { ch = record q.ch { is_shut = b } }) close_chan) e)
chan_acts q false e =
    (_, ap (λ b. Race.act (record q { ch = record q.ch { is_shut = b } }) close_chan) e)

inside_acts :
    (q : Queue.ChannelQueue Message) (t : Thread Message)
    → 0 < inside t
    → IsClose t × IsCall t × ((a : Race.Action Message) × (Race.act q t ≡ some a))
unfolding Race.act
inside_acts q close_store h = (tt, tt, (_, refl))
inside_acts q close_chan h = (tt, tt, chan_acts q q.ch.is_shut refl)
inside_acts q t h = ground arith

pub never_waits : (ch : Chan Message) → ch.is_shut ≡ true → receive ch ≢ waiting
never_waits ch h e = ground arith

abbrev pub returns : System → System
returns s = record s { stage = returned; lifecycle = record s.lifecycle { shutdown = true } }

pub sender_can :
    (c : Option Reference) (q : Bool) (t : Sender)
    → (ch : Choice) × (o : Outcome) × (Sending.act c q ch t ≡ some o)
unfolding Sending.act
sender_can c q (starting msgs) = (marshals (ok []), _, refl)
sender_can c q (attempting b msgs (suc left) i e) = (replies accepted, _, refl)
sender_can c q (attempting b msgs zero i e) = (goes, _, refl)
sender_can c q (pausing b msgs left i e) = (wakes timer, _, refl)
sender_can c q (finishing (e ∷ es)) = (goes, _, refl)
sender_can c q (finishing []) = (goes, _, refl)

module _ (cfg : Settings) where
  -- A move of the loop, or of a goroutine that closes the queue or sends a batch.
  abbrev pub Helps : {s u : System} → Moves cfg s u → Type 0
  Helps (queue_acts xs t ys a split e c) = IsClose t
  Helps (loop_acts k e) = Unit
  Helps (sender_acts xs t ys ch o split e) = Unit
  Helps (gives_back n e) = ⊥
  Helps (closer_acts xs t ys d a split e) = ⊥

  abbrev pub Goes : System → Type 0
  Goes s = (u : System) × (m : Moves cfg s u) × Helps m

  closer-Goes :
      (s : System)
      → ((g : Thread Message → ℕ) × (0 < tally g s.race.threads)
          × ((t : Thread Message)
              → 0 < g t
              → IsClose t
                × IsCall t
                × ((a : Race.Action Message) × (Race.act s.race.queue t ≡ some a))))
      → Goes s
  closer-Goes s (g, h, k) =
      let (xs, t, ys, split, pos) = find g s.race.threads h in
      let (is, call, (a, e)) = k t pos in (_, queue_acts xs t ys a split e call, is)

  loop-Goes :
      (s : System) (p : Stage) (k : Case) (u : System)
      → s.stage ≡ p
      → loop_at cfg p k s ≡ some u
      → Goes s
  unfolding loop_act
  loop-Goes s p k u e h = (u, loop_acts k (ap (λ p. loop_at cfg p k s) e ∙ h), tt)

  pub closing-Goes :
      (s : System) (o : Once)
      → s.stage ≡ closing
      → s.race.queue.close_once ≡ o
      → IsOrdered s
      → IsEntering s
      → Goes s
  closing-Goes s fresh e f v w = closer-Goes s (at_enter, w e f, λ t. enter_acts s.race.queue t f)
  closing-Goes s running e f v w =
      closer-Goes s
        (inside, omega (arith, v.sound.held, ap holder f), λ t. inside_acts s.race.queue t)
  closing-Goes s finished e f v w =
      loop-Goes s closing quit_case (record s { stage = draining }) e
        (ap (λ o. if is_finished o then some (record s { stage = draining }) else none) f)

  draining-Goes :
      (s : System) (x : Receive Message)
      → s.stage ≡ draining
      → receive s.race.queue.ch ≡ x
      → s.race.queue.ch.is_shut ≡ true
      → Goes s
  draining-Goes s (received m c) e f h =
      loop-Goes s draining (message_case (ok [])) _ e (ap (on_left cfg (ok []) (admits cfg s) s) f)
  draining-Goes s ended e f h =
      loop-Goes s draining (message_case (ok [])) _ e (ap (on_left cfg (ok []) (admits cfg s) s) f)
  draining-Goes s waiting e f h = absurd (never_waits s.race.queue.ch h f)

  joining-Goes :
      (s : System) (ts : List Sender)
      → s.stage ≡ joining
      → s.lifecycle.quit ≡ true
      → s.senders ≡ ts
      → IsOrdered s
      → Goes s
  joining-Goes s [] e q f v =
      loop-Goes s joining quit_case _ e
        (ap (λ n. if n == 0 then some (returns s) else none) (v.counted ∙ ap length f))
  joining-Goes s (t ∷ ts) e q f v =
      let (ch, o, can) = sender_can cfg.callback s.lifecycle.quit t in
      (_, sender_acts [] t ts ch o f can, tt)

  stage-Goes :
      (s : System) (p : Stage)
      → s.stage ≡ p
      → s.lifecycle.quit ≡ true
      → p ≢ returned
      → IsOrdered s
      → IsEntering s
      → Goes s
  stage-Goes s selecting e q n v w =
      loop-Goes s selecting quit_case (on_quit cfg s) e
        (ap (λ b. if b then some (on_quit cfg s) else none) q)
  stage-Goes s closing e q n v w = closing-Goes s s.race.queue.close_once e refl v w
  stage-Goes s draining e q n v w =
      draining-Goes s (receive s.race.queue.ch) e refl (v.shut (ap has_closed e))
  stage-Goes s joining e q n v w = joining-Goes s s.senders e q refl v
  stage-Goes s returned e q n v w = absurd (n refl)

  -- However the goroutines of a client that `NewWithConfig` made interleave, once `Close` has closed
  -- `c.quit` and as long as the loop has not returned, an action is possible that is the loop's own, or of
  -- a goroutine that closes the queue or sends a batch, for which the loop waits.
  pub close_progresses :
      (opts : List ChannelOption) (sent_at : List ℕ) {s : System}
      → Reach cfg (new_system cfg opts sent_at) s
      → s.lifecycle.quit ≡ true
      → s.stage ≢ returned
      → (u : System) × (m : Moves cfg s u) × Helps m
  close_progresses opts sent_at {s} r q n =
      stage-Goes s s.stage refl q n (reached-IsOrdered cfg opts sent_at r)
        (Reach-IsEntering cfg r (λ p f. ground (arith, p)))
