-- ===== src/System/Bounded/Ends.antt =====
-- The steps of the client as a whole (internal/core/analytics.go) against what is left to do, once its loop
-- ranges over what the closed queue holds.
use origamy_go_sdk.Base.{
  ℕ, ◌+◌, ◌≡◌, ◌≢◌, ◌≤◌, ◌<◌, refl, subst, ap, ◌∙◌, Bool, true, Option, none, some, List, [], ◌∷◌,
  ◌++◌, arith, length, ◌==◌, if◌then◌else◌,
}
use origamy_go_sdk.Base.{append-nil}
use origamy_go_sdk.Data.{Result, ok}
use origamy_go_sdk.Message.{Message}
use origamy_go_sdk.Queue.{ChannelOption, Receive, received, ended, waiting, receive}
use origamy_go_sdk.Queue.Race
use origamy_go_sdk.Queue.Race.{Thread}
use origamy_go_sdk.Queue.Race.History.{act-shut}
use origamy_go_sdk.Client.Loop.{Settings}
use origamy_go_sdk.System.Sending
use origamy_go_sdk.System.Sending.{Sender, Choice, Outcome}
use origamy_go_sdk.System.{
  Stage, selecting, closing, draining, joining, returned, System, IsCall, Case, message_case,
  tick_case, quit_case, on_left, admits, loop_at, loop_act, kept, back, Moves, queue_acts,
  loop_acts, sender_acts, closer_acts, gives_back, Step, moves, calls, closes, Reach, new_system,
}
use origamy_go_sdk.System.Turns.{push_turn, flush_turn}
use origamy_go_sdk.System.Invariant.{
  Always, guarded, IsOrdered, has_closed, act_appends, receive_takes,
}
use origamy_go_sdk.System.Invariant.Steps.{Step-IsOrdered, reached-IsOrdered}
use origamy_go_sdk.System.Progress.{never_waits, sender_can, returns}
use origamy_go_sdk.System.Bounded.{
  costs, costs-append, remaining, act-costs, push_turn-costs, flush_turn-costs,
}

module _ (cfg : Settings) where
  -- The moves of the loop, of a goroutine that sends and of the executor.
  abbrev pub work : {s u : System} → Moves cfg s u → ℕ
  work (queue_acts xs t ys a split e c) = 0
  work (loop_acts k e) = 1
  work (sender_acts xs t ys ch o split e) = 1
  work (gives_back n e) = 1
  work (closer_acts xs t ys d a split e) = 0

  abbrev pub step_work : {s u : System} → Step cfg s u → ℕ
  step_work (moves m) = work m
  step_work (calls b c) = 0
  step_work closes = 0

  -- Any number of steps, with how many of them are such moves.
  pub data Works (s : System) : ℕ → System → Type 0 where
    stay : Works s 0 s
    onward :
        {n : ℕ} {t u : System} → Works s n t → (st : Step cfg t u) → Works s (n + step_work st) u

  -- Less is left than of a state, and the loop does not go back.
  abbrev Nearer : System → System → Type 0
  Nearer s u = (remaining u < remaining s) × (has_closed u.stage ≡ true)

  left-Nearer :
      (s : System) (r : Result (List ℕ)) (b : Bool) (x : Receive Message)
      → s.stage ≡ draining
      → receive s.race.queue.ch ≡ x
      → Always (Nearer s) (on_left cfg r b s x)
  left-Nearer s r b (received m c) p e = (
    ground (
      arith,
      p,
      ap length (receive_takes s.race.queue.ch c m e).0,
      costs-append (push_turn cfg m r b s.pending).started s.senders,
      push_turn-costs cfg m r b s.pending,
    ),
    ap has_closed p,
  )
  left-Nearer s r b ended p e = (
    ground (
      arith,
      p,
      costs-append (flush_turn cfg b s.pending).started s.senders,
      flush_turn-costs cfg b s.pending,
    ),
    refl,
  )
  left-Nearer s r b waiting p e = tt

  loop_at-Nearer :
      (p : Stage) (k : Case) (s : System)
      → s.stage ≡ p
      → has_closed p ≡ true
      → Always (Nearer s) (loop_at cfg p k s)
  loop_at-Nearer selecting k s e h = ground (arith, h)
  loop_at-Nearer closing k s e h = ground (arith, h)
  loop_at-Nearer draining (message_case r) s e h = left-Nearer s r (admits cfg s) _ e refl
  loop_at-Nearer draining tick_case s e h = tt
  loop_at-Nearer draining quit_case s e h = tt
  loop_at-Nearer joining k s e h = guarded (Nearer s) _ _ (λ w. (ground (arith, e), refl))
  loop_at-Nearer returned k s e h = tt

  back_adds : (t : Option Sender) (n : ℕ) → back t n ≡ back t 0 + n
  back_adds none n = omega arith
  back_adds (some t) n = omega arith

  sender-Nearer :
      (s : System) (xs ys : List Sender) (t : Sender) (ch : Choice) (o : Outcome)
      → s.senders ≡ xs ++ t ∷ ys
      → Sending.act cfg.callback s.lifecycle.quit ch t ≡ some o
      → costs (xs ++ (kept o.sender ++ ys)) + back o.sender s.returning
        < costs s.senders + s.returning
  sender-Nearer s xs ys t ch o split e = omega (
    arith,
    ap costs split,
    costs-append xs (t ∷ ys),
    costs-append xs (kept o.sender ++ ys),
    costs-append (kept o.sender) ys,
    act-costs cfg.callback s.lifecycle.quit ch t o e,
    back_adds o.sender s.returning,
  )

  shut_keeps :
      (s : System) (t : Thread Message) (a : Race.Action Message)
      → s.race.queue.ch.is_shut ≡ true
      → Race.act s.race.queue t ≡ some a
      → IsCall t
      → length a.queue.ch.buffer ≡ length s.race.queue.ch.buffer
  shut_keeps s t a h e c = ap length (
      act_appends s.race.queue t a c e
      ∙ ap (λ l. s.race.queue.ch.buffer ++ l) (act-shut s.race.queue t a h e).1
      ∙ append-nil s.race.queue.ch.buffer)

  Step-remaining :
      {s u : System} (st : Step cfg s u)
      → IsOrdered s
      → has_closed s.stage ≡ true
      → (step_work st + remaining u ≤ remaining s) × (has_closed u.stage ≡ true)
  unfolding loop_act
  Step-remaining {s} (moves (queue_acts xs t ys a split e c)) v h =
      (omega (arith, shut_keeps s t a (v.shut h) e c), h)
  Step-remaining {s} (moves (loop_acts k e)) v h =
      let (less, on) = subst (Always (Nearer s)) e (loop_at-Nearer s.stage k s refl h) in
      (omega (arith, less), on)
  Step-remaining {s} (moves (sender_acts xs t ys ch o split e)) v h =
      (omega (arith, sender-Nearer s xs ys t ch o split e), h)
  Step-remaining {s} (moves (gives_back n e)) v h = (omega (arith, e), h)
  Step-remaining (moves (closer_acts xs t ys d a split e)) v h = (omega arith, h)
  Step-remaining (calls b c) v h = (omega arith, h)
  Step-remaining closes v h = (omega arith, h)

  Works-remaining :
      {s u : System} {n : ℕ}
      → Works s n u
      → IsOrdered s
      → has_closed s.stage ≡ true
      → (n + remaining u ≤ remaining s) × IsOrdered u × (has_closed u.stage ≡ true)
  Works-remaining stay v h = (omega arith, v, h)
  Works-remaining (onward r st) v h =
      let (less, w, k) = Works-remaining r v h in
      let (now, on) = Step-remaining st w k in
      (omega (arith, less, now), Step-IsOrdered cfg st w, on)

  -- A move of the loop, of a goroutine that sends or of the executor is possible.
  abbrev pub CanWork : System → Type 0
  CanWork s = (u : System) × (m : Moves cfg s u) × (work m ≡ 1)

  loop-CanWork :
      (s : System) (p : Stage) (k : Case) (u : System)
      → s.stage ≡ p
      → loop_at cfg p k s ≡ some u
      → CanWork s
  unfolding loop_act
  loop-CanWork s p k u e h = (u, loop_acts k (ap (λ p. loop_at cfg p k s) e ∙ h), refl)

  draining-CanWork :
      (s : System) (x : Receive Message)
      → s.stage ≡ draining
      → receive s.race.queue.ch ≡ x
      → s.race.queue.ch.is_shut ≡ true
      → CanWork s
  draining-CanWork s (received m c) p e h =
      loop-CanWork s draining (message_case (ok [])) _ p
        (ap (on_left cfg (ok []) (admits cfg s) s) e)
  draining-CanWork s ended p e h =
      loop-CanWork s draining (message_case (ok [])) _ p
        (ap (on_left cfg (ok []) (admits cfg s) s) e)
  draining-CanWork s waiting p e h = absurd (never_waits s.race.queue.ch h e)

  joining-CanWork :
      (s : System) (ts : List Sender) → s.stage ≡ joining → s.senders ≡ ts → IsOrdered s → CanWork s
  joining-CanWork s [] p f v =
      loop-CanWork s joining quit_case _ p
        (ap (λ n. if n == 0 then some (returns s) else none) (v.counted ∙ ap length f))
  joining-CanWork s (t ∷ ts) p f v =
      let (ch, o, can) = sender_can cfg.callback s.lifecycle.quit t in
      (_, sender_acts [] t ts ch o f can, refl)

  pub stage-CanWork :
      (s : System) (p : Stage)
      → s.stage ≡ p
      → has_closed p ≡ true
      → p ≢ returned
      → IsOrdered s
      → CanWork s
  stage-CanWork s selecting e h n v = ground (arith, h)
  stage-CanWork s closing e h n v = ground (arith, h)
  stage-CanWork s draining e h n v =
      draining-CanWork s (receive s.race.queue.ch) e refl (v.shut (ap has_closed e))
  stage-CanWork s joining e h n v = joining-CanWork s s.senders e refl v
  stage-CanWork s returned e h n v = absurd (n refl)

  -- From a state that the goroutines of a client that `NewWithConfig` made reach, and in which the loop has
  -- closed the queue and ranges over what it holds, or is past that: in whatever order they go on, there
  -- are at most `remaining` more actions of the loop, the goroutines that send and the executor; and as
  -- long as the loop has not returned, one of them is possible.
  pub drain_terminates :
      (opts : List ChannelOption) (sent_at : List ℕ) {s u : System} {n : ℕ}
      → Reach cfg (new_system cfg opts sent_at) s
      → has_closed s.stage ≡ true
      → Works s n u
      → (n + remaining u ≤ remaining s) × (u.stage ≢ returned → CanWork u)
  drain_terminates opts sent_at {s} {u} r h w =
      let (less, v, on) = Works-remaining w (reached-IsOrdered cfg opts sent_at r) h in
      (less, λ k. stage-CanWork u u.stage refl on k v)
