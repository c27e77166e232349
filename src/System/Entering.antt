-- ===== src/System/Entering.antt =====
-- The loop of internal/core/analytics.go inside its call of the queue's `Close`
-- (internal/queue/channel.go).
use origamy_go_sdk.Base.{
  ℕ, ◌≡◌, ◌≢◌, refl, subst, sym, ap, ◌∙◌, ◌≤◌, ◌<◌, Bool, some, List, ◌∷◌, ◌++◌, arith,
}
use origamy_go_sdk.Data.{Result}
use origamy_go_sdk.Message.{Message}
use origamy_go_sdk.Queue
use origamy_go_sdk.Queue.{
  Chan, ChannelOption, Receive, received, ended, waiting, receive, Once, fresh, running, finished,
}
use origamy_go_sdk.Queue.Race
use origamy_go_sdk.Queue.Race.{Thread, close_enter, close_store, close_chan, Begins}
use origamy_go_sdk.Queue.Race.Invariant.{tally, tally-split}
use origamy_go_sdk.Queue.Race.History.{sent_by}
use origamy_go_sdk.Client.Loop.{Settings}
use origamy_go_sdk.System.{
  Stage, selecting, closing, draining, joining, returned, System, Case, message_case, tick_case,
  quit_case, on_message, on_left, loop_at, admits, loop_act, queue_acts, loop_acts, sender_acts,
  closer_acts, gives_back, Step, moves, calls, closes, Reach, start, next,
}
use origamy_go_sdk.System.Invariant.{Always, guarded}

abbrev pub at_enter : Thread Message → ℕ
at_enter close_enter = 1
at_enter _ = 0

-- A loop that waits for its `Close` of the queue is before `closeOnce.Do`, unless somebody has passed it.
abbrev pub IsEntering : System → Type 0
IsEntering s =
    s.stage ≡ closing → s.race.queue.close_once ≡ fresh → 0 < tally at_enter s.race.threads

act-enters :
    (q : Queue.ChannelQueue Message) (t : Thread Message) (a : Race.Action Message)
    → Race.act q t ≡ some a
    → a.queue.close_once ≡ fresh
    → (q.close_once ≡ fresh) × (at_enter t ≤ at_enter a.thread)
unfolding Race.act
act-enters q t a e f = ground arith

module _ (cfg : Settings) where
  queue_acts-IsEntering :
      (s : System) (xs ys : List (Thread Message)) (t : Thread Message) (a : Race.Action Message)
      (taken : List Message)
      → s.race.threads ≡ xs ++ t ∷ ys
      → Race.act s.race.queue t ≡ some a
      → IsEntering s
      → IsEntering (record s {
        race = record { queue = a.queue; threads = xs ++ a.thread ∷ ys };
        taken = taken;
      })
  queue_acts-IsEntering s xs ys t a taken split e v = λ p f.
      let (f', le) = act-enters s.race.queue t a e f in
      omega (
        arith,
        v p f',
        le,
        ap (tally at_enter) split,
        tally-split at_enter xs t ys,
        tally-split at_enter xs a.thread ys,
      )

  -- The loop is not in `c.queue.Close()`.
  elsewhere : (s : System) (p : Stage) → s.stage ≡ p → p ≢ closing → IsEntering s
  elsewhere s p e n = λ q f. absurd (n (sym e ∙ q))

  message-IsEntering :
      (s : System) (r : Result (List ℕ)) (admits : Bool) (x : Receive Message)
      → s.stage ≡ selecting
      → Always IsEntering (on_message cfg r admits s x)
  message-IsEntering s r admits (received m c) e = λ q f. ground (arith, sym e ∙ q)
  message-IsEntering s r admits ended e = λ q f. ground (arith, sym e ∙ q)
  message-IsEntering s r admits waiting e = tt

  left-IsEntering :
      (s : System) (r : Result (List ℕ)) (admits : Bool) (x : Receive Message)
      → s.stage ≡ draining
      → Always IsEntering (on_left cfg r admits s x)
  left-IsEntering s r admits (received m c) e = λ q f. ground (arith, sym e ∙ q)
  left-IsEntering s r admits ended e = λ q f. ground (arith, q)
  left-IsEntering s r admits waiting e = tt

  loop_at-IsEntering :
      (p : Stage) (k : Case) (s : System) → s.stage ≡ p → Always IsEntering (loop_at cfg p k s)
  loop_at-IsEntering selecting (message_case r) s e = message-IsEntering s r (admits cfg s) _ e
  loop_at-IsEntering selecting tick_case s e = λ q f. ground (arith, sym e ∙ q)
  loop_at-IsEntering selecting quit_case s e =
      guarded IsEntering s.lifecycle.quit _ (λ h q f. omega arith)
  loop_at-IsEntering closing k s e = guarded IsEntering _ _ (λ h q f. ground (arith, q))
  loop_at-IsEntering draining (message_case r) s e = left-IsEntering s r (admits cfg s) _ e
  loop_at-IsEntering draining tick_case s e = tt
  loop_at-IsEntering draining quit_case s e = tt
  loop_at-IsEntering joining k s e = guarded IsEntering _ _ (λ h q f. ground (arith, q))
  loop_at-IsEntering returned k s e = tt

  Step-IsEntering : {s u : System} → Step cfg s u → IsEntering s → IsEntering u
  unfolding loop_act
  Step-IsEntering {s} (moves (queue_acts xs t ys a split e c)) v =
      queue_acts-IsEntering s xs ys t a (s.taken ++ sent_by a.event) split e v
  Step-IsEntering {s} (moves (loop_acts k e)) v =
      subst (Always IsEntering) e (loop_at-IsEntering s.stage k s refl)
  Step-IsEntering (moves (sender_acts xs t ys ch o split e)) v = v
  Step-IsEntering (moves (gives_back n e)) v = v
  Step-IsEntering (moves (closer_acts xs t ys d a split e)) v = v
  Step-IsEntering (calls b c) v = λ q f. omega (arith, v q f)
  Step-IsEntering closes v = v

  pub Reach-IsEntering : {s u : System} → Reach cfg s u → IsEntering s → IsEntering u
  Reach-IsEntering start v = v
  Reach-IsEntering (next r st) v = Step-IsEntering st (Reach-IsEntering r v)
