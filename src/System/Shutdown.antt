-- ===== src/System/Shutdown.antt =====
-- The client as a whole against the client that its `Close` (internal/core/analytics.go) sees, and what
-- has become of the messages when a call of `Close` has returned nil.
use origamy_go_sdk.Base.{
  ℕ, ◌≡◌, refl, subst, sym, ap, ◌∙◌, Bool, some, List, [], ◌∷◌, ◌++◌, arith, append_assoc,
}
use origamy_go_sdk.Data.{Result}
use origamy_go_sdk.Message.{Message}
use origamy_go_sdk.Queue.{Receive, received, ended, waiting, ChannelOption}
use origamy_go_sdk.Client.Loop.{Settings}
use origamy_go_sdk.Client.Close
use origamy_go_sdk.Client.Close.{
  Lifecycle, close_quit, loop_select, loop_exit, loop_return, new_world, start, next, acts, calls,
}
use origamy_go_sdk.System
use origamy_go_sdk.System.{
  Stage, selecting, closing, draining, joining, returned, System, Case, message_case, tick_case,
  quit_case, loop_at, admits, on_message, on_left, loop_act, queue_acts, loop_acts, sender_acts,
  closer_acts, gives_back, moves,
}
use origamy_go_sdk.System.Invariant.{Always, guarded}

-- What `Close` sees of the loop.
abbrev pub as_loop : Stage → Close.Thread
as_loop selecting = loop_select
as_loop returned = loop_return
as_loop _ = loop_exit

abbrev pub seen : System → Close.World
seen s = record { state = s.lifecycle; threads = s.closers ++ as_loop s.stage ∷ [] }

abbrev IsSeen : System → Type 0
IsSeen s = Close.Reach new_world (seen s)

module _ (cfg : Settings) where
  -- The loop goes from one stage to another, as `Close` sees it, or not.
  loop_moves :
      (s : System) (p : Stage) (l : Lifecycle)
      → Close.act Close.calm s.lifecycle (as_loop s.stage) ≡ some (l, as_loop p)
      → IsSeen s
      → Close.Reach new_world (record { state = l; threads = s.closers ++ as_loop p ∷ [] })
  loop_moves s p l e r = next r (acts s.closers (as_loop s.stage) [] Close.calm _ refl e)

  loop_stays :
      (s : System) (p : Stage)
      → as_loop s.stage ≡ as_loop p
      → IsSeen s
      → Close.Reach new_world
          (record { state = s.lifecycle; threads = s.closers ++ as_loop p ∷ [] })
  loop_stays s p e r =
      subst
        (λ t. Close.Reach new_world (record { state = s.lifecycle; threads = s.closers ++ t ∷ [] }))
        e r

  message-IsSeen :
      (s : System) (r : Result (List ℕ)) (admits : Bool) (x : Receive Message)
      → IsSeen s
      → Always IsSeen (on_message cfg r admits s x)
  message-IsSeen s r admits (received m c) v = v
  message-IsSeen s r admits ended v = v
  message-IsSeen s r admits waiting v = tt

  left-IsSeen :
      (s : System) (r : Result (List ℕ)) (admits : Bool) (x : Receive Message)
      → s.stage ≡ draining
      → IsSeen s
      → Always IsSeen (on_left cfg r admits s x)
  left-IsSeen s r admits (received m c) p v = v
  left-IsSeen s r admits ended p v = loop_stays s joining (ap as_loop p) v
  left-IsSeen s r admits waiting p v = tt

  loop_at-IsSeen :
      (p : Stage) (k : Case) (s : System)
      → s.stage ≡ p
      → IsSeen s
      → Always IsSeen (loop_at cfg p k s)
  unfolding Close.act
  loop_at-IsSeen selecting (message_case r) s e v = message-IsSeen s r (admits cfg s) _ v
  loop_at-IsSeen selecting tick_case s e v = v
  loop_at-IsSeen selecting quit_case s e v =
      guarded IsSeen s.lifecycle.quit _
        (λ h. loop_moves s closing s.lifecycle (ground (arith, e, h)) v)
  loop_at-IsSeen closing k s e v = guarded IsSeen _ _ (λ h. loop_stays s draining (ap as_loop e) v)
  loop_at-IsSeen draining (message_case r) s e v = left-IsSeen s r (admits cfg s) _ e v
  loop_at-IsSeen draining tick_case s e v = tt
  loop_at-IsSeen draining quit_case s e v = tt
  loop_at-IsSeen joining k s e v = guarded IsSeen _ _ (λ h. loop_moves s returned _ (rw e refl) v)
  loop_at-IsSeen returned k s e v = tt

  closer-IsSeen :
      (s : System) (xs ys : List Close.Thread) (t : Close.Thread) (d : Close.Ending)
      (a : Close.Action)
      → s.closers ≡ xs ++ t ∷ ys
      → Close.act d s.lifecycle t ≡ some a
      → IsSeen s
      → IsSeen (record s { lifecycle = a.0; closers = xs ++ a.1 ∷ ys })
  closer-IsSeen s xs ys t d a split e v =
      subst (λ ts. Close.Reach new_world (record { state = a.0; threads = ts }))
        (sym (append_assoc xs (a.1 ∷ ys) (as_loop s.stage ∷ [])))
        (next v (
          acts xs t (ys ++ as_loop s.stage ∷ []) d a
            (ap (λ ts. ts ++ as_loop s.stage ∷ []) split
              ∙ append_assoc xs (t ∷ ys) (as_loop s.stage ∷ []))
            e))

  Step-IsSeen : {s u : System} → System.Step cfg s u → IsSeen s → IsSeen u
  unfolding loop_act
  Step-IsSeen (moves (queue_acts xs t ys a split e k)) v = v
  Step-IsSeen {s} (moves (loop_acts k e)) v =
      subst (Always IsSeen) e (loop_at-IsSeen s.stage k s refl v)
  Step-IsSeen (moves (sender_acts xs t ys ch o split e)) v = v
  Step-IsSeen (moves (gives_back n e)) v = v
  Step-IsSeen {s} (moves (closer_acts xs t ys d a split e)) v =
      closer-IsSeen s xs ys t d a split e v
  Step-IsSeen (System.calls b k) v = v
  Step-IsSeen System.closes v = next v calls

  Reach-IsSeen : {s u : System} → System.Reach cfg s u → IsSeen s → IsSeen u
  Reach-IsSeen System.start v = v
  Reach-IsSeen (System.next r st) v = Step-IsSeen st (Reach-IsSeen r v)

  pub reached-IsSeen :
      (opts : List ChannelOption) (sent_at : List ℕ) {s : System}
      → System.Reach cfg (System.new_system cfg opts sent_at) s
      → IsSeen s
  reached-IsSeen opts sent_at r = Reach-IsSeen r start
