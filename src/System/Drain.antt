-- ===== src/System/Drain.antt =====
-- The end of the loop of internal/core/analytics.go, from its drain and from its call of the queue's `Close`
-- (internal/queue/channel.go) on.
use origamy_go_sdk.Base.{
  ℕ, ◌≡◌, refl, ap, ap₂, ◌∙◌, ◌<◌, true, false, none, some, List, [], ◌∷◌, ◌++◌, arith,
  if◌then◌else◌,
}
use origamy_go_sdk.Data.{ok}
use origamy_go_sdk.Message.{Message}
use origamy_go_sdk.Queue.{
  Chan, ChannelOption, received, ended, receive, Once, fresh, running, finished,
}
use origamy_go_sdk.Queue.Race
use origamy_go_sdk.Queue.Race.{Thread, close_enter, close_store, close_chan, close_return}
use origamy_go_sdk.Queue.Race.Invariant.{inside, holder, is_finished}
use origamy_go_sdk.Client.Loop.{Settings}
use origamy_go_sdk.System.{
  Stage, selecting, closing, draining, joining, returned, System, message_case, quit_case, on_left,
  on_quit, loop_at, admits, loop_act, queue_acts, loop_acts, Step, moves, Reach, start, new_system,
}
use origamy_go_sdk.System.Entering.{at_enter, IsEntering, Reach-IsEntering}
use origamy_go_sdk.System.Progress.{find}
use origamy_go_sdk.System.Invariant.{IsOrdered, has_closed}
use origamy_go_sdk.System.Invariant.Steps.{Step-IsOrdered, reached-IsOrdered}
use origamy_go_sdk.System.Finish.{Ends, step-Ends, joining-Ends}

receive_first :
    (ch : Chan Message) (m : Message) (ms : List Message)
    → ch.buffer ≡ m ∷ ms
    → receive ch ≡ received m (record ch { buffer = ms })
receive_first ch m ms e = ap (λ l. receive (record ch { buffer = l })) e

receive_last : (ch : Chan Message) → ch.buffer ≡ [] → ch.is_shut ≡ true → receive ch ≡ ended
receive_last ch e s = ap₂ (λ l b. receive (record ch { buffer = l; is_shut = b })) e s

module _ (cfg : Settings) where
  draining-Ends :
      (ms : List Message) (s : System)
      → s.stage ≡ draining
      → s.race.queue.ch.buffer ≡ ms
      → IsOrdered s
      → Ends cfg s
  unfolding loop_act
  draining-Ends [] s p b v =
      let e =
        ap (λ p. loop_at cfg p (message_case (ok [])) s) p
        ∙ ap (on_left cfg (ok []) (admits cfg s) s)
            (receive_last s.race.queue.ch b (v.shut (ap has_closed p))) in
      let step : Step cfg s _ = moves (loop_acts (message_case (ok [])) e) in
      let v' = Step-IsOrdered cfg step v in
      step-Ends cfg step (joining-Ends cfg _ _ (refl, refl, v'.counted))
  draining-Ends (m ∷ ms) s p b v =
      let e =
        ap (λ p. loop_at cfg p (message_case (ok [])) s) p
        ∙ ap (on_left cfg (ok []) (admits cfg s) s) (receive_first s.race.queue.ch m ms b) in
      let step : Step cfg s _ = moves (loop_acts (message_case (ok [])) e) in
      step-Ends cfg step (draining-Ends ms _ p refl (Step-IsOrdered cfg step v))

  finished-Ends :
      (s : System)
      → s.stage ≡ closing
      → s.race.queue.close_once ≡ finished
      → IsOrdered s
      → Ends cfg s
  unfolding loop_act
  finished-Ends s p f v =
      let e =
        ap (λ p. loop_at cfg p quit_case s) p
        ∙ ap (λ o. if is_finished o then some (record s { stage = draining }) else none) f in
      let step : Step cfg s (record s { stage = draining }) = moves (loop_acts quit_case e) in
      step-Ends cfg step
        (draining-Ends s.race.queue.ch.buffer _ refl refl (Step-IsOrdered cfg step v))

  -- A goroutine inside `closeOnce.Do`, before `close(q.ch)`.
  chan-Ends :
      (s : System) (xs ys : List (Thread Message))
      → s.stage ≡ closing
      → s.race.threads ≡ xs ++ close_chan ∷ ys
      → s.race.queue.ch.is_shut ≡ false
      → IsOrdered s
      → Ends cfg s
  unfolding Race.act
  chan-Ends s xs ys p split f v =
      let e =
        ap
          (λ b.
            Race.act (record s.race.queue { ch = record s.race.queue.ch { is_shut = b } })
              close_chan)
          f in
      let step : Step cfg s _ = moves (queue_acts xs close_chan ys _ split e tt) in
      step-Ends cfg step (finished-Ends _ p refl (Step-IsOrdered cfg step v))

  store-Ends :
      (s : System) (xs ys : List (Thread Message))
      → s.stage ≡ closing
      → s.race.threads ≡ xs ++ close_store ∷ ys
      → s.race.queue.ch.is_shut ≡ false
      → IsOrdered s
      → Ends cfg s
  unfolding Race.act
  store-Ends s xs ys p split f v =
      let step : Step cfg s _ = moves (queue_acts xs close_store ys _ split refl tt) in
      step-Ends cfg step (chan-Ends _ xs ys p refl f (Step-IsOrdered cfg step v))

  enter-Ends :
      (s : System) (xs ys : List (Thread Message))
      → s.stage ≡ closing
      → s.race.threads ≡ xs ++ close_enter ∷ ys
      → s.race.queue.close_once ≡ fresh
      → IsOrdered s
      → Ends cfg s
  unfolding Race.act
  enter-Ends s xs ys p split f v =
      let e = ap (λ o. Race.act (record s.race.queue { close_once = o }) close_enter) f in
      let step : Step cfg s _ = moves (queue_acts xs close_enter ys _ split e tt) in
      step-Ends cfg step
        (store-Ends _ xs ys p refl (v.sound.shut ∙ ap is_finished f) (Step-IsOrdered cfg step v))

  entering-Ends :
      (s : System) (xs ys : List (Thread Message)) (t : Thread Message)
      → s.stage ≡ closing
      → s.race.threads ≡ xs ++ t ∷ ys
      → 0 < at_enter t
      → s.race.queue.close_once ≡ fresh
      → IsOrdered s
      → Ends cfg s
  entering-Ends s xs ys close_enter p split h f v = enter-Ends s xs ys p split f v
  entering-Ends s xs ys t p split h f v = ground arith

  inside-Ends :
      (s : System) (xs ys : List (Thread Message)) (t : Thread Message)
      → s.stage ≡ closing
      → s.race.threads ≡ xs ++ t ∷ ys
      → 0 < inside t
      → s.race.queue.ch.is_shut ≡ false
      → IsOrdered s
      → Ends cfg s
  inside-Ends s xs ys close_store p split h f v = store-Ends s xs ys p split f v
  inside-Ends s xs ys close_chan p split h f v = chan-Ends s xs ys p split f v
  inside-Ends s xs ys t p split h f v = ground arith

  closing-Ends :
      (s : System) (o : Once)
      → s.stage ≡ closing
      → s.race.queue.close_once ≡ o
      → IsOrdered s
      → IsEntering s
      → Ends cfg s
  closing-Ends s fresh p f v w =
      let (xs, t, ys, split, h) = find at_enter s.race.threads (w p f) in
      entering-Ends s xs ys t p split h f v
  closing-Ends s running p f v w =
      let (xs, t, ys, split, h) =
        find inside s.race.threads (omega (arith, v.sound.held, ap holder f)) in
      inside-Ends s xs ys t p split h (v.sound.shut ∙ ap is_finished f) v
  closing-Ends s finished p f v w = finished-Ends s p f v

  stage-Ends :
      (s : System) (p : Stage)
      → s.stage ≡ p
      → s.lifecycle.quit ≡ true
      → IsOrdered s
      → IsEntering s
      → Ends cfg s
  unfolding loop_act
  stage-Ends s selecting p q v w =
      let e =
        ap (λ p. loop_at cfg p quit_case s) p
        ∙ ap (λ b. if b then some (on_quit cfg s) else none) q in
      let step : Step cfg s (on_quit cfg s) = moves (loop_acts quit_case e) in
      step-Ends cfg step
        (closing-Ends (on_quit cfg s) _ refl refl (Step-IsOrdered cfg step v) (λ p f. omega arith))
  stage-Ends s closing p q v w = closing-Ends s _ p refl v w
  stage-Ends s draining p q v w = draining-Ends _ s p refl v
  stage-Ends s joining p q v w = joining-Ends cfg _ s (p, refl, v.counted)
  stage-Ends s returned p q v w = (s, start, p)

  -- From every state that the goroutines of a client that `NewWithConfig` made reach, in whatever
  -- order they act, and in which `Close` has closed `c.quit`, further steps lead to one where the loop
  -- has returned.
  pub loop_can_end :
      (opts : List ChannelOption) (sent_at : List ℕ) {s : System}
      → Reach cfg (new_system cfg opts sent_at) s
      → s.lifecycle.quit ≡ true
      → (u : System) × Reach cfg s u × (u.stage ≡ returned)
  loop_can_end opts sent_at {s} r q =
      stage-Ends s s.stage refl q (reached-IsOrdered cfg opts sent_at r)
        (Reach-IsEntering cfg r (λ p f. ground (arith, p)))
