-- ===== src/System/Quiescent.antt =====
-- The client as a whole (internal/core/analytics.go) in a state where none of its goroutines can act.
pub mod Reached
use mathlib.Core.Option.{none-ne-some}
use origamy_go_sdk.Base.{
  ℕ, zero, suc, ◌+◌, ◌≡◌, ◌≢◌, refl, subst, sym, ap, ◌∙◌, Bool, true, none, some, List, [], ◌∷◌,
  ◌++◌, arith, append_assoc, All, All-append, All-parts, inl, inr, Option-cases,
}
use origamy_go_sdk.Data.{Reference}
use origamy_go_sdk.Message.{Message}
use origamy_go_sdk.Queue
use origamy_go_sdk.Queue.{Chan, ChannelOption, Once, fresh, running, finished}
use origamy_go_sdk.Queue.Race
use origamy_go_sdk.Queue.Race.{
  Thread, enqueue_load, enqueue_send, enqueue_return, try_load, try_send, try_return, try_panic,
  close_enter, close_store, close_chan, close_return, close_panic, receive_from, try_receive_from,
  receive_return,
}
use origamy_go_sdk.Queue.Race.Invariant.{tally, stopped, is_finished}
use origamy_go_sdk.Client.Loop.{Settings}
use origamy_go_sdk.Client.Close
use origamy_go_sdk.Client.Close.{Lifecycle}
use origamy_go_sdk.Client.Close.Once as Calls
use origamy_go_sdk.Client.Close.Once.{IsStuck, stuck_any, quit_before, returned_nil, tally-split}
use origamy_go_sdk.System.{
  Stage, selecting, closing, draining, joining, returned, System, IsCall, Case, tick_case, loop_act,
  loop_at, Moves, queue_acts, loop_acts, sender_acts, gives_back, closer_acts, Reach, new_system,
}
use origamy_go_sdk.System.Weights.{weigh, told, reporting}
use origamy_go_sdk.System.Accepted.{accepted_by, receiving}
use origamy_go_sdk.System.Accepted.Reached.{reached-IsAccounted}
use origamy_go_sdk.System.Invariant.{IsOrdered, has_closed}
use origamy_go_sdk.System.Invariant.Steps.{reached-IsOrdered}
use origamy_go_sdk.System.Entering.{IsEntering, Reach-IsEntering}
use origamy_go_sdk.System.Progress.{closing-Goes, chan_acts}
use origamy_go_sdk.System.Bounded.Ends.{stage-CanWork}
use origamy_go_sdk.System.Shutdown.{as_loop, reached-IsSeen}
use origamy_go_sdk.System.Closed.{close_reports}

-- A call of a method of the queue has returned, or a `TryEnqueue` has panicked.
abbrev pub IsEnded : Thread Message → Type 0
IsEnded (enqueue_return m e) = Unit
IsEnded (try_return m e) = Unit
IsEnded (try_panic m) = Unit
IsEnded close_return = Unit
IsEnded (receive_return o) = Unit
IsEnded _ = ⊥

-- Nobody can act on a queue that is closed.
shut_send :
    (q : Queue.ChannelQueue Message) (m : Message)
    → q.ch.is_shut ≡ true
    → (a : Race.Action Message) × (Race.act q (enqueue_send m) ≡ some a)
unfolding Race.act
shut_send q m h =
    (_, ap (λ b. Race.act (record q { ch = record q.ch { is_shut = b } }) (enqueue_send m)) h)

shut_try :
    (q : Queue.ChannelQueue Message) (m : Message)
    → q.ch.is_shut ≡ true
    → (a : Race.Action Message) × (Race.act q (try_send m) ≡ some a)
unfolding Race.act
shut_try q m h =
    (_, ap (λ b. Race.act (record q { ch = record q.ch { is_shut = b } }) (try_send m)) h)

finished_enter :
    (q : Queue.ChannelQueue Message)
    → q.close_once ≡ finished
    → (a : Race.Action Message) × (Race.act q close_enter ≡ some a)
unfolding Race.act
finished_enter q h = (_, ap (λ o. Race.act (record q { close_once = o }) close_enter) h)

ended :
    (q : Queue.ChannelQueue Message) (t : Thread Message)
    → q.ch.is_shut ≡ true
    → q.close_once ≡ finished
    → stopped t ≡ 0
    → receiving t ≡ 0
    → (IsCall t → (a : Race.Action Message) → Race.act q t ≢ some a)
    → IsEnded t
unfolding Race.act
ended q (enqueue_load m) h f n r k = absurd (k tt _ refl)
ended q (enqueue_send m) h f n r k = let (a, e) = shut_send q m h in absurd (k tt a e)
ended q (enqueue_return m e) h f n r k = tt
ended q (try_load m) h f n r k = absurd (k tt _ refl)
ended q (try_send m) h f n r k = let (a, e) = shut_try q m h in absurd (k tt a e)
ended q (try_return m e) h f n r k = tt
ended q (try_panic m) h f n r k = tt
ended q close_enter h f n r k = let (a, e) = finished_enter q f in absurd (k tt a e)
ended q close_store h f n r k = absurd (k tt _ refl)
ended q close_chan h f n r k = let (a, e) = chan_acts q q.ch.is_shut refl in absurd (k tt a e)
ended q close_return h f n r k = tt
ended q close_panic h f n r k = absurd (omega (arith, n))
ended q receive_from h f n r k = absurd (omega (arith, r))
ended q try_receive_from h f n r k = absurd (omega (arith, r))
ended q (receive_return o) h f n r k = tt

pub finished_once : (o : Once) → is_finished o ≡ true → o ≡ finished
finished_once o h = ground arith

module _ (cfg : Settings) where
  -- No goroutine can act.
  abbrev pub IsStill : System → Type 0
  IsStill s = (u : System) → ¬ (Moves cfg s u)

  pub still_stage :
      (s : System) (p : Stage) → s.stage ≡ p → IsOrdered s → IsEntering s → IsStill s → p ≡ returned
  unfolding loop_act
  still_stage s selecting e v w k =
      absurd (k _ (loop_acts tick_case (ap (λ p. loop_at cfg p tick_case s) e)))
  still_stage s closing e v w k =
      let (u, m, h) = closing-Goes cfg s s.race.queue.close_once e refl v w in absurd (k u m)
  still_stage s draining e v w k =
      let (u, m, h) = stage-CanWork cfg s draining e refl (λ q. ground (arith, q)) v in
      absurd (k u m)
  still_stage s joining e v w k =
      let (u, m, h) = stage-CanWork cfg s joining e refl (λ q. ground (arith, q)) v in
      absurd (k u m)
  still_stage s returned e v w k = refl

  pub still_returning : (s : System) (n : ℕ) → s.returning ≡ n → IsStill s → n ≡ 0
  still_returning s zero e k = refl
  still_returning s (suc n) e k = absurd (k _ (gives_back n e))

  -- The goroutines from one of them on.
  pub still_threads :
      (s : System) (xs ys : List (Thread Message))
      → s.race.threads ≡ xs ++ ys
      → s.race.queue.ch.is_shut ≡ true
      → s.race.queue.close_once ≡ finished
      → tally stopped ys ≡ 0
      → tally receiving ys ≡ 0
      → IsStill s
      → All IsEnded ys
  still_threads s xs [] e h f n r k = tt
  still_threads s xs (t ∷ ys) e h f n r k = (
    ended s.race.queue t h f (omega (arith, n)) (omega (arith, r))
        (λ c a q. k _ (queue_acts xs t ys a e q c)),
    still_threads s (xs ++ t ∷ []) ys (e ∙ sym (append_assoc xs (t ∷ []) ys)) h f (omega (arith, n))
        (omega (arith, r)) k,
  )

  pub still_closers :
      (s : System) (xs ys : List Close.Thread)
      → s.closers ≡ xs ++ ys
      → IsStill s
      → IsStuck s.lifecycle ys
  still_closers s xs [] e k = tt
  still_closers s xs (t ∷ ys) e k = (
    elim (Option-cases (Close.act Close.calm s.lifecycle t)) [
      | inl h ↦ h
      | inr (a, h) ↦ absurd (k _ (closer_acts xs t ys Close.calm a e h))
    ],
    still_closers s (xs ++ t ∷ []) ys (e ∙ sym (append_assoc xs (t ∷ []) ys)) k,
  )

  pub loop_stuck :
      (l : Lifecycle) (p : Stage) → p ≡ returned → Close.act Close.calm l (as_loop p) ≡ none
  unfolding Close.act
  loop_stuck l p e = ap (λ p. Close.act Close.calm l (as_loop p)) e

not_in_nil : {A : Type 0} (xs : List A) (t : A) (ys : List A) → [] ≢ xs ++ t ∷ ys
not_in_nil [] t ys e = ground (arith, e)
not_in_nil (x ∷ xs) t ys e = ground (arith, e)

module _ (cfg : Settings) where
  loop_over : (s : System) (k : Case) (u : System) → s.stage ≡ returned → loop_act cfg k s ≢ some u
  unfolding loop_act
  loop_over s k u p e = none-ne-some _ (sym (ap (λ p. loop_at cfg p k s) p) ∙ e)

  -- A state in which everything has come to its end.
  pub final-IsStill :
      (s : System)
      → s.stage ≡ returned
      → s.senders ≡ []
      → s.returning ≡ 0
      → All (λ t. Race.act s.race.queue t ≡ none) s.race.threads
      → IsStuck s.lifecycle s.closers
      → IsStill cfg s
  final-IsStill s p n r q c u (queue_acts xs t ys a split e k) =
      let parts =
        All-parts (λ t. Race.act s.race.queue t ≡ none) xs (t ∷ ys)
          (subst (All (λ t. Race.act s.race.queue t ≡ none)) split q) in
      none-ne-some _ (sym parts.1.0 ∙ e)
  final-IsStill s p n r q c u (loop_acts k e) = loop_over s k u p e
  final-IsStill s p n r q c u (sender_acts xs t ys ch o split e) =
      not_in_nil xs t ys (sym n ∙ split)
  final-IsStill s p n r q c u (gives_back m e) = ground (arith, sym r ∙ e)
  final-IsStill s p n r q c u (closer_acts xs t ys d a split e) =
      let parts =
        All-parts (λ t. Close.act Close.calm s.lifecycle t ≡ none) xs (t ∷ ys)
          (subst (All (λ t. Close.act Close.calm s.lifecycle t ≡ none)) split c) in
      none-ne-some _ (sym (stuck_any s.lifecycle t d parts.1.0) ∙ e)
