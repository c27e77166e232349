-- ===== src/Client/Loop/Delivered.antt =====
-- No message that reaches the loop of internal/core/analytics.go is lost: each is reported once.
use mathlib.Core.List.{Perm, perm_append_singleton, map-append}
use mathlib.Core.List.Perm
use origamy_go_sdk.Base.{
  ℕ, ◌≡◌, refl, sym, ap, ap₂, subst, inl, inr, ◌∙◌, Bool, Option, none, some, List, [], ◌∷◌, ◌++◌,
  arith, elements, append_assoc, append-nil, Bool-cases,
}
use origamy_go_sdk.Data.{Reference, Result, ok, err}
use origamy_go_sdk.Log.{LogEntry}
use origamy_go_sdk.Message.{Message}
use origamy_go_sdk.Batch.{Serialized, MessageQueue, push, flush, make_message, max_message_bytes}
use origamy_go_sdk.Batch.Invariant.{push_conserves}
use origamy_go_sdk.Client.Send.{Effect, notify_failure, send_async}
use origamy_go_sdk.Client.Send.Reported.{reported, bodies, reported-append, IsCalm, async-all}
use origamy_go_sdk.Client.Loop.{
  Surroundings, Settings, LoopState, Event, arrives, exhausted, ticks, hand_over, push_serialized,
  push_message, flush_pending, on_event, run, drain, loop, start, made, debugf, exit_requested,
  exited,
}

-- The messages that wait to be sent.
abbrev pub pending_in : LoopState → List Message
pending_in s = bodies (elements s.queue.pending)

abbrev pub arrivals : List Event → List Message
arrivals [] = []
arrivals (arrives m ∷ es) = m ∷ arrivals es
arrivals (_ ∷ es) = arrivals es

arrivals-cons : (e : Event) (es : List Event) → arrivals (e ∷ []) ++ arrivals es ≡ arrivals (e ∷ es)
arrivals-cons (arrives m) es = refl
arrivals-cons exhausted es = refl
arrivals-cons ticks es = refl

-- The effects of the loop, without those that report nothing.
reported-parts :
    (a d f g x : List Effect) {p : List Message}
    → reported d ≡ []
    → reported x ≡ []
    → reported g ≡ p
    → reported (a ++ (d ++ (f ++ (g ++ x)))) ≡ (reported a ++ reported f) ++ p
reported-parts a d f g x h k l =
    rw
      (
        reported-append a (d ++ (f ++ (g ++ x))),
        reported-append d (f ++ (g ++ x)),
        reported-append f (g ++ x),
        reported-append g x,
        h,
        k,
        l,
        append-nil,
      )
      (sym (append_assoc (reported a) (reported f) _))

pub make_message-msg :
    (m : Message) (r : Result (List ℕ)) (n : ℕ) (x : Serialized)
    → make_message m r n ≡ ok x
    → x.msg ≡ m
unfolding make_message
make_message-msg m (err e) n x h = cc
make_message-msg m (ok json) n x h = ground arith

module _ (env : Surroundings) (c : Reference) (verbose : Bool) (batch_size cap : ℕ)
    (calm : (n : ℕ) → IsCalm (env.delivery n)) where
  abbrev cfg : Settings
  cfg = record {
    callback = some c;
    verbose = verbose;
    batch_size = batch_size;
    max_concurrent_requests = cap;
  }

  debug-none : (entry : LogEntry) → reported (debugf env cfg entry) ≡ []
  debug-none entry = elim (Bool-cases verbose) [ inl e ↦ rw e | inr e ↦ rw e ]

  hand_over-all :
      (entry : LogEntry) (b : Option (List Serialized)) (s : LoopState)
      → (reported (hand_over env cfg entry b s).0 ≡ bodies (elements b))
        × ((hand_over env cfg entry b s).1.queue ≡ s.queue)
  unfolding hand_over
  hand_over-all entry none s = (refl, refl)
  hand_over-all entry (some msgs) s = (
    reported-append (debugf env cfg entry) _
        ∙ ap
            (λ l.
              l
              ++ reported
                  (send_async (some c) (env.admits s.batches) (env.delivery s.batches) msgs))
            (debug-none entry)
        ∙ async-all c (env.delivery s.batches) (calm s.batches) msgs (env.admits s.batches),
    refl,
  )

  push_serialized-all :
      (m : Serialized) (s : LoopState)
      → reported (push_serialized env cfg m s).0 ++ pending_in (push_serialized env cfg m s).1
        ≡ pending_in s ++ m.msg ∷ []
  unfolding push_serialized
  push_serialized-all m s =
      let (b, q) = push m s.queue in
      let (r, k) = hand_over-all _ b (record s { queue = q }) in
      ap₂ ◌++◌ r (ap (λ (q : MessageQueue). bodies (elements q.pending)) k)
      ∙ sym (map-append (λ (x : Serialized). x.msg) (elements b) (elements q.pending))
      ∙ ap bodies (push_conserves m s.queue)
      ∙ map-append (λ (x : Serialized). x.msg) (elements s.queue.pending) (m ∷ [])

  made-all :
      (m : Message) (r : Result Serialized) (s : LoopState)
      → ((x : Serialized) → r ≡ ok x → x.msg ≡ m)
      → Perm
          (reported (made env cfg m r s).0 ++ pending_in (made env cfg m r s).1)
          (pending_in s ++ m ∷ [])
  unfolding notify_failure
  made-all m (err e) s h = Perm.symm (perm_append_singleton m (pending_in s))
  made-all m (ok x) s h =
      let entry =
        reported-append (debugf env cfg _) (push_serialized env cfg x s).0
        ∙ ap (λ l. l ++ reported (push_serialized env cfg x s).0) (debug-none _) in
      subst (Perm _)
        (ap (λ l. l ++ pending_in (push_serialized env cfg x s).1) entry
          ∙ push_serialized-all x s
          ∙ ap (λ m. pending_in s ++ m ∷ []) (h x refl))
        (Perm.refl _)

  push_message-all :
      (m : Message) (s : LoopState)
      → Perm
          (reported (push_message env cfg m s).0 ++ pending_in (push_message env cfg m s).1)
          (pending_in s ++ m ∷ [])
  unfolding push_message
  push_message-all m s =
      made-all m _ s (λ x. make_message-msg m (env.marshal m) max_message_bytes x)

  flush-all :
      (s : LoopState)
      → (reported (flush_pending env cfg s).0 ≡ pending_in s)
        × (pending_in (flush_pending env cfg s).1 ≡ [])
  unfolding flush_pending flush
  flush-all s =
      let (r, k) = hand_over-all _ s.queue.pending (record s { queue = (flush s.queue).1 }) in
      (r, ap (λ (q : MessageQueue). bodies (elements q.pending)) k)

  on_event-all :
      (e : Event) (s : LoopState)
      → Perm
          (reported (on_event env cfg e s).0 ++ pending_in (on_event env cfg e s).1)
          (pending_in s ++ arrivals (e ∷ []))
  unfolding on_event
  on_event-all (arrives m) s = push_message-all m s
  on_event-all exhausted s =
      subst (Perm (pending_in s)) (sym (append-nil (pending_in s))) (Perm.refl _)
  on_event-all ticks s = let (r, k) = flush-all s in subst (Perm _) (ap₂ ◌++◌ r k) (Perm.refl _)

  -- Two stretches of the loop, one after the other.
  join :
      (p p' p'' n n' a a' : List Message)
      → Perm (n ++ p') (p ++ a)
      → Perm (n' ++ p'') (p' ++ a')
      → Perm ((n ++ n') ++ p'') (p ++ (a ++ a'))
  join p p' p'' n n' a a' h k =
      subst (λ l. Perm l (p ++ (a ++ a'))) (sym (append_assoc n n' p''))
        (Perm.trans (Perm.append_left n k) (
          subst (λ l. Perm l (p ++ (a ++ a'))) (append_assoc n p' a')
            (subst (Perm _) (append_assoc p a a') (Perm.append_right a' h))))

  run-all :
      (events : List Event) (s : LoopState)
      → Perm
          (reported (run env cfg events s).0 ++ pending_in (run env cfg events s).1)
          (pending_in s ++ arrivals events)
  unfolding run
  run-all [] s = subst (Perm (pending_in s)) (sym (append-nil (pending_in s))) (Perm.refl _)
  run-all (e ∷ events) s =
      let (es, s') = on_event env cfg e s in
      let (rest, last) = run env cfg events s' in
      subst (λ l. Perm (l ++ pending_in last) (pending_in s ++ arrivals (e ∷ events)))
        (sym (reported-append es rest))
        (subst (Perm _) (ap (λ l. pending_in s ++ l) (arrivals-cons e events)) (
          join (pending_in s) (pending_in s') (pending_in last) (reported es) (reported rest)
            (arrivals (e ∷ [])) (arrivals events) (on_event-all e s) (run-all events s')))

  drain-all :
      (ms : List Message) (s : LoopState)
      → Perm
          (reported (drain env cfg ms s).0 ++ pending_in (drain env cfg ms s).1)
          (pending_in s ++ ms)
  unfolding drain
  drain-all [] s = subst (Perm (pending_in s)) (sym (append-nil (pending_in s))) (Perm.refl _)
  drain-all (m ∷ ms) s =
      let (es, s') = push_message env cfg m s in
      let (rest, last) = drain env cfg ms s' in
      subst (λ l. Perm (l ++ pending_in last) (pending_in s ++ m ∷ ms))
        (sym (reported-append es rest))
        (join (pending_in s) (pending_in s') (pending_in last) (reported es) (reported rest)
          (m ∷ []) ms (push_message-all m s) (drain-all ms s'))

  -- Every message that the loop received before `Close`, and every one that the closed queue still
  -- held, is reported to the callback exactly once by the time the loop has returned and its batches
  -- have been dealt with; and none is left waiting. That holds whatever marshalling gives, whatever
  -- the executor takes, however the dispatcher answers, if it does not panic, and however waits end.
  pub loop_reports :
      (sent_at : List ℕ) (events : List Event) (left : List Message)
      → Perm (reported (loop env cfg sent_at events left).0) (arrivals events ++ left)
        × (pending_in (loop env cfg sent_at events left).1 ≡ [])
  unfolding loop
  loop_reports sent_at events left =
      let first = run env cfg events (start env cfg sent_at) in
      let second = drain env cfg left first.1 in
      let (r, k) = flush-all second.1 in
      (
        subst (λ l. Perm l (arrivals events ++ left))
            (sym (
              reported-parts first.0 (debugf env cfg exit_requested) second.0
                (flush_pending env cfg second.1).0 (debugf env cfg exited)
                (debug-none exit_requested) (debug-none exited) r))
            (join [] (pending_in first.1) (pending_in second.1) (reported first.0)
              (reported second.0) (arrivals events) left (run-all events (start env cfg sent_at))
              (drain-all left first.1)),
        k,
      )
