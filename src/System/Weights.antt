-- ===== src/System/Weights.antt =====
-- Messages under way in the client as a whole, counted by a weight: with the weight that is one at a
-- message and zero elsewhere, that is how often the message is there.
use mathlib.Core.List.{map-append}
use origamy_go_sdk.Base.{
  ℕ, ◌+◌, ◌≡◌, refl, ap, ◌∙◌, Bool, true, false, Bool-cases, inl, inr, Option, none, some, List, [],
  ◌∷◌, ◌++◌, arith, elements, zero, suc,
}
use origamy_go_sdk.Data.{Reference, Error, Result, ok, err, too_many_requests}
use origamy_go_sdk.Log.{LogEntry}
use origamy_go_sdk.Message.{Message}
use origamy_go_sdk.Batch.{Serialized, MessageQueue, make_message, max_message_bytes, push, flush}
use origamy_go_sdk.Batch.Invariant.{push_conserves}
use origamy_go_sdk.Client.Send.{
  Effect, dispatches, waits, succeeded, failed, logs, accepted, refused, crashed, timer, quit,
  notify_success, notify_failure, dropped_by_close, dropped_after_attempts,
}
use origamy_go_sdk.Client.Send.Reported.{
  reported, bodies, reported-append, reported-succeeded, reported-failed,
}
use origamy_go_sdk.Client.Loop.{Settings}
use origamy_go_sdk.Client.Loop.Delivered.{make_message-msg}
use origamy_go_sdk.System.Sending
use origamy_go_sdk.System.Sending.{
  Sender, starting, attempting, pausing, finishing, Choice, marshals, replies, wakes, goes, breaks,
  Outcome,
}
use origamy_go_sdk.System.{kept}
use origamy_go_sdk.System.Turns.{
  debug, exceeded, flushing, buffered, hand_over, made, push_turn, flush_turn,
}

-- Settings with a callback.
abbrev pub reporting : Reference → Bool → ℕ → ℕ → Settings
reporting c verbose size cap = record {
  callback = some c;
  verbose = verbose;
  batch_size = size;
  max_concurrent_requests = cap;
}

module _ (f : Message → ℕ) where
  abbrev pub weigh : List Message → ℕ
  weigh [] = 0
  weigh (m ∷ ms) = f m + weigh ms

  pub weigh-append : (xs ys : List Message) → weigh (xs ++ ys) ≡ weigh xs + weigh ys
  weigh-append [] ys = omega arith
  weigh-append (x ∷ xs) ys = omega (arith, weigh-append xs ys)

  abbrev pub waiting_in : MessageQueue → ℕ
  waiting_in q = weigh (bodies (elements q.pending))

  -- What the effects report.
  abbrev pub told : List Effect → ℕ
  told es = weigh (reported es)

  pub told-append : (es gs : List Effect) → told (es ++ gs) ≡ told es + told gs
  told-append es gs = ap weigh (reported-append es gs) ∙ weigh-append (reported es) (reported gs)

  -- The messages that a goroutine has yet to report.
  abbrev pub owed : Sender → ℕ
  owed (starting msgs) = weigh (bodies msgs)
  owed (attempting b msgs left i e) = weigh (bodies msgs)
  owed (pausing b msgs left i e) = weigh (bodies msgs)
  owed (finishing es) = told es

  abbrev pub owes : List Sender → ℕ
  owes [] = 0
  owes (t ∷ ts) = owed t + owes ts

  pub owes-append : (xs ys : List Sender) → owes (xs ++ ys) ≡ owes xs + owes ys
  owes-append [] ys = omega arith
  owes-append (x ∷ xs) ys = omega (arith, owes-append xs ys)

  told-notify_success :
      (c : Reference) (msgs : List Serialized)
      → told (notify_success (some c) msgs) ≡ weigh (bodies msgs)
  unfolding notify_success
  told-notify_success c msgs = ap weigh (reported-succeeded msgs)

  told-notify_failure :
      (c : Reference) (msgs : List Serialized) (e : Error)
      → told (notify_failure (some c) msgs e) ≡ weigh (bodies msgs)
  unfolding notify_failure
  told-notify_failure c msgs e = ap weigh (reported-failed e msgs)

  -- A step of a sending goroutine: what it owed is reported, lost or still owed.
  pub act-owed :
      (c : Reference) (q : Bool) (ch : Choice) (t : Sender) (o : Outcome)
      → Sending.act (some c) q ch t ≡ some o
      → told o.effects + weigh o.lost + owes (kept o.sender) ≡ owed t
  unfolding Sending.act dropped_by_close dropped_after_attempts
  act-owed c q (marshals (ok b)) (starting msgs) o h = ground arith
  act-owed c q (marshals (err e)) (starting msgs) o h = ground (arith, told-notify_failure c msgs e)
  act-owed c q (replies accepted) (attempting b msgs (suc left) i e) o h =
      ground (arith, told-notify_success c msgs)
  act-owed c q (replies (refused x)) (attempting b msgs (suc left) i e) o h = ground arith
  act-owed c q (replies crashed) (attempting b msgs (suc left) i e) o h = ground arith
  act-owed c q goes (attempting b msgs zero i e) o h = ground (arith, told-notify_failure c msgs e)
  act-owed c q (wakes timer) (pausing b msgs left i e) o h = ground arith
  act-owed c q (wakes quit) (pausing b msgs left i e) o h =
      ground (arith, told-notify_failure c msgs e)
  act-owed c q goes (finishing (succeeded m ∷ es)) o h = ground arith
  act-owed c q goes (finishing (failed m e ∷ es)) o h = ground arith
  act-owed c q goes (finishing (dispatches b ∷ es)) o h = ground arith
  act-owed c q goes (finishing (waits i ∷ es)) o h = ground arith
  act-owed c q goes (finishing (logs e ∷ es)) o h = ground arith
  act-owed c q goes (finishing []) o h = ground arith
  act-owed c q breaks (finishing (succeeded m ∷ es)) o h = ground arith
  act-owed c q breaks (finishing (failed m e ∷ es)) o h = ground arith
  act-owed c q ch t o h = ground arith

module _ (f : Message → ℕ) (c : Reference) (verbose : Bool) (size cap : ℕ) where
  abbrev cfg : Settings
  cfg = reporting c verbose size cap

  pub told-debug : (entry : LogEntry) → told f (debug cfg entry) ≡ 0
  told-debug entry = elim (Bool-cases verbose) [ inl e ↦ rw e refl | inr e ↦ rw e refl ]

  hand_over-owed :
      (admits : Bool) (entry : LogEntry) (b : Option (List Serialized)) (q : MessageQueue)
      → (told f (hand_over cfg admits entry b q).effects
            + owes f (hand_over cfg admits entry b q).started
          ≡ weigh f (bodies (elements b)))
        × ((hand_over cfg admits entry b q).pending ≡ q)
  unfolding hand_over
  hand_over-owed admits entry none q = (refl, refl)
  hand_over-owed true entry (some msgs) q = (omega (arith, told-debug entry), refl)
  hand_over-owed false entry (some msgs) q = (
    omega (
      arith,
      told-debug entry,
      told-append f (debug cfg entry) _,
      told-notify_failure f c msgs too_many_requests,
    ),
    refl,
  )

  bodies_weight :
      (xs ys : List Serialized)
      → weigh f (bodies (xs ++ ys)) ≡ weigh f (bodies xs) + weigh f (bodies ys)
  bodies_weight xs ys =
      ap (weigh f) (map-append (λ x. x.msg) xs ys) ∙ weigh-append f (bodies xs) (bodies ys)

  pushed_weight :
      (x : Serialized) (q : MessageQueue)
      → weigh f (bodies (elements (push x q).0)) + waiting_in f (push x q).1
        ≡ waiting_in f q + f x.msg
  pushed_weight x q = omega (
    arith,
    bodies_weight (elements (push x q).0) (elements (push x q).1.pending),
    bodies_weight (elements q.pending) (x ∷ []),
    ap (λ l. weigh f (bodies l)) (push_conserves x q),
  )

  made-owed :
      (m : Message) (admits : Bool) (q : MessageQueue) (r : Result Serialized)
      → ((x : Serialized) → r ≡ ok x → x.msg ≡ m)
      → told f (made cfg m admits q r).effects
          + owes f (made cfg m admits q r).started
          + waiting_in f (made cfg m admits q r).pending
        ≡ waiting_in f q + f m
  made-owed m admits q (err e) h =
      omega (arith, told-notify_failure f c (record { msg = m; json = [] } ∷ []) e)
  made-owed m admits q (ok x) h =
      let (b, q') = push x q in
      let (sum, same) = hand_over-owed admits (exceeded b) b q' in
      omega (
        arith,
        told-debug (buffered cfg q m),
        told-append f (debug cfg (buffered cfg q m)) _,
        sum,
        ap (waiting_in f) same,
        pushed_weight x q,
        ap f (h x refl),
      )

  pub push_turn-owed :
      (m : Message) (r : Result (List ℕ)) (admits : Bool) (q : MessageQueue)
      → told f (push_turn cfg m r admits q).effects
          + owes f (push_turn cfg m r admits q).started
          + waiting_in f (push_turn cfg m r admits q).pending
        ≡ waiting_in f q + f m
  unfolding push_turn
  push_turn-owed m r admits q =
      made-owed m admits q (make_message m r max_message_bytes)
        (make_message-msg m r max_message_bytes)

  pub flush_turn-owed :
      (admits : Bool) (q : MessageQueue)
      → (told f (flush_turn cfg admits q).effects + owes f (flush_turn cfg admits q).started
          ≡ waiting_in f q)
        × ((flush_turn cfg admits q).pending.pending ≡ none)
  unfolding flush_turn flush
  flush_turn-owed admits q =
      let (sum, same) = hand_over-owed admits (flushing (flush q).0) (flush q).0 (flush q).1 in
      (sum, ap (λ p. p.pending) same)
