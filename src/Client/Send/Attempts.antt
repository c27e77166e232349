-- ===== src/Client/Send/Attempts.antt =====
-- What becomes of one batch in `client.send` (internal/core/analytics.go): the attempts that it makes,
-- and the one notification of each message.
use origamy_go_sdk.Base.{
  replicate, ◌<◌, inl, inr, ℕ, zero, suc, ◌+◌, ◌≡◌, refl, Option, List, [], ◌∷◌, arith, ap, ◌∙◌,
  sym, subst,
}
use origamy_go_sdk.Data.{Reference, Error, ok, err}
use origamy_go_sdk.Batch.{Serialized}
use origamy_go_sdk.Client.Send.{
  Effect, dispatches, waits, Reply, accepted, refused, crashed, Wake, timer, quit, Delivery,
  dropped_by_close, dropped_after_attempts, after_wake, after_reply, no_error, marshalled, retry,
  send, attempts,
}
use origamy_go_sdk.Client.Send.Told.{
  dispatched, notes, Fate, Reaches, Decides, told, success-told, failure-told, lost-told,
  Reaches-next, delivered, dropped, lost,
}

module _ (c : Option Reference) (w : Delivery) (b : List ℕ) (msgs : List Serialized) where
  -- The course from attempt number `i` on, made by `k` calls of the dispatcher.
  record Course (i : ℕ) (es : List Effect) : Type 0 where
    last : ℕ
    calls : ℕ
    fate : Fate
    reaches : Reaches w last
    decides : Decides w last fate
    in_time : last < attempts
    counted : calls + i ≡ suc last
    sent : dispatched es ≡ replicate calls b
    noted : notes es ≡ told c fate msgs

  given_up :
      (i : ℕ) (e : Error)
      → i ≡ attempts
      → Reaches w i
      → ((p : ℕ) → suc p ≡ i → w.reply p ≡ refused e)
      → Course i (dropped_after_attempts c msgs e)
  unfolding dropped_after_attempts
  given_up i e h r prev = record {
    last = 9;
    calls = 0;
    fate = dropped e;
    reaches = λ j k. r j (omega arith);
    decides = (prev 9 (omega arith), inr refl);
    in_time = omega arith;
    counted = omega arith;
    sent = (failure-told c msgs e).1;
    noted = (failure-told c msgs e).0;
  }

  -- One more call in front of a course.
  earlier : (i : ℕ) (es : List Effect) → Course (i + 1) es → Course i (dispatches b ∷ waits i ∷ es)
  earlier i es k = record {
    last = k.last;
    calls = suc k.calls;
    fate = k.fate;
    reaches = k.reaches;
    decides = k.decides;
    in_time = k.in_time;
    counted = omega (arith, k.counted);
    sent = ap (λ l. b ∷ l) k.sent;
    noted = k.noted;
  }

  waited :
      (i : ℕ) (e : Error) (rest : List Effect) (k : Wake)
      → w.wake i ≡ k
      → i < attempts
      → Reaches w i
      → w.reply i ≡ refused e
      → (w.wake i ≡ timer → Course (i + 1) rest)
      → Course i (dispatches b ∷ waits i ∷ after_wake c msgs e rest k)
  unfolding after_wake dropped_by_close
  waited i e rest timer q h r p ih = earlier i rest (ih q)
  waited i e rest quit q h r p ih = record {
    last = i;
    calls = 1;
    fate = dropped e;
    reaches = r;
    decides = (p, inl q);
    in_time = h;
    counted = omega arith;
    sent = ap (λ l. b ∷ l) (failure-told c msgs e).1;
    noted = (failure-told c msgs e).0;
  }

  replied :
      (i : ℕ) (rest : Error → List Effect) (k : Reply)
      → w.reply i ≡ k
      → i < attempts
      → Reaches w i
      → ((e : Error) → w.reply i ≡ refused e → w.wake i ≡ timer → Course (i + 1) (rest e))
      → Course i (dispatches b ∷ after_reply c w msgs i rest k)
  unfolding after_reply
  replied i rest accepted p h r ih = record {
    last = i;
    calls = 1;
    fate = delivered;
    reaches = r;
    decides = p;
    in_time = h;
    counted = omega arith;
    sent = ap (λ l. b ∷ l) (success-told c msgs).1;
    noted = (success-told c msgs).0;
  }
  replied i rest crashed p h r ih = record {
    last = i;
    calls = 1;
    fate = lost;
    reaches = r;
    decides = p;
    in_time = h;
    counted = omega arith;
    sent = refl;
    noted = lost-told c msgs;
  }
  replied i rest (refused e) p h r ih = waited i e (rest e) (w.wake i) refl h r p (ih e p)

  retry-Course :
      (left i : ℕ) (e : Error)
      → left + i ≡ attempts
      → Reaches w i
      → ((p : ℕ) → suc p ≡ i → w.reply p ≡ refused e)
      → Course i (retry c w b msgs left i e)
  unfolding retry
  retry-Course zero i e h r prev = given_up i e (omega arith) r prev
  retry-Course (suc left) i e h r prev = replied i _ (w.reply i) refl (omega arith) r λ e' p q.
      retry-Course left (i + 1) e' (omega arith) (Reaches-next w i e' r p q)
        (λ k same. let here : i ≡ k = omega arith in rw here at p)

  send-Course : w.payload ≡ ok b → Course 0 (send c w msgs)
  unfolding send
  send-Course p =
      subst (λ r. Course 0 (marshalled c w msgs r)) (sym p)
        (retry-Course attempts 0 no_error refl (λ j h. absurd (omega arith))
          (λ j h. absurd (omega arith)))

  -- A batch whose marshalling gives a payload is decided by one attempt, the first that is accepted,
  -- panics, or is refused with the client closed in the wait after it or no attempt left; there are at
  -- most ten. Each attempt sends that payload. If there is a callback, it is told once of each message
  -- of the batch, in order: `Success`, or `Failure` with the error of the deciding attempt; and of
  -- none if the dispatcher has panicked.
  pub send-attempts :
      w.payload ≡ ok b
      → (last : ℕ) × (fate : Fate) × (last < attempts)
        × Reaches w last
        × Decides w last fate
        × (dispatched (send c w msgs) ≡ replicate (suc last) b)
        × (notes (send c w msgs) ≡ told c fate msgs)
  send-attempts p =
      let k = send-Course p in
      let count : k.calls ≡ suc k.last = omega (arith, k.counted) in
      (
        k.last,
        k.fate,
        k.in_time,
        k.reaches,
        k.decides,
        k.sent ∙ ap (λ n. replicate n b) count,
        k.noted,
      )

  -- A batch that cannot be marshalled is not sent, and each of its messages is reported as failed.
  pub send_unmarshalled :
      {e : Error}
      → w.payload ≡ err e
      → (dispatched (send c w msgs) ≡ []) × (notes (send c w msgs) ≡ told c (dropped e) msgs)
  unfolding send
  send_unmarshalled {e} p = (
    ap (λ r. dispatched (marshalled c w msgs r)) p ∙ (failure-told c msgs e).1,
    ap (λ r. notes (marshalled c w msgs r)) p ∙ (failure-told c msgs e).0,
  )
