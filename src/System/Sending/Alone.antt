-- ===== src/System/Sending/Alone.antt =====
-- The goroutine that `client.sendAsync` (internal/core/analytics.go) starts, step by step, against the task
-- as one function.
use mathlib.Core.Option.{some-injective, none-ne-some}
use origamy_go_sdk.Base.{
  ap₂, ◌∙◌, ℕ, zero, suc, ◌+◌, ◌≡◌, refl, subst, sym, ap, true, Option, none, some, List, [], ◌∷◌,
  ◌++◌,
}
use origamy_go_sdk.Data.{Reference, Error, Result, ok, err}
use origamy_go_sdk.Batch.{Serialized}
use origamy_go_sdk.Client.Send
use origamy_go_sdk.Client.Send.{
  Effect, dispatches, waits, Delivery, Reply, accepted, refused, crashed, Wake, timer, quit,
  attempts, no_error, retry, after_reply, after_wake, dropped_by_close, dropped_after_attempts,
  send,
}
use origamy_go_sdk.System.Sending.{
  Sender, starting, attempting, pausing, finishing, Choice, marshals, replies, wakes, goes, Outcome,
  act,
}

one : {A : Type 0} {x : Option A} {a b : A} → x ≡ some a → x ≡ some b → a ≡ b
one p q = some-injective _ _ (sym p ∙ q)

module _ (callback : Option Reference) (w : Delivery) where
  -- What the world decides at each step, in the world that a batch meets.
  abbrev meets : Sender → Choice
  meets (starting msgs) = marshals w.payload
  meets (attempting b msgs (suc left) i e) = replies (w.reply i)
  meets (attempting b msgs zero i e) = goes
  meets (pausing b msgs left i e) = wakes (w.wake i)
  meets (finishing es) = goes

  -- The steps of a goroutine to its end, with all that they do; `c.quit` is closed, so that a wait may
  -- end either way.
  pub data Runs : Sender → List Effect → Type 0 where
    ends :
        {t : Sender} {o : Outcome}
        → act callback true (meets t) t ≡ some o
        → o.sender ≡ none
        → Runs t o.effects
    goes_on :
        {t u : Sender} {o : Outcome} {es : List Effect}
        → act callback true (meets t) t ≡ some o
        → o.sender ≡ some u
        → Runs u es
        → Runs t (o.effects ++ es)

  finishing_runs : (es : List Effect) → Runs (finishing es) es
  unfolding act
  finishing_runs [] = ends refl refl
  finishing_runs (e ∷ es) = goes_on refl refl (finishing_runs es)

  waking_runs :
      (b : List ℕ) (msgs : List Serialized) (left i : ℕ) (e : Error) (rest : List Effect) (x : Wake)
      → w.wake i ≡ x
      → Runs (attempting b msgs left (i + 1) e) rest
      → Runs (pausing b msgs left i e) (after_wake callback msgs e rest x)
  unfolding act after_wake
  waking_runs b msgs left i e rest timer h r =
      goes_on (ap (λ x. act callback true (wakes x) (pausing b msgs left i e)) h) refl r
  waking_runs b msgs left i e rest quit h r =
      goes_on (ap (λ x. act callback true (wakes x) (pausing b msgs left i e)) h) refl
        (finishing_runs _)

  reply_runs :
      (b : List ℕ) (msgs : List Serialized) (left i : ℕ) (e : Error) (rest : Error → List Effect)
      (x : Reply)
      → w.reply i ≡ x
      → ((e' : Error) → Runs (attempting b msgs left (i + 1) e') (rest e'))
      → Runs
          (attempting b msgs (suc left) i e)
          (dispatches b ∷ after_reply callback w msgs i rest x)
  unfolding act after_reply
  reply_runs b msgs left i e rest accepted h r =
      goes_on (ap (λ r. act callback true (replies r) (attempting b msgs (suc left) i e)) h) refl
        (finishing_runs _)
  reply_runs b msgs left i e rest crashed h r =
      goes_on (ap (λ r. act callback true (replies r) (attempting b msgs (suc left) i e)) h) refl
        (finishing_runs _)
  reply_runs b msgs left i e rest (refused x) h r =
      goes_on (ap (λ r. act callback true (replies r) (attempting b msgs (suc left) i e)) h) refl
        (waking_runs b msgs left i x (rest x) (w.wake i) refl (r x))

  retry_runs :
      (b : List ℕ) (msgs : List Serialized) (left i : ℕ) (e : Error)
      → Runs (attempting b msgs left i e) (retry callback w b msgs left i e)
  unfolding act retry
  retry_runs b msgs zero i e = goes_on refl refl (finishing_runs _)
  retry_runs b msgs (suc left) i e =
      reply_runs b msgs left i e _ (w.reply i) refl (λ x. retry_runs b msgs left (i + 1) x)

  payload_runs :
      (msgs : List Serialized) (r : Result (List ℕ))
      → w.payload ≡ r
      → Runs (starting msgs) (Send.marshalled callback w msgs r)
  unfolding act
  payload_runs msgs (ok b) h =
      goes_on (ap (λ r. act callback true (marshals r) (starting msgs)) h) refl
        (retry_runs b msgs attempts 0 no_error)
  payload_runs msgs (err e) h =
      goes_on (ap (λ r. act callback true (marshals r) (starting msgs)) h) refl (finishing_runs _)

  starting-Runs : (msgs : List Serialized) → Runs (starting msgs) (send callback w msgs)
  unfolding send
  starting-Runs msgs = payload_runs msgs w.payload refl

  -- The steps have one course.
  Runs_unique : {t : Sender} {es gs : List Effect} → Runs t es → Runs t gs → es ≡ gs
  Runs_unique (ends p n) (ends q m) = ap (λ o. o.effects) (one p q)
  Runs_unique (ends p n) (goes_on q m r) =
      absurd (none-ne-some _ (sym n ∙ ap (λ o. o.sender) (one p q) ∙ m))
  Runs_unique (goes_on p n r) (ends q m) =
      absurd (none-ne-some _ (sym m ∙ ap (λ o. o.sender) (one q p) ∙ n))
  Runs_unique (goes_on p n r) (goes_on {es = later} q m s) =
      let eq = one p q in
      let after = some-injective _ _ (sym m ∙ sym (ap (λ o. o.sender) eq) ∙ n) in
      ap₂ (λ o es. o.effects ++ es) eq (Runs_unique r (subst (λ t. Runs t later) after s))

  -- The goroutine of a batch, run by itself in the world that the batch meets, with `c.quit` closed so
  -- that each wait may end either way, comes to its end, and what it does is what the task `send` does,
  -- in the same order.
  pub starting-send :
      (msgs : List Serialized)
      → Runs (starting msgs) (send callback w msgs)
        × ((es : List Effect) → Runs (starting msgs) es → es ≡ send callback w msgs)
  starting-send msgs = (starting-Runs msgs, λ es r. Runs_unique r (starting-Runs msgs))
