-- ===== src/Client/Send/Reported.antt =====
-- What the callback is told when `client.sendAsync` (internal/core/analytics.go) has dealt with a batch.
use origamy_go_sdk.Base.{
  ℕ, ◌≡◌, refl, sym, ap, ◌∙◌, ◌≢◌, Bool, true, false, some, List, [], ◌∷◌, ◌++◌, map,
}
use origamy_go_sdk.Data.{Reference, Error, Result, ok, err}
use origamy_go_sdk.Message.{Message}
use origamy_go_sdk.Batch.{Serialized}
use origamy_go_sdk.Client.Send.{
  Effect, dispatches, waits, succeeded, failed, logs, Delivery, crashed, notify_failure, send,
  send_async,
}
use origamy_go_sdk.Client.Send.Told.{Fate, delivered, dropped, lost, Decides, told, notes}
use origamy_go_sdk.Client.Send.Attempts.{send-attempts, send_unmarshalled}

-- The messages that the callback has been told of, in the order of its calls.
abbrev pub reported : List Effect → List Message
reported [] = []
reported (succeeded m ∷ es) = m ∷ reported es
reported (failed m e ∷ es) = m ∷ reported es
reported (_ ∷ es) = reported es

abbrev pub bodies : List Serialized → List Message
bodies = map (λ m. m.msg)

pub reported-append : (es fs : List Effect) → reported (es ++ fs) ≡ reported es ++ reported fs
reported-append [] fs = refl
reported-append (succeeded m ∷ es) fs = ap (λ l. m ∷ l) (reported-append es fs)
reported-append (failed m e ∷ es) fs = ap (λ l. m ∷ l) (reported-append es fs)
reported-append (dispatches b ∷ es) fs = reported-append es fs
reported-append (waits i ∷ es) fs = reported-append es fs
reported-append (logs e ∷ es) fs = reported-append es fs

reported-notes : (es : List Effect) → reported (notes es) ≡ reported es
reported-notes [] = refl
reported-notes (succeeded m ∷ es) = ap (λ l. m ∷ l) (reported-notes es)
reported-notes (failed m e ∷ es) = ap (λ l. m ∷ l) (reported-notes es)
reported-notes (dispatches b ∷ es) = reported-notes es
reported-notes (waits i ∷ es) = reported-notes es
reported-notes (logs e ∷ es) = reported-notes es

pub reported-succeeded :
    (msgs : List Serialized) → reported (map (λ m. succeeded m.msg) msgs) ≡ bodies msgs
reported-succeeded [] = refl
reported-succeeded (m ∷ msgs) = ap (λ l. m.msg ∷ l) (reported-succeeded msgs)

pub reported-failed :
    (e : Error) (msgs : List Serialized) → reported (map (λ m. failed m.msg e) msgs) ≡ bodies msgs
reported-failed e [] = refl
reported-failed e (m ∷ msgs) = ap (λ l. m.msg ∷ l) (reported-failed e msgs)

told-all :
    (c : Reference) (fate : Fate) (msgs : List Serialized)
    → fate ≢ lost
    → reported (told (some c) fate msgs) ≡ bodies msgs
told-all c delivered msgs h = reported-succeeded msgs
told-all c (dropped e) msgs h = reported-failed e msgs
told-all c lost msgs h = absurd (h refl)

-- The dispatcher does not panic.
abbrev pub IsCalm : Delivery → Type 0
IsCalm w = (i : ℕ) → w.reply i ≢ crashed

module _ (c : Reference) (w : Delivery) (calm : IsCalm w) (msgs : List Serialized) where
  sent-all : (r : Result (List ℕ)) → w.payload ≡ r → reported (send (some c) w msgs) ≡ bodies msgs
  sent-all (err e) p =
      sym (reported-notes (send (some c) w msgs))
      ∙ ap reported (send_unmarshalled (some c) w [] msgs p).1
      ∙ reported-failed e msgs
  sent-all (ok b) p =
      let (last, fate, t, r, d, s, n) = send-attempts (some c) w b msgs p in
      sym (reported-notes (send (some c) w msgs))
      ∙ ap reported n
      ∙ told-all c fate msgs (survives last fate d)
    where
      survives : (last : ℕ) (fate : Fate) → Decides w last fate → fate ≢ lost
      survives last delivered d = λ e. cc
      survives last (dropped e) d = λ e. cc
      survives last lost d = absurd (calm last d)

  failure-all : (e : Error) → reported (notify_failure (some c) msgs e) ≡ bodies msgs
  unfolding notify_failure
  failure-all e = reported-failed e msgs

  -- Sent or refused by the executor, every message of the batch is reported, in order.
  pub async-all : (taken : Bool) → reported (send_async (some c) taken w msgs) ≡ bodies msgs
  unfolding send_async
  async-all true = sent-all w.payload refl
  async-all false = failure-all _
