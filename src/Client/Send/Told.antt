-- ===== src/Client/Send/Told.antt =====
-- What a batch comes to in `client.send` (internal/core/analytics.go), and what the callback is told of
-- it.
use native.Mathlib.Decide.{dec_lt}
use origamy_go_sdk.Base.{
  ◌<◌, ◌⊎◌, ℕ, suc, ◌+◌, ◌≡◌, refl, Option, none, some, List, [], ◌∷◌, map, arith, ap,
}
use origamy_go_sdk.Data.{Reference, Error}
use origamy_go_sdk.Batch.{Serialized}
use origamy_go_sdk.Client.Send.{
  Effect, dispatches, succeeded, failed, accepted, refused, crashed, timer, quit, Delivery,
  notify_success, notify_failure, attempts,
}

-- The payloads that went to the dispatcher, and the calls of the callback.
abbrev pub dispatched : List Effect → List (List ℕ)
dispatched [] = []
dispatched (dispatches b ∷ es) = b ∷ dispatched es
dispatched (_ ∷ es) = dispatched es

abbrev pub notes : List Effect → List Effect
notes [] = []
notes (succeeded m ∷ es) = succeeded m ∷ notes es
notes (failed m e ∷ es) = failed m e ∷ notes es
notes (_ ∷ es) = notes es

-- How a batch ends: sent, given up with an error, or lost to a panic of the dispatcher.
pub data Fate : Type 0 where
  delivered : Fate
  dropped : Error → Fate
  lost : Fate

-- Every attempt before number `n` was refused, and the wait after it ran out.
abbrev pub Reaches : Delivery → ℕ → Type 0
Reaches w n = (j : ℕ) → j < n → ((e : Error) × (w.reply j ≡ refused e)) × (w.wake j ≡ timer)

-- Attempt number `n`, of ten, is the last one, and gives the batch its end: it is accepted; or it is
-- refused and the client is closed during the wait or no attempt is left; or it panics.
abbrev pub Decides : Delivery → ℕ → Fate → Type 0
Decides w n delivered = w.reply n ≡ accepted
Decides w n (dropped e) = (w.reply n ≡ refused e) × ((w.wake n ≡ quit) ⊎ (suc n ≡ attempts))
Decides w n lost = w.reply n ≡ crashed

-- What the callback is told of the messages of the batch.
abbrev pub told : Option Reference → Fate → List Serialized → List Effect
told none fate msgs = []
told (some c) delivered msgs = map (λ m. succeeded m.msg) msgs
told (some c) (dropped e) msgs = map (λ m. failed m.msg e) msgs
told (some c) lost msgs = []

notes-succeeded :
    (msgs : List Serialized)
    → (notes (map (λ m. succeeded m.msg) msgs) ≡ map (λ m. succeeded m.msg) msgs)
      × (dispatched (map (λ m. succeeded m.msg) msgs) ≡ [])
notes-succeeded [] = (refl, refl)
notes-succeeded (m ∷ msgs) =
    let (n, d) = notes-succeeded msgs in (ap (λ l. succeeded m.msg ∷ l) n, d)

notes-failed :
    (e : Error) (msgs : List Serialized)
    → (notes (map (λ m. failed m.msg e) msgs) ≡ map (λ m. failed m.msg e) msgs)
      × (dispatched (map (λ m. failed m.msg e) msgs) ≡ [])
notes-failed e [] = (refl, refl)
notes-failed e (m ∷ msgs) = let (n, d) = notes-failed e msgs in (ap (λ l. failed m.msg e ∷ l) n, d)

pub success-told :
    (c : Option Reference) (msgs : List Serialized)
    → (notes (notify_success c msgs) ≡ told c delivered msgs)
      × (dispatched (notify_success c msgs) ≡ [])
unfolding notify_success
success-told none msgs = (refl, refl)
success-told (some c) msgs = notes-succeeded msgs

pub failure-told :
    (c : Option Reference) (msgs : List Serialized) (e : Error)
    → (notes (notify_failure c msgs e) ≡ told c (dropped e) msgs)
      × (dispatched (notify_failure c msgs e) ≡ [])
unfolding notify_failure
failure-told none msgs e = (refl, refl)
failure-told (some c) msgs e = notes-failed e msgs

pub lost-told : (c : Option Reference) (msgs : List Serialized) → [] ≡ told c lost msgs
lost-told none msgs = refl
lost-told (some c) msgs = refl

pub Reaches-next :
    (w : Delivery) (i : ℕ) (e : Error)
    → Reaches w i
    → w.reply i ≡ refused e
    → w.wake i ≡ timer
    → Reaches w (i + 1)
Reaches-next w i e r p q j h = elim (dec_lt j i) [
  | yes earlier ↦ r j earlier
  | no last ↦
      let same : i ≡ j = omega arith in
      let here : ((e' : Error) × (w.reply i ≡ refused e')) × (w.wake i ≡ timer) = ((e, p), q) in
      rw same at here
]
