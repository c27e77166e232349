-- ===== src/Client/Enqueue/Accept.antt =====
-- Which messages `client.Enqueue` (internal/core/analytics.go) takes, and what it puts in the queue.
use origamy_go_sdk.Base.{
  ◌≡◌, refl, ◌⊎◌, inl, inr, ◌∙◌, true, false, String, Option, none, some, [], ◌∷◌, ◌++◌, arith,
  is_empty, Option-cases,
}
use origamy_go_sdk.Data.{Time, is_zero_time, Error, closed}
use origamy_go_sdk.Message
use origamy_go_sdk.Message.{
  Message, alias, group, identify, page, screen, track, Argument, value, pointer, nil_pointer,
  nil_interface, custom,
}
use origamy_go_sdk.Message.Context.{Context}
use origamy_go_sdk.Queue.{Call, returns, blocks, panics}
use origamy_go_sdk.Queue.Interface.{Queue, IsLawful}
use origamy_go_sdk.Client.Enqueue.{dereference, decorate, queued, validated, enqueue}
use origamy_go_sdk.Client.Enqueue.Complete.{IsComplete, validate-decorate, decorate-IsComplete}

module _ (Q : Queue Message) (id : String) (ts : Time) (ctx : Context) where
  queued-nil :
      (r : Call Q.State (Option Error)) (s : Q.State)
      → queued Q id ts ctx r ≡ returns s none
      → r ≡ returns s none
  queued-nil (returns t none) s e = e
  queued-nil (returns t (some x)) s e = cc
  queued-nil blocks s e = cc
  queued-nil panics s e = cc

  queued-error :
      (r : Call Q.State (Option Error)) (s : Q.State) (x : Error)
      → queued Q id ts ctx r ≡ returns s (some x)
      → (y : Error) × (r ≡ returns s (some y))
  queued-error (returns t none) s x e = cc
  queued-error (returns t (some y)) s x e = (y, cc)
  queued-error blocks s x e = cc
  queued-error panics s x e = cc

module _ (Q : Queue Message) (lawful : IsLawful Message Q) (id : String) (ts : Time)
    (ctx : Context) where
  abbrev call : Argument → Q.State → Call Q.State (Option Error)
  call = enqueue Q id ts ctx

  -- What an accepted message has done to the queue.
  pub record Accepts (msg : Argument) (s s' : Q.State) : Type 0 where
    pub message : Message
    pub given : dereference msg ≡ value message
    pub valid : Message.validate message ≡ none
    pub joined : lawful.contents s' ≡ lawful.contents s ++ decorate id ts ctx message ∷ []
    pub complete : IsComplete (decorate id ts ctx message)
    pub still_valid : Message.validate (decorate id ts ctx message) ≡ none
    pub sound : lawful.Sound s'

  Accepts-value :
      (msg : Argument) (m : Message) (s s' : Q.State)
      → dereference msg ≡ value m
      → lawful.Sound s
      → is_empty id ≡ false
      → is_zero_time ts ≡ false
      → validated Q id ts ctx (Message.validate m) m s ≡ returns s' none
      → Accepts msg s s'
  Accepts-value msg m s s' d v h k e = elim (Option-cases (Message.validate m)) [
    | inr (x, p) ↦ absurd (ground (arith, p))
    | inl p ↦
        let (good, at_end) =
          lawful.enqueue_nil (decorate id ts ctx m) s s' v
            (queued-nil Q id ts ctx _ s' (rw p at e)) in
        record {
          message = m;
          given = d;
          valid = p;
          joined = at_end;
          complete = decorate-IsComplete id ts ctx m h k;
          still_valid = validate-decorate id ts ctx m ∙ p;
          sound = good;
        }
  ]

  -- `Enqueue` returns nil only for a message of the package, by value or behind a pointer, that is
  -- valid; then the queue has the decorated message behind those that it had. The message is complete
  -- and still valid. The id and the time that it is given are not the zero values.
  pub enqueue-Accepts :
      (msg : Argument) {s s' : Q.State}
      → lawful.Sound s
      → is_empty id ≡ false
      → is_zero_time ts ≡ false
      → enqueue Q id ts ctx msg s ≡ returns s' none
      → Accepts msg s s'
  unfolding enqueue dereference
  enqueue-Accepts (value m) {s} {s'} v h k e = Accepts-value (value m) m s s' refl v h k e
  enqueue-Accepts (pointer m) {s} {s'} v h k e = Accepts-value (pointer m) m s s' refl v h k e
  enqueue-Accepts (nil_pointer n) v h k e = cc
  enqueue-Accepts nil_interface v h k e = cc
  enqueue-Accepts (custom n Message.passes) v h k e = cc
  enqueue-Accepts (custom n (Message.fails x)) v h k e = cc
  enqueue-Accepts (custom n Message.panics) v h k e = cc

  refuses_value :
      (m : Message) (s s' : Q.State) (x : Error)
      → lawful.Sound s
      → validated Q id ts ctx (Message.validate m) m s ≡ returns s' (some x)
      → s' ≡ s
  refuses_value m s s' x v e = elim (Option-cases (Message.validate m)) [
    | inr (y, p) ↦ ground (arith, p)
    | inl p ↦
        let (y, q) = queued-error Q id ts ctx _ s' x (rw p at e) in
        lawful.enqueue_error _ s s' y v q
  ]

  -- With an error nothing has been queued.
  pub enqueue_refuses :
      (msg : Argument) {s s' : Q.State} {x : Error}
      → lawful.Sound s
      → enqueue Q id ts ctx msg s ≡ returns s' (some x)
      → s' ≡ s
  unfolding enqueue dereference
  enqueue_refuses (value m) {s} {s'} {x} v e = refuses_value m s s' x v e
  enqueue_refuses (pointer m) {s} {s'} {x} v e = refuses_value m s s' x v e
  enqueue_refuses (nil_pointer n) v e = cc
  enqueue_refuses nil_interface v e = cc
  enqueue_refuses (custom n Message.passes) v e = cc
  enqueue_refuses (custom n (Message.fails y)) v e = cc
  enqueue_refuses (custom n Message.panics) v e = cc

  after_close_value :
      (m : Message) (s : Q.State)
      → lawful.Sound s
      → Message.validate m ≡ none
      → Q.is_closed s ≡ true
      → validated Q id ts ctx (Message.validate m) m s ≡ returns s (some closed)
  after_close_value m s v p c =
      let (x, q) = lawful.enqueue_closed (decorate id ts ctx m) s v c in rw (p, q) (rw c refl)

  -- A valid message for a closed queue is refused with `ErrClosed`.
  pub enqueue_after_close :
      (msg : Argument) (m : Message) {s : Q.State}
      → lawful.Sound s
      → dereference msg ≡ value m
      → Message.validate m ≡ none
      → Q.is_closed s ≡ true
      → enqueue Q id ts ctx msg s ≡ returns s (some closed)
  unfolding enqueue
  enqueue_after_close msg m {s} v d p c = rw d (after_close_value m s v p c)

  -- A nil message, and a value of the application's own type whose `Validate` panics.
  abbrev pub IsUncheckable : Argument → Type 0
  IsUncheckable msg =
      (dereference msg ≡ nil_interface)
      ⊎ ((name : String) × (dereference msg ≡ custom name Message.panics))
