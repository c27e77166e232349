-- ===== src/Queue/Interface.antt =====
-- internal/queue/queue.go: the `Queue` interface, as far as `client.Enqueue` calls it, and what the
-- client relies on. ChannelQueue (channel.go) implements it.
use origamy_go_sdk.Base.{
  length-append, ◌≡◌, ◌≢◌, Bool, true, Option, none, some, List, [], ◌∷◌, ◌++◌, arith,
}
use origamy_go_sdk.Data.{Error, queue_closed}
use origamy_go_sdk.Queue.{ChannelQueue, Call, returns, panics, enqueue, is_closed}
use origamy_go_sdk.Queue.Calls.{IsValid}

pub record Queue (A : Type 0) : Type 1 where
  pub State : Type 0
  pub enqueue : A → State → Call State (Option Error)
  pub is_closed : State → Bool

-- `contents` are the messages that wait, oldest first; `Sound` are the states that calls lead to.
-- A nil result means that the message waits behind the others; an error, that nothing has changed; a
-- closed queue returns an error; and no call panics.
pub record IsLawful (A : Type 0) (Q : Queue A) : Type 1 where
  pub Sound : Q.State → Type 0
  pub contents : Q.State → List A
  pub enqueue_nil :
      (a : A) (s s' : Q.State)
      → Sound s
      → Q.enqueue a s ≡ returns s' none
      → Sound s' × (contents s' ≡ contents s ++ a ∷ [])
  pub enqueue_error :
      (a : A) (s s' : Q.State) (e : Error) → Sound s → Q.enqueue a s ≡ returns s' (some e) → s' ≡ s
  pub enqueue_closed :
      (a : A) (s : Q.State)
      → Sound s
      → Q.is_closed s ≡ true
      → (e : Error) × (Q.enqueue a s ≡ returns s (some e))
  pub enqueue_calm : (a : A) (s : Q.State) → Sound s → Q.enqueue a s ≢ panics

abbrev pub channel_queue : (A : Type 0) → Queue A
channel_queue A = record { State = ChannelQueue A; enqueue = enqueue; is_closed = is_closed }

module _ {A : Type 0} (a : A) (q : ChannelQueue A) where
  pub channel_nil :
      (q' : ChannelQueue A)
      → IsValid q
      → enqueue a q ≡ returns q' none
      → IsValid q' × (q'.ch.buffer ≡ q.ch.buffer ++ a ∷ [])
  unfolding enqueue
  channel_nil q' v e = ground (arith, length-append q.ch.buffer (a ∷ []))

  pub channel_error : (q' : ChannelQueue A) (x : Error) → enqueue a q ≡ returns q' (some x) → q' ≡ q
  unfolding enqueue
  channel_error q' x e = ground arith

  pub channel_closed : is_closed q ≡ true → (e : Error) × (enqueue a q ≡ returns q (some e))
  unfolding enqueue is_closed
  channel_closed e = (queue_closed, ground arith)

  pub channel_calm : IsValid q → enqueue a q ≢ panics
  unfolding enqueue
  channel_calm v e = ground arith

-- ChannelQueue keeps what the client relies on.
abbrev pub channel_queue-IsLawful : (A : Type 0) → IsLawful A (channel_queue A)
channel_queue-IsLawful A = record {
  Sound = IsValid;
  contents = λ q. q.ch.buffer;
  enqueue_nil = λ a s s' v e. channel_nil a s s' v e;
  enqueue_error = λ a s s' x v e. channel_error a s s' x e;
  enqueue_closed = λ a s v e. channel_closed a s e;
  enqueue_calm = λ a s v. channel_calm a s v;
}
