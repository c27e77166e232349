-- ===== src/Batch/Invariant.antt =====
-- What `messageQueue.push` and `flush` keep (internal/core/message.go).
use origamy_go_sdk.Base.{
  ℕ, ◌+◌, ◌≡◌, ◌≤◌, ◌<◌, ◌≢◌, Option, none, some, List, [], ◌∷◌, ◌++◌, arith, length, length-append,
  elements, append-nil,
}
use origamy_go_sdk.Batch.{Serialized, size, MessageQueue, flush, push}

-- The bytes of the JSON texts of a batch.
abbrev pub total : List Serialized → ℕ
total [] = 0
total (m ∷ ms) = length m.json + total ms

pub total-append : (xs ys : List Serialized) → total (xs ++ ys) ≡ total xs + total ys
total-append [] ys = omega arith
total-append (x ∷ xs) ys = omega (arith, total-append xs ys)

-- Between two calls: the counter is the size of what is pending, no slice is empty, and neither limit
-- is reached.
pub record IsValid (q : MessageQueue) : Type 0 where
  pub counted : q.bytes ≡ total (elements q.pending)
  pub filled : q.pending ≢ some []
  pub below : length (elements q.pending) < q.max_batch_size
  pub fits : q.pending ≢ none → q.bytes < q.max_batch_bytes

abbrev pub room : (size batch : ℕ) → MessageQueue
room size bytes = record {
  pending = none;
  bytes = 0;
  max_batch_size = size;
  max_batch_bytes = bytes;
}

pub room-IsValid : (size bytes : ℕ) → 0 < size → IsValid (room size bytes)
room-IsValid size bytes h = ground arith

-- A slice that `push` or `flush` hands over to be sent.
pub record IsSendable (q : MessageQueue) (b : List Serialized) : Type 0 where
  pub some_message : 0 < length b
  pub few : length b ≤ q.max_batch_size
  pub small : total b < q.max_batch_bytes

abbrev pub Sendable : MessageQueue → Option (List Serialized) → Type 0
Sendable q none = Unit
Sendable q (some b) = IsSendable q b

module _ (m : Serialized) (q : MessageQueue) where
  facts :
      (length (elements q.pending ++ m ∷ []) ≡ length (elements q.pending) + 1)
      × (total (elements q.pending ++ m ∷ []) ≡ total (elements q.pending) + length m.json)
  facts = (
    omega (arith, length-append (elements q.pending) (m ∷ [])),
    omega (arith, total-append (elements q.pending) (m ∷ [])),
  )

  pub push-IsValid : IsValid q → size m ≤ q.max_batch_bytes → IsValid (push m q).1
  unfolding push
  push-IsValid v h = ground (arith, facts)

  pub push-Sendable : IsValid q → size m ≤ q.max_batch_bytes → Sendable q (push m q).0
  unfolding push
  push-Sendable v h = ground (arith, facts)

  -- No message is lost, doubled or moved.
  pub push_conserves :
      elements (push m q).0 ++ elements (push m q).1.pending ≡ elements q.pending ++ m ∷ []
  unfolding push
  push_conserves = ground (arith, append-nil (elements q.pending ++ m ∷ []))

  pub push_limits :
      ((push m q).1.max_batch_size ≡ q.max_batch_size)
      × ((push m q).1.max_batch_bytes ≡ q.max_batch_bytes)
  unfolding push
  push_limits = ground arith

module _ (q : MessageQueue) (v : IsValid q) where
  pub flush-IsValid : IsValid (flush q).1
  unfolding flush
  flush-IsValid = ground (arith, v)

  pub flush-Sendable : Sendable q (flush q).0
  unfolding flush
  flush-Sendable = ground (arith, v)
