-- ===== src/Batch/Payload.antt =====
-- The size of the payload of a batch, against the budget that `client.maxBatchBytes` gives to
-- `messageQueue` (internal/core/message.go and analytics.go). `push` counts the comma of the message
-- that it is given, and adds none to its counter.
use origamy_go_sdk.Base.{
  ℕ, ◌+◌, ◌≡◌, subst, ◌≤◌, ◌<◌, Option, none, some, List, [], ◌∷◌, ◌++◌, arith, length,
  length-append, elements,
}
use origamy_go_sdk.Batch.{
  Serialized, size, MessageQueue, push, encode_items, encode_batch, encode_slice, codes,
}
use origamy_go_sdk.Batch.Invariant.{
  IsValid, IsSendable, Sendable, total, total-append, push-Sendable,
}

-- One comma between each two messages.
length-encode_items :
    (m : Serialized) (ms : List Serialized)
    → length (encode_items (m ∷ ms)) ≡ total (m ∷ ms) + length ms
length-encode_items m [] = omega arith
length-encode_items m (n ∷ ms) =
    omega (arith, length-append m.json (b',' ∷ encode_items (n ∷ ms)), length-encode_items n ms)

-- The texts round the slice.
pub length-framed :
    (t : List ℕ) (s : Option (List Serialized))
    → length (encode_batch t s) ≡ length t + length (encode_slice s) + 22
unfolding encode_batch
length-framed t s = omega (
  arith,
  length-append t (codes "\",\"batch\":" ++ (encode_slice s ++ b'}' ∷ [])),
  length-append (encode_slice s) (b'}' ∷ []),
)

-- The payload of a batch, measured by that of no batch, whose `null` is four bytes long.
pub length-encode_batch :
    (t : List ℕ) (b : List Serialized)
    → 0 < length b
    → length (encode_batch t (some b)) + 3 ≡ length (encode_batch t none) + total b + length b
length-encode_batch t [] h = absurd (omega arith)
length-encode_batch t (m ∷ ms) h = omega (
  arith,
  length-framed t (some (m ∷ ms)),
  length-framed t none,
  length-append (encode_items (m ∷ ms)) (b']' ∷ []),
  length-encode_items m ms,
)

-- The batch that `push` hands over or `flush` leaves, sent with a time text as long as the one that
-- the budget was computed with: its payload passes the limit by no more than the commas that were not
-- counted. The limit is met by batches of up to four messages.
pub payload_bound :
    (limit : ℕ) (t : List ℕ) (m : Serialized) (q : MessageQueue) {b : List Serialized}
    → IsValid q
    → size m ≤ q.max_batch_bytes
    → q.max_batch_bytes + length (encode_batch t none) ≡ limit
    → (push m q).0 ≡ some b
    → length (encode_batch t (some b)) + 4 ≤ limit + length b
payload_bound limit t m q {b} v fits budget e =
    let s : IsSendable q b = subst (Sendable q) e (push-Sendable m q v fits) in
    omega (arith, s.small, s.some_message, length-encode_batch t b s.some_message)

-- The limit can be passed: a message that fills the budget to the last byte completes the batch, and
-- a batch of n messages has a payload of n - 4 bytes more than the limit.
pub payload_overshoots :
    (limit : ℕ) (t : List ℕ) (m : Serialized) (q : MessageQueue)
    → IsValid q
    → q.bytes + size m ≡ q.max_batch_bytes
    → length (elements q.pending) + 1 ≡ q.max_batch_size
    → q.max_batch_bytes + length (encode_batch t none) ≡ limit
    → 5 ≤ q.max_batch_size
    → (b : List Serialized) × ((push m q).0 ≡ some b)
      × (length (encode_batch t (some b)) + 4 ≡ limit + q.max_batch_size)
      × (limit < length (encode_batch t (some b)))
unfolding push
payload_overshoots limit t m q v full last budget five =
    let b = elements q.pending ++ m ∷ [] in
    let len = length-append (elements q.pending) (m ∷ []) in
    let tot = total-append (elements q.pending) (m ∷ []) in
    let text = length-encode_batch t b (omega arith) in
    (b, ground arith, omega (arith, v.counted), omega (arith, v.counted))
