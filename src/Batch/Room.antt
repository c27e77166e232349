-- ===== src/Batch/Room.antt =====
-- When `messageQueue.push` (internal/core/message.go) cannot make the slice for its messages.
use origamy_go_sdk.Base.{◌+◌, ◌<◌, ◌≤◌, ◌≡◌, ◌⊎◌, ◌↔◌, none, some, arith}
use origamy_go_sdk.Batch.{Serialized, size, MessageQueue, push, push_or_panic, flush}

module _ (m : Serialized) (q : MessageQueue) where
  -- `push` panics exactly when it has to make a slice, since none is pending or the message does not
  -- fit the pending bytes, and the limit of the count is above 7036874417766; and it never panics with
  -- a limit up to that.
  pub push_panics_iff :
      ((push_or_panic m q ≡ none) ↔ (
        ((q.pending ≡ none) ⊎ (q.max_batch_bytes < q.bytes + size m))
        × (7036874417766 < q.max_batch_size)))
      × (q.max_batch_size ≤ 7036874417766 → push_or_panic m q ≡ some (push m q))
  unfolding push push_or_panic flush
  push_panics_iff = ((λ h. ground (arith, h), λ h. ground (arith, h)), λ h. ground (arith, h))
