-- ===== src/System/Payloads.antt =====
-- The payloads that the goroutines of the client as a whole (internal/core/analytics.go) send, against the
-- limit of internal/core/message.go.
use origamy_go_sdk.Base.{ℕ, ◌+◌, ◌≡◌, ◌≤◌, ◌<◌, List, some, none, [], ◌∷◌, arith, length, All}
use origamy_go_sdk.Batch.{Serialized, max_message_bytes, max_batch_bytes, encode_batch}
use origamy_go_sdk.Batch.Payload.{length-framed, length-encode_batch}
use origamy_go_sdk.Queue.{ChannelOption}
use origamy_go_sdk.Client.Loop.{Settings, max_batch_bytes_at}
use origamy_go_sdk.System.Sending.{Sender, starting, attempting, pausing, finishing}
use origamy_go_sdk.System.{System, Reach, new_system}
use origamy_go_sdk.System.Batches.{IsWithin, Carries, reached-Batched}

-- The payload of a batch that was marshalled at a time of the text `t`.
abbrev pub IsSmall : List ℕ → List Serialized → Type 0
IsSmall t msgs = length (encode_batch t (some msgs)) + 4 ≤ max_batch_bytes + length msgs

abbrev pub SendsSmall : List ℕ → Sender → Type 0
SendsSmall t (starting msgs) = IsSmall t msgs
SendsSmall t (attempting b msgs left i e) = IsSmall t msgs
SendsSmall t (pausing b msgs left i e) = IsSmall t msgs
SendsSmall t (finishing es) = Unit

module _ (cfg : Settings) (sent_at t : List ℕ) (same : length t ≡ length sent_at) where
  within-IsSmall :
      (msgs : List Serialized) → IsWithin cfg (max_batch_bytes_at sent_at) msgs → IsSmall t msgs
  unfolding max_batch_bytes_at
  within-IsSmall msgs v = omega (
    arith,
    same,
    v.some_message,
    v.small,
    length-encode_batch t msgs v.some_message,
    length-framed t none,
    length-framed sent_at none,
  )

  carries-SendsSmall : (x : Sender) → Carries cfg (max_batch_bytes_at sent_at) x → SendsSmall t x
  carries-SendsSmall (starting msgs) v = within-IsSmall msgs v
  carries-SendsSmall (attempting b msgs left i e) v = within-IsSmall msgs v
  carries-SendsSmall (pausing b msgs left i e) v = within-IsSmall msgs v
  carries-SendsSmall (finishing es) v = tt

  all-SendsSmall :
      (xs : List Sender) → All (Carries cfg (max_batch_bytes_at sent_at)) xs → All (SendsSmall t) xs
  all-SendsSmall [] v = tt
  all-SendsSmall (x ∷ xs) v = (carries-SendsSmall x v.0, all-SendsSmall xs v.1)

  -- However the goroutines of a client that `NewWithConfig` made interleave, when `BatchSize` is not zero
  -- and the budget of a batch has room for the largest message: a batch of n messages that a goroutine
  -- has to send is marshalled, with a time as long as that which the budget was computed with, to at most
  -- 500000 + n - 4 bytes, the limit being 500000.
  pub reached-SendsSmall :
      (opts : List ChannelOption) {s : System}
      → Reach cfg (new_system cfg opts sent_at) s
      → 0 < cfg.batch_size
      → max_message_bytes < max_batch_bytes_at sent_at
      → All (SendsSmall t) s.senders
  reached-SendsSmall opts {s} r n h =
      all-SendsSmall s.senders (reached-Batched cfg opts sent_at r n h).each
