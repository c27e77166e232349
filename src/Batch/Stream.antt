-- ===== src/Batch/Stream.antt =====
-- A stream of messages through `messageQueue` (internal/core/message.go): the batches that come out,
-- followed by what is still pending, are the messages that went in.
use origamy_go_sdk.Base.{
  ℕ, ◌<◌, subst, append-nil, concat-append, All-append, ◌≡◌, refl, sym, ap, ◌∙◌, ◌≤◌, Option, none,
  some, List, [], ◌∷◌, ◌++◌, arith, concat, elements, All, append_assoc,
}
use origamy_go_sdk.Batch.{Serialized, keep, size, MessageQueue, push, flush}
use origamy_go_sdk.Batch.Invariant.{
  IsValid, IsSendable, push-IsValid, push-Sendable, push_conserves, push_limits, Sendable, room,
  flush-Sendable, room-IsValid,
}

-- Each message is pushed, and each slice that is not nil is sent: the batches in order.
unfoldable pub push_all : List Serialized → MessageQueue → List (List Serialized) × MessageQueue
push_all [] q = ([], q)
push_all (m ∷ ms) q = let rest = push_all ms (push m q).1 in (keep (push m q).0 rest.0, rest.1)

concat-keep :
    (b : Option (List Serialized)) (bs : List (List Serialized))
    → concat (keep b bs) ≡ elements b ++ concat bs
concat-keep none bs = refl
concat-keep (some b) bs = refl

push_all_conserves :
    (ms : List Serialized) (q : MessageQueue)
    → concat (push_all ms q).0 ++ elements (push_all ms q).1.pending ≡ elements q.pending ++ ms
unfolding push_all
push_all_conserves [] q = sym (append-nil (elements q.pending))
push_all_conserves (m ∷ ms) q =
    let (b, q') = push m q in
    let (bs, last) = push_all ms q' in
    ap (λ l. l ++ elements last.pending) (concat-keep b bs)
    ∙ append_assoc (elements b) (concat bs) (elements last.pending)
    ∙ ap (λ l. elements b ++ l) (push_all_conserves ms q')
    ∙ sym (append_assoc (elements b) (elements q'.pending) ms)
    ∙ ap (λ l. l ++ ms) (push_conserves m q)
    ∙ append_assoc (elements q.pending) (m ∷ []) ms

-- Every batch is within the limits of the queue that it started from, and so is what stays.
record Batches (q : MessageQueue) (out : List (List Serialized) × MessageQueue) : Type 0 where
  each : All (IsSendable q) out.0
  last : IsValid out.1
  count : out.1.max_batch_size ≡ q.max_batch_size
  bytes : out.1.max_batch_bytes ≡ q.max_batch_bytes

-- The limits alone decide what is sendable.
IsSendable-limits :
    (p q : MessageQueue) (bs : List (List Serialized))
    → p.max_batch_size ≡ q.max_batch_size
    → p.max_batch_bytes ≡ q.max_batch_bytes
    → All (IsSendable p) bs
    → All (IsSendable q) bs
IsSendable-limits p q [] h k a = tt
IsSendable-limits p q (b ∷ bs) h k a = (ground arith, IsSendable-limits p q bs h k a.1)

All-keep :
    (q : MessageQueue) (b : Option (List Serialized)) (bs : List (List Serialized))
    → Sendable q b
    → All (IsSendable q) bs
    → All (IsSendable q) (keep b bs)
All-keep q none bs s a = a
All-keep q (some b) bs s a = (s, a)

push_all-Batches :
    (ms : List Serialized) (q : MessageQueue)
    → IsValid q
    → All (λ m. size m ≤ q.max_batch_bytes) ms
    → Batches q (push_all ms q)
unfolding push_all
push_all-Batches [] q v f = record { each = tt; last = v; count = refl; bytes = refl }
push_all-Batches (m ∷ ms) q v f =
    let (few, small) = push_limits m q in
    let fits = subst (λ n. All (λ m. size m ≤ n) ms) (sym small) f.1 in
    let ih = push_all-Batches ms (push m q).1 (push-IsValid m q v f.0) fits in
    record {
      each =
          All-keep q _ _ (push-Sendable m q v f.0)
            (IsSendable-limits (push m q).1 q _ few small ih.each);
      last = ih.last;
      count = ih.count ∙ few;
      bytes = ih.bytes ∙ small;
    }

-- Any stream of messages through an empty queue, flushed at its end: the batches that are sent hold
-- the messages in order, each once; none is empty, has more messages than the limit, or has texts
-- that reach the limit of bytes. The limit of the count is positive, and each message fits a batch.
pub stream_batches :
    (count bytes : ℕ) (ms : List Serialized)
    → 0 < count
    → All (λ m. size m ≤ bytes) ms
    → let (bs, q) = push_all ms (room count bytes) in
      let sent = bs ++ keep (flush q).0 [] in
      (concat sent ≡ ms) × All (IsSendable (room count bytes)) sent
unfolding flush
stream_batches count bytes ms h f =
    let q = room count bytes in
    let made = push_all-Batches ms q (room-IsValid count bytes h) f in
    let (bs, last) = push_all ms q in
    (
      concat-append bs (keep last.pending [])
          ∙ ap (λ l. concat bs ++ l)
              (concat-keep last.pending [] ∙ append-nil (elements last.pending))
          ∙ push_all_conserves ms q,
      All-append (IsSendable q) bs _ made.each (
          IsSendable-limits last q _ made.count made.bytes
            (All-keep last last.pending [] (flush-Sendable last made.last) tt)),
    )
