-- ===== src/Batch/Tests.antt =====
-- Tests of the batching (internal/core/message.go), and its theorems at concrete batches.
use origamy_go_sdk.Base.{
  ◌+◌, ◌≡◌, refl, ◌≤◌, ◌<◌, ◌⊎◌, ◌↔◌, none, some, List, [], ◌∷◌, ◌++◌, arith, length, concat, All,
}
use origamy_go_sdk.Data.{zero_time, ok, err, message_too_big}
use origamy_go_sdk.Samples.{sized, bought, noon}
use origamy_go_sdk.Batch.{
  Serialized, MessageQueue, push, flush, keep, push_or_panic, size, make_message, make_message_id,
  make_timestamp, encode_batch,
}
use origamy_go_sdk.Batch.Invariant.{IsValid, IsSendable, room}
use origamy_go_sdk.Batch.Room.{push_panics_iff}
use origamy_go_sdk.Batch.Stream.{push_all, stream_batches}
use origamy_go_sdk.Batch.Payload.{payload_bound, payload_overshoots}

make_message_limit :
    (make_message bought (ok (b'{' ∷ b'}' ∷ [])) 2
      ≡ ok (record { msg = bought; json = b'{' ∷ b'}' ∷ [] }))
    × (make_message bought (ok (b'{' ∷ b'}' ∷ [])) 1 ≡ err message_too_big)
unfolding make_message
make_message_limit = (refl, refl)

ids_and_times :
    (make_message_id "" "d" ≡ "d")
    × (make_message_id "m" "d" ≡ "m")
    × (make_timestamp zero_time noon ≡ noon)
    × (make_timestamp noon zero_time ≡ noon)
unfolding make_message_id make_timestamp
ids_and_times = (refl, refl, refl, refl)

-- The second message completes a batch of two, and the third waits.
full_batch :
    (push_all (sized 3 ∷ sized 1 ∷ sized 2 ∷ []) (room 2 20)).0 ≡ (sized 3 ∷ sized 1 ∷ []) ∷ []
unfolding push_all push
full_batch = refl

-- The second message would pass the limit of bytes: the first goes alone.
heavy_batch : (push_all (sized 3 ∷ sized 4 ∷ []) (room 5 7)).0 ≡ (sized 3 ∷ []) ∷ []
unfolding push_all push
heavy_batch = refl

stream_batches_example :
    let (bs, q) = push_all (sized 3 ∷ sized 1 ∷ sized 2 ∷ []) (room 2 20) in
    let sent = bs ++ keep (flush q).0 [] in
    (concat sent ≡ sized 3 ∷ sized 1 ∷ sized 2 ∷ []) × All (IsSendable (room 2 20)) sent
stream_batches_example =
    stream_batches 2 20 (sized 3 ∷ sized 1 ∷ sized 2 ∷ []) (omega arith) (omega arith)

-- Four messages of one byte, in a queue whose batches hold five, with six bytes for their texts.
abbrev almost_full : MessageQueue
almost_full = record {
  pending = some (sized 1 ∷ sized 1 ∷ sized 1 ∷ sized 1 ∷ []);
  bytes = 4;
  max_batch_size = 5;
  max_batch_bytes = 6;
}

push_panics_iff_example :
    ((push_or_panic (sized 1) (room 7036874417767 20) ≡ none)
      ↔ (((room 7036874417767 20).pending ≡ none) ⊎ (20 < 0 + size (sized 1)))
        × (7036874417766 < 7036874417767))
    × (7036874417767 ≤ 7036874417766
        → push_or_panic (sized 1) (room 7036874417767 20)
          ≡ some (push (sized 1) (room 7036874417767 20)))
push_panics_iff_example = push_panics_iff (sized 1) (room 7036874417767 20)

almost_full-IsValid : IsValid almost_full
almost_full-IsValid = record {
  counted = refl;
  filled = λ e. cc;
  below = omega arith;
  fits = λ h. omega arith;
}

abbrev five : List Serialized
five = sized 1 ∷ sized 1 ∷ sized 1 ∷ sized 1 ∷ sized 1 ∷ []

payload_is_bounded : length (encode_batch [] (some five)) + 4 ≤ 32 + 5
unfolding push encode_batch
payload_is_bounded =
    payload_bound 32 [] (sized 1) almost_full {b = five} almost_full-IsValid (omega arith) refl refl

payload_overshoots_example :
    (b : List Serialized) × ((push (sized 1) almost_full).0 ≡ some b)
    × (length (encode_batch [] (some b)) + 4 ≡ 32 + 5)
    × (32 < length (encode_batch [] (some b)))
unfolding encode_batch
payload_overshoots_example =
    payload_overshoots 32 [] (sized 1) almost_full almost_full-IsValid refl refl refl (omega arith)
