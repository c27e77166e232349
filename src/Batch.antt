-- ===== src/Batch.antt =====
-- The batching of internal/core/message.go: `message`, `messageQueue` with its `push` and `flush`,
-- and the payload of the /v1/batch endpoint that a batch is serialised to.
pub mod Invariant
pub mod Stream
pub mod Payload
pub mod Room
mod Tests
use Prim.Native.Char.{code}
use origamy_go_sdk.Base.{
  ℕ, zero, suc, ◌+◌, ◌*◌, ◌^◌, leb, not, Bool, true, false, ◌&&◌, String, Option, none, some, List,
  [], ◌∷◌, ◌++◌, length, elements, ltb, ◌==◌, is_empty, if◌then◌else◌,
}
use origamy_go_sdk.Data.{Time, is_zero_time, Result, ok, err, message_too_big}
use origamy_go_sdk.Message

-- A message id, unless it is empty, and then the default.
unfoldable pub make_message_id : String → String → String
make_message_id id def = if is_empty id then def else id

unfoldable pub make_timestamp : Time → Time → Time
make_timestamp t def = if is_zero_time t then def else t

-- A message beside its JSON text.
pub record Serialized : Type 0 where
  pub msg : Message.Message
  pub json : List ℕ

abbrev pub max_batch_bytes : ℕ
max_batch_bytes = 500000

abbrev pub max_message_bytes : ℕ
max_message_bytes = 32000

-- `makeMessage`, given what `json.Marshal` makes of the message.
unfoldable pub make_message : Message.Message → Result (List ℕ) → ℕ → Result Serialized
make_message m (err e) max_bytes = err e
make_message m (ok json) max_bytes =
    if ltb max_bytes (length json)
    then err message_too_big
    else ok (record { msg = m; json = json })

-- The `+ 1` is for the comma between the items of a JSON array.
abbrev pub size : Serialized → ℕ
size m = length m.json + 1

-- `pending` is a slice: nil, or one with its elements.
pub record MessageQueue : Type 0 where
  pub pending : Option (List Serialized)
  pub bytes : ℕ
  pub max_batch_size : ℕ
  pub max_batch_bytes : ℕ

abbrev pub is_nil {ℓ} : {A : Type ℓ} → Option A → Bool
is_nil none = true
is_nil (some a) = false

-- Returns the slice that was pending, nil or not, and leaves nil.
unfoldable pub flush : MessageQueue → Option (List Serialized) × MessageQueue
flush q = (q.pending, record q { pending = none; bytes = 0 })

-- `make([]message, 0, n)` panics when no block of that size can be allocated. A `message` takes 40 bytes
-- on a 64-bit machine, and the runtime allocates up to 2 ^ 48.
abbrev pub message_bytes : ℕ
message_bytes = 40

abbrev pub can_make : ℕ → Bool
can_make n = leb (n * message_bytes) (2 ^ 48)

-- The message joins the slice, which is nil or was made by an earlier call.
abbrev append : Serialized → MessageQueue → MessageQueue
append m q = record q {
  pending = some (elements q.pending ++ m ∷ []);
  bytes = q.bytes + length m.json;
}

abbrev flush_full :
    Option (List Serialized) → MessageQueue → Option (List Serialized) × MessageQueue
flush_full b q =
    if is_nil b && length (elements q.pending) == q.max_batch_size then flush q else (b, q)

-- `push` where it need not make a slice or can make it; `push_or_panic` is the method on every path.
unfoldable pub push : Serialized → MessageQueue → Option (List Serialized) × MessageQueue
unfolding flush
push m q =
    let (b, q') = if ltb q.max_batch_bytes (q.bytes + size m) then flush q else (none, q) in
    flush_full b (append m q')

-- `none` is the panic of `make`.
unfoldable pub push_or_panic :
    Serialized → MessageQueue → Option (Option (List Serialized) × MessageQueue)
unfolding flush
push_or_panic m q =
    let (b, q') = if ltb q.max_batch_bytes (q.bytes + size m) then flush q else (none, q) in
    if is_nil q'.pending && not (can_make q'.max_batch_size)
    then none
    else some (flush_full b (append m q'))

abbrev pub codes : String → List ℕ
codes String.[] = []
codes (String.◌∷◌ c s) = code c ∷ codes s

-- The items of the array; `MarshalJSON` of a `message` is its text.
abbrev pub encode_items : List Serialized → List ℕ
encode_items [] = []
encode_items (m ∷ ms) = elim ms [ [] ↦ m.json | _ ↦ m.json ++ b',' ∷ encode_items ms ]

-- What `json.Marshal` makes of a `batch` with a sending time and its slice: nil is `null`.
abbrev pub encode_slice : Option (List Serialized) → List ℕ
encode_slice none = codes "null"
encode_slice (some ms) = b'[' ∷ encode_items ms ++ b']' ∷ []

unfoldable pub encode_batch : List ℕ → Option (List Serialized) → List ℕ
encode_batch sent_at msgs =
    codes "{\"sentAt\":\""
    ++ (sent_at ++ (codes "\",\"batch\":" ++ (encode_slice msgs ++ b'}' ∷ [])))

-- `if msgs := …; msgs != nil`: a slice that is not nil joins those that are sent.
abbrev pub keep : Option (List Serialized) → List (List Serialized) → List (List Serialized)
keep none bs = bs
keep (some b) bs = b ∷ bs
