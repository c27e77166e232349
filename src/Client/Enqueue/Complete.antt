-- ===== src/Client/Enqueue/Complete.antt =====
-- What `client.Enqueue` (internal/core/analytics.go) sets on a message: it is complete then.
use origamy_go_sdk.Base.{
  ◌≡◌, refl, inl, inr, false, String, Option, none, some, is_empty, Bool-cases,
}
use origamy_go_sdk.Data.{Time, is_zero_time}
use origamy_go_sdk.Batch.{make_message_id, make_timestamp}
use origamy_go_sdk.Message
use origamy_go_sdk.Message.{
  Message, alias, group, identify, page, screen, track, Argument, value, pointer, nil_pointer,
  nil_interface, custom,
}
use origamy_go_sdk.Message.Context.{Context}
use origamy_go_sdk.Config.{or_default}
use origamy_go_sdk.Client.Enqueue.{decorate}

abbrev pub message_id : Message → String
message_id (alias m) = m.message_id
message_id (group m) = m.message_id
message_id (identify m) = m.message_id
message_id (page m) = m.message_id
message_id (screen m) = m.message_id
message_id (track m) = m.message_id

abbrev pub timestamp : Message → Time
timestamp (alias m) = m.timestamp
timestamp (group m) = m.timestamp
timestamp (identify m) = m.timestamp
timestamp (page m) = m.timestamp
timestamp (screen m) = m.timestamp
timestamp (track m) = m.timestamp

abbrev pub context : Message → Option Context
context (alias m) = m.context
context (group m) = m.context
context (identify m) = m.context
context (page m) = m.context
context (screen m) = m.context
context (track m) = m.context

abbrev pub type : Message → String
type (alias m) = m.type
type (group m) = m.type
type (identify m) = m.type
type (page m) = m.type
type (screen m) = m.type
type (track m) = m.type

abbrev pub type_name : Message → String
type_name (alias m) = "alias"
type_name (group m) = "group"
type_name (identify m) = "identify"
type_name (page m) = "page"
type_name (screen m) = "screen"
type_name (track m) = "track"

-- A message that the API can take: it names its type, and has an id, a time and a context.
pub record IsComplete (m : Message) : Type 0 where
  pub typed : type m ≡ type_name m
  pub named : is_empty (message_id m) ≡ false
  pub timed : is_zero_time (timestamp m) ≡ false
  pub placed : (c : Context) × (context m ≡ some c)

named_id : (i d : String) → is_empty d ≡ false → is_empty (make_message_id i d) ≡ false
unfolding make_message_id
named_id i d h = elim (Bool-cases (is_empty i)) [ inl e ↦ rw e h | inr e ↦ rw e e ]

timed_at : (t d : Time) → is_zero_time d ≡ false → is_zero_time (make_timestamp t d) ≡ false
unfolding make_timestamp
timed_at t d h = elim (Bool-cases (is_zero_time t)) [ inl e ↦ rw e h | inr e ↦ rw e e ]

placed_in : (o : Option Context) (c : Context) → (x : Context) × (or_default o c ≡ some x)
placed_in none c = (c, refl)
placed_in (some x) c = (x, refl)

complete :
    (m : Message)
    → type m ≡ type_name m
    → is_empty (message_id m) ≡ false
    → is_zero_time (timestamp m) ≡ false
    → ((c : Context) × (context m ≡ some c))
    → IsComplete m
complete m t i s c = record { typed = t; named = i; timed = s; placed = c }

module _ (id : String) (ts : Time) (ctx : Context) where
  -- What `Enqueue` sets changes nothing that `Validate` reads.
  pub validate-decorate :
      (m : Message) → Message.validate (decorate id ts ctx m) ≡ Message.validate m
  unfolding decorate Message.validate
  validate-decorate (alias m) = refl
  validate-decorate m = refl

  pub decorate-IsComplete :
      (m : Message)
      → is_empty id ≡ false
      → is_zero_time ts ≡ false
      → IsComplete (decorate id ts ctx m)
  unfolding decorate
  decorate-IsComplete (alias m) h k =
      complete _ refl (named_id m.message_id id h) (timed_at m.timestamp ts k)
        (placed_in m.context ctx)
  decorate-IsComplete (group m) h k =
      complete _ refl (named_id m.message_id id h) (timed_at m.timestamp ts k)
        (placed_in m.context ctx)
  decorate-IsComplete (identify m) h k =
      complete _ refl (named_id m.message_id id h) (timed_at m.timestamp ts k)
        (placed_in m.context ctx)
  decorate-IsComplete (page m) h k =
      complete _ refl (named_id m.message_id id h) (timed_at m.timestamp ts k)
        (placed_in m.context ctx)
  decorate-IsComplete (screen m) h k =
      complete _ refl (named_id m.message_id id h) (timed_at m.timestamp ts k)
        (placed_in m.context ctx)
  decorate-IsComplete (track m) h k =
      complete _ refl (named_id m.message_id id h) (timed_at m.timestamp ts k)
        (placed_in m.context ctx)
