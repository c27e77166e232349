-- ===== src/Config.antt =====
-- internal/core/config.go: the configuration of a client, its validation and its defaults. A context
-- is reached through a pointer, so the functions that write through it take and return the store.
pub mod Defaults
mod Tests
use origamy_go_sdk.Base.{
  ℕ, Bool, true, false, ◌&&◌, String, Option, none, some, List, [], ◌∷◌, ◌++◌, length, get_elem?,
  is_empty, if◌then◌else◌,
}
use origamy_go_sdk.Base.Int.{ℤ, pos, is_negative, is_zero}
use origamy_go_sdk.Data.{
  Duration, Reference, default_transport, default_logger, default_backoff, uuid, time_now, Value,
  int, Error, config_error, seconds,
}
use origamy_go_sdk.Message.Context.{Context, zero_context}

-- The contexts that pointers reach: the pointer is the index.
abbrev pub Store : Type 0
Store = List Context

-- Writing through a pointer.
abbrev pub update : (Context → Context) → Store → ℕ → Store
update f [] p = []
update f (c ∷ cs) Prim.Native.Nat.zero = f c ∷ cs
update f (c ∷ cs) (Prim.Native.Nat.suc p) = c ∷ update f cs p

pub record Config : Type 0 where
  pub endpoint : String
  pub interval : Duration
  pub transport : Option Reference
  pub dispatcher : Option Reference
  pub queue : Option Reference
  pub queue_capacity : ℤ
  pub logger : Option Reference
  pub callback : Option Reference
  pub batch_size : ℤ
  pub verbose : Bool
  pub default_context : Option ℕ
  pub retry_after : Option Reference
  pub uid : Option Reference
  pub now : Option Reference
  pub max_concurrent_requests : ℤ

abbrev pub version : String
version = "3.0.0"

abbrev pub default_endpoint : String
default_endpoint = "https://events.origamy.io"

abbrev pub default_interval : Duration
default_interval = seconds 5

abbrev pub default_batch_size : ℤ
default_batch_size = pos 250

-- nil, or the error of the first field that is impossible.
unfoldable pub validate : Config → Option Error
validate c =
    if is_negative c.interval
    then some (
        config_error (record {
          reason = "negative time intervals are not supported";
          field = "Interval";
          value = int c.interval;
        }))
    else (if is_negative c.batch_size
        then some (
            config_error (record {
              reason = "negative batch sizes are not supported";
              field = "BatchSize";
              value = int c.batch_size;
            }))
        else none)

-- `if x == nil { x = d }`
abbrev pub or_default {ℓ} : {A : Type ℓ} → Option A → A → Option A
or_default none d = some d
or_default (some a) d = some a

-- `&Context{}` where the pointer is nil.
abbrev pub allocate : Option ℕ → Store → ℕ × Store
allocate none store = (length store, store ++ zero_context ∷ [])
allocate (some p) store = (p, store)

abbrev pub own_library : Context → Context
own_library c = record c { library = record { name = "origamy-go"; version = version } }

unfoldable pub make_config : Config → Store → Config × Store
make_config c store =
    let (p, store') = allocate c.default_context store in
    (
      record c {
        endpoint = if is_empty c.endpoint then default_endpoint else c.endpoint;
        interval = if is_zero c.interval then default_interval else c.interval;
        transport = or_default c.transport default_transport;
        logger = or_default c.logger default_logger;
        batch_size = if is_zero c.batch_size then default_batch_size else c.batch_size;
        default_context = some p;
        retry_after = or_default c.retry_after default_backoff;
        uid = or_default c.uid uuid;
        now = or_default c.now time_now;
        max_concurrent_requests =
            if is_zero c.max_concurrent_requests then pos 1000 else c.max_concurrent_requests;
      },
      update own_library store' p,
    )
