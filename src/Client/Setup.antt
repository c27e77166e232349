-- ===== src/Client/Setup.antt =====
-- How internal/core/analytics.go makes a client: `NewWithConfig` and the defaults of its queue and its
-- dispatcher.
use origamy_go_sdk.Base.{false, String, Option, none, some, List, [], ◌∷◌, if◌then◌else◌}
use origamy_go_sdk.Base.Int.{pos, is_nonpositive}
use origamy_go_sdk.Data.{Reference, Error, Result, ok, err}
use origamy_go_sdk.Message.{Message}
use origamy_go_sdk.Queue.{ChannelQueue, new_channel_queue, with_capacity}
use origamy_go_sdk.Dispatcher.Http.{HttpDispatcher, HttpOption, new_http_dispatcher, with_transport}
use origamy_go_sdk.Config.{Config, Store, version, validate, make_config}

-- An object of the application, or one that the client makes.
pub data Either (A : Type 0) : Type 0 where
  given : Reference → Either A
  made : A → Either A

-- A client when its loop starts; its two signal channels are open.
pub record Client : Type 0 where
  pub config : Config
  pub key : String
  pub queue : Either (ChannelQueue Message)
  pub dispatcher : Either HttpDispatcher

unfoldable pub make_default_queue : Config → ChannelQueue Message
make_default_queue c =
    new_channel_queue Message
      (with_capacity (if is_nonpositive c.queue_capacity then pos 100 else c.queue_capacity) ∷ [])

abbrev transport_options : Option Reference → List HttpOption
transport_options none = []
transport_options (some t) = with_transport (some t) ∷ []

unfoldable pub make_default_dispatcher : String → Config → HttpDispatcher
make_default_dispatcher write_key c =
    new_http_dispatcher
      (record {
        endpoint = c.endpoint;
        write_key = write_key;
        version = version;
        verbose = c.verbose;
        logger = c.logger;
      })
      (transport_options c.transport)

-- `if x == nil { x = make() }`
abbrev or_made : {A : Type 0} → Option Reference → A → Either A
or_made none a = made a
or_made (some r) a = given r

abbrev checked : Option Error → String → Config → Store → Result Client × Store
checked (some e) write_key config store = (err e, store)
checked none write_key config store =
    let (c, store') = make_config config store in
    (
      ok (record {
        config = c;
        key = write_key;
        queue = or_made c.queue (make_default_queue c);
        dispatcher = or_made c.dispatcher (make_default_dispatcher write_key c);
      }),
      store',
    )

-- With an error the client is nil.
unfoldable pub new_with_config : String → Config → Store → Result Client × Store
new_with_config write_key config store = checked (validate config) write_key config store

-- `Config{}`
abbrev pub zero_config : Config
zero_config = record {
  endpoint = "";
  interval = pos 0;
  transport = none;
  dispatcher = none;
  queue = none;
  queue_capacity = pos 0;
  logger = none;
  callback = none;
  batch_size = pos 0;
  verbose = false;
  default_context = none;
  retry_after = none;
  uid = none;
  now = none;
  max_concurrent_requests = pos 0;
}

-- `c, _ := …`: with an error the client is nil.
abbrev pub or_nil : Result Client → Option Client
or_nil (err e) = none
or_nil (ok c) = some c

unfoldable pub new : String → Store → Option Client × Store
unfolding new_with_config
new write_key store =
    let (r, store') = new_with_config write_key zero_config store in (or_nil r, store')
