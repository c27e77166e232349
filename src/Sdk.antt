-- ===== src/Sdk.antt =====
-- index.go: the public package. Its types are aliases of those of internal/; here are its configuration,
-- its options and the two functions that make a client, and in `Constructors` its other constructors.
pub mod Creation
pub mod Constructors
pub mod Types
mod Tests
use origamy_go_sdk.Base.{
  ℕ, Bool, false, String, Option, none, some, List, [], ◌∷◌, ◌++◌, length, get_elem?,
}
use origamy_go_sdk.Base.Int.{ℤ, pos}
use origamy_go_sdk.Data.{Duration, Reference, Result, ok, err}
use origamy_go_sdk.Message.Context.{Context}
use origamy_go_sdk.Config as Core
use origamy_go_sdk.Config.{Store}
use origamy_go_sdk.Client.Setup
use origamy_go_sdk.Client.Setup.{Client}

pub record Config : Type 0 where
  pub endpoint : String
  pub interval : Duration
  pub transport : Option Reference
  pub dispatcher : Option Reference
  pub queue : Option Reference
  pub queue_capacity : ℤ
  pub logger : Option Reference
  pub callback : Option Reference
  pub batch_size : ℤ
  pub verbose : Bool
  pub default_context : Option ℕ
  pub retry_after : Option Reference

-- `Config{}`
abbrev pub zero_config : Config
zero_config = record {
  endpoint = "";
  interval = pos 0;
  transport = none;
  dispatcher = none;
  queue = none;
  queue_capacity = pos 0;
  logger = none;
  callback = none;
  batch_size = pos 0;
  verbose = false;
  default_context = none;
  retry_after = none;
}

-- `coreCtx := core.Context(*c.DefaultContext)` is a new variable: the pointer to it is new. (A pointer
-- that reaches nothing is no pointer of a Go program; it is taken for nil.)
abbrev copy_of : Option Context → Store → Option ℕ × Store
copy_of none s = (none, s)
copy_of (some ctx) s = (some (length s), s ++ ctx ∷ [])

abbrev copy_context : Option ℕ → Store → Option ℕ × Store
copy_context none s = (none, s)
copy_context (some p) s = copy_of (get_elem? s p) s

unfoldable pub to_core_config : Config → Store → Core.Config × Store
to_core_config c store =
    let (ctx, store') = copy_context c.default_context store in
    (
      record {
        endpoint = c.endpoint;
        interval = c.interval;
        transport = c.transport;
        dispatcher = c.dispatcher;
        queue = c.queue;
        queue_capacity = c.queue_capacity;
        logger = c.logger;
        callback = c.callback;
        batch_size = c.batch_size;
        verbose = c.verbose;
        default_context = ctx;
        retry_after = c.retry_after;
        uid = none;
        now = none;
        max_concurrent_requests = pos 0;
      },
      store',
    )

-- An option is any function that writes the configuration.
abbrev pub ClientOption : Type 0
ClientOption = Config → Config

unfoldable pub with_dispatcher : Option Reference → ClientOption
with_dispatcher d c = record c { dispatcher = d }

unfoldable pub with_queue : Option Reference → ClientOption
with_queue q c = record c { queue = q }

unfoldable pub with_endpoint : String → ClientOption
with_endpoint endpoint c = record c { endpoint = endpoint }

unfoldable pub with_interval : Duration → ClientOption
with_interval interval c = record c { interval = interval }

unfoldable pub with_batch_size : ℤ → ClientOption
with_batch_size size c = record c { batch_size = size }

unfoldable pub with_verbose : Bool → ClientOption
with_verbose verbose c = record c { verbose = verbose }

unfoldable pub with_logger : Option Reference → ClientOption
with_logger logger c = record c { logger = logger }

unfoldable pub with_callback : Option Reference → ClientOption
with_callback callback c = record c { callback = callback }

unfoldable pub with_default_context : Option ℕ → ClientOption
with_default_context ctx c = record c { default_context = ctx }

unfoldable pub with_retry_after : Option Reference → ClientOption
with_retry_after fn c = record c { retry_after = fn }

unfoldable pub with_queue_capacity : ℤ → ClientOption
with_queue_capacity capacity c = record c { queue_capacity = capacity }

unfoldable pub apply_options : List ClientOption → Config → Config
apply_options [] c = c
apply_options (opt ∷ opts) c = apply_options opts (opt c)

unfoldable pub new_with_config : String → Config → Store → Result Client × Store
unfolding Setup.new_with_config
new_with_config write_key config store =
    let (c, store') = to_core_config config store in Setup.new_with_config write_key c store'

-- `client, _ := …`: the error is dropped, and the client that comes with it is nil.
abbrev client_of : Result Client → Option Client
client_of (err e) = none
client_of (ok c) = some c

unfoldable pub new : String → List ClientOption → Store → Option Client × Store
new write_key opts store =
    let (r, store') = new_with_config write_key (apply_options opts zero_config) store in
    (client_of r, store')
