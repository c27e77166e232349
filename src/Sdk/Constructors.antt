-- ===== src/Sdk/Constructors.antt =====
-- The other constructors of index.go: each hands its arguments on to a package of internal/.
use origamy_go_sdk.Base.{Bool, List, Option}
use origamy_go_sdk.Base.Int.{ℤ}
use origamy_go_sdk.Data.{Duration, Handle, Reference, Error}
use origamy_go_sdk.Message.{Message}
use origamy_go_sdk.Validate.{FieldGetter, validate_fields as core_validate_fields}
use origamy_go_sdk.Maps.{Map}
use origamy_go_sdk.Maps.Properties
use origamy_go_sdk.Maps.Traits
use origamy_go_sdk.Maps.Integrations
use origamy_go_sdk.Log.Std
use origamy_go_sdk.Dispatcher
use origamy_go_sdk.Dispatcher.Http
use origamy_go_sdk.Dispatcher.Http.{HttpOption, HttpDispatcher}
use origamy_go_sdk.Dispatcher.Noop
use origamy_go_sdk.Dispatcher.Noop.{NoopOption, NoopDispatcher, File}
use origamy_go_sdk.Queue
use origamy_go_sdk.Queue.{ChannelOption, ChannelQueue}

unfoldable pub new_properties : Map
new_properties = Properties.new_properties

unfoldable pub new_traits : Map
new_traits = Traits.new_traits

unfoldable pub new_integrations : Map
new_integrations = Integrations.new_integrations

unfoldable pub std_logger : Std.LogLogger → Std.StdLogger
std_logger logger = Std.std_logger logger

unfoldable pub new_http_dispatcher : Dispatcher.Config → List HttpOption → HttpDispatcher
new_http_dispatcher config opts = Http.new_http_dispatcher config opts

unfoldable pub with_transport : Option Reference → HttpOption
with_transport transport = Http.with_transport transport

unfoldable pub with_timeout : Duration → HttpOption
with_timeout timeout = Http.with_timeout timeout

unfoldable pub new_noop_dispatcher : Dispatcher.Config → List NoopOption → NoopDispatcher
new_noop_dispatcher config opts = Noop.new_noop_dispatcher config opts

unfoldable pub noop_with_output : Option File → NoopOption
noop_with_output w = Noop.with_output w

unfoldable pub noop_with_color : Bool → NoopOption
noop_with_color enabled = Noop.with_color enabled

unfoldable pub new_channel_queue : List ChannelOption → ChannelQueue Message
new_channel_queue opts = Queue.new_channel_queue Message opts

unfoldable pub new_channel_queue_with_config : Queue.Config → ChannelQueue Message
new_channel_queue_with_config config = Queue.new_channel_queue_with_config Message config

unfoldable pub queue_with_capacity : ℤ → ChannelOption
queue_with_capacity capacity = Queue.with_capacity capacity

unfoldable pub queue_with_logger : Handle → ChannelOption
queue_with_logger logger = Queue.with_logger logger

unfoldable pub validate_fields : FieldGetter → Option Error
validate_fields msg = core_validate_fields msg
