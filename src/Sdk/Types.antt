-- ===== src/Sdk/Types.antt =====
-- index.go: the names that the public package gives to constants, errors and types of internal/. A callback,
-- a logger or a dispatcher of the application is an interface value.
use origamy_go_sdk.Base.{String}
use origamy_go_sdk.Base.Int.{ℤ}
use origamy_go_sdk.Data.{Duration, Error, Reference}
use origamy_go_sdk.Data as CoreData
use origamy_go_sdk.Config as CoreConfig
use origamy_go_sdk.Message as CoreMessage
use origamy_go_sdk.Message.Alias as CoreAlias
use origamy_go_sdk.Message.Group as CoreGroup
use origamy_go_sdk.Message.Identify as CoreIdentify
use origamy_go_sdk.Message.Page as CorePage
use origamy_go_sdk.Message.Screen as CoreScreen
use origamy_go_sdk.Message.Track as CoreTrack
use origamy_go_sdk.Message.Context as CoreContext
use origamy_go_sdk.Client.Setup as CoreClient
use origamy_go_sdk.Queue as CoreQueue
use origamy_go_sdk.Queue.Interface as CoreInterface
use origamy_go_sdk.Dispatcher as CoreDispatcher
use origamy_go_sdk.Dispatcher.Http as CoreHttp
use origamy_go_sdk.Dispatcher.Noop as CoreNoop
use origamy_go_sdk.Maps as CoreMaps
use origamy_go_sdk.Maps.Properties as CoreProperties

abbrev pub version : String
version = CoreConfig.version

abbrev pub default_endpoint : String
default_endpoint = CoreConfig.default_endpoint

abbrev pub default_interval : Duration
default_interval = CoreConfig.default_interval

abbrev pub default_batch_size : ℤ
default_batch_size = CoreConfig.default_batch_size

abbrev pub err_closed : Error
err_closed = CoreData.closed

abbrev pub err_too_many_requests : Error
err_too_many_requests = CoreData.too_many_requests

abbrev pub err_message_too_big : Error
err_message_too_big = CoreData.message_too_big

abbrev pub Client : Type 0
Client = CoreClient.Client

abbrev pub Message : Type 0
Message = CoreMessage.Message

abbrev pub Callback : Type 0
Callback = Reference

abbrev pub Logger : Type 0
Logger = Reference

abbrev pub Dispatcher : Type 0
Dispatcher = Reference

abbrev pub DispatcherConfig : Type 0
DispatcherConfig = CoreDispatcher.Config

abbrev pub HttpDispatcher : Type 0
HttpDispatcher = CoreHttp.HttpDispatcher

abbrev pub HttpOption : Type 0
HttpOption = CoreHttp.HttpOption

abbrev pub NoopDispatcher : Type 0
NoopDispatcher = CoreNoop.NoopDispatcher

abbrev pub NoopOption : Type 0
NoopOption = CoreNoop.NoopOption

abbrev pub Queue : Type 1
Queue = CoreInterface.Queue Message

abbrev pub QueueConfig : Type 0
QueueConfig = CoreQueue.Config

abbrev pub ChannelQueue : Type 0
ChannelQueue = CoreQueue.ChannelQueue Message

abbrev pub ChannelQueueOption : Type 0
ChannelQueueOption = CoreQueue.ChannelOption

abbrev pub ConfigError : Type 0
ConfigError = CoreData.ConfigError

abbrev pub FieldError : Type 0
FieldError = CoreData.FieldError

abbrev pub Alias : Type 0
Alias = CoreAlias.Alias

abbrev pub Group : Type 0
Group = CoreGroup.Group

abbrev pub Identify : Type 0
Identify = CoreIdentify.Identify

abbrev pub Page : Type 0
Page = CorePage.Page

abbrev pub Screen : Type 0
Screen = CoreScreen.Screen

abbrev pub Track : Type 0
Track = CoreTrack.Track

abbrev pub Context : Type 0
Context = CoreContext.Context

abbrev pub AppInfo : Type 0
AppInfo = CoreContext.AppInfo

abbrev pub CampaignInfo : Type 0
CampaignInfo = CoreContext.CampaignInfo

abbrev pub DeviceInfo : Type 0
DeviceInfo = CoreContext.DeviceInfo

abbrev pub LibraryInfo : Type 0
LibraryInfo = CoreContext.LibraryInfo

abbrev pub LocationInfo : Type 0
LocationInfo = CoreContext.LocationInfo

abbrev pub NetworkInfo : Type 0
NetworkInfo = CoreContext.NetworkInfo

abbrev pub OsInfo : Type 0
OsInfo = CoreContext.OsInfo

abbrev pub PageInfo : Type 0
PageInfo = CoreContext.PageInfo

abbrev pub ReferrerInfo : Type 0
ReferrerInfo = CoreContext.ReferrerInfo

abbrev pub ScreenInfo : Type 0
ScreenInfo = CoreContext.ScreenInfo

abbrev pub Properties : Type 0
Properties = CoreMaps.Map

abbrev pub Product : Type 0
Product = CoreProperties.Product

abbrev pub Traits : Type 0
Traits = CoreMaps.Map

abbrev pub Integrations : Type 0
Integrations = CoreMaps.Map
