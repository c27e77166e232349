-- ===== src/Client/Enqueue.antt =====
-- `client.Enqueue` and `dereferenceMessage` of internal/core/analytics.go. The queue is any value of
-- the `Queue` interface; the results of `uid` and `now` are arguments. A context pointer is taken by
-- the value that it reaches.
pub mod Complete
pub mod Accept
use origamy_go_sdk.Base.{Bool, true, false, String, Option, none, some, if◌then◌else◌}
use origamy_go_sdk.Data.{Time, Error, custom_type, closed}
use origamy_go_sdk.Batch.{make_message_id, make_timestamp}
use origamy_go_sdk.Message
use origamy_go_sdk.Message.{
  Message, alias, group, identify, page, screen, track, Argument, value, pointer, nil_pointer,
  nil_interface, custom, Checked,
}
use origamy_go_sdk.Message.Context.{Context}
use origamy_go_sdk.Queue.{Call, returns, blocks, panics}
use origamy_go_sdk.Queue.Interface.{Queue}
use origamy_go_sdk.Config.{or_default}

-- A nil pointer becomes a nil interface.
unfoldable pub dereference : Argument → Argument
dereference (value m) = value m
dereference (pointer m) = value m
dereference (nil_pointer k) = nil_interface
dereference nil_interface = nil_interface
dereference (custom name v) = custom name v

-- The type, the id, the timestamp and the context that `Enqueue` sets on a message.
unfoldable pub decorate : String → Time → Context → Message → Message
decorate id ts ctx (alias m) = alias (record m {
  type = "alias";
  message_id = make_message_id m.message_id id;
  timestamp = make_timestamp m.timestamp ts;
  context = or_default m.context ctx;
})
decorate id ts ctx (group m) = group (record m {
  type = "group";
  message_id = make_message_id m.message_id id;
  timestamp = make_timestamp m.timestamp ts;
  context = or_default m.context ctx;
})
decorate id ts ctx (identify m) = identify (record m {
  type = "identify";
  message_id = make_message_id m.message_id id;
  timestamp = make_timestamp m.timestamp ts;
  context = or_default m.context ctx;
})
decorate id ts ctx (page m) = page (record m {
  type = "page";
  message_id = make_message_id m.message_id id;
  timestamp = make_timestamp m.timestamp ts;
  context = or_default m.context ctx;
})
decorate id ts ctx (screen m) = screen (record m {
  type = "screen";
  message_id = make_message_id m.message_id id;
  timestamp = make_timestamp m.timestamp ts;
  context = or_default m.context ctx;
})
decorate id ts ctx (track m) = track (record m {
  type = "track";
  message_id = make_message_id m.message_id id;
  timestamp = make_timestamp m.timestamp ts;
  context = or_default m.context ctx;
})

module _ (Q : Queue Message) (id : String) (ts : Time) (ctx : Context) where
  -- An error of a closed queue becomes `ErrClosed`.
  abbrev pub queued : Call Q.State (Option Error) → Call Q.State (Option Error)
  queued (returns s none) = returns s none
  queued (returns s (some e)) = returns s (some (if Q.is_closed s then closed else e))
  queued blocks = blocks
  queued panics = panics

  abbrev pub validated : Option Error → Message → Q.State → Call Q.State (Option Error)
  validated (some e) m s = returns s (some e)
  validated none m s = queued (Q.enqueue (decorate id ts ctx m) s)

  abbrev custom_result : Checked → String → Q.State → Call Q.State (Option Error)
  custom_result (Message.fails e) name s = returns s (some e)
  custom_result Message.passes name s = returns s (some (custom_type name))
  custom_result Message.panics name s = panics

  -- The switch on the dynamic type. `Validate` of a nil interface is a nil dereference.
  abbrev dispatch : Argument → Q.State → Call Q.State (Option Error)
  dispatch (value m) s = validated (Message.validate m) m s
  dispatch (pointer m) s = validated (Message.validate m) m s
  dispatch (nil_pointer k) s = panics
  dispatch nil_interface s = panics
  dispatch (custom name v) s = custom_result v name s

  unfoldable pub enqueue : Argument → Q.State → Call Q.State (Option Error)
  unfolding dereference
  enqueue msg s = dispatch (dereference msg) s
