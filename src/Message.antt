-- ===== src/Message.antt =====
-- The messages of internal/core. Each type stands in a child module of the name of its file; here
-- they are joined, as the values of the Go interface `Message`.
pub mod Context
pub mod Track
pub mod Page
pub mod Screen
pub mod Identify
pub mod Group
pub mod Alias
use origamy_go_sdk.Base.{Option, none, some, String}
use origamy_go_sdk.Data.{Error}

-- A message of one of the package's types, held by value.
pub data Message : Type 0 where
  alias : Alias.Alias → Message
  group : Group.Group → Message
  identify : Identify.Identify → Message
  page : Page.Page → Message
  screen : Screen.Screen → Message
  track : Track.Track → Message

-- `msg.Validate()`, by the dynamic type.
unfoldable pub validate : Message → Option Error
unfolding Alias.validate Group.validate Identify.validate Page.validate Screen.validate
    Track.validate
validate (alias m) = Alias.validate m
validate (group m) = Group.validate m
validate (identify m) = Identify.validate m
validate (page m) = Page.validate m
validate (screen m) = Screen.validate m
validate (track m) = Track.validate m

pub data Kind : Type 0 where
  alias_kind group_kind identify_kind page_kind screen_kind track_kind : Kind

-- How `Validate` of a type of the application ends. It may panic: a nil pointer to a type that embeds a
-- message of the package has a `Validate` that dereferences it.
pub data Checked : Type 0 where
  passes : Checked
  fails : Error → Checked
  panics : Checked

-- What an application may hand to `Enqueue`: a message by value, a pointer to one, a nil pointer, a nil
-- interface, or a value of a type of its own, by the type's name and how its `Validate` ends.
pub data Argument : Type 0 where
  value : Message → Argument
  pointer : Message → Argument
  nil_pointer : Kind → Argument
  nil_interface : Argument
  custom : String → Checked → Argument
