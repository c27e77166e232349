-- ===== src/Dispatcher/Noop.antt =====
-- internal/dispatcher/noop.go: the dispatcher that prints, its options and its colours. What it prints
-- is the list of the texts that it writes, one for each call of `fmt.Fprintf` or `fmt.Fprintln`.
pub mod Print
pub mod Colours
pub mod Plain
pub mod Output
mod Tests
use Prim.Native.String.{◌++◌ as ◌<>◌}
use origamy_go_sdk.Base.{
  ℕ, zero, suc, Bool, true, false, String, Option, none, some, List, [], ◌∷◌, if◌then◌else◌,
}
use origamy_go_sdk.Data.{Handle}
use origamy_go_sdk.Data.Dict.{Dict, lookup}
use origamy_go_sdk.Dispatcher

-- A `*os.File` that is not nil.
pub data File : Type 0 where
  stdout : File
  opened : Handle → File

pub record NoopDispatcher : Type 0 where
  pub config : Dispatcher.Config
  pub writer : Option File
  pub colored : Bool

abbrev pub NoopOption : Type 0
NoopOption = NoopDispatcher → NoopDispatcher

unfoldable pub with_output : Option File → NoopOption
with_output w d = record d { writer = w }

unfoldable pub with_color : Bool → NoopOption
with_color enabled d = record d { colored = enabled }

unfoldable pub apply_options : List NoopOption → NoopDispatcher → NoopDispatcher
apply_options [] d = d
apply_options (opt ∷ opts) d = apply_options opts (opt d)

unfoldable pub new_noop_dispatcher : Dispatcher.Config → List NoopOption → NoopDispatcher
unfolding apply_options
new_noop_dispatcher config opts =
    apply_options opts (record { config = config; writer = some stdout; colored = true })

-- `strings.Repeat`
abbrev pub repeat : String → ℕ → String
repeat s zero = ""
repeat s (suc n) = s <> repeat s n

module _ (d : NoopDispatcher) where
  -- `fmt.Fprintln`
  abbrev pub println : String → List String
  println s = (s <> "\n") ∷ []

  abbrev pub print_line : String → ℕ → List String
  print_line char width = println ("  " <> repeat char width)

  unfoldable pub color : String → String → String
  color s code = if d.colored then s else s

  unfoldable pub highlight : String → String
  highlight s = if d.colored then "\u{1b}[1;36m" <> s <> "\u{1b}[0m" else s

  unfoldable pub success : String → String
  success s = if d.colored then "\u{1b}[1;32m" <> s <> "\u{1b}[0m" else s

  unfoldable pub warn : String → String
  warn s = if d.colored then "\u{1b}[1;33m" <> s <> "\u{1b}[0m" else s

  unfoldable pub dim : String → String
  dim s = if d.colored then "\u{1b}[2m" <> s <> "\u{1b}[0m" else s

  abbrev pub colors : Dict String
  colors =
      ("TRACK", "\u{1b}[1;35m")
      ∷ ("IDENTIFY", "\u{1b}[1;34m")
      ∷ ("PAGE", "\u{1b}[1;32m")
      ∷ ("SCREEN", "\u{1b}[1;32m")
      ∷ ("GROUP", "\u{1b}[1;33m")
      ∷ ("ALIAS", "\u{1b}[1;31m")
      ∷ []

  abbrev pub wrapped : String → Option String → String
  wrapped msg_type none = msg_type
  wrapped msg_type (some c) = c <> msg_type <> "\u{1b}[0m"

  unfoldable pub color_type : String → String
  unfolding lookup
  color_type msg_type = if d.colored then wrapped msg_type (lookup msg_type colors) else msg_type

  abbrev pub icons : Dict String
  icons =
      ("track", "📊")
      ∷ ("identify", "👤")
      ∷ ("page", "📄")
      ∷ ("screen", "📱")
      ∷ ("group", "👥")
      ∷ ("alias", "🔗")
      ∷ []

  abbrev pub shown : Option String → String
  shown none = "📝"
  shown (some i) = i

  unfoldable pub icon : String → String
  unfolding lookup
  icon msg_type = shown (lookup msg_type icons)
