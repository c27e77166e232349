-- ===== src/Dispatcher/Noop/Print.antt =====
-- internal/dispatcher/noop.go: `Send` and the printing of a batch. What encoding/json, time and strings
-- make of their arguments is an argument, `Library`.
use Prim.Native.String.{◌++◌ as ◌<>◌}
use origamy_go_sdk.Base.{
  ℕ, ◌+◌, ◌||◌, String, Option, none, some, List, [], ◌∷◌, ◌++◌, length, is_empty, if◌then◌else◌,
}
use origamy_go_sdk.Base.Int.{pos}
use origamy_go_sdk.Data.{
  Reference, Time, Value, string, dict, Entries, end, entry, Error, Result, ok, err,
}
use origamy_go_sdk.Data.Dict.{Dict, same, lookup}
use origamy_go_sdk.Log.{LogEntry, error, failure}
use origamy_go_sdk.Segments.Text.{format_int}
use origamy_go_sdk.Dispatcher.Noop.{
  NoopDispatcher, println, print_line, repeat, color, highlight, success, warn, dim, color_type,
  icon,
}

-- The struct that `Send` decodes; the messages are their JSON text.
pub record Batch : Type 0 where
  pub message_id : String
  pub sent_at : Time
  pub messages : List ℕ

-- `json.Unmarshal` of a batch and of the messages, `json.Marshal` of a value that it has made,
-- `Format(time.RFC3339)` and `strings.ToUpper`.
pub record Library : Type 0 where
  pub decode_batch : List ℕ → Result Batch
  pub decode_messages : List ℕ → Result (List (Dict Value))
  pub encode : Value → String
  pub rfc3339 : Time → String
  pub to_upper : String → String

-- `v, ok := msg[key].(string)`
abbrev pub as_string : Option Value → Option String
as_string (some (string s)) = some s
as_string _ = none

unfoldable pub text_of : String → Dict Value → Option String
unfolding lookup
text_of key msg = as_string (lookup key msg)

-- `v, _ := msg[key].(string)`
abbrev pub or_empty : Option String → String
or_empty none = ""
or_empty (some s) = s

-- `v, ok := msg[key].(map[string]interface{})`; the empty map where it is none, which is not printed.
abbrev pub as_dict : Option Value → Entries
as_dict (some (dict es)) = es
as_dict _ = end

unfoldable pub dict_of : String → Dict Value → Entries
unfolding lookup
dict_of key msg = as_dict (lookup key msg)

-- What a call of `Send` writes and logs, and what it returns.
pub record Sent : Type 0 where
  pub written : List String
  pub logged : List LogEntry
  pub result : Option Error

abbrev pub print_if : (String → String) → Option String → List String
print_if line none = []
print_if line (some s) = line s ∷ []

-- `name, ok := …; ok && name != ""`
abbrev pub nonempty : Option String → Option String
nonempty none = none
nonempty (some s) = if is_empty s then none else some s

-- `if d.config.Logger != nil`
abbrev pub logged_by : Option Reference → String → Error → List LogEntry
logged_by none format e = []
logged_by (some l) format e = record { level = error; format = format; args = failure e ∷ [] } ∷ []

module _ (lib : Library) (d : NoopDispatcher) where
  -- The entries in the order in which `range` visits them.
  unfoldable pub print_properties : Entries → ℕ → List String
  print_properties end indent = []
  print_properties (entry k v es) indent =
      (repeat " " indent <> dim d k <> ": " <> lib.encode v <> "\n") ∷ print_properties es indent

  -- `if ok && len(props) > 0`
  abbrev pub print_dict : String → Entries → List String
  print_dict title end = []
  print_dict title es = title ∷ print_properties es 6

  unfoldable pub print_header : String → Time → ℕ → List String
  print_header batch_id sent_at count =
      println d ""
      ++ print_line d "═" 60
      ++ (("  " <> color d "🔍" "" <> " ORIGAMY SDK - NOOP DISPATCHER " <> color d "" "" <> "\n")
          ∷ [])
      ++ print_line d "─" 60
      ++ (("  Batch ID:  " <> highlight d batch_id <> "\n") ∷ [])
      ++ (("  Sent At:   " <> highlight d (lib.rfc3339 sent_at) <> "\n") ∷ [])
      ++ (("  Messages:  " <> highlight d (format_int (pos count)) <> "\n") ∷ [])
      ++ print_line d "═" 60

  -- The lines of `switch msgType`.
  unfoldable pub print_fields : String → Dict Value → List String
  print_fields msg_type msg =
      if same msg_type "track"
      then print_if (λ s. "    Event:        " <> success d s <> "\n") (text_of "event" msg)
        ++ print_dict "    Properties:\n" (dict_of "properties" msg)
      else (if same msg_type "identify"
          then print_dict "    Traits:\n" (dict_of "traits" msg)
          else (if same msg_type "page" || same msg_type "screen"
              then print_if (λ s. "    Name:         " <> success d s <> "\n")
                  (nonempty (text_of "name" msg))
                ++ print_dict "    Properties:\n" (dict_of "properties" msg)
              else (if same msg_type "group"
                  then print_if (λ s. "    Group ID:     " <> success d s <> "\n")
                      (text_of "groupId" msg)
                    ++ print_dict "    Traits:\n" (dict_of "traits" msg)
                  else (if same msg_type "alias"
                      then print_if (λ s. "    Previous ID:  " <> warn d s <> "\n")
                          (text_of "previousId" msg)
                      else []))))

  unfoldable pub print_message : ℕ → Dict Value → List String
  print_message index msg =
      let msg_type = or_empty (text_of "type" msg) in
      println d ""
      ++ (("  "
            <> icon d msg_type
            <> " Message #"
            <> format_int (pos index)
            <> ": "
            <> color_type d (lib.to_upper msg_type)
            <> "\n")
          ∷ [])
      ++ print_line d "─" 50
      ++ (("    Message ID:   " <> dim d (or_empty (text_of "messageId" msg)) <> "\n") ∷ [])
      ++ print_if (λ s. "    User ID:      " <> highlight d s <> "\n")
          (nonempty (text_of "userId" msg))
      ++ print_if (λ s. "    Anonymous ID: " <> highlight d s <> "\n")
          (nonempty (text_of "anonymousId" msg))
      ++ print_fields msg_type msg
      ++ print_if (λ s. "    Timestamp:    " <> dim d s <> "\n") (text_of "timestamp" msg)

  unfoldable pub print_footer : List String
  print_footer =
      println d ""
      ++ print_line d "═" 60
      ++ (("  " <> warn d "⚠" <> " This is a NOOP dispatcher - no data was sent\n") ∷ [])
      ++ print_line d "═" 60
      ++ println d ""

  -- `for i, msg := range messages`, from number `i` on.
  unfoldable pub print_messages : ℕ → List (Dict Value) → List String
  print_messages i [] = []
  print_messages i (msg ∷ msgs) = print_message (i + 1) msg ++ print_messages (i + 1) msgs

  abbrev pub errorf : String → Error → List LogEntry
  errorf format e = logged_by d.config.logger format e

  abbrev pub fails : String → Error → Sent
  fails format e = record { written = []; logged = errorf format e; result = none }

  abbrev pub print_batch : Batch → Result (List (Dict Value)) → Sent
  print_batch batch (err e) = fails "Failed to parse messages: %v" e
  print_batch batch (ok messages) = record {
    written =
        print_header batch.message_id batch.sent_at (length messages)
        ++ print_messages 0 messages
        ++ print_footer;
    logged = [];
    result = none;
  }

  abbrev pub print_decoded : Result Batch → Sent
  print_decoded (err e) = fails "Failed to parse payload: %v" e
  print_decoded (ok batch) = print_batch batch (lib.decode_messages batch.messages)

  unfoldable pub send : List ℕ → Sent
  send payload = print_decoded (lib.decode_batch payload)

  unfoldable pub close : Option Error
  close = none
