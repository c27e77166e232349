-- ===== src/Dispatcher/Noop/Tests.antt =====
-- Tests of the dispatcher that prints (internal/dispatcher/noop.go), and its theorems at a concrete
-- payload.
use origamy_go_sdk.Base.{
  subst, Bool, if◌then◌else◌, ◌≡◌, ◌≢◌, ◌↔◌, refl, true, false, none, some, List, [], ◌∷◌, map,
  arith, All, String,
}
use origamy_go_sdk.Data.{Reference, object, Value, string, ok, err, Result}
use origamy_go_sdk.Data.Dict.{Dict, same, lookup}
use origamy_go_sdk.Samples.{noon}
use origamy_go_sdk.Dispatcher
use origamy_go_sdk.Dispatcher.Noop.{
  NoopDispatcher, new_noop_dispatcher, apply_options, with_color, dim, color_type,
}
use origamy_go_sdk.Dispatcher.Noop.Print.{
  Library, Batch, text_of, dict_of, as_string, as_dict, or_empty, send,
}
use origamy_go_sdk.Dispatcher.Noop.Colours.{strip, is_plain}
use origamy_go_sdk.Dispatcher.Noop.Plain.{uncolored}
use origamy_go_sdk.Dispatcher.Noop.Plain.Messages.{PlainKeys, IsPlain}
use origamy_go_sdk.Dispatcher.Noop.Output.{Decodes, send_never_fails, send_colors}

abbrev config : Dispatcher.Config
config = record {
  endpoint = "";
  write_key = "wk";
  version = "";
  verbose = false;
  logger = some (object 1);
}

abbrev colorful : NoopDispatcher
colorful = record { config = config; writer = none; colored = true }

abbrev track : Dict Value
track = ("type", string "track") ∷ []

-- A library for one payload.
abbrev library : Library
library = record {
  decode_batch = λ p. ok (record { message_id = "b"; sent_at = noon; messages = [] });
  decode_messages = λ p. ok (track ∷ []);
  encode = λ v. "null";
  rfc3339 = λ t. "0001-01-01T12:00:00Z";
  to_upper = λ s. s;
}

last_option_wins :
    (new_noop_dispatcher config (with_color false ∷ with_color true ∷ [])).colored ≡ true
unfolding new_noop_dispatcher apply_options with_color
last_option_wins = refl

dimmed : dim colorful "id" ≡ "\u{1b}[2mid\u{1b}[0m"
unfolding dim
dimmed = refl

stripped : strip (color_type colorful "TRACK") ≡ "TRACK"
unfolding color_type lookup
stripped = refl

typed :
    (b : Bool) (s : String)
    → as_string (if b then some (string "track") else none) ≡ some s
    → is_plain s ≡ true
typed true s h = subst (λ o. is_plain (or_empty o) ≡ true) h refl
typed false s h = ground arith

keyless : (b : Bool) → PlainKeys (as_dict (if b then some (string "track") else none))
keyless true = tt
keyless false = tt

track-IsPlain : IsPlain track
unfolding text_of dict_of lookup
track-IsPlain = record {
  texts = λ key s h. typed (same key "type") s h;
  keys = λ key. keyless (same key "type");
}

abbrev id_of : Result Batch → String
id_of (ok b) = b.message_id
id_of (err e) = ""

abbrev messages_of : Result (List (Dict Value)) → List (Dict Value)
messages_of (ok ms) = ms
messages_of (err e) = []

undecoded_is_logged :
    ((send library colorful []).result ≡ none)
    × (((send library colorful []).written ≢ []) ↔ Decodes library [])
    × ((l : Reference)
        → config.logger ≡ some l
        → ((send library colorful []).logged ≡ []) ↔ Decodes library [])
undecoded_is_logged = send_never_fails library colorful []

send_colors_example :
    map strip (send library colorful []).written ≡ (send library (uncolored colorful) []).written
send_colors_example =
    send_colors library (λ v. refl) (λ t. refl) (λ s p. p) colorful []
      (λ b h. subst (λ r. is_plain (id_of r) ≡ true) h refl)
      (λ b ms h k. subst (λ r. All IsPlain (messages_of r)) k (track-IsPlain, tt))
