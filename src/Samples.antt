-- ===== src/Samples.antt =====
-- Messages for the tests.
use origamy_go_sdk.Base.{ℕ, none, [], replicate}
use origamy_go_sdk.Data.{Time, zero_time}
use origamy_go_sdk.Message.{Message, track, alias}
use origamy_go_sdk.Message.Track.{Track}
use origamy_go_sdk.Batch.{Serialized}

abbrev pub bare_track : Track
bare_track = record {
  type = "";
  message_id = "";
  anonymous_id = "";
  user_id = "u";
  event = "bought";
  timestamp = zero_time;
  context = none;
  properties = [];
  integrations = [];
}

abbrev pub bought : Message
bought = track bare_track

abbrev pub renamed : Message
renamed = alias (record {
  type = "";
  message_id = "m";
  previous_id = "old";
  user_id = "new";
  timestamp = zero_time;
  context = none;
  integrations = [];
})

abbrev pub noon : Time
noon = record { nanos = 43200000000000; location = 0 }

-- A message with a text of `n` bytes.
abbrev pub sized : ℕ → Serialized
sized n = record { msg = bought; json = replicate n b'x' }
