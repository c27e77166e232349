-- ===== src/System/Turns.antt =====
-- One turn of the loop of internal/core/analytics.go: `client.push` and `client.flush`, with the batch that
-- they hand over to be sent.
use origamy_go_sdk.Base.{
  ℕ, Bool, true, false, Option, none, some, List, [], ◌∷◌, ◌++◌, length, elements, if◌then◌else◌,
}
use origamy_go_sdk.Data.{Result, ok, err, too_many_requests}
use origamy_go_sdk.Log.{LogEntry, info, error, number, message, failure}
use origamy_go_sdk.Message.{Message}
use origamy_go_sdk.Batch.{Serialized, make_message, max_message_bytes, MessageQueue, push, flush}
use origamy_go_sdk.Client.Send.{Effect, logs, notify_failure}
use origamy_go_sdk.Client.Loop.{Settings}
use origamy_go_sdk.System.Sending.{Sender, starting}

-- One turn of the loop: what it logs and reports, what is pending then, and the goroutine that it has
-- started.
pub record Turn : Type 0 where
  pub effects : List Effect
  pub pending : MessageQueue
  pub started : List Sender

abbrev pub debug : Settings → LogEntry → List Effect
debug cfg entry = if cfg.verbose then logs entry ∷ [] else []

abbrev pub exceeded : Option (List Serialized) → LogEntry
exceeded b = record {
  level = info;
  format = "exceeded messages batch limit with batch of %d messages – flushing";
  args = number (length (elements b)) ∷ [];
}

abbrev pub flushing : Option (List Serialized) → LogEntry
flushing b = record {
  level = info;
  format = "flushing %d messages";
  args = number (length (elements b)) ∷ [];
}

abbrev pub buffered : Settings → MessageQueue → Message → LogEntry
buffered cfg q m = record {
  level = info;
  format = "buffer (%d/%d) %v";
  args = number (length (elements q.pending)) ∷ number cfg.batch_size ∷ message m ∷ [];
}

module _ (cfg : Settings) where
  abbrev refused : List Serialized → List Effect
  refused msgs =
      logs (record {
        level = error;
        format = "sending messages failed - %s";
        args = failure too_many_requests ∷ [];
      })
      ∷ notify_failure cfg.callback msgs too_many_requests

  -- `sendAsync`, where there is a batch to send.
  unfoldable pub hand_over : Bool → LogEntry → Option (List Serialized) → MessageQueue → Turn
  hand_over admits entry none q = record { effects = []; pending = q; started = [] }
  hand_over true entry (some msgs) q = record {
    effects = debug cfg entry;
    pending = q;
    started = starting msgs ∷ [];
  }
  hand_over false entry (some msgs) q = record {
    effects = debug cfg entry ++ refused msgs;
    pending = q;
    started = [];
  }

  abbrev pub made : Message → Bool → MessageQueue → Result Serialized → Turn
  made m admits q (err e) = record {
    effects =
        logs (record { level = error; format = "%s - %v"; args = failure e ∷ message m ∷ [] })
        ∷ notify_failure cfg.callback (record { msg = m; json = [] } ∷ []) e;
    pending = q;
    started = [];
  }
  made m admits q (ok x) =
      let (b, q') = push x q in
      let t = hand_over admits (exceeded b) b q' in
      record t { effects = debug cfg (buffered cfg q m) ++ t.effects }

  -- `client.push`
  unfoldable pub push_turn : Message → Result (List ℕ) → Bool → MessageQueue → Turn
  unfolding hand_over
  push_turn m r admits q = made m admits q (make_message m r max_message_bytes)

  -- `client.flush`
  unfoldable pub flush_turn : Bool → MessageQueue → Turn
  unfolding hand_over
  flush_turn admits q = let (b, q') = flush q in hand_over admits (flushing b) b q'
