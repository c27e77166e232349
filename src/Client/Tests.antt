-- ===== src/Client/Tests.antt =====
-- Tests of the client (internal/core/analytics.go), and its theorems at concrete inputs.
use mathlib.Core.List.{Perm}
use origamy_go_sdk.Base.{
  ℕ, suc, ltb, ◌≡◌, refl, ◌<◌, ◌≢◌, ◌==◌, Bool, true, false, none, some, List, [], ◌∷◌, arith,
  length, replicate, if◌then◌else◌,
}
use origamy_go_sdk.Base.Int.{pos}
use origamy_go_sdk.Data.{other, ok, err, object, closed}
use origamy_go_sdk.Message
use origamy_go_sdk.Message.{Message, Argument, value, pointer, nil_interface, custom}
use origamy_go_sdk.Message.Context.{zero_context}
use origamy_go_sdk.Samples.{bought, renamed, noon, sized}
use origamy_go_sdk.Queue.{ChannelQueue, fresh, finished, Call, returns}
use origamy_go_sdk.Queue.Calls.{IsValid}
use origamy_go_sdk.Queue.Interface.{channel_queue, channel_queue-IsLawful}
use origamy_go_sdk.Client.Enqueue.{dereference, decorate, enqueue}
use origamy_go_sdk.Client.Enqueue.Accept.{
  Accepts, enqueue-Accepts, enqueue_refuses, enqueue_after_close,
}
use origamy_go_sdk.Client.Send.{
  Effect, accepted, refused, crashed, timer, Delivery, attempts, send, retry, after_reply,
  after_wake, notify_success,
}
use origamy_go_sdk.Client.Send.Told.{Fate, dropped, Reaches, Decides, dispatched, notes, told}
use origamy_go_sdk.Client.Send.Attempts.{send-attempts, send_unmarshalled}
use origamy_go_sdk.Client.Send.Reported.{reported, IsCalm}
use origamy_go_sdk.Client.Loop.{Surroundings, LoopState, Event, arrives, ticks, loop}
use origamy_go_sdk.Client.Loop.Shutdown.{loop_on, queue_reports}
use origamy_go_sdk.Client.Loop.Delivered.{pending_in, loop_reports}

abbrev open_queue : ChannelQueue Message
open_queue = record {
  ch = record { buffer = renamed ∷ []; capacity = 2; is_shut = false };
  closed = false;
  close_once = fresh;
  config = record { capacity = pos 2; logger = none };
}

open-IsValid : IsValid open_queue
open-IsValid = record { agree = refl; once = refl; within = omega arith; room = omega arith }

abbrev shut_queue : ChannelQueue Message
shut_queue = record open_queue {
  ch = record { buffer = renamed ∷ []; capacity = 2; is_shut = true };
  closed = true;
  close_once = finished;
}

shut-IsValid : IsValid shut_queue
shut-IsValid = record { agree = refl; once = refl; within = omega arith; room = omega arith }

abbrev after_bought : ChannelQueue Message
after_bought = record open_queue {
  ch = record {
    buffer = renamed ∷ decorate "id" noon zero_context bought ∷ [];
    capacity = 2;
    is_shut = false;
  };
}

enqueue-Accepts_example :
    Accepts
      (channel_queue Message)
      (channel_queue-IsLawful Message)
      "id"
      noon
      zero_context
      (value bought)
      open_queue
      after_bought
unfolding enqueue Message.validate origamy_go_sdk.Queue.enqueue
enqueue-Accepts_example =
    enqueue-Accepts (channel_queue Message) (channel_queue-IsLawful Message) "id" noon zero_context
      (value bought) {s = open_queue} {s' = after_bought} open-IsValid refl refl refl

abbrev anonymous : Argument
anonymous = custom "main.Own" Message.passes

queue_kept : open_queue ≡ open_queue
unfolding enqueue
queue_kept =
    enqueue_refuses (channel_queue Message) (channel_queue-IsLawful Message) "id" noon zero_context
      anonymous {s = open_queue} {s' = open_queue} open-IsValid refl

late_is_refused :
    enqueue (channel_queue Message) "id" noon zero_context (pointer bought) shut_queue
    ≡ returns shut_queue (some closed)
unfolding dereference Message.validate origamy_go_sdk.Queue.is_closed
late_is_refused =
    enqueue_after_close (channel_queue Message) (channel_queue-IsLawful Message) "id" noon
      zero_context (pointer bought) bought {s = shut_queue} shut-IsValid refl refl refl

-- The third attempt is accepted.
abbrev flaky : Delivery
flaky = record {
  payload = ok (b'{' ∷ b'}' ∷ []);
  reply = λ i. if i == 2 then accepted else refused (other "503");
  wake = λ i. timer;
}

abbrev unmarshalled : Delivery
unmarshalled = record flaky { payload = err (other "json") }

send-attempts_example :
    (last : ℕ) × (fate : Fate) × (last < attempts)
    × Reaches flaky last
    × Decides flaky last fate
    × (dispatched (send (some (object 0)) flaky (sized 2 ∷ []))
        ≡ replicate (suc last) (b'{' ∷ b'}' ∷ []))
    × (notes (send (some (object 0)) flaky (sized 2 ∷ []))
        ≡ told (some (object 0)) fate (sized 2 ∷ []))
send-attempts_example = send-attempts (some (object 0)) flaky (b'{' ∷ b'}' ∷ []) (sized 2 ∷ []) refl

flaky_calls : length (dispatched (send (some (object 0)) flaky (sized 2 ∷ []))) ≡ 3
unfolding send retry after_reply after_wake notify_success
flaky_calls = refl

unsent :
    (dispatched (send (some (object 0)) unmarshalled (sized 2 ∷ [])) ≡ [])
    × (notes (send (some (object 0)) unmarshalled (sized 2 ∷ []))
        ≡ told (some (object 0)) (dropped (other "json")) (sized 2 ∷ []))
unsent = send_unmarshalled (some (object 0)) unmarshalled [] (sized 2 ∷ []) refl

-- Every message is two bytes long; batches hold two; the executor takes every batch but the first.
abbrev surroundings : Surroundings
surroundings = record {
  marshal = λ m. ok (b'{' ∷ b'}' ∷ []);
  admits = λ n. ltb 0 n;
  delivery = λ n. flaky;
}

flaky-IsCalm : IsCalm flaky
flaky-IsCalm i = never (i == 2)
  where
    never : (b : Bool) → (if b then accepted else refused (other "503")) ≢ crashed
    never true = λ e. cc
    never false = λ e. cc

abbrev history : List Event
history = arrives bought ∷ arrives renamed ∷ ticks ∷ arrives renamed ∷ []

list_reports :
    Perm
      (reported
        (loop surroundings
          (record {
            callback = some (object 0);
            verbose = true;
            batch_size = 2;
            max_concurrent_requests = 3;
          })
          []
          history
          (bought ∷ [])).0)
      (bought ∷ renamed ∷ renamed ∷ bought ∷ [])
    × (pending_in
          (loop surroundings
            (record {
              callback = some (object 0);
              verbose = true;
              batch_size = 2;
              max_concurrent_requests = 3;
            })
            []
            history
            (bought ∷ [])).1
        ≡ [])
list_reports =
    loop_reports surroundings (object 0) true 2 3 (λ n. flaky-IsCalm) [] history (bought ∷ [])

queue_reports_example :
    (out : List Effect × LoopState) × (loop_on surroundings
        (record {
          callback = some (object 0);
          verbose = true;
          batch_size = 2;
          max_concurrent_requests = 3;
        })
        []
        history
        2
        open_queue
      ≡ some out)
    × Perm (reported out.0) (bought ∷ renamed ∷ renamed ∷ renamed ∷ [])
    × (pending_in out.1 ≡ [])
unfolding origamy_go_sdk.Queue.len
queue_reports_example =
    queue_reports surroundings (object 0) true 2 3 (λ n. flaky-IsCalm) [] history open_queue
      open-IsValid
