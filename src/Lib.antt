-- ===== src/Lib.antt =====
-- Verification of the Origamy Go SDK.
--
-- An application makes a client (index.go, internal/core/config.go), and hands it messages
-- (internal/core/track.go and its like). `Enqueue` validates and completes a message and puts it in
-- a queue (internal/queue). The client's loop takes messages from there, collects them into batches
-- (internal/core/message.go), and hands each batch to an executor (internal/core/executor.go),
-- which starts a goroutine that sends it through a dispatcher (internal/dispatcher/http.go), with
-- retries. The callback is told what became of each message. The segments client (segments.go) is
-- apart from all this: its calls are synchronous.
--
-- Which file models what:
--   * Base and its children: shared names, Boolean tests, lists, signed integers. No code.
--   * Data: the values, errors, times and references that the program passes round
--     (internal/core/error.go, the error types of internal/queue/queue.go and segments.go);
--     Data/Dict: Go maps with text keys; Data/Texts: the texts of the errors.
--   * Message, and a child for each of Alias, Group, Identify, Page, Screen, Track: the message
--     types and `Validate` of internal/core; Message/Context: internal/core/context.go.
--   * Validate: `ValidateFields` (internal/core/validate.go); Validate/Agreement: against
--     `Validate`.
--   * Queue: internal/queue, each method as one step; Queue/Calls: against a bounded queue;
--     Queue/Interface: the `Queue` interface with its laws, which `Enqueue` is proved over;
--     Queue/Race: the methods of internal/queue/channel.go as interleaved steps of goroutines.
--   * Batch: `message`, `batch` and `messageQueue` of internal/core/message.go; Batch/Room: when
--     `push` can make its slice.
--   * Executor: internal/core/executor.go as interleaved steps; Executor/Slots: against a count of
--     slots.
--   * Config: internal/core/config.go. A pointer to a context is a position in a store, so that
--     `makeConfig` is seen to write through it.
--   * Client: internal/core/analytics.go: Setup (`NewWithConfig`), Enqueue, Send (`send`,
--     `sendAsync`; Send/OverHttp: with the HTTP dispatcher), Loop (`loop`, `push`, `flush`;
--     Loop/Shutdown: its end, on the queue of internal/queue), Close (`Close`, as interleaved
--     steps; the dispatcher's own `Close` may panic).
--   * System: the goroutines of internal/core/analytics.go together, as interleaved steps: the
--     calls of `Enqueue` and `Close`, the loop, and those that send, with the limit of
--     internal/core/executor.go; System/Turns: a turn of the loop; System/Sending: the steps of a
--     goroutine that sends; System/Weights, Balance and Once: where each message is;
--     System/Accepted: what the calls have returned; System/Batches and Payloads: the limits of a
--     batch; System/Capacity: the executor's; System/Invariant: what keeps the goroutines in order;
--     System/Shutdown: against Client/Close; System/Closed: the client at its end; System/Entering
--     and Progress: what its end waits for; System/Finish and Drain: how it comes; System/Bounded:
--     how much is left until then; System/Quiescent: where nothing can act.
--   * Dispatcher: internal/dispatcher/dispatcher.go; Dispatcher/Http: internal/dispatcher/http.go
--     and timeout_16.go; Dispatcher/Timeout: timeout_15.go; Dispatcher/Noop:
--     internal/dispatcher/noop.go; Noop/Print: `Send` and what it prints; Noop/Colours and
--     Noop/Plain: its escape sequences; Noop/Output: what `Send` comes to.
--   * Maps: internal/core/properties.go, traits.go and integrations.go; Maps/Chain: chains of
--     setters.
--   * Json: internal/core/json.go over reflected structs; Json/Contexts: `MarshalJSON` of
--     internal/core/context.go; Json/Shown and Json/Tags: what becomes of fields and of tags;
--     Json/Marshallable: which contexts are JSON.
--   * Sdk: index.go; Sdk/Constructors: its constructors that hand on to internal/; Sdk/Types: the
--     names that it gives to what internal/ declares.
--   * Segments: `write` and the types of segments.go; Post: `post` and the reading of responses;
--     Members: `AddMembers` and `RemoveMembers`; Text: the standard library's functions on texts;
--     Numbers: the segment id in a URL; Course and Write: what a call posts and reports; Errors: where
--     a call stops.
--   * Log: a call of a logger, as a value; Log/Std: internal/core/logger.go. Samples: messages for
--     the tests.
--
-- A function that changes state takes it and returns it. Where goroutines share state (Queue/Race,
-- Executor, Client/Close, System), each action is a step of a relation, and a theorem holds for
-- every interleaving. What the program asks of the world (the answers of net/http and of a
-- dispatcher, encoding/json on a message, the clock, a generated id, which case a `select` takes)
-- is an argument of the definition that asks; whether the executor takes a batch is one in Client,
-- and follows from the state in System.
--
-- Counts that the program cannot let grow past an int64 are natural numbers without a bound; where
-- a sum or product of foreign numbers can wrap (Segments), the wrap is written out. Fuel: `range`
-- of a queue needs one step for each buffered message and one more; `write` of Segments as many as
-- there are members and one more; `post` three, its number of attempts. The theorems say that these
-- are enough.
--
-- In Client/Loop the goroutines that send run one after the other, each when its batch is handed
-- over. System lets them interleave with all the others; there a turn of the loop's `select` or of
-- its drain is one step, with the call of the executor's `do` in it (Executor has that call action
-- by action), and a message is followed by a weight: with the weight that is one at it and zero
-- elsewhere, that is how often it stands somewhere. The number that System/Bounded gives a state
-- bounds the actions of its end, so that no fuel is needed there. A queue that the application
-- brings is any value of Queue/Interface; System has that of internal/queue.
--
-- `push` panics in the loop's own goroutine, and the process ends, where the BatchSize is so large
-- that its slice cannot be allocated: `push_or_panic` of Batch has that path. Client/Loop and System
-- are of a client whose BatchSize is at most 7036874417766, where it is not taken.
--
-- Not modelled: a callback that panics in the loop's own goroutine, which nothing recovers (in a
-- goroutine that sends, it is a step of System); a logger that panics; a capacity of a channel that
-- cannot be allocated; interfaces, which have no code; the test files and scripts.
pub mod Base
pub mod Data
pub mod Message
pub mod Log
pub mod Validate
pub mod Queue
pub mod Batch
mod Samples
pub mod Executor
pub mod Config
pub mod Client
pub mod Sdk
pub mod Dispatcher
pub mod Json
pub mod Segments
pub mod Maps
pub mod System
