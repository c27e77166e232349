-- ===== src/System/Bounded.antt =====
-- How much is left to do for the client as a whole (internal/core/analytics.go) once its loop ranges over
-- what the closed queue holds, as a number.
pub mod Ends
use origamy_go_sdk.Base.{
  ℕ, zero, suc, ◌+◌, ◌*◌, ◌≡◌, ◌≤◌, ◌<◌, refl, ap, ◌∙◌, Bool, true, false, Bool-cases, inl, inr,
  Option, none, some, List, [], ◌∷◌, ◌++◌, arith, length, length-append, elements, map,
}
use origamy_go_sdk.Data.{Reference, Error, Result, ok, err}
use origamy_go_sdk.Log.{LogEntry}
use origamy_go_sdk.Message.{Message}
use origamy_go_sdk.Batch.{Serialized, MessageQueue, make_message, max_message_bytes, push, flush}
use origamy_go_sdk.Batch.Invariant.{push_conserves}
use origamy_go_sdk.Client.Send.{
  Effect, dispatches, waits, succeeded, failed, logs, accepted, refused, crashed, timer, quit,
  notify_success, notify_failure, dropped_by_close, dropped_after_attempts,
}
use origamy_go_sdk.Client.Loop.{Settings}
use origamy_go_sdk.System.Sending
use origamy_go_sdk.System.Sending.{
  Sender, starting, attempting, pausing, finishing, Choice, marshals, replies, wakes, goes, breaks,
  Outcome,
}
use origamy_go_sdk.System.{Stage, draining, joining, returned, System, kept, back}
use origamy_go_sdk.System.Turns.{hand_over, made, push_turn, flush_turn, exceeded, flushing}

-- What is left of an effect, more for a call of the callback, which can panic.
abbrev toll : Effect → ℕ
toll (succeeded m) = 3
toll (failed m e) = 3
toll _ = 1

abbrev pub tolls : List Effect → ℕ
tolls [] = 0
tolls (e ∷ es) = toll e + tolls es

-- More than the actions that a goroutine can still do.
abbrev pub cost : Sender → ℕ
cost (starting msgs) = 3 * length msgs + 26
cost (attempting b msgs left i e) = 2 * left + 3 * length msgs + 4
cost (pausing b msgs left i e) = 2 * left + 3 * length msgs + 5
cost (finishing es) = tolls es + 2

abbrev pub costs : List Sender → ℕ
costs [] = 0
costs (t ∷ ts) = cost t + costs ts

pub costs-append : (xs ys : List Sender) → costs (xs ++ ys) ≡ costs xs + costs ys
costs-append [] ys = omega arith
costs-append (x ∷ xs) ys = omega (arith, costs-append xs ys)

abbrev stage_left : Stage → ℕ
stage_left returned = 0
stage_left joining = 1
stage_left _ = 28

abbrev pub remaining : System → ℕ
remaining s =
    stage_left s.stage
    + 30 * length s.race.queue.ch.buffer
    + 3 * length (elements s.pending.pending)
    + costs s.senders
    + s.returning

tolls-succeeded :
    (msgs : List Serialized) → tolls (map (λ m. succeeded m.msg) msgs) ≡ 3 * length msgs
tolls-succeeded [] = refl
tolls-succeeded (m ∷ ms) = omega (arith, tolls-succeeded ms)

tolls-failed :
    (e : Error) (msgs : List Serialized) → tolls (map (λ m. failed m.msg e) msgs) ≡ 3 * length msgs
tolls-failed e [] = refl
tolls-failed e (m ∷ ms) = omega (arith, tolls-failed e ms)

tolls-notify_success :
    (c : Option Reference) (msgs : List Serialized)
    → tolls (notify_success c msgs) ≤ 3 * length msgs
unfolding notify_success
tolls-notify_success none msgs = omega arith
tolls-notify_success (some c) msgs = omega (arith, tolls-succeeded msgs)

tolls-notify_failure :
    (c : Option Reference) (msgs : List Serialized) (e : Error)
    → tolls (notify_failure c msgs e) ≤ 3 * length msgs
unfolding notify_failure
tolls-notify_failure none msgs e = omega arith
tolls-notify_failure (some c) msgs e = omega (arith, tolls-failed e msgs)

-- Each action of a goroutine that sends.
pub act-costs :
    (c : Option Reference) (q : Bool) (ch : Choice) (t : Sender) (o : Outcome)
    → Sending.act c q ch t ≡ some o
    → costs (kept o.sender) + back o.sender 0 < cost t
unfolding Sending.act dropped_by_close dropped_after_attempts
act-costs c q (marshals (ok b)) (starting msgs) o h = ground arith
act-costs c q (marshals (err e)) (starting msgs) o h = ground (arith, tolls-notify_failure c msgs e)
act-costs c q (replies accepted) (attempting b msgs (suc left) i e) o h =
    ground (arith, tolls-notify_success c msgs)
act-costs c q (replies (refused x)) (attempting b msgs (suc left) i e) o h = ground arith
act-costs c q (replies crashed) (attempting b msgs (suc left) i e) o h = ground arith
act-costs c q goes (attempting b msgs zero i e) o h = ground (arith, tolls-notify_failure c msgs e)
act-costs c q (wakes timer) (pausing b msgs left i e) o h = ground arith
act-costs c q (wakes quit) (pausing b msgs left i e) o h =
    ground (arith, tolls-notify_failure c msgs e)
act-costs c q goes (finishing (succeeded m ∷ es)) o h = ground arith
act-costs c q goes (finishing (failed m e ∷ es)) o h = ground arith
act-costs c q goes (finishing (dispatches b ∷ es)) o h = ground arith
act-costs c q goes (finishing (waits i ∷ es)) o h = ground arith
act-costs c q goes (finishing (logs e ∷ es)) o h = ground arith
act-costs c q goes (finishing []) o h = ground arith
act-costs c q breaks (finishing (succeeded m ∷ es)) o h = ground arith
act-costs c q breaks (finishing (failed m e ∷ es)) o h = ground arith
act-costs c q ch t o h = ground arith

module _ (cfg : Settings) where
  hand_over-costs :
      (b : Bool) (entry : LogEntry) (batch : Option (List Serialized)) (q : MessageQueue)
      → (costs (hand_over cfg b entry batch q).started ≤ 3 * length (elements batch) + 26)
        × ((hand_over cfg b entry batch q).pending ≡ q)
  unfolding hand_over
  hand_over-costs b entry batch q = ground arith

  made-costs :
      (m : Message) (b : Bool) (q : MessageQueue) (r : Result Serialized)
      → costs (made cfg m b q r).started + 3 * length (elements (made cfg m b q r).pending.pending)
        ≤ 3 * length (elements q.pending) + 29
  made-costs m b q (err e) = omega arith
  made-costs m b q (ok x) =
      let (less, same) = hand_over-costs b (exceeded (push x q).0) (push x q).0 (push x q).1 in
      omega (
        arith,
        less,
        ap (λ p. length (elements p.pending)) same,
        ap length (push_conserves x q),
        length-append (elements (push x q).0) (elements (push x q).1.pending),
        length-append (elements q.pending) (x ∷ []),
      )

  pub push_turn-costs :
      (m : Message) (r : Result (List ℕ)) (b : Bool) (q : MessageQueue)
      → costs (push_turn cfg m r b q).started
          + 3 * length (elements (push_turn cfg m r b q).pending.pending)
        ≤ 3 * length (elements q.pending) + 29
  unfolding push_turn
  push_turn-costs m r b q = made-costs m b q (make_message m r max_message_bytes)

  pub flush_turn-costs :
      (b : Bool) (q : MessageQueue)
      → costs (flush_turn cfg b q).started
          + 3 * length (elements (flush_turn cfg b q).pending.pending)
        ≤ 3 * length (elements q.pending) + 26
  unfolding flush_turn flush
  flush_turn-costs b q =
      let (less, same) = hand_over-costs b (flushing (flush q).0) (flush q).0 (flush q).1 in
      omega (arith, less, ap (λ p. length (elements p.pending)) same)
