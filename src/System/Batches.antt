-- ===== src/System/Batches.antt =====
-- The batches of the client as a whole (internal/core/analytics.go, message.go): what the loop has pending
-- and what the goroutines send, against the limits.
use origamy_go_sdk.Base.{
  ℕ, ◌≡◌, ◌≤◌, ◌<◌, refl, subst, ◌∙◌, Bool, true, false, Option, none, some, List, [], ◌∷◌, ◌++◌,
  arith, length, All, All-append, All-parts,
}
use origamy_go_sdk.Data.{Reference, Result, ok, err}
use origamy_go_sdk.Log.{LogEntry}
use origamy_go_sdk.Message.{Message}
use origamy_go_sdk.Batch.{
  Serialized, MessageQueue, make_message, max_message_bytes, push, flush, size,
}
use origamy_go_sdk.Batch.Invariant.{
  IsValid, IsSendable, Sendable, push-IsValid, push-Sendable, push_limits, flush-IsValid,
  flush-Sendable, room, room-IsValid,
}
use origamy_go_sdk.Queue.{ChannelOption, Receive, received, ended, waiting}
use origamy_go_sdk.Client.Loop.{Settings, max_batch_bytes_at}
use origamy_go_sdk.System.Sending
use origamy_go_sdk.System.Sending.{
  Sender, starting, attempting, pausing, finishing, Choice, marshals, replies, wakes, goes, breaks,
  Outcome,
}
use origamy_go_sdk.System.{
  Stage, selecting, closing, draining, joining, returned, System, Case, message_case, tick_case,
  quit_case, takes_turn, with_chan, on_message, on_left, admits, loop_at, loop_act, kept,
  queue_acts, loop_acts, sender_acts, closer_acts, gives_back, Step, moves, calls, closes, Reach,
  start, next, new_system,
}
use origamy_go_sdk.System.Turns.{Turn, hand_over, made, push_turn, flush_turn, exceeded, flushing}
use origamy_go_sdk.System.Invariant.{Always, guarded}

module _ (cfg : Settings) (bytes : ℕ) where
  -- A batch that is within the client's limits.
  abbrev pub IsWithin : List Serialized → Type 0
  IsWithin msgs = IsSendable (room cfg.batch_size bytes) msgs

  abbrev pub Carries : Sender → Type 0
  Carries (starting msgs) = IsWithin msgs
  Carries (attempting b msgs left i e) = IsWithin msgs
  Carries (pausing b msgs left i e) = IsWithin msgs
  Carries (finishing es) = Unit

  pub record Batched (q : MessageQueue) (ts : List Sender) : Type 0 where
    pub valid : IsValid q
    pub count : q.max_batch_size ≡ cfg.batch_size
    pub budget : q.max_batch_bytes ≡ bytes
    pub each : All Carries ts

  abbrev pub IsBatched : System → Type 0
  IsBatched s = Batched s.pending s.senders

  hand_over-Batched :
      (taken : Bool) (entry : LogEntry) (b : Option (List Serialized)) (p q : MessageQueue)
      → Batched q []
      → Sendable p b
      → p.max_batch_size ≡ cfg.batch_size
      → p.max_batch_bytes ≡ bytes
      → Batched (hand_over cfg taken entry b q).pending (hand_over cfg taken entry b q).started
  unfolding hand_over
  hand_over-Batched taken entry none p q v h k l = v
  hand_over-Batched false entry (some msgs) p q v h k l = v
  hand_over-Batched true entry (some msgs) p q v h k l = record {
    valid = v.valid;
    count = v.count;
    budget = v.budget;
    each = (ground (arith, h, k, l), tt);
  }

  short :
      (m : Message) (r : Result (List ℕ)) (x : Serialized)
      → make_message m r max_message_bytes ≡ ok x
      → length x.json ≤ max_message_bytes
  unfolding make_message
  short m (err e) x h = cc
  short m (ok json) x h = ground arith

  made-Batched :
      (m : Message) (taken : Bool) (q : MessageQueue) (r : Result Serialized)
      → ((x : Serialized) → r ≡ ok x → size x ≤ bytes)
      → Batched q []
      → Batched (made cfg m taken q r).pending (made cfg m taken q r).started
  made-Batched m taken q (err e) h v = v
  made-Batched m taken q (ok x) h v =
      let fits : size x ≤ q.max_batch_bytes = omega (arith, h x refl, v.budget) in
      let (few, small) = push_limits x q in
      hand_over-Batched taken (exceeded (push x q).0) (push x q).0 q (push x q).1
        (record {
          valid = push-IsValid x q v.valid fits;
          count = few ∙ v.count;
          budget = small ∙ v.budget;
          each = tt;
        })
        (push-Sendable x q v.valid fits) v.count v.budget

  push_turn-Batched :
      (m : Message) (r : Result (List ℕ)) (taken : Bool) (q : MessageQueue)
      → max_message_bytes < bytes
      → Batched q []
      → Batched (push_turn cfg m r taken q).pending (push_turn cfg m r taken q).started
  unfolding push_turn
  push_turn-Batched m r taken q h v =
      made-Batched m taken q (make_message m r max_message_bytes)
        (λ x e. omega (arith, short m r x e, h)) v

  flush_turn-Batched :
      (taken : Bool) (q : MessageQueue)
      → Batched q []
      → Batched (flush_turn cfg taken q).pending (flush_turn cfg taken q).started
  unfolding flush_turn flush
  flush_turn-Batched taken q v =
      hand_over-Batched taken (flushing (flush q).0) (flush q).0 q (flush q).1
        (record { valid = flush-IsValid q v.valid; count = v.count; budget = v.budget; each = tt })
        (flush-Sendable q v.valid) v.count v.budget

  turn-IsBatched :
      (s : System) (t : Turn)
      → Batched t.pending t.started
      → IsBatched s
      → IsBatched (takes_turn cfg t s)
  turn-IsBatched s t w v = record {
    valid = w.valid;
    count = w.count;
    budget = w.budget;
    each = All-append Carries t.started s.senders w.each v.each;
  }

  -- What is pending alone.
  idle : (s : System) → IsBatched s → Batched s.pending []
  idle s v = record { valid = v.valid; count = v.count; budget = v.budget; each = tt }

  module _ (h : max_message_bytes < bytes) where
    message-IsBatched :
        (s : System) (r : Result (List ℕ)) (taken : Bool) (x : Receive Message)
        → IsBatched s
        → Always IsBatched (on_message cfg r taken s x)
    message-IsBatched s r taken (received m c) v =
        turn-IsBatched (with_chan cfg c s) (push_turn cfg m r taken s.pending)
          (push_turn-Batched m r taken s.pending h (idle s v)) v
    message-IsBatched s r taken ended v = v
    message-IsBatched s r taken waiting v = tt

    left-IsBatched :
        (s : System) (r : Result (List ℕ)) (taken : Bool) (x : Receive Message)
        → IsBatched s
        → Always IsBatched (on_left cfg r taken s x)
    left-IsBatched s r taken (received m c) v =
        turn-IsBatched (with_chan cfg c s) (push_turn cfg m r taken s.pending)
          (push_turn-Batched m r taken s.pending h (idle s v)) v
    left-IsBatched s r taken ended v =
        turn-IsBatched s (flush_turn cfg taken s.pending)
          (flush_turn-Batched taken s.pending (idle s v)) v
    left-IsBatched s r taken waiting v = tt

    loop_at-IsBatched :
        (p : Stage) (k : Case) (s : System) → IsBatched s → Always IsBatched (loop_at cfg p k s)
    loop_at-IsBatched selecting (message_case r) s v = message-IsBatched s r (admits cfg s) _ v
    loop_at-IsBatched selecting tick_case s v =
        turn-IsBatched s (flush_turn cfg (admits cfg s) s.pending)
          (flush_turn-Batched (admits cfg s) s.pending (idle s v)) v
    loop_at-IsBatched selecting quit_case s v = guarded IsBatched s.lifecycle.quit _ (λ e. v)
    loop_at-IsBatched closing k s v = guarded IsBatched _ _ (λ e. v)
    loop_at-IsBatched draining (message_case r) s v = left-IsBatched s r (admits cfg s) _ v
    loop_at-IsBatched draining tick_case s v = tt
    loop_at-IsBatched draining quit_case s v = tt
    loop_at-IsBatched joining k s v = guarded IsBatched _ _ (λ e. v)
    loop_at-IsBatched returned k s v = tt

    act-Carries :
        (c : Option Reference) (q : Bool) (ch : Choice) (t : Sender) (o : Outcome)
        → Sending.act c q ch t ≡ some o
        → Carries t
        → All Carries (kept o.sender)
    unfolding Sending.act
    act-Carries c q ch t o e v = ground arith

    senders-IsBatched :
        (s : System) (xs ys : List Sender) (t : Sender) (us : List Sender)
        → s.senders ≡ xs ++ t ∷ ys
        → (Carries t → All Carries us)
        → IsBatched s
        → Batched s.pending (xs ++ (us ++ ys))
    senders-IsBatched s xs ys t us split k v =
        let (before, (here, after)) =
          All-parts Carries xs (t ∷ ys) (subst (All Carries) split v.each) in
        record {
          valid = v.valid;
          count = v.count;
          budget = v.budget;
          each = All-append Carries xs (us ++ ys) before (All-append Carries us ys (k here) after);
        }

    Step-IsBatched : {s u : System} → Step cfg s u → IsBatched s → IsBatched u
    unfolding loop_act
    Step-IsBatched (moves (queue_acts xs t ys a split e c)) v = v
    Step-IsBatched {s} (moves (loop_acts k e)) v =
        subst (Always IsBatched) e (loop_at-IsBatched s.stage k s v)
    Step-IsBatched {s} (moves (sender_acts xs t ys ch o split e)) v =
        senders-IsBatched s xs ys t (kept o.sender) split
          (act-Carries cfg.callback s.lifecycle.quit ch t o e) v
    Step-IsBatched (moves (gives_back n e)) v = v
    Step-IsBatched (moves (closer_acts xs t ys d a split e)) v = v
    Step-IsBatched (calls b c) v = v
    Step-IsBatched closes v = v

    Reach-IsBatched : {s u : System} → Reach cfg s u → IsBatched s → IsBatched u
    Reach-IsBatched start v = v
    Reach-IsBatched (next r st) v = Step-IsBatched st (Reach-IsBatched r v)

module _ (cfg : Settings) (opts : List ChannelOption) (sent_at : List ℕ) where
  -- However the goroutines of a client that `NewWithConfig` made interleave, when `BatchSize` is not zero
  -- and the budget of a batch has room for the largest message: the pending batch keeps below both
  -- limits, with its byte counter exact, and each batch that a goroutine has to send has a message at
  -- least, `BatchSize` messages at most, and keeps within the budget.
  pub reached-Batched :
      {s : System}
      → Reach cfg (new_system cfg opts sent_at) s
      → 0 < cfg.batch_size
      → max_message_bytes < max_batch_bytes_at sent_at
      → Batched cfg (max_batch_bytes_at sent_at) s.pending s.senders
  reached-Batched r n h = Reach-IsBatched cfg (max_batch_bytes_at sent_at) h r (record {
    valid = room-IsValid cfg.batch_size (max_batch_bytes_at sent_at) n;
    count = refl;
    budget = refl;
    each = tt;
  })
