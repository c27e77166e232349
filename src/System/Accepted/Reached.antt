-- ===== src/System/Accepted/Reached.antt =====
-- What the calls on the client as a whole (internal/core/analytics.go) have returned, in every state that its
-- goroutines reach.
use origamy_go_sdk.Base.{ℕ, ◌+◌, ◌≡◌, refl, subst, ap, String, true, some, List, ◌∷◌, ◌++◌, arith}
use origamy_go_sdk.Data.{Error, queue_closed, closed}
use origamy_go_sdk.Data.{Result, Time}
use origamy_go_sdk.Message.{Message}
use origamy_go_sdk.Message.Context.{Context}
use origamy_go_sdk.Queue
use origamy_go_sdk.Queue.{ChannelOption, Call, returns, Receive, received, ended, waiting, receive}
use origamy_go_sdk.Queue.Race
use origamy_go_sdk.Queue.Race.{
  Thread, enqueue_load, enqueue_send, enqueue_return, try_return, close_enter, receive_from, Begins,
  enqueue_begins, try_begins, close_begins, receive_begins,
}
use origamy_go_sdk.Queue.Race.Invariant.{tally, tally-split}
use origamy_go_sdk.Queue.Race.History.{sent_by}
use origamy_go_sdk.Queue.Interface.{channel_queue}
use origamy_go_sdk.Client.Enqueue.{queued}
use origamy_go_sdk.Client.Loop.{Settings}
use origamy_go_sdk.System.{
  Stage, selecting, closing, draining, joining, returned, System, IsCall, Case, message_case,
  tick_case, quit_case, on_message, on_left, admits, loop_at, loop_act, queue_acts, loop_acts,
  sender_acts, closer_acts, gives_back, Step, moves, calls, closes, Reach, start, next, new_system,
}
use origamy_go_sdk.System.Weights.{weigh-append}
use origamy_go_sdk.System.Invariant.{Always, guarded, IsOrdered}
use origamy_go_sdk.System.Invariant.Steps.{Step-IsOrdered, new-IsOrdered}
use origamy_go_sdk.System.Accepted.{
  accepted, denied, oddly, receiving, IsAccounted, act-accepted, act-denied, act-oddly,
  act-receiving, starts_plainly, even,
}

module _ (cfg : Settings) (f : Message → ℕ) where
  queue_acts-IsAccounted :
      (s : System) (xs ys : List (Thread Message)) (t : Thread Message) (a : Race.Action Message)
      → s.race.threads ≡ xs ++ t ∷ ys
      → Race.act s.race.queue t ≡ some a
      → IsCall t
      → IsOrdered s
      → IsAccounted f s
      → IsAccounted f (record s {
        race = record { queue = a.queue; threads = xs ++ a.thread ∷ ys };
        taken = s.taken ++ sent_by a.event;
      })
  queue_acts-IsAccounted s xs ys t a split e c v w = record {
    nils = omega (
      arith,
      w.nils,
      ap (tally (accepted f)) split,
      tally-split (accepted f) xs t ys,
      tally-split (accepted f) xs a.thread ys,
      act-accepted f s.race.queue t a e,
      weigh-append f s.taken (sent_by a.event),
    );
    errors = λ h.
        act-denied s.race.queue t a (tally denied xs + tally denied ys) v.sound.flag
          (λ k. w.errors (omega (arith, k, ap (tally denied) split, tally-split denied xs t ys))) e
          (omega (arith, h, tally-split denied xs a.thread ys));
    named = omega (
      arith,
      w.named,
      ap (tally oddly) split,
      tally-split oddly xs t ys,
      tally-split oddly xs a.thread ys,
      act-oddly s.race.queue t a
          (omega (arith, w.named, ap (tally oddly) split, tally-split oddly xs t ys)) e,
    );
    calls_only = omega (
      arith,
      w.calls_only,
      ap (tally receiving) split,
      tally-split receiving xs t ys,
      tally-split receiving xs a.thread ys,
      act-receiving s.race.queue t a c e,
    );
  }

  Begins-IsAccounted :
      (s : System) (t : Thread Message)
      → Begins t
      → IsCall t
      → IsAccounted f s
      → IsAccounted f (record s { race = record s.race { threads = t ∷ s.race.threads } })
  Begins-IsAccounted s t b c v =
      let (a, d, o, n) = starts_plainly f t b c in
      record {
        nils = omega (arith, a, v.nils);
        errors = λ h. v.errors (omega (arith, h, d));
        named = omega (arith, o, v.named);
        calls_only = omega (arith, n, v.calls_only);
      }

  message-IsAccounted :
      (s : System) (r : Result (List ℕ)) (x : Receive Message)
      → IsAccounted f s
      → Always (IsAccounted f) (on_message cfg r (admits cfg s) s x)
  message-IsAccounted s r (received m c) v = v
  message-IsAccounted s r ended v = v
  message-IsAccounted s r waiting v = tt

  left-IsAccounted :
      (s : System) (r : Result (List ℕ)) (x : Receive Message)
      → IsAccounted f s
      → Always (IsAccounted f) (on_left cfg r (admits cfg s) s x)
  left-IsAccounted s r (received m c) v = v
  left-IsAccounted s r ended v = v
  left-IsAccounted s r waiting v = tt

  loop_at-IsAccounted :
      (p : Stage) (k : Case) (s : System)
      → IsAccounted f s
      → Always (IsAccounted f) (loop_at cfg p k s)
  loop_at-IsAccounted selecting (message_case r) s v = message-IsAccounted s r _ v
  loop_at-IsAccounted selecting tick_case s v = v
  loop_at-IsAccounted selecting quit_case s v =
      guarded (IsAccounted f) s.lifecycle.quit _
        (λ h. Begins-IsAccounted s close_enter close_begins tt v)
  loop_at-IsAccounted closing k s v = guarded (IsAccounted f) _ _ (λ h. v)
  loop_at-IsAccounted draining (message_case r) s v = left-IsAccounted s r _ v
  loop_at-IsAccounted draining tick_case s v = tt
  loop_at-IsAccounted draining quit_case s v = tt
  loop_at-IsAccounted joining k s v = guarded (IsAccounted f) _ _ (λ h. v)
  loop_at-IsAccounted returned k s v = tt

  Step-IsAccounted : {s u : System} → Step cfg s u → IsOrdered s → IsAccounted f s → IsAccounted f u
  unfolding loop_act
  Step-IsAccounted {s} (moves (queue_acts xs t ys a split e c)) w v =
      queue_acts-IsAccounted s xs ys t a split e c w v
  Step-IsAccounted {s} (moves (loop_acts k e)) w v =
      subst (Always (IsAccounted f)) e (loop_at-IsAccounted s.stage k s v)
  Step-IsAccounted (moves (sender_acts xs t ys ch o split e)) w v = v
  Step-IsAccounted (moves (gives_back n e)) w v = v
  Step-IsAccounted (moves (closer_acts xs t ys d a split e)) w v = v
  Step-IsAccounted {s} (calls b c) w v = Begins-IsAccounted s _ b c v
  Step-IsAccounted closes w v = v

  Reach-IsAccounted :
      {s u : System} → Reach cfg s u → IsOrdered s × IsAccounted f s → IsOrdered u × IsAccounted f u
  Reach-IsAccounted start v = v
  Reach-IsAccounted (next r st) v =
      let (w, a) = Reach-IsAccounted r v in (Step-IsOrdered cfg st w, Step-IsAccounted st w a)

  pub reached-IsAccounted :
      (opts : List ChannelOption) (sent_at : List ℕ) {s : System}
      → Reach cfg (new_system cfg opts sent_at) s
      → IsAccounted f s
  reached-IsAccounted opts sent_at r =
      (Reach-IsAccounted r (
        new-IsOrdered cfg opts sent_at,
        record { nils = refl; errors = λ h. ground (arith, h); named = refl; calls_only = refl },
      )).1

module _ (cfg : Settings) where
  -- However the goroutines of a client that `NewWithConfig` made interleave, an `Enqueue` of the queue that
  -- has returned an error has returned `ErrQueueClosed`, the queue is closed, and what `Enqueue` of the
  -- client makes of that result there is `ErrClosed`.
  pub failed_enqueue :
      (opts : List ChannelOption) (sent_at : List ℕ) (id : String) (ts : Time) (ctx : Context)
      (m : Message) (e : Error) (before after : List (Thread Message)) {s : System}
      → Reach cfg (new_system cfg opts sent_at) s
      → s.race.threads ≡ before ++ enqueue_return m (some e) ∷ after
      → (e ≡ queue_closed)
        × (s.race.queue.closed ≡ true)
        × (queued (channel_queue Message) id ts ctx (returns s.race.queue (some e))
            ≡ returns s.race.queue (some closed))
  unfolding Queue.is_closed
  failed_enqueue opts sent_at id ts ctx m e xs ys {s} r split =
      let v = reached-IsAccounted cfg (λ m. 0) opts sent_at r in
      let shut = v.errors (
        omega
          (arith, ap (tally denied) split, tally-split denied xs (enqueue_return m (some e)) ys)) in
      (
        even m e (
            omega (
              arith,
              v.named,
              ap (tally oddly) split,
              tally-split oddly xs (enqueue_return m (some e)) ys,
            )),
        shut,
        rw shut refl,
      )
