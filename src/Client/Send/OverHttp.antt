-- ===== src/Client/Send/OverHttp.antt =====
-- `client.send` of internal/core/analytics.go over the dispatcher of internal/dispatcher/http.go: what the
-- servers' answers come to for the messages of a batch.
use origamy_go_sdk.Base.{
  ℕ, suc, ◌≡◌, ◌⊎◌, ◌<◌, refl, Option, none, some, inl, inr, List, arith, replicate,
}
use origamy_go_sdk.Data.{Reference, Error, ok}
use origamy_go_sdk.Batch.{Serialized}
use origamy_go_sdk.Dispatcher.Http
use origamy_go_sdk.Dispatcher.Http.{HttpDispatcher, Network}
use origamy_go_sdk.Dispatcher.Http.Outcome.{Accepted, send_succeeds}
use origamy_go_sdk.Client.Send.{
  Reply, accepted, refused, crashed, Wake, timer, quit, Delivery, attempts, send,
}
use origamy_go_sdk.Client.Send.Told.{
  Fate, delivered, dropped, lost, Decides, dispatched, notes, told,
}
use origamy_go_sdk.Client.Send.Attempts.{send-attempts}

-- What `dispatcher.Send` returns to the client.
abbrev pub reply_of : Option Error → Reply
reply_of none = accepted
reply_of (some e) = refused e

module _ (d : HttpDispatcher) (net : ℕ → Network) (wake : ℕ → Wake) (b : List ℕ) where
  -- A batch of the payload `b` in a world where attempt number `n` meets the network `net n`.
  abbrev pub over_http : Delivery
  over_http = record {
    payload = ok b;
    reply = λ n. reply_of (Http.send d (net n) b).error;
    wake = wake;
  }

  abbrev pub Takes : ℕ → Type 0
  Takes n = Accepted d (net n) b

  reply-accepted : (r : Option Error) → reply_of r ≡ accepted → r ≡ none
  reply-accepted r h = ground arith

  reply-refused : (r : Option Error) (e : Error) → reply_of r ≡ refused e → r ≡ some e
  reply-refused r e h = ground arith

  never_crashes : (r : Option Error) → ¬ (reply_of r ≡ crashed)
  never_crashes r h = ground arith

  refused_fails :
      (n : ℕ) (e : Error) → reply_of (Http.send d (net n) b).error ≡ refused e → ¬ Takes n
  refused_fails n e h t = absurd (
      ground
        (arith, reply-refused (Http.send d (net n) b).error e h, (send_succeeds d (net n) b).1 t))

  module _ (c : Option Reference) (msgs : List Serialized) where
    -- The end of a batch at attempt number `n`.
    abbrev pub Ended : ℕ → Type 0
    Ended n =
        (Takes n × (notes (send c over_http msgs) ≡ told c delivered msgs))
        ⊎ ((e : Error) × (¬ Takes n)
            × ((wake n ≡ quit) ⊎ (suc n ≡ attempts))
            × (notes (send c over_http msgs) ≡ told c (dropped e) msgs))

    fate-Ended :
        (n : ℕ) (fate : Fate)
        → Decides over_http n fate
        → notes (send c over_http msgs) ≡ told c fate msgs
        → Ended n
    fate-Ended n delivered h t =
        inl ((send_succeeds d (net n) b).0 (reply-accepted (Http.send d (net n) b).error h), t)
    fate-Ended n (dropped e) h t = inr (e, refused_fails n e h.0, h.1, t)
    fate-Ended n lost h t = absurd (never_crashes (Http.send d (net n) b).error h)

    -- A batch with the HTTP dispatcher comes to its end at one of ten attempts: every attempt before it has
    -- not been answered with a status below 300, and the wait after it ran out. If that attempt has, the
    -- callback is told `Success` of each message, in order; if not, the client was closed in the wait
    -- after it or it was the tenth, and the callback is told `Failure` of each. Each attempt sends the
    -- same payload.
    pub http_send :
        (n : ℕ) × (n < attempts)
        × ((j : ℕ) → j < n → (¬ Takes j) × (wake j ≡ timer))
        × (dispatched (send c over_http msgs) ≡ replicate (suc n) b)
        × Ended n
    http_send =
        let (n, fate, few, before, decides, sent, noted) = send-attempts c over_http b msgs refl in
        (
          n,
          few,
          λ j h. let ((e, r), t) = before j h in (refused_fails j e r, t),
          sent,
          fate-Ended n fate decides noted,
        )
