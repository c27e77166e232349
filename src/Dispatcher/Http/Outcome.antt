-- ===== src/Dispatcher/Http/Outcome.antt =====
-- The outcome of a send of the HTTP dispatcher (internal/dispatcher/http.go): when it succeeds, and
-- what it logs.
use origamy_go_sdk.Base.{
  inl, inr, ◌≡◌, refl, ◌≢◌, ◌↔◌, ◌<◌, none, some, List, arith, length, Option-cases, if◌then◌else◌,
}
use origamy_go_sdk.Base.{ℕ}
use Prim.Native.String.{◌++◌ as ◌<>◌}
use origamy_go_sdk.Data.{Reference, Result, ok, err}
use origamy_go_sdk.Dispatcher.Http.{
  HttpDispatcher, Network, Response, send, request, responded, handle_response,
}

handle_response-succeeds :
    (d : HttpDispatcher) (res : Response)
    → ((handle_response d res).error ≡ none) ↔ (res.status_code < 300)
unfolding handle_response
handle_response-succeeds d res = (λ h. ground arith, λ h. ground arith)

module _ (d : HttpDispatcher) (net : Network) (payload : List ℕ) where
  -- The server accepted the request that the dispatcher makes of the payload.
  abbrev pub Accepted : Type 0
  Accepted =
      (net.parse (d.config.endpoint <> "/v1/batch") ≡ none)
      × ((res : Response) × (net.respond (request d payload) ≡ ok res) × (res.status_code < 300))

  send-Accepted : (send d net payload).error ≡ none → Accepted
  unfolding send responded
  send-Accepted h = elim (Option-cases (net.parse (d.config.endpoint <> "/v1/batch"))) [
    | inr (e, p) ↦ absurd (ground (arith, p))
    | inl p ↦ answered p (net.respond (request d payload)) refl
  ]
    where
      answered :
          net.parse (d.config.endpoint <> "/v1/batch") ≡ none
          → (r : Result Response) → net.respond (request d payload) ≡ r
          → Accepted
      answered p (err e) q = absurd (ground (arith, p, q))
      answered p (ok res) q =
          (p, (res, q, (handle_response-succeeds d res).0 (ground (arith, p, q))))

  Accepted-send : Accepted → (send d net payload).error ≡ none
  unfolding send responded
  Accepted-send (p, (res, q, s)) = ground (arith, p, q, (handle_response-succeeds d res).1 s)

  -- `Send` returns nil exactly when the URL parses, the request is answered, and the status of the
  -- answer is below 300.
  pub send_succeeds : ((send d net payload).error ≡ none) ↔ Accepted
  send_succeeds = (send-Accepted, Accepted-send)

  -- With a logger, `Send` logs one line for each failure; a success is logged if `Verbose` is set
  -- and in silence otherwise.
  pub send_logs :
      (logger : Reference)
      → d.config.logger ≡ some logger
      → ((send d net payload).error ≢ none → length (send d net payload).log ≡ 1)
        × ((send d net payload).error ≡ none
            → length (send d net payload).log ≡ (if d.config.verbose then 1 else 0))
  unfolding send responded handle_response
  send_logs logger h = ground arith
