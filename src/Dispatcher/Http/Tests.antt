-- ===== src/Dispatcher/Http/Tests.antt =====
-- Tests of the HTTP dispatcher (internal/dispatcher/http.go), and its theorems at a concrete request.
use origamy_go_sdk.Base.{
  ℕ, zero, suc, ◌<◌, List, replicate, ◌≡◌, refl, ◌↔◌, ◌≢◌, false, none, some, [], ◌∷◌, length,
}
use origamy_go_sdk.Data.{object, default_transport, ok, seconds}
use origamy_go_sdk.Samples.{bought}
use origamy_go_sdk.Batch.{Serialized}
use origamy_go_sdk.Client.Send
use origamy_go_sdk.Client.Send.{timer, attempts}
use origamy_go_sdk.Client.Send.Told.{dispatched}
use origamy_go_sdk.Client.Send.OverHttp.{Takes, over_http, Ended, http_send}
use origamy_go_sdk.Dispatcher
use origamy_go_sdk.Dispatcher.Http.{
  HttpDispatcher, Network, send, new_http_dispatcher, with_transport, with_timeout,
}
use origamy_go_sdk.Dispatcher.Http.Outcome.{Accepted, send_succeeds, send_logs}

abbrev config : Dispatcher.Config
config = record {
  endpoint = "https://events.origamy.io";
  write_key = "wk";
  version = "";
  verbose = false;
  logger = some (object 1);
}

abbrev plain : HttpDispatcher
plain = record { config = config; transport = some default_transport; timeout = seconds 10 }

-- A server that is too busy.
abbrev busy : Network
busy = record {
  parse = λ url. none;
  respond =
      λ req. ok (record { status_code = 429; status = "429 Too Many Requests"; body = ok [] });
}

options_in_order :
    (new_http_dispatcher config
      (with_timeout (seconds 3) ∷ with_transport (some (object 2)) ∷ [])).timeout
    ≡ seconds 10
unfolding new_http_dispatcher with_timeout with_transport
options_in_order = refl

send_succeeds_example : ((send plain busy []).error ≡ none) ↔ Accepted plain busy []
send_succeeds_example = send_succeeds plain busy []

busy_is_logged :
    ((send plain busy []).error ≢ none → length (send plain busy []).log ≡ 1)
    × ((send plain busy []).error ≡ none → length (send plain busy []).log ≡ 0)
busy_is_logged = send_logs plain busy [] (object 1) refl

-- The first attempt finds the server busy, and each later one does not.
abbrev recovers : ℕ → Network
recovers n = elim n [
  | zero ↦ busy
  | suc k ↦ record busy {
    respond = λ req. ok (record { status_code = 200; status = "200 OK"; body = ok [] });
  }
]

abbrev batch : List Serialized
batch = record { msg = bought; json = [] } ∷ []

http_send_example :
    (n : ℕ) × (n < attempts)
    × ((j : ℕ) → j < n → (¬ Takes plain recovers (λ i. timer) [] j) × (timer ≡ timer))
    × (dispatched (Send.send (some (object 0)) (over_http plain recovers (λ i. timer) []) batch)
        ≡ replicate (suc n) [])
    × Ended plain recovers (λ i. timer) [] (some (object 0)) batch n
http_send_example = http_send plain recovers (λ i. timer) [] (some (object 0)) batch
