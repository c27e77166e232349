-- ===== src/Dispatcher/Http.antt =====
-- internal/dispatcher/http.go and timeout_16.go: the HTTP dispatcher. What net/http does with a
-- request is an argument, `Network`.
pub mod Outcome
mod Tests
use Prim.Native.String.{◌++◌ as ◌<>◌}
use origamy_go_sdk.Base.{
  ℕ, Bool, true, false, ◌&&◌, String, Option, none, some, List, [], ◌∷◌, ◌++◌, length, ltb,
  is_empty, if◌then◌else◌,
}
use origamy_go_sdk.Data.{
  Duration, Reference, default_transport, Error, status, Result, ok, err, seconds,
}
use origamy_go_sdk.Log.{LogEntry, info, error, text, number, bytes, failure}
use origamy_go_sdk.Dispatcher

pub record HttpDispatcher : Type 0 where
  pub config : Dispatcher.Config
  pub transport : Option Reference
  pub timeout : Duration

abbrev pub HttpOption : Type 0
HttpOption = HttpDispatcher → HttpDispatcher

-- Go 1.6 and later.
abbrev supports_timeout : Option Reference → Bool
supports_timeout transport = true

unfoldable pub with_transport : Option Reference → HttpOption
with_transport transport d =
    let d' = record d { transport = transport } in
    if supports_timeout transport then record d' { timeout = seconds 10 } else d'

unfoldable pub with_timeout : Duration → HttpOption
with_timeout timeout d = record d { timeout = timeout }

unfoldable pub apply_options : List HttpOption → HttpDispatcher → HttpDispatcher
apply_options [] d = d
apply_options (opt ∷ opts) d = apply_options opts (opt d)

unfoldable pub new_http_dispatcher : Dispatcher.Config → List HttpOption → HttpDispatcher
unfolding apply_options
new_http_dispatcher config opts =
    apply_options opts
      (record { config = config; transport = some default_transport; timeout = seconds 10 })

-- `Close` has nothing to release.
unfoldable pub close : HttpDispatcher → Option Error
close d = none

-- A request as `http.NewRequest` and the calls on its header make it. `content_length` is the length
-- that `strconv.Itoa` prints.
pub record Request : Type 0 where
  pub method : String
  pub url : String
  pub body : List ℕ
  pub user_agent : String
  pub content_type : String
  pub content_length : ℕ
  pub user : String
  pub password : String

-- `body` is what `io.ReadAll` makes of the body.
pub record Response : Type 0 where
  pub status_code : ℕ
  pub status : String
  pub body : Result (List ℕ)

-- net/http: the error of `http.NewRequest` for a URL, if any, and what `client.Do` returns.
pub record Network : Type 0 where
  pub parse : String → Option Error
  pub respond : Request → Result Response

-- A call returns its error, nil or not, and what it has logged, oldest first.
pub record Sent : Type 0 where
  pub error : Option Error
  pub log : List LogEntry

module _ (d : HttpDispatcher) where
  abbrev logged : Option Reference → LogEntry → List LogEntry
  logged none e = []
  logged (some l) e = e ∷ []

  abbrev debugf : LogEntry → List LogEntry
  debugf e = if d.config.verbose then logged d.config.logger e else []

  abbrev logf : LogEntry → List LogEntry
  logf e = logged d.config.logger e

  -- The error of `fmt.Errorf("%d %s", …)` keeps the code and the status text.
  abbrev body_read : Response → Result (List ℕ) → Sent
  body_read res (err e) = record {
    error = some e;
    log = logf (record {
      level = error;
      format = "response %d %s - %s";
      args = number res.status_code ∷ text res.status ∷ failure e ∷ [];
    });
  }
  body_read res (ok body) = record {
    error = some (status res.status_code res.status);
    log = logf (record {
      level = info;
      format = "response %d %s – %s";
      args = number res.status_code ∷ text res.status ∷ bytes body ∷ [];
    });
  }

  unfoldable pub handle_response : Response → Sent
  handle_response res =
      if ltb res.status_code 300
      then record {
        error = none;
        log = debugf (record { level = info; format = "response %s"; args = text res.status ∷ [] });
      }
      else body_read res res.body

  unfoldable pub request : List ℕ → Request
  request payload = record {
    method = "POST";
    url = d.config.endpoint <> "/v1/batch";
    body = payload;
    user_agent =
        "origamy-go (version: "
        <> (if is_empty d.config.version then "3.0.0" else d.config.version)
        <> ")";
    content_type = "application/json";
    content_length = length payload;
    user = d.config.write_key;
    password = "";
  }

  unfoldable pub responded : Result Response → Sent
  responded (err e) = record {
    error = some e;
    log = logf (record { level = error; format = "sending request - %s"; args = failure e ∷ [] });
  }
  responded (ok res) = handle_response res

  abbrev created : Network → List ℕ → Option Error → Sent
  created net payload (some e) = record {
    error = some e;
    log = logf (record { level = error; format = "creating request - %s"; args = failure e ∷ [] });
  }
  created net payload none = responded (net.respond (request payload))

  unfoldable pub send : Network → List ℕ → Sent
  send net payload = created net payload (net.parse (d.config.endpoint <> "/v1/batch"))
