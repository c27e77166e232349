-- ===== src/Segments/Post.antt =====
-- One request of segments.go: `post` with its retries, `readSegmentResponse` and `retryAfterHeader`.
-- What encoding/json, net/http and the context answer is an argument.
use Prim.Native.String.{◌++◌ as ◌<>◌}
use origamy_go_sdk.Base.{
  ℕ, zero, suc, ◌+◌, ◌-◌, ◌*◌, ◌%◌, ◌^◌, Bool, true, false, not, ◌||◌, String, Option, none, some,
  List, [], ◌∷◌, length, take, ltb, leb, ◌==◌, is_empty, if◌then◌else◌,
}
use origamy_go_sdk.Base.Int.{ℤ, pos, negsuc, is_zero}
use origamy_go_sdk.Data.{
  Duration, Reference, second_shifted, Error, segment_error, decoding, joined, Result, ok, err,
}
use origamy_go_sdk.Config.{version}
use origamy_go_sdk.Segments.{SegmentMembersRequest, SegmentMembersResult, SegmentsClient}
use origamy_go_sdk.Segments.Text.{trim_space, format_int, atoi}

-- A request as `NewRequestWithContext` and the calls on its header make it.
pub record Request : Type 0 where
  pub method : String
  pub url : String
  pub body : List ℕ
  pub user_agent : String
  pub content_type : String
  pub user : String
  pub password : String

-- A body yields its bytes and then ends, or fails.
pub record Body : Type 0 where
  pub bytes : List ℕ
  pub failure : Option Error

-- `retry_after` is the header of that name.
pub record Response : Type 0 where
  pub status_code : ℕ
  pub retry_after : String
  pub body : Body

-- encoding/json on the types of this file, the text of bytes, and `http.StatusText`. A decoded error
-- payload is its `error` and its `code`.
pub record Codec : Type 0 where
  pub marshal : SegmentMembersRequest → Result (List ℕ)
  pub decode_result : List ℕ → Result SegmentMembersResult
  pub decode_error : List ℕ → Result (String × String)
  pub text_of : List ℕ → String
  pub status_text : ℕ → String

-- What one call of `post` meets: the error of making a request for a URL; what `Do` returns at each
-- attempt; `ctx.Err()` when `Do` has failed; the error of the context if the wait after an attempt
-- ends by it; and what a function of the application says to wait.
pub record Network : Type 0 where
  pub create : String → Option Error
  pub answer : ℕ → Result Response
  pub context_error : ℕ → Option Error
  pub interrupted : ℕ → Option Error
  pub backoff : Reference → ℕ → Duration

-- `result` is nil exactly where there is an error; `failed` has `retry` and the error.
pub data Reading : Type 0 where
  done : SegmentMembersResult → Reading
  failed : Bool → Error → Reading

-- A request is sent, or the client waits.
pub data Effect : Type 0 where
  requests : Request → Effect
  waits : Duration → Effect

pub record Posted : Type 0 where
  pub effects : List Effect
  pub answer : Result SegmentMembersResult

abbrev pub max_attempts : ℕ
max_attempts = 3

-- `io.ReadAll(io.LimitReader(body, 1<<20))`: behind the limit nothing is read.
abbrev read_limited : ℕ → Body → Result (List ℕ)
read_limited limit body =
    if leb limit (length body.bytes)
    then ok (take limit body.bytes)
    else ended body.bytes body.failure
  where
    ended : List ℕ → Option Error → Result (List ℕ)
    ended bytes none = ok bytes
    ended bytes (some e) = err e

-- The int64 with these low 64 bits.
abbrev pub int64 : ℕ → ℤ
int64 n = let m = n % 2 ^ 64 in if ltb m (2 ^ 63) then pos m else negsuc (2 ^ 64 - 1 - m)

abbrev pub in_nanoseconds : Option ℤ → Duration
in_nanoseconds none = pos 0
in_nanoseconds (some (negsuc n)) = pos 0
in_nanoseconds (some (pos n)) = if n == 0 then pos 0 else int64 (n * 1000000000)

unfoldable pub retry_after_header : String → Duration
retry_after_header v = in_nanoseconds (atoi (trim_space v))

abbrev pub is_retryable : ℕ → Bool
is_retryable code = (code == 429) || (code == 502) || (code == 503) || (code == 504)

module _ (codec : Codec) where
  -- The message of an answer that is no error payload: its body, or the text of its status.
  abbrev plain : ℕ → List ℕ → Error
  plain status body =
      let message = trim_space (codec.text_of body) in
      segment_error (record {
        status_code = status;
        code = "";
        message = if is_empty message then codec.status_text status else message;
      })

  abbrev refusal : ℕ → List ℕ → Result (String × String) → Error
  refusal status body (err e) = plain status body
  refusal status body (ok payload) =
      if is_empty payload.0
      then plain status body
      else segment_error (record { status_code = status; code = payload.1; message = payload.0 })

  abbrev decoded : Result SegmentMembersResult → Reading
  decoded (ok result) = done result
  decoded (err e) = failed false (decoding e)

  abbrev body_read : ℕ → Result (List ℕ) → Reading
  body_read status (err e) = failed true e
  body_read status (ok body) =
      if status == 200
      then decoded (codec.decode_result body)
      else failed (is_retryable status) (refusal status body (codec.decode_error body))

  unfoldable pub read_segment_response : Response → Reading
  read_segment_response res = body_read res.status_code (read_limited (2 ^ 20) res.body)

module _ (codec : Codec) (net : Network) (c : SegmentsClient) (segment_id : ℤ) where
  abbrev pub url : String
  url = c.endpoint <> "/v1/segments/" <> format_int segment_id <> "/members"

  unfoldable pub request : List ℕ → Request
  request payload = record {
    method = "POST";
    url = url;
    body = payload;
    user_agent = "origamy-go (version: " <> version <> ")";
    content_type = "application/json";
    user = c.key;
    password = "";
  }

  abbrev pub finish : Result SegmentMembersResult → Option Posted
  finish answer = some (record { effects = []; answer = answer })

  abbrev pub prepend : Effect → Option Posted → Option Posted
  prepend e none = none
  prepend e (some p) = some (record p { effects = e ∷ p.effects })

  -- `c.retryAfter(attempt)`; the default is `time.Second << attempt`.
  abbrev pub backoff : Reference → ℕ → Duration
  backoff second_shifted attempt = int64 (1000000000 * 2 ^ attempt)
  backoff f attempt = net.backoff f attempt

  abbrev pub delay : Duration → ℕ → Duration
  delay wait attempt = if is_zero wait then backoff c.retry_after attempt else wait

  abbrev woken : Error → Option Posted → Option Error → Option Posted
  woken e rest none = rest
  woken e rest (some ctx_err) = finish (err (joined e ctx_err))

  -- The wait after an attempt that failed with `e`; `rest` are the further attempts.
  unfoldable pub wait_for : Error → Duration → ℕ → Option Posted → Option Posted
  wait_for e wait attempt rest =
      prepend (waits (delay wait attempt)) (woken e rest (net.interrupted attempt))

  abbrev is_some : Option Error → Bool
  is_some none = false
  is_some (some e) = true

  unfoldable pub after_reading : Response → ℕ → Option Posted → Reading → Option Posted
  unfolding wait_for
  after_reading res attempt rest (done result) = finish (ok result)
  after_reading res attempt rest (failed retry e) =
      if not retry || leb max_attempts (attempt + 1)
      then finish (err e)
      else wait_for e (retry_after_header res.retry_after) attempt rest

  unfoldable pub after_do : ℕ → Option Posted → Result Response → Option Posted
  unfolding after_reading
  after_do attempt rest (ok res) = after_reading res attempt rest (read_segment_response codec res)
  after_do attempt rest (err e) =
      if is_some (net.context_error attempt) || leb max_attempts (attempt + 1)
      then finish (err e)
      else wait_for e (pos 0) attempt rest

  abbrev pub created : List ℕ → ℕ → Option Posted → Option Error → Option Posted
  created payload attempt rest (some e) = finish (err e)
  created payload attempt rest none =
      prepend (requests (request payload)) (after_do attempt rest (net.answer attempt))

  -- The loop from `attempt` on, on fuel: `none` is a loop that has not ended.
  unfoldable pub post_from : ℕ → List ℕ → ℕ → Option Posted
  post_from zero payload attempt = none
  post_from (suc f) payload attempt =
      created payload attempt (post_from f payload (attempt + 1)) (net.create url)

  abbrev marshalled : Result (List ℕ) → Option Posted
  marshalled (err e) = finish (err e)
  marshalled (ok payload) = post_from max_attempts payload 0

  unfoldable pub post : SegmentMembersRequest → Option Posted
  unfolding post_from
  post body = marshalled (codec.marshal body)
