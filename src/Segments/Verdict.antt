-- ===== src/Segments/Verdict.antt =====
-- What an attempt of `post` (segments.go) settles, and which attempt ends a call.
use origamy_go_sdk.Base.{ℕ, ◌+◌, ◌<◌, ◌≡◌, true, false, Option, none, some, List, [], ◌∷◌}
use origamy_go_sdk.Base.Int.{ℤ}
use origamy_go_sdk.Data.{Error, joined, Result, ok, err}
use origamy_go_sdk.Segments.{SegmentMembersResult, SegmentsClient}
use origamy_go_sdk.Segments.Post.{
  Request, Response, Codec, Network, Reading, done, failed, Effect, requests, waits, max_attempts,
  read_segment_response,
}

abbrev pub requested : List Effect → List Request
requested [] = []
requested (requests r ∷ es) = r ∷ requested es
requested (waits d ∷ es) = requested es

-- What one attempt settles: the answer of the call, or an error after which it may be made again.
pub data Verdict : Type 0 where
  final : Result SegmentMembersResult → Verdict
  again : Error → Verdict

abbrev pub of_reading : Reading → Verdict
of_reading (done result) = final (ok result)
of_reading (failed true e) = again e
of_reading (failed false e) = final (err e)

abbrev pub of_failure : Error → Option Error → Verdict
of_failure e none = again e
of_failure e (some ctx) = final (err e)

module _ (codec : Codec) (net : Network) (c : SegmentsClient) (segment_id : ℤ) where
  abbrev pub of_answer : ℕ → Result Response → Verdict
  of_answer i (ok res) = of_reading (read_segment_response codec res)
  of_answer i (err e) = of_failure e (net.context_error i)

  -- A response other than 200 is final, but for 429, 502, 503 and 504 and one whose body does not come
  -- through; a failed request is final if the context has ended.
  abbrev pub verdict : ℕ → Verdict
  verdict i = of_answer i (net.answer i)

  -- The call comes to attempt `n`: the earlier ones may be made again, and their waits have ended.
  abbrev pub Reaches : ℕ → Type 0
  Reaches n = (i : ℕ) → i < n → ((e : Error) × (verdict i ≡ again e)) × (net.interrupted i ≡ none)

  -- Attempt `n` ends the call with this answer.
  pub data Decides (n : ℕ) : Result SegmentMembersResult → Type 0 where
    settled : {a : Result SegmentMembersResult} → verdict n ≡ final a → Decides n a
    exhausted : {e : Error} → verdict n ≡ again e → n + 1 ≡ max_attempts → Decides n (err e)
    stopped :
        {e ctx : Error}
        → verdict n ≡ again e
        → n + 1 < max_attempts
        → net.interrupted n ≡ some ctx
        → Decides n (err (joined e ctx))
