-- ===== src/Segments/Wait.antt =====
-- How long `retryAfterHeader` of segments.go tells the client to wait.
use origamy_go_sdk.Base.{ℕ, ◌≤◌, ◌<◌, ◌≡◌, ◌↔◌, String, some, arith}
use origamy_go_sdk.Base.Int.{pos}
use origamy_go_sdk.Data.{seconds}
use origamy_go_sdk.Segments.Text.{atoi, trim_space}
use origamy_go_sdk.Segments.Post.{retry_after_header}

-- A `Retry-After` header of a positive number of seconds, which Atoi reads as an int64, is taken for
-- that many seconds exactly when they are at most 9223372036: more overflow a `time.Duration`.
pub retry_after_header_exact :
    (v : String) (n : ℕ)
    → atoi (trim_space v) ≡ some (pos n)
    → 0 < n
    → (retry_after_header v ≡ seconds n) ↔ (n ≤ 9223372036)
unfolding retry_after_header
retry_after_header_exact v n e h = rw e (ground arith)
