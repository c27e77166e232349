-- ===== src/Segments/Tests.antt =====
-- Tests of the segments client (segments.go), and its theorems at concrete requests.
use origamy_go_sdk.Base.{
  ℕ, suc, ◌%◌, ◌^◌, ◌≡◌, refl, ap, subst, ◌≤◌, ◌<◌, ◌↔◌, true, false, none, some, List, [], ◌∷◌,
  ◌++◌, map, arith, concat, length, replicate, All, ◌==◌, if◌then◌else◌,
}
use origamy_go_sdk.Base.Int.{ℤ, pos, negsuc}
use origamy_go_sdk.Data.{other, Result, ok, err, seconds}
use origamy_go_sdk.Sdk.{with_endpoint}
use origamy_go_sdk.Segments.{
  rows, SegmentMember, SegmentMembersRequest, SegmentMembersResult, SegmentsClient,
  RejectedSegmentMember, Written, new_segments, request, write, write_from, after_post, combine,
  no_members,
}
use origamy_go_sdk.Segments.Text.{atoi, trim_space, format_int}
use origamy_go_sdk.Segments.Post.{
  Request, Codec, Network, Response, Posted, max_attempts, retry_after_header,
  read_segment_response, url, post,
}
use origamy_go_sdk.Segments.Post
use origamy_go_sdk.Segments.Rows.{listed, IsChunk, rows-IsChunk}
use origamy_go_sdk.Segments.Course.{tally, named_in, complaints, AnswersInRange}
use origamy_go_sdk.Segments.Write.{write_splits, write_sums, write_indices}
use origamy_go_sdk.Segments.Verdict.{requested, Reaches, Decides}
use origamy_go_sdk.Segments.Retry.{post_attempts, post_returns}
use origamy_go_sdk.Segments.Numbers.{IsInt64, url_identifies}
use origamy_go_sdk.Segments.Members.{posts, add_members, remove_members}
use origamy_go_sdk.Segments.Errors.{Stops, calls-Stops}
use origamy_go_sdk.Segments.Wait.{retry_after_header_exact}

spaces : trim_space " 3 4 " ≡ "3 4"
spaces = refl

numbers : atoi "-12" ≡ some (negsuc 11)
unfolding atoi
numbers = refl

too_large : atoi "9223372036854775808" ≡ none
unfolding atoi
too_large = refl

printed : format_int (pos 4207) ≡ "4207"
unfolding format_int
printed = refl

-- A header of this many seconds is a negative wait, which ends at once.
wrapped : retry_after_header "9223372037" ≡ negsuc 9223372036709551615
unfolding retry_after_header atoi
wrapped = refl

retry_after_header_exact_example : (retry_after_header " 7" ≡ seconds 7) ↔ (7 ≤ 9223372036)
unfolding atoi
retry_after_header_exact_example = retry_after_header_exact " 7" 7 refl (omega arith)

abbrev jane : SegmentMember
jane = record { user_id = ""; email = "jane@example.com"; phone = ""; traits = [] }

abbrev people : List SegmentMember
people = replicate 1001 jane

abbrev row : RejectedSegmentMember
row = record { list = "add"; index = 0; error = "unknown" }

-- Each request adds its rows but for the first, which it rejects.
abbrev answers : ℕ → SegmentMembersRequest → Result SegmentMembersResult
answers start r =
    ok (record { segment_id = pos 42; added = 5; removed = 0; not_found = 1; rejected = row ∷ [] })

abbrev whole : Written
whole = record {
  posted = request answers people false [] 0 ∷ request answers people false [] 1000 ∷ [];
  result = record {
    segment_id = pos 42;
    added = 10;
    removed = 0;
    not_found = 2;
    rejected = row ∷ record row { index = 1000 } ∷ [];
  };
  error = none;
}

whole_run : write answers people false [] (pos 42) ≡ some whole
unfolding write write_from after_post combine
whole_run = refl

write_splits_example :
    (w : Written) × (write answers people false [] (pos 42) ≡ some w)
    × (rest : List SegmentMember) × (concat (map (listed false) w.posted) ++ rest ≡ people)
    × All (λ r. IsChunk (listed false r)) w.posted
    × (w.error ≡ none → rest ≡ [])
write_splits_example = write_splits answers people false [] (pos 42) refl

write_sums_example :
    (10 ≡ tally answers people false [] (λ r. r.added) 0 whole.posted % 2 ^ 64)
    × (0 ≡ tally answers people false [] (λ r. r.removed) 0 whole.posted % 2 ^ 64)
    × (2 ≡ tally answers people false [] (λ r. r.not_found) 0 whole.posted % 2 ^ 64)
write_sums_example = write_sums answers people false [] (pos 42) {w = whole} refl whole_run

abbrev rejected_of : Result SegmentMembersResult → List RejectedSegmentMember
rejected_of (ok res) = res.rejected
rejected_of (err e) = []

answers-InRange : AnswersInRange answers people false []
answers-InRange start res h e =
    subst (All (λ r. r.index < length (rows answers people false [] start))) (ap rejected_of e)
      ((rows-IsChunk answers people false [] start h).0, tt)

write_indices_example :
    map (named_in people) whole.result.rejected ≡ complaints answers people false [] 0 whole.posted
write_indices_example =
    write_indices answers people false [] (pos 42) {w = whole} refl answers-InRange (omega arith)
      whole_run

abbrev codec : Codec
codec = record {
  marshal = λ r. ok (b'{' ∷ b'}' ∷ []);
  decode_result = λ b. ok (no_members (pos 42));
  decode_error = λ b. err (other "json");
  text_of = λ b. "";
  status_text = λ n. "Service Unavailable";
}

-- The first attempt finds the service unavailable, the second is answered.
abbrev network : Network
network = record {
  create = λ u. none;
  answer = λ i. ok (record {
    status_code = if i == 0 then 503 else 200;
    retry_after = "2";
    body = record { bytes = []; failure = none };
  });
  context_error = λ i. none;
  interrupted = λ i. none;
  backoff = λ f i. pos 0;
}

abbrev client : SegmentsClient
client = new_segments "sk" (with_endpoint "http://localhost///" ∷ [])

abbrev body : SegmentMembersRequest
body = record { add_members = jane ∷ []; remove_members = []; phone_region = "NG" }

post_attempts_example :
    (p : Posted) × (post codec network client (pos 42) body ≡ some p)
    × (last : ℕ) × (last < max_attempts)
    × Reaches codec network client (pos 42) last
    × Decides codec network client (pos 42) last p.answer
    × (requested p.effects
        ≡ replicate (suc last) (Post.request codec network client (pos 42) (b'{' ∷ b'}' ∷ [])))
post_attempts_example = post_attempts codec network client (pos 42) body refl refl

post_returns_run : (p : Posted) × (post codec network client (pos 42) body ≡ some p)
post_returns_run = post_returns codec network client (pos 42) body

url_identifies_example :
    (atoi (format_int (negsuc 41)) ≡ some (negsuc 41))
    × ((j : ℤ)
        → IsInt64 j
        → url codec network client j ≡ url codec network client (negsuc 41)
        → j ≡ negsuc 41)
url_identifies_example = url_identifies codec network client (negsuc 41) (omega arith)

calls-Stops_example :
    ((w : Written) × (add_members codec (λ i. network) client (pos 42) people [] ≡ some w)
      × Stops (posts codec (λ i. network) client (pos 42)) people false [] 0 w.posted w.error)
    × ((w : Written) × (remove_members codec (λ i. network) client (pos 42) people [] ≡ some w)
        × Stops (posts codec (λ i. network) client (pos 42)) people true [] 0 w.posted w.error)
calls-Stops_example = calls-Stops codec (λ i. network) client (pos 42) people [] refl
