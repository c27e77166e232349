-- ===== src/Segments/Members.antt =====
-- `AddMembers` and `RemoveMembers` of segments.go: `write` over `post`.
use origamy_go_sdk.Base.{ℕ, true, false, Option, none, some, List}
use origamy_go_sdk.Base.Int.{ℤ}
use origamy_go_sdk.Data.{other, Result, err}
use origamy_go_sdk.Segments.{
  SegmentMember, SegmentMembersRequest, SegmentMembersResult, SegmentMembersOption, SegmentsClient,
  Written, write,
}
use origamy_go_sdk.Segments.Post.{Codec, Network, Posted, post}

-- What `post` returns; it always does.
abbrev answer_of : Option Posted → Result SegmentMembersResult
answer_of none = err (other "")
answer_of (some p) = p.answer

-- `nets` is what each request meets, by the position of its first row.
module _ (codec : Codec) (nets : ℕ → Network) (c : SegmentsClient) where
  abbrev pub posts : ℤ → ℕ → SegmentMembersRequest → Result SegmentMembersResult
  posts segment_id start req = answer_of (post codec (nets start) c segment_id req)

  unfoldable pub add_members : ℤ → List SegmentMember → List SegmentMembersOption → Option Written
  add_members segment_id members opts = write (posts segment_id) members false opts segment_id

  unfoldable pub remove_members :
      ℤ → List SegmentMember → List SegmentMembersOption → Option Written
  remove_members segment_id members opts = write (posts segment_id) members true opts segment_id
