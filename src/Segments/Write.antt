-- ===== src/Segments/Write.antt =====
-- What a call of `AddMembers` or `RemoveMembers` (segments.go) posts and reports: the requests split
-- the members, and the result covers those that succeeded.
use origamy_go_sdk.Base.{
  ℕ, ◌%◌, ◌^◌, ◌<◌, ◌≡◌, subst, Bool, false, none, some, List, [], ◌++◌, map, length, concat, All,
  arith,
}
use origamy_go_sdk.Base.Int.{ℤ, is_nonpositive}
use origamy_go_sdk.Data.{Result}
use origamy_go_sdk.Segments.{
  SegmentMember, SegmentMembersResult, SegmentMembersRequest, SegmentMembersOption, Written, write,
}
use origamy_go_sdk.Segments.Rows.{listed, IsChunk}
use origamy_go_sdk.Segments.Course.{write-Course, tally, named_in, complaints, AnswersInRange}

module _ (post : ℕ → SegmentMembersRequest → Result SegmentMembersResult)
    (members : List SegmentMember) (remove : Bool) (opts : List SegmentMembersOption) where
  -- A call with a positive segment id returns. The rows of the requests that it has posted are the
  -- first members, in order; each request carries at least one and at most 1000; without an error
  -- they are all the members.
  pub write_splits :
      (id : ℤ)
      → is_nonpositive id ≡ false
      → (w : Written) × (write post members remove opts id ≡ some w)
        × (rest : List SegmentMember) × (concat (map (listed remove) w.posted) ++ rest ≡ members)
        × All (λ r. IsChunk (listed remove r)) w.posted
        × (w.error ≡ none → rest ≡ [])
  write_splits id h =
      let c = write-Course post members remove opts id h in
      (c.run, c.returned, c.rest, c.split, c.chunked, c.complete)

  -- The counts of the result are the sums, as 64-bit integers, of those of the answers that came
  -- without an error, also where a later request failed.
  pub write_sums :
      (id : ℤ) {w : Written}
      → is_nonpositive id ≡ false
      → write post members remove opts id ≡ some w
      → (w.result.added ≡ tally post members remove opts (λ r. r.added) 0 w.posted % 2 ^ 64)
        × (w.result.removed ≡ tally post members remove opts (λ r. r.removed) 0 w.posted % 2 ^ 64)
        × (w.result.not_found
            ≡ tally post members remove opts (λ r. r.not_found) 0 w.posted % 2 ^ 64)
  write_sums id {w} h e =
      let c = write-Course post members remove opts id h in
      let k : c.run ≡ w = cc (c.returned, e) in
      subst
        (λ v.
          (v.result.added ≡ tally post members remove opts (λ r. r.added) 0 v.posted % 2 ^ 64)
          × (v.result.removed ≡ tally post members remove opts (λ r. r.removed) 0 v.posted % 2 ^ 64)
          × (v.result.not_found
              ≡ tally post members remove opts (λ r. r.not_found) 0 v.posted % 2 ^ 64))
        k
        (
          omega (arith, c.added (omega arith)),
          omega (arith, c.removed (omega arith)),
          omega (arith, c.not_found (omega arith)),
        )

  -- The rejected rows of the result are those of the answers that came without an error, in order, and
  -- each has the index of its own member in the whole list: of the one that its request carried at the
  -- index that the answer gave. The answers reject rows of their requests only, and there are fewer
  -- than 2 ^ 64 members.
  pub write_indices :
      (id : ℤ) {w : Written}
      → is_nonpositive id ≡ false
      → AnswersInRange post members remove opts
      → length members < 2 ^ 64
      → write post members remove opts id ≡ some w
      → map (named_in members) w.result.rejected ≡ complaints post members remove opts 0 w.posted
  write_indices id {w} h r l e =
      let c = write-Course post members remove opts id h in
      let k : c.run ≡ w = cc (c.returned, e) in
      subst
        (λ v.
          map (named_in members) v.result.rejected ≡ complaints post members remove opts 0 v.posted)
        k (c.points r l)
