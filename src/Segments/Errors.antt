-- ===== src/Segments/Errors.antt =====
-- Where a call of segments.go stops: which of its requests are posted, and what error it returns.
use mathlib.Core.Option.{some-injective, none-ne-some}
use origamy_go_sdk.Base.{
  ℕ, zero, suc, ◌+◌, ◌≡◌, ◌⊎◌, inl, inr, refl, subst, Bool, true, false, Option, none, some, List,
  [], ◌∷◌, length, ltb, if◌then◌else◌,
}
use origamy_go_sdk.Base.Int.{ℤ, is_nonpositive}
use origamy_go_sdk.Data.{Error, Result, ok, err}
use origamy_go_sdk.Segments.{
  SegmentMember, SegmentMembersRequest, SegmentMembersResult, SegmentMembersOption, SegmentsClient,
  Written, max_members_per_request, request, after_post, add_posted, combine, write_from, write,
  no_members,
}
use origamy_go_sdk.Segments.Post.{Codec, Network}
use origamy_go_sdk.Segments.Write.{write_splits}
use origamy_go_sdk.Segments.Members.{posts, add_members, remove_members}

either_run :
    {A : Type 0} (P : Type 0) (b : Bool) (x y : Option A) (a : A)
    → (x ≡ some a → P)
    → (y ≡ some a → P)
    → (if b then x else y) ≡ some a
    → P
either_run P true x y a p q e = p e
either_run P false x y a p q e = q e

module _ (post : ℕ → SegmentMembersRequest → Result SegmentMembersResult)
    (members : List SegmentMember) (remove : Bool) (opts : List SegmentMembersOption) where
  -- The requests from a position on are the chunks in order; each but the last is answered without an
  -- error, and the error of the last, if it has one, is that of the call.
  abbrev pub Stops : ℕ → List SegmentMembersRequest → Option Error → Type 0
  Stops start [] error = error ≡ none
  Stops start (r ∷ rs) error =
      (r ≡ request post members remove opts start)
      × (((res : SegmentMembersResult) × (post start r ≡ ok res)
            × Stops (start + max_members_per_request) rs error)
          ⊎ ((e : Error) × (post start r ≡ err e) × (rs ≡ []) × (error ≡ some e)))

  abbrev WrittenStops : ℕ → Written → Type 0
  WrittenStops start w = Stops start w.posted w.error

  added-Stops :
      (start : ℕ) (res : SegmentMembersResult) (o : Option Written) (w : Written)
      → post start (request post members remove opts start) ≡ ok res
      → ((v : Written) → o ≡ some v → WrittenStops (start + max_members_per_request) v)
      → add_posted (request post members remove opts start) o ≡ some w
      → WrittenStops start w
  added-Stops start res none w p k e = absurd (none-ne-some _ e)
  added-Stops start res (some v) w p k e =
      subst (WrittenStops start) (some-injective _ _ e) (refl, inl (res, p, k v refl))

  after-Stops :
      (start : ℕ) (total : SegmentMembersResult) (rest : SegmentMembersResult → Option Written)
      (x : Result SegmentMembersResult) (w : Written)
      → post start (request post members remove opts start) ≡ x
      → ((t : SegmentMembersResult) (v : Written)
          → rest t ≡ some v
          → WrittenStops (start + max_members_per_request) v)
      → after_post post members remove opts start total rest x ≡ some w
      → WrittenStops start w
  unfolding after_post
  after-Stops start total rest (err e) w p k q =
      subst (WrittenStops start) (some-injective _ _ q) (refl, inr (e, p, refl, refl))
  after-Stops start total rest (ok res) w p k q =
      added-Stops start res (rest (combine start total res)) w p (k (combine start total res)) q

  write_from-Stops :
      (f start : ℕ) (total : SegmentMembersResult) (w : Written)
      → write_from post members remove opts f start total ≡ some w
      → WrittenStops start w
  unfolding write_from
  write_from-Stops zero start total w e = absurd (none-ne-some _ e)
  write_from-Stops (suc f) start total w e =
      either_run (WrittenStops start w) (ltb start (length members)) _ _ w
        (after-Stops start total _ (post start (request post members remove opts start)) w refl
          (λ t v. write_from-Stops f (start + max_members_per_request) t v))
        (λ q. subst (WrittenStops start) (some-injective _ _ q) refl) e

  pub write-Stops :
      (id : ℤ) (w : Written)
      → is_nonpositive id ≡ false
      → write post members remove opts id ≡ some w
      → Stops 0 w.posted w.error
  unfolding write
  write-Stops id w h e = write_from-Stops (suc (length members)) 0 (no_members id) w (rw h at e)

-- `AddMembers` and `RemoveMembers` with a positive segment id return, and have posted the chunks of the
-- members in order, one request after the other: each but the last is answered without an error, and
-- the error of the last, after its retries, is the error of the call, or both are nil.
pub calls-Stops :
    (codec : Codec) (nets : ℕ → Network) (c : SegmentsClient) (id : ℤ)
    (members : List SegmentMember) (opts : List SegmentMembersOption)
    → is_nonpositive id ≡ false
    → ((w : Written) × (add_members codec nets c id members opts ≡ some w)
        × Stops (posts codec nets c id) members false opts 0 w.posted w.error)
      × ((w : Written) × (remove_members codec nets c id members opts ≡ some w)
          × Stops (posts codec nets c id) members true opts 0 w.posted w.error)
unfolding add_members remove_members
calls-Stops codec nets c id members opts h =
    let added = write_splits (posts codec nets c id) members false opts id h in
    let removed = write_splits (posts codec nets c id) members true opts id h in
    (
      (
        added.0,
        added.1,
        write-Stops (posts codec nets c id) members false opts id added.0 h added.1,
      ),
      (
        removed.0,
        removed.1,
        write-Stops (posts codec nets c id) members true opts id removed.0 h removed.1,
      ),
    )
