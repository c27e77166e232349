-- ===== src/Segments/Course.antt =====
-- What the loop of `write` (segments.go) posts and collects, from any of its starts on.
use origamy_go_sdk.Base.{
  ge→ltb, ltb→lt, ℕ, zero, suc, ◌+◌, ◌-◌, ◌%◌, ◌^◌, ◌≤◌, ◌<◌, min, ◌≡◌, refl, sym, ◌∙◌, ap, Bool,
  false, Bool-cases, inl, inr, Option, none, some, List, [], ◌∷◌, ◌++◌, map, map-append, append-nil,
  ap₂, String, append_assoc, length, drop, length-take, length-drop, concat, All, arith, ltb,
  get_elem?,
}
use origamy_go_sdk.Base.Int.{ℤ, is_nonpositive}
use origamy_go_sdk.Data.{Error, Result, ok, err}
use origamy_go_sdk.Segments.{
  SegmentMember, SegmentMembersResult, SegmentMembersRequest, SegmentMembersOption,
  RejectedSegmentMember, max_members_per_request, add, shift, combine, no_members, Written,
  add_posted, request, rows, after_post, write_from, write,
}
use origamy_go_sdk.Segments.Rows
use origamy_go_sdk.Segments.Rows.{
  drop_all, get_elem?-drop, get_elem?-take, add_mod, add_bound, mod_small, listed, IsChunk,
}

-- A rejected row by a member instead of its index: the member, the list and the error.
abbrev pub Complaint : Type 0
Complaint = Option SegmentMember × String × String

-- The member is the one that stands at the index.
abbrev pub named_in : List SegmentMember → RejectedSegmentMember → Complaint
named_in ms r = (get_elem? ms r.index, r.list, r.error)

abbrev pub rejected_by : Result SegmentMembersResult → List RejectedSegmentMember
rejected_by (ok res) = res.rejected
rejected_by (err e) = []

module _ (post : ℕ → SegmentMembersRequest → Result SegmentMembersResult)
    (members : List SegmentMember) (remove : Bool) (opts : List SegmentMembersOption) where
  abbrev count : (SegmentMembersResult → ℕ) → Result SegmentMembersResult → ℕ
  count f (ok res) = f res
  count f (err e) = 0

  -- A count of the answers to the requests from `start` on, summed.
  abbrev pub tally : (SegmentMembersResult → ℕ) → ℕ → List SegmentMembersRequest → ℕ
  tally f start [] = 0
  tally f start (r ∷ rs) = count f (post start r) + tally f (start + max_members_per_request) rs

  abbrev pub Sums : (SegmentMembersResult → ℕ) → ℕ → SegmentMembersResult → Written → Type 0
  Sums f start total w = f total < 2 ^ 64 → f w.result ≡ (f total + tally f start w.posted) % 2 ^ 64

  -- What the answers to the requests from `start` on reject, by the members of those requests.
  abbrev pub complaints : ℕ → List SegmentMembersRequest → List Complaint
  complaints start [] = []
  complaints start (r ∷ rs) =
      map (named_in (listed remove r)) (rejected_by (post start r))
      ++ complaints (start + max_members_per_request) rs

  -- Every row that an answer rejects is one of its request, for the requests that carry rows.
  abbrev pub AnswersInRange : Type 0
  AnswersInRange =
      (start : ℕ) (res : SegmentMembersResult)
      → start < length members
      → post start (request post members remove opts start) ≡ ok res
      → All (λ r. r.index < length (rows post members remove opts start)) res.rejected

  -- What the loop from `start` on comes to.
  pub record Course (start : ℕ) (total : SegmentMembersResult) (es : Option Written) : Type 0 where
    pub run : Written
    pub returned : es ≡ some run
    pub rest : List SegmentMember
    pub split : concat (map (listed remove) run.posted) ++ rest ≡ drop start members
    pub chunked : All (λ r. IsChunk (listed remove r)) run.posted
    pub complete : run.error ≡ none → rest ≡ []
    pub added : Sums (λ r. r.added) start total run
    pub removed : Sums (λ r. r.removed) start total run
    pub not_found : Sums (λ r. r.not_found) start total run
    pub points :
        AnswersInRange
        → length members < 2 ^ 64
        → map (named_in members) run.result.rejected
          ≡ map (named_in members) total.rejected ++ complaints start run.posted

  finished :
      (start : ℕ) (total : SegmentMembersResult)
      → length members ≤ start
      → Course start total (some (record { posted = []; result = total; error = none }))
  finished start total h = record {
    run = record { posted = []; result = total; error = none };
    returned = refl;
    rest = [];
    split = sym (drop_all start members h);
    chunked = tt;
    complete = λ e. refl;
    added = mod_small total.added;
    removed = mod_small total.removed;
    not_found = mod_small total.not_found;
    points = λ r l. sym (append-nil (map (named_in members) total.rejected));
  }

  points_at :
      (start : ℕ) (r : RejectedSegmentMember)
      → start < length members
      → length members < 2 ^ 64
      → r.index < length (rows post members remove opts start)
      → get_elem? members (add r.index start)
        ≡ get_elem? (rows post members remove opts start) r.index
  points_at start r h l k =
      let n = min (start + 1000) (length members) - start in
      let e : length (rows post members remove opts start) ≡ min n (length (drop start members)) =
        length-take n (drop start members) in
      let a : add r.index start ≡ start + r.index =
        omega (arith, e, k, l, length-drop start members) in
      ap (get_elem? members) a
      ∙ sym (get_elem?-drop start r.index members)
      ∙ sym (get_elem?-take n r.index (drop start members) k)

  -- The shifted rows of an answer name the members that the request carried at their own indices.
  named-shift :
      (start : ℕ) (rs : List RejectedSegmentMember)
      → start < length members
      → length members < 2 ^ 64
      → All (λ r. r.index < length (rows post members remove opts start)) rs
      → map (named_in members) (map (shift start) rs)
        ≡ map (named_in (rows post members remove opts start)) rs
  named-shift start [] h l a = refl
  named-shift start (r ∷ rs) h l a =
      ap₂ ◌∷◌ (ap (λ o. (o, r.list, r.error)) (points_at start r h l a.0))
        (named-shift start rs h l a.1)

  refused :
      (start : ℕ) (total : SegmentMembersResult) (e : Error)
      → start < length members
      → post start (request post members remove opts start) ≡ err e
      → Course start total (
          some (record {
            posted = request post members remove opts start ∷ [];
            result = total;
            error = some e;
          }))
  refused start total e h p = record {
    run = record {
      posted = request post members remove opts start ∷ [];
      result = total;
      error = some e;
    };
    returned = refl;
    rest = drop (start + 1000) members;
    split =
        rw
          (
            Rows.listed-request post members remove opts start,
            append-nil (rows post members remove opts start),
          )
          (Rows.rows_split post members remove opts start (omega arith));
    chunked =
        rw (Rows.listed-request post members remove opts start)
          (Rows.rows-IsChunk post members remove opts start h, tt);
    complete = λ q. cc;
    added = λ q. rw p (mod_small total.added q);
    removed = λ q. rw p (mod_small total.removed q);
    not_found = λ q. rw p (mod_small total.not_found q);
    points = λ r l. rw p (sym (append-nil (map (named_in members) total.rejected)));
  }

  continued :
      (start : ℕ) (total res : SegmentMembersResult) {es : Option Written}
      → start < length members
      → post start (request post members remove opts start) ≡ ok res
      → Course (start + 1000) (combine start total res) es
      → Course start total (add_posted (request post members remove opts start) es)
  unfolding combine
  continued start total res {es} h p c = record {
    run = record c.run { posted = request post members remove opts start ∷ c.run.posted };
    returned = ap (add_posted (request post members remove opts start)) c.returned;
    rest = c.rest;
    split =
        rw
          (
            Rows.listed-request post members remove opts start,
            append_assoc (rows post members remove opts start)
                (concat (map (listed remove) c.run.posted)) c.rest,
            c.split,
          )
          (Rows.rows_split post members remove opts start (omega arith));
    chunked =
        rw (Rows.listed-request post members remove opts start)
          (Rows.rows-IsChunk post members remove opts start h, c.chunked);
    complete = c.complete;
    added = λ q. rw p (
        c.added (add_bound total.added res.added)
        ∙ add_mod total.added res.added (tally (λ r. r.added) (start + 1000) c.run.posted));
    removed = λ q. rw p (
        c.removed (add_bound total.removed res.removed)
        ∙ add_mod total.removed res.removed (tally (λ r. r.removed) (start + 1000) c.run.posted));
    not_found = λ q. rw p (
        c.not_found (add_bound total.not_found res.not_found)
        ∙ add_mod total.not_found res.not_found
            (tally (λ r. r.not_found) (start + 1000) c.run.posted));
    points = λ r l.
        rw (p, Rows.listed-request post members remove opts start)
          (c.points r l
            ∙ ap (λ k. k ++ complaints (start + 1000) c.run.posted)
                (map-append (named_in members) total.rejected (map (shift start) res.rejected)
                  ∙ ap (λ k. map (named_in members) total.rejected ++ k)
                      (named-shift start res.rejected h l (r start res h p)))
            ∙ append_assoc (map (named_in members) total.rejected) _ _);
  }

  stepped :
      (start : ℕ) (total : SegmentMembersResult) (rest : SegmentMembersResult → Option Written)
      → start < length members
      → ((t : SegmentMembersResult) → Course (start + 1000) t (rest t))
      → (o : Result SegmentMembersResult) → post start (request post members remove opts start) ≡ o
      → Course start total (after_post post members remove opts start total rest o)
  unfolding after_post
  stepped start total rest h c (err e) p = refused start total e h p
  stepped start total rest h c (ok res) p =
      continued start total res h p (c (combine start total res))

  write_from-Course :
      (f start : ℕ) (total : SegmentMembersResult)
      → length members ≤ start + f
      → Course start total (write_from post members remove opts (suc f) start total)
  unfolding write_from
  write_from-Course zero start total h =
      rw (ge→ltb start (length members) (omega arith)) (finished start total (omega arith))
  write_from-Course (suc f) start total h = elim (Bool-cases (ltb start (length members))) [
    | inl b ↦ rw b (
        stepped start total (λ t. write_from post members remove opts (suc f) (start + 1000) t)
          (ltb→lt start (length members) b)
          (λ t. write_from-Course f (start + 1000) t (omega arith))
          (post start (request post members remove opts start)) refl)
    | inr b ↦ rw b (finished start total (ground arith))
  ]

  -- The call of `write` with a positive id.
  pub write-Course :
      (id : ℤ)
      → is_nonpositive id ≡ false
      → Course 0 (no_members id) (write post members remove opts id)
  unfolding write
  write-Course id h = rw h (write_from-Course (length members) 0 (no_members id) (omega arith))
