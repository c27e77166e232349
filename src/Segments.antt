-- ===== src/Segments.antt =====
-- segments.go: the client of list segments. The requests of one call are posted one after the other;
-- the child `Post` makes one request with its retries, and `Text` has the texts that it reads and
-- writes.
pub mod Numbers
pub mod Text
pub mod Post
pub mod Rows
pub mod Course
pub mod Write
pub mod Verdict
pub mod Retry
pub mod Members
pub mod Errors
pub mod Wait
mod Tests
use origamy_go_sdk.Base.{
  ℕ, zero, suc, ◌+◌, ◌-◌, ◌%◌, ◌^◌, min, Bool, true, false, String, Option, none, some, List, [],
  ◌∷◌, ◌++◌, map, length, take, drop, ltb, is_empty, if◌then◌else◌,
}
use origamy_go_sdk.Base.Int.{ℤ, pos, is_nonpositive}
use origamy_go_sdk.Data.{
  Value, Duration, seconds, Reference, default_transport, second_shifted, Error, SegmentError,
  segment_error, Result, ok, err,
}
use origamy_go_sdk.Data.Dict.{Dict}
use origamy_go_sdk.Config.{default_endpoint}
use origamy_go_sdk.Sdk.{Config, zero_config, ClientOption, apply_options}
use origamy_go_sdk.Segments.Text.{trim_right_slashes}

abbrev pub max_members_per_request : ℕ
max_members_per_request = 1000

-- The codes of a `SegmentError`.
abbrev pub not_found : String
not_found = "segment_not_found"

abbrev pub not_list : String
not_list = "segment_not_list"

abbrev pub managed : String
managed = "segment_managed"

abbrev pub invalid_request : String
invalid_request = "invalid_request"

abbrev pub unavailable : String
unavailable = "unavailable"

pub record SegmentMember : Type 0 where
  pub user_id : String
  pub email : String
  pub phone : String
  pub traits : Dict Value

-- Counts and indices are `int`: their bits as a number below 2 ^ 64.
pub record RejectedSegmentMember : Type 0 where
  pub list : String
  pub index : ℕ
  pub error : String

pub record SegmentMembersResult : Type 0 where
  pub segment_id : ℤ
  pub added : ℕ
  pub removed : ℕ
  pub not_found : ℕ
  pub rejected : List RejectedSegmentMember

-- The total before the first request.
abbrev pub no_members : ℤ → SegmentMembersResult
no_members id = record { segment_id = id; added = 0; removed = 0; not_found = 0; rejected = [] }

-- `+` on `int`.
abbrev pub add : ℕ → ℕ → ℕ
add a b = (a + b) % 2 ^ 64

pub record SegmentMembersRequest : Type 0 where
  pub add_members : List SegmentMember
  pub remove_members : List SegmentMember
  pub phone_region : String

abbrev pub SegmentMembersOption : Type 0
SegmentMembersOption = SegmentMembersRequest → SegmentMembersRequest

unfoldable pub with_phone_region : String → SegmentMembersOption
with_phone_region region r = record r { phone_region = region }

unfoldable pub apply_member_options :
    List SegmentMembersOption → SegmentMembersRequest → SegmentMembersRequest
apply_member_options [] r = r
apply_member_options (opt ∷ opts) r = apply_member_options opts (opt r)

pub record SegmentsClient : Type 0 where
  pub endpoint : String
  pub key : String
  pub transport : Reference
  pub timeout : Duration
  pub retry_after : Reference

abbrev or_else : Option Reference → Reference → Reference
or_else none r = r
or_else (some a) r = a

unfoldable pub new_segments : String → List ClientOption → SegmentsClient
unfolding apply_options
new_segments secret_key opts =
    let config = apply_options opts zero_config in
    record {
      endpoint =
          trim_right_slashes
            (if is_empty config.endpoint then default_endpoint else config.endpoint);
      key = secret_key;
      transport = or_else config.transport default_transport;
      timeout = seconds 30;
      retry_after = or_else config.retry_after second_shifted;
    }

-- What a call of `write` comes to, and the requests that it has posted, in order.
pub record Written : Type 0 where
  pub posted : List SegmentMembersRequest
  pub result : SegmentMembersResult
  pub error : Option Error

abbrev pub add_posted : SegmentMembersRequest → Option Written → Option Written
add_posted req none = none
add_posted req (some w) = some (record w { posted = req ∷ w.posted })

abbrev pub shift : ℕ → RejectedSegmentMember → RejectedSegmentMember
shift start r = record r { index = add r.index start }

-- What a successful request adds to the total.
unfoldable pub combine : ℕ → SegmentMembersResult → SegmentMembersResult → SegmentMembersResult
combine start total res = record {
  segment_id = total.segment_id;
  added = add total.added res.added;
  removed = add total.removed res.removed;
  not_found = add total.not_found res.not_found;
  rejected = total.rejected ++ map (shift start) res.rejected;
}

-- `post` is the answer to the request whose rows begin at a position: it is `SegmentsClient.post`
-- with what the network does at that time.
module _ (post : ℕ → SegmentMembersRequest → Result SegmentMembersResult)
    (members : List SegmentMember) (remove : Bool) (opts : List SegmentMembersOption) where
  -- `members[start:end]`
  abbrev pub rows : ℕ → List SegmentMember
  rows start =
      take (min (start + max_members_per_request) (length members) - start) (drop start members)

  unfoldable pub request : ℕ → SegmentMembersRequest
  unfolding apply_member_options
  request start =
      let req =
        apply_member_options opts
          (record { add_members = []; remove_members = []; phone_region = "" }) in
      if remove
      then record req { remove_members = rows start }
      else record req { add_members = rows start }

  unfoldable pub after_post :
      ℕ
      → SegmentMembersResult
      → (SegmentMembersResult → Option Written)
      → Result SegmentMembersResult
      → Option Written
  after_post start total rest (err e) =
      some (record { posted = request start ∷ []; result = total; error = some e })
  after_post start total rest (ok res) = add_posted (request start) (rest (combine start total res))

  -- The loop from `start` on, on fuel: `none` is a loop that has not ended.
  unfoldable pub write_from : ℕ → ℕ → SegmentMembersResult → Option Written
  write_from zero start total = none
  write_from (suc f) start total =
      if ltb start (length members)
      then after_post start total (λ t. write_from f (start + max_members_per_request) t)
          (post start (request start))
      else some (record { posted = []; result = total; error = none })

  unfoldable pub write : ℤ → Option Written
  write segment_id =
      if is_nonpositive segment_id
      then some (record {
        posted = [];
        result = no_members segment_id;
        error = some (
            segment_error (record {
              status_code = 0;
              code = "invalid_request";
              message = "segment id must be a positive number";
            }));
      })
      else write_from (suc (length members)) 0 (no_members segment_id)
