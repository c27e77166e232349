-- ===== src/Data.antt =====
-- Values that the Go program passes round: `interface{}` and `reflect.Value`, `time.Time`,
-- durations, the free-form maps, and the errors of internal/core/error.go, internal/queue/queue.go
-- and of the functions that make their errors with `fmt.Errorf`.
pub mod Dict
pub mod Texts
use origamy_go_sdk.Base.{
  ◌*◌, ℕ, Bool, true, false, ◌&&◌, String, List, Option, none, some, ◌==◌, if◌then◌else◌,
}
use origamy_go_sdk.Base.Int.{ℤ, pos}

-- A `float64`: mantissa and binary exponent, or one of the values that JSON cannot hold.
pub data Float : Type 0 where
  finite : ℤ → ℤ → Float
  inf : Bool → Float
  nan : Float

-- A `time.Time`: nanoseconds from the zero instant, and its location. Go compares both.
pub record Time : Type 0 where
  pub nanos : ℕ
  pub location : ℕ

abbrev pub zero_time : Time
zero_time = record { nanos = 0; location = 0 }

-- `t == time.Time{}`
abbrev pub is_zero_time : Time → Bool
is_zero_time t = t.nanos == 0 && t.location == 0

-- A `time.Duration` is an int64 of nanoseconds.
abbrev pub Duration : Type 0
Duration = ℤ

-- An object that the application hands in behind an interface, by its identity.
abbrev pub Handle : Type 0
Handle = ℕ

-- A dynamic value. `opaque` is a function, a channel or another kind that JSON refuses.
mutual
  pub data Value : Type 0 where
    nil : Value
    bool : Bool → Value
    int : ℤ → Value
    uint : ℕ → Value
    float : Float → Value
    string : String → Value
    instant : Time → Value
    -- A `net.IP`: its bytes.
    address : List ℕ → Value
    slice : Items → Value
    dict : Entries → Value
    nil_ptr : Value
    ptr : Value → Value
    struct : StructFields → Value
    opaque : Value

  pub data Items : Type 0 where
    done : Items
    item : Value → Items → Items

  pub data Entries : Type 0 where
    end : Entries
    entry : String → Value → Entries → Entries

  -- The fields of a struct: the Go name, the `json` tag and the value.
  pub data StructFields : Type 0 where
    last : StructFields
    field : String → String → Value → StructFields → StructFields

pub record FieldError : Type 0 where
  pub type : String
  pub name : String
  pub value : Value

pub record ConfigError : Type 0 where
  pub reason : String
  pub field : String
  pub value : Value

-- segments.go: a request that the API refused as a whole.
pub record SegmentError : Type 0 where
  pub status_code : ℕ
  pub code : String
  pub message : String

-- `error` values. `decoding` wraps an error of `json.Unmarshal`, `joined` is `errors.Join`. `status` is the error of an HTTP status; `other` is an error of code that is not in
-- the repository, by its text.
pub data Error : Type 0 where
  field_error : FieldError → Error
  config_error : ConfigError → Error
  closed : Error
  too_many_requests : Error
  message_too_big : Error
  queue_closed : Error
  queue_full : Error
  custom_type : String → Error
  status : ℕ → String → Error
  segment_error : SegmentError → Error
  decoding : Error → Error
  joined : Error → Error → Error
  other : String → Error

-- The error of a field of a message that holds a text.
abbrev pub invalid : String → String → String → Option Error
invalid type name value =
    some (field_error (record { type = type; name = name; value = string value }))

-- `(value, error)`
pub data Result {ℓ} (A : Type ℓ) : Type ℓ where
  ok : A → Result A
  err : Error → Result A

-- An interface or function value of a configuration: an object of the application, or one of those
-- that the defaults name. A nil value is `none` round this type.
pub data Reference : Type 0 where
  object : Handle → Reference
  default_transport : Reference
  default_logger : Reference
  default_backoff : Reference
  uuid : Reference
  time_now : Reference
  second_shifted : Reference

-- Nanoseconds.
abbrev pub seconds : ℕ → Duration
seconds n = pos (n * 1000000000)
