-- ===== src/Segments/Text.antt =====
-- The texts that segments.go reads and writes: `strings.TrimRight` and `strings.TrimSpace`,
-- `strconv.FormatInt` and `strconv.Atoi`.
use Prim.Native.Char.{code}
use Prim.Native.String.{◌++◌ as ◌<>◌}
use origamy_go_sdk.Base.{
  ℕ, zero, suc, ◌+◌, ◌-◌, ◌*◌, ◌/◌, ◌%◌, ◌^◌, Bool, ◌&&◌, ◌||◌, String, Option, none, some, [], ◌∷◌,
  ltb, leb, ◌==◌, get_elem?, is_empty, if◌then◌else◌,
}
use origamy_go_sdk.Base.Int.{ℤ, pos, negsuc}

abbrev drop_left : (ℕ → Bool) → String → String
drop_left cut String.[] = String.[]
drop_left cut (String.◌∷◌ c s) = if cut (code c) then drop_left cut s else String.◌∷◌ c s

-- A character is kept if it is not to be cut, or if one behind it is kept.
abbrev pub drop_right : (ℕ → Bool) → String → String
drop_right cut String.[] = String.[]
drop_right cut (String.◌∷◌ c s) =
    let rest = drop_right cut s in
    if is_empty rest && cut (code c) then String.[] else String.◌∷◌ c rest

abbrev pub is_slash : ℕ → Bool
is_slash c = c == b'/'

-- `strings.TrimRight(s, "/")`
abbrev pub trim_right_slashes : String → String
trim_right_slashes s = drop_right is_slash s

-- `unicode.IsSpace`
abbrev is_space : ℕ → Bool
is_space c =
    (leb 9 c && leb c 13)
    || (c == 32)
    || (c == 133)
    || (c == 160)
    || (c == 5760)
    || (leb 8192 c && leb c 8202)
    || (c == 8232)
    || (c == 8233)
    || (c == 8239)
    || (c == 8287)
    || (c == 12288)

abbrev pub trim_space : String → String
trim_space s = drop_right is_space (drop_left is_space s)

abbrev pub digit_text : Option String → String
digit_text none = ""
digit_text (some s) = s

abbrev pub digit : ℕ → String
digit n =
    digit_text (get_elem? ("0" ∷ "1" ∷ "2" ∷ "3" ∷ "4" ∷ "5" ∷ "6" ∷ "7" ∷ "8" ∷ "9" ∷ []) (n % 10))

-- The decimal digits of a number below 10 ^ `f`.
unfoldable pub decimal : ℕ → ℕ → String
decimal zero n = ""
decimal (suc f) n = let front = decimal f (n / 10) in if ltb n 10 then digit n else front <> digit n

-- `strconv.FormatInt(n, 10)`: an int64 has at most 19 digits.
unfoldable pub format_int : ℤ → String
unfolding decimal
format_int (pos n) = decimal 19 n
format_int (negsuc n) = "-" <> decimal 19 (n + 1)

-- The number that decimal digits write after those that were read as `acc`.
abbrev pub digits : ℕ → String → Option ℕ
digits acc String.[] = some acc
digits acc (String.◌∷◌ c s) =
    let rest = digits (acc * 10 + (code c - b'0')) s in
    if leb b'0' (code c) && leb (code c) b'9' then rest else none

-- One digit at least.
abbrev pub unsigned : String → Option ℕ
unsigned s = if is_empty s then none else digits 0 s

-- Out of the range of int64 is an error.
abbrev pub positive : Option ℕ → Option ℤ
positive none = none
positive (some n) = if ltb n (2 ^ 63) then some (pos n) else none

abbrev pub opposite : ℕ → ℤ
opposite zero = pos 0
opposite (suc n) = negsuc n

abbrev pub negative : Option ℕ → Option ℤ
negative none = none
negative (some n) = if leb n (2 ^ 63) then some (opposite n) else none

-- `strconv.Atoi`; `none` is an error.
unfoldable pub atoi : String → Option ℤ
atoi String.[] = none
atoi (String.◌∷◌ c s) =
    if code c == b'-'
    then negative (unsigned s)
    else (if code c == b'+' then positive (unsigned s) else positive (unsigned (String.◌∷◌ c s)))
