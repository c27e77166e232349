-- ===== src/Segments/Numbers.antt =====
-- The segment id in the URL of a request of segments.go: `strconv.FormatInt` against `strconv.Atoi`, and the
-- URLs of different ids.
use Prim.Native.Char.{code}
use mathlib.Core.Option.{some-injective}
use Prim.Native.String.{◌++◌ as ◌<>◌}
use text.Mathlib.TextLemmas.{nil-append, cons-append, append_cancel_left, append_cancel_right}
use origamy_go_sdk.Base.{
  ℕ, zero, suc, ◌+◌, ◌*◌, ◌^◌, ◌/◌, ◌%◌, ◌≡◌, ◌<◌, ◌≤◌, refl, sym, ap, ◌∙◌, Bool, true, false,
  String, Option, none, some, List, [], ◌∷◌, arith, if◌then◌else◌, ltb, leb, get_elem?, ◌&&◌, All,
}
use origamy_go_sdk.Base.{◌-◌, length}
use origamy_go_sdk.Base.Int.{ℤ, pos, negsuc}
use origamy_go_sdk.Segments.{SegmentsClient}
use origamy_go_sdk.Segments.Post.{Codec, Network, url}
use origamy_go_sdk.Segments.Text.{
  decimal, format_int, digit, digit_text, digits, unsigned, negative, atoi,
}

abbrev then_digits : Option ℕ → String → Option ℕ
then_digits none t = none
then_digits (some a) t = digits a t

guarded_digits :
    (b : Bool) (x : Option ℕ) (t : String)
    → (if b then then_digits x t else none) ≡ then_digits (if b then x else none) t
guarded_digits true x t = refl
guarded_digits false x t = refl

digits-append : (acc : ℕ) (s t : String) → digits acc (s <> t) ≡ then_digits (digits acc s) t
digits-append acc String.[] t = ap (digits acc) (nil-append t)
digits-append acc (String.◌∷◌ c s) t =
    let valid = leb b'0' (code c) && leb (code c) b'9' in
    let later = acc * 10 + (code c - b'0') in
    ap (digits acc) (cons-append c s t)
    ∙ ap (λ o. if valid then o else none) (digits-append later s t)
    ∙ guarded_digits valid (digits later s) t

-- Texts of one digit each, from the digit `k` on.
abbrev Reads : ℕ → List String → Type 0
Reads k [] = Unit
Reads k (s ∷ l) = ((acc : ℕ) → digits acc s ≡ some (acc * 10 + k)) × Reads (k + 1) l

digit_text-digits :
    (l : List String) (k n acc : ℕ)
    → Reads k l
    → n < length l
    → digits acc (digit_text (get_elem? l n)) ≡ some (acc * 10 + (k + n))
digit_text-digits [] k n acc r h = absurd (omega (arith, h))
digit_text-digits (s ∷ l) k zero acc r h = r.0 acc ∙ ap some (omega arith)
digit_text-digits (s ∷ l) k (suc n) acc r h =
    digit_text-digits l (k + 1) n acc r.1 (omega (arith, h)) ∙ ap some (omega arith)

digit-digits : (n acc : ℕ) → digits acc (digit n) ≡ some (acc * 10 + n % 10)
digit-digits n acc =
    digit_text-digits ("0" ∷ "1" ∷ "2" ∷ "3" ∷ "4" ∷ "5" ∷ "6" ∷ "7" ∷ "8" ∷ "9" ∷ []) 0 (n % 10)
      acc
      (
        λ a. refl,
        (
          λ a. refl,
          (
            λ a. refl,
            (
              λ a. refl,
              (λ a. refl, (λ a. refl, (λ a. refl, (λ a. refl, (λ a. refl, (λ a. refl, tt)))))),
            ),
          ),
        ),
      )
      (omega arith)
    ∙ ap some (omega arith)

either_way :
    (P : String → Type 0) (b : Bool) (s t : String)
    → (b ≡ true → P s)
    → (b ≡ false → P t)
    → P (if b then s else t)
either_way P true s t p q = p refl
either_way P false s t p q = q refl

decimal-digits : (f n : ℕ) → n < 10 ^ f → digits 0 (decimal f n) ≡ some n
unfolding decimal
decimal-digits zero n h = ap some (omega (arith, h))
decimal-digits (suc f) n h =
    either_way (λ s. digits 0 s ≡ some n) (ltb n 10) (digit n) (decimal f (n / 10) <> digit n)
      (λ e. digit-digits n 0 ∙ ap some (ground (arith, e)))
      (λ e.
        digits-append 0 (decimal f (n / 10)) (digit n)
        ∙ ap (λ o. then_digits o (digit n)) (decimal-digits f (n / 10) (omega (arith, h)))
        ∙ digit-digits n (n / 10)
        ∙ ap some (omega arith))

-- The first character is a digit.
abbrev leads : String → Bool
leads String.[] = false
leads (String.◌∷◌ c s) = leb b'0' (code c) && leb (code c) b'9'

leads-append : (s t : String) → leads s ≡ true → leads (s <> t) ≡ true
leads-append String.[] t h = ground (arith, h)
leads-append (String.◌∷◌ c s) t h = ap leads (cons-append c s t) ∙ h

digit_text-leads :
    (l : List String) (n : ℕ)
    → All (λ s. leads s ≡ true) l
    → n < length l
    → leads (digit_text (get_elem? l n)) ≡ true
digit_text-leads [] n a h = absurd (omega (arith, h))
digit_text-leads (s ∷ l) zero a h = a.0
digit_text-leads (s ∷ l) (suc n) a h = digit_text-leads l n a.1 (omega (arith, h))

digit-leads : (n : ℕ) → leads (digit n) ≡ true
digit-leads n =
    digit_text-leads ("0" ∷ "1" ∷ "2" ∷ "3" ∷ "4" ∷ "5" ∷ "6" ∷ "7" ∷ "8" ∷ "9" ∷ []) (n % 10)
      (refl, (refl, (refl, (refl, (refl, (refl, (refl, (refl, (refl, (refl, tt))))))))))
      (omega arith)

longer : (f n : ℕ) → n < 10 ^ suc f → 10 ≤ n → 0 < f
longer zero n h k = absurd (omega (arith, h, k))
longer (suc f) n h k = omega arith

decimal-leads : (f n : ℕ) → n < 10 ^ f → 0 < f → leads (decimal f n) ≡ true
unfolding decimal
decimal-leads zero n h k = absurd (omega (arith, k))
decimal-leads (suc f) n h k =
    either_way (λ s. leads s ≡ true) (ltb n 10) (digit n) (decimal f (n / 10) <> digit n)
      (λ e. digit-leads n)
      (λ e.
        leads-append (decimal f (n / 10)) (digit n)
          (decimal-leads f (n / 10) (omega (arith, h)) (longer f n h (ground (arith, e)))))

atoi-positive :
    (s : String) (n : ℕ) → leads s ≡ true → digits 0 s ≡ some n → n < 2 ^ 63 → atoi s ≡ some (pos n)
unfolding atoi
atoi-positive String.[] n h d k = ground (arith, h)
atoi-positive (String.◌∷◌ c s) n h d k = ground arith

unsigned-leads : (s : String) → leads s ≡ true → unsigned s ≡ digits 0 s
unsigned-leads String.[] h = ground (arith, h)
unsigned-leads (String.◌∷◌ c s) h = refl

negative_in : (n : ℕ) → n < 2 ^ 63 → negative (some (n + 1)) ≡ some (negsuc n)
negative_in n h = ground (arith, h)

atoi-negative :
    (s : String) (n : ℕ)
    → leads s ≡ true
    → digits 0 s ≡ some (n + 1)
    → n < 2 ^ 63
    → atoi ("-" <> s) ≡ some (negsuc n)
unfolding atoi
atoi-negative s n h d k =
    ap atoi (cons-append "-" "" s)
    ∙ ap (λ t. negative (unsigned t)) (nil-append s)
    ∙ ap negative (unsigned-leads s h ∙ d)
    ∙ negative_in n k

-- The int64 values.
abbrev pub IsInt64 : ℤ → Type 0
IsInt64 (pos n) = n < 2 ^ 63
IsInt64 (negsuc n) = n < 2 ^ 63

atoi-format_int : (i : ℤ) → IsInt64 i → atoi (format_int i) ≡ some i
unfolding format_int
atoi-format_int (pos n) h =
    atoi-positive (decimal 19 n) n (decimal-leads 19 n (omega (arith, h)) (omega arith))
      (decimal-digits 19 n (omega (arith, h))) h
atoi-format_int (negsuc n) h =
    atoi-negative (decimal 19 (n + 1)) n (decimal-leads 19 (n + 1) (omega (arith, h)) (omega arith))
      (decimal-digits 19 (n + 1) (omega (arith, h))) h

module _ (codec : Codec) (net : Network) (c : SegmentsClient) where
  url-format_int : (i j : ℤ) → url codec net c i ≡ url codec net c j → format_int i ≡ format_int j
  url-format_int i j e =
      append_cancel_right _ _ "/members"
        (append_cancel_left "/v1/segments/" _ _ (append_cancel_left c.endpoint _ _ e))

  -- For an id of the range of int64: the text of it that `post` puts into its URL is read back as that id,
  -- and no other such id has the same URL.
  pub url_identifies :
      (i : ℤ)
      → IsInt64 i
      → (atoi (format_int i) ≡ some i)
        × ((j : ℤ) → IsInt64 j → url codec net c j ≡ url codec net c i → j ≡ i)
  url_identifies i h = (
    atoi-format_int i h,
    λ j k e.
        some-injective _ _
          (sym (atoi-format_int j k) ∙ ap atoi (url-format_int j i e) ∙ atoi-format_int i h),
  )
