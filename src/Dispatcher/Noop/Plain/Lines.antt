-- ===== src/Dispatcher/Noop/Plain/Lines.antt =====
-- The lines of internal/dispatcher/noop.go, with colours and without.
use Prim.Native.String.{◌++◌ as ◌<>◌}
use text.Mathlib.TextLemmas.{nil-append, cons-append}
use origamy_go_sdk.Base.{
  ℕ, zero, suc, ◌%◌, ◌/◌, ◌≡◌, refl, Bool, true, false, String, List, [], ◌∷◌, arith, if◌then◌else◌,
  ltb, All, get_elem?,
}
use origamy_go_sdk.Base.Int.{pos}
use origamy_go_sdk.Data.{Time}
use origamy_go_sdk.Segments.Text.{decimal, format_int, digit, digit_text}
use origamy_go_sdk.Dispatcher.Noop.{NoopDispatcher}
use origamy_go_sdk.Dispatcher.Noop.Print.{Library, print_header}
use origamy_go_sdk.Dispatcher.Noop.Colours.{is_plain, Fades, plain-Fades, append-Fades}
use origamy_go_sdk.Dispatcher.Noop.Plain.{
  AllFade, nothing, line, uncolored, highlight-Fades, color-Fades,
}

pub append-plain : (s t : String) → is_plain s ≡ true → is_plain t ≡ true → is_plain (s <> t) ≡ true
append-plain String.[] t p q = rw (nil-append t) q
append-plain (String.◌∷◌ c s) t p q = rw (cons-append c s t) (ground (arith, append-plain s t))

digit_text-plain :
    (l : List String) (n : ℕ)
    → All (λ s. is_plain s ≡ true) l
    → is_plain (digit_text (get_elem? l n)) ≡ true
digit_text-plain [] n a = refl
digit_text-plain (s ∷ l) zero a = a.0
digit_text-plain (s ∷ l) (suc n) a = digit_text-plain l n a.1

pub either-plain :
    (b : Bool) (s t : String)
    → is_plain s ≡ true
    → is_plain t ≡ true
    → is_plain (if b then s else t) ≡ true
either-plain true s t p q = p
either-plain false s t p q = q

digit-plain : (n : ℕ) → is_plain (digit n) ≡ true
digit-plain n =
    digit_text-plain ("0" ∷ "1" ∷ "2" ∷ "3" ∷ "4" ∷ "5" ∷ "6" ∷ "7" ∷ "8" ∷ "9" ∷ []) (n % 10)
      (refl, (refl, (refl, (refl, (refl, (refl, (refl, (refl, (refl, (refl, tt))))))))))

decimal-plain : (f n : ℕ) → is_plain (decimal f n) ≡ true
unfolding decimal
decimal-plain zero n = refl
decimal-plain (suc f) n =
    either-plain (ltb n 10) (digit n) (decimal f (n / 10) <> digit n) (digit-plain n)
      (append-plain (decimal f (n / 10)) (digit n) (decimal-plain f (n / 10)) (digit-plain n))

pub format_int-plain : (n : ℕ) → is_plain (format_int (pos n)) ≡ true
unfolding format_int
format_int-plain n = decimal-plain 19 n

-- A line of a text between a label and a plain end.
pub labelled :
    (pre a b post : String)
    → is_plain pre ≡ true
    → is_plain post ≡ true
    → Fades a b
    → Fades (pre <> a <> post) (pre <> b <> post)
labelled pre a b post p q f =
    append-Fades pre pre (a <> post) (b <> post) (plain-Fades pre p)
      (append-Fades a b post post f (plain-Fades post q))

module _ (lib : Library) (d : NoopDispatcher) where
  pub print_header-AllFade :
      (id : String) (t : Time) (n : ℕ)
      → is_plain id ≡ true
      → is_plain (lib.rfc3339 t) ≡ true
      → AllFade (print_header lib d id t n) (print_header lib (uncolored d) id t n)
  unfolding print_header
  print_header-AllFade id t n p q = line (plain-Fades _ refl) (
      line (plain-Fades _ refl) (
        line
          (append-Fades _ _ _ _ (plain-Fades "  " refl) (
            append-Fades _ _ _ _ (color-Fades d "🔍" "" refl) (
              labelled " ORIGAMY SDK - NOOP DISPATCHER " _ _ "\n" refl refl
                (color-Fades d "" "" refl))))
          (line (plain-Fades _ refl) (
            line (labelled "  Batch ID:  " _ _ _ refl refl (highlight-Fades d id p)) (
              line (labelled "  Sent At:   " _ _ _ refl refl (highlight-Fades d (lib.rfc3339 t) q))
                (line
                  (labelled "  Messages:  " _ _ _ refl refl
                    (highlight-Fades d (format_int (pos n)) (format_int-plain n)))
                  (line (plain-Fades _ refl) nothing)))))))
