-- ===== src/Dispatcher/Noop/Colours.antt =====
-- The colours of internal/dispatcher/noop.go: a text without its escape sequences.
use Prim.Native.Char.{Char, code}
use Prim.Native.String.{◌++◌ as ◌<>◌}
use text.Mathlib.TextLemmas.{nil-append, cons-append, append_assoc}
use origamy_go_sdk.Base.{
  ◌≡◌, refl, sym, ap, ◌∙◌, Bool, true, false, not, ◌&&◌, String, ◌==◌, is_empty, if◌then◌else◌,
  arith,
}

-- Whether an escape sequence goes on behind a character: it begins with ESC and ends with `m`.
abbrev goes_on : Bool → Char → Bool
goes_on false c = code c == 27
goes_on true c = not (code c == b'm')

abbrev keep : Bool → Char → String → String
keep false c rest = if code c == 27 then rest else String.◌∷◌ c rest
keep true c rest = rest

abbrev pub strip_from : Bool → String → String
strip_from inside String.[] = ""
strip_from inside (String.◌∷◌ c s) = keep inside c (strip_from (goes_on inside c) s)

-- A text without its escape sequences.
abbrev pub strip : String → String
strip s = strip_from false s

abbrev pub is_plain : String → Bool
is_plain String.[] = true
is_plain (String.◌∷◌ c s) = let rest = is_plain s in not (code c == 27) && rest

abbrev ends_escape : String → Bool
ends_escape String.[] = false
ends_escape (String.◌∷◌ c s) =
    let rest = ends_escape s in if code c == b'm' then is_empty s else rest

-- One escape sequence.
abbrev pub is_escape : String → Bool
is_escape String.[] = false
is_escape (String.◌∷◌ c s) = (code c == 27) && ends_escape s

-- In front of any text, what the escape sequences of one text leave is the other.
abbrev pub Fades : String → String → Type 0
Fades a b = (t : String) → strip (a <> t) ≡ b <> strip t

kept :
    (c : Char) (r : Bool → String)
    → code c == 27 ≡ false
    → keep false c (r (goes_on false c)) ≡ String.◌∷◌ c (r false)
kept c r e = rw e refl

dropped :
    (c : Char) (r : Bool → String)
    → code c == 27 ≡ true
    → keep false c (r (goes_on false c)) ≡ r true
dropped c r e = rw e refl

plain_parts :
    (c : Char) (s : String)
    → is_plain (String.◌∷◌ c s) ≡ true
    → (code c == 27 ≡ false) × (is_plain s ≡ true)
plain_parts c s h = ground (arith, h)

escape_parts :
    (c : Char) (s : String)
    → is_escape (String.◌∷◌ c s) ≡ true
    → (code c == 27 ≡ true) × (ends_escape s ≡ true)
escape_parts c s h = ground (arith, h)

pub plain-Fades : (s : String) → is_plain s ≡ true → Fades s s
plain-Fades String.[] h t = rw (nil-append t, nil-append (strip t)) refl
plain-Fades (String.◌∷◌ c s) h t =
    let (e, h') = plain_parts c s h in
    rw (cons-append c s t, cons-append c s (strip t))
      (kept c (λ b. strip_from b (s <> t)) e ∙ ap (String.◌∷◌ c) (plain-Fades s h' t))

escape_step :
    (b : Bool) (c : Char) (s t : String)
    → code c == b'm' ≡ b
    → (if b then is_empty s else ends_escape s) ≡ true
    → (ends_escape s ≡ true → strip_from true (s <> t) ≡ strip t)
    → strip_from (not b) (s <> t) ≡ strip t
escape_step true c String.[] t e h ih = ap strip (nil-append t)
escape_step true c (String.◌∷◌ x s) t e h ih = ground arith
escape_step false c s t e h ih = ih h

escape_ends : (s t : String) → ends_escape s ≡ true → strip_from true (s <> t) ≡ strip t
escape_ends String.[] t h = ground arith
escape_ends (String.◌∷◌ c s) t h =
    rw (cons-append c s t) (escape_step (code c == b'm') c s t refl h (escape_ends s t))

pub escape-Fades : (s : String) → is_escape s ≡ true → Fades s ""
escape-Fades String.[] h t = ground arith
escape-Fades (String.◌∷◌ c s) h t =
    let (e, h') = escape_parts c s h in
    rw (cons-append c s t, nil-append (strip t))
      (dropped c (λ b. strip_from b (s <> t)) e ∙ escape_ends s t h')

pub append-Fades : (a b a' b' : String) → Fades a b → Fades a' b' → Fades (a <> a') (b <> b')
append-Fades a b a' b' f g t =
    ap strip (append_assoc a a' t)
    ∙ f (a' <> t)
    ∙ ap (λ s. b <> s) (g t)
    ∙ sym (append_assoc b b' (strip t))
