-- ===== src/Dispatcher/Noop/Plain.antt =====
-- What internal/dispatcher/noop.go prints with colours, against what it prints without.
pub mod Lines
pub mod Messages
use Prim.Native.String.{◌++◌ as ◌<>◌}
use text.Mathlib.TextLemmas.{nil-append, append-nil}
use origamy_go_sdk.Base.{
  ℕ, zero, suc, ◌+◌, ◌%◌, ◌/◌, ◌≡◌, refl, subst, sym, ap, ap₂, ◌∙◌, Bool, true, false, String,
  Option, none, some, List, [], ◌∷◌, ◌++◌, map, arith, if◌then◌else◌, ltb, All,
}
use origamy_go_sdk.Base.Int.{pos}
use origamy_go_sdk.Data.{Time, Value, Entries, end, entry}
use origamy_go_sdk.Data.Dict.{Dict, same, lookup}
use origamy_go_sdk.Dispatcher.Noop.{
  NoopDispatcher, repeat, println, print_line, color, highlight, success, warn, dim, color_type,
  wrapped, colors,
}
use origamy_go_sdk.Dispatcher.Noop.Colours.{
  strip, is_plain, is_escape, Fades, plain-Fades, escape-Fades, append-Fades,
}

pub strip-Fades : (a b : String) → Fades a b → strip a ≡ b
strip-Fades a b f = ap strip (sym (append-nil a)) ∙ f "" ∙ append-nil b

-- Texts that fade to others, one by one.
pub data AllFade : List String → List String → Type 0 where
  nothing : AllFade [] []
  line :
      {x y : String} {xs ys : List String} → Fades x y → AllFade xs ys → AllFade (x ∷ xs) (y ∷ ys)

pub append-AllFade :
    {xs ys xs' ys' : List String}
    → AllFade xs ys
    → AllFade xs' ys'
    → AllFade (xs ++ xs') (ys ++ ys')
append-AllFade nothing g = g
append-AllFade (line f fs) g = line f (append-AllFade fs g)

pub strip-AllFade : {xs ys : List String} → AllFade xs ys → map strip xs ≡ ys
strip-AllFade nothing = refl
strip-AllFade (line f fs) = ap₂ ◌∷◌ (strip-Fades _ _ f) (strip-AllFade fs)

-- A text between its escape sequences.
pub painted :
    (b : Bool) (code s : String)
    → is_escape code ≡ true
    → is_plain s ≡ true
    → Fades (if b then code <> s <> "\u{1b}[0m" else s) s
painted false code s h p = plain-Fades s p
painted true code s h p =
    subst (Fades (code <> s <> "\u{1b}[0m")) (nil-append (s <> "") ∙ append-nil s) (
      append-Fades code "" (s <> "\u{1b}[0m") (s <> "") (escape-Fades code h)
        (append-Fades s s "\u{1b}[0m" "" (plain-Fades s p) (escape-Fades "\u{1b}[0m" refl)))

-- The dispatcher without its colours.
abbrev pub uncolored : NoopDispatcher → NoopDispatcher
uncolored d = record d { colored = false }

pub lookup-All :
    (P : String → Bool) (key : String) (m : Dict String) (c : String)
    → All (λ e. P e.1 ≡ true) m
    → lookup key m ≡ some c
    → P c ≡ true
unfolding lookup
lookup-All P key [] c a h = ground arith
lookup-All P key (e ∷ m) c a h = ground (arith, lookup-All P key m c a.1, a.0)

wrapped-Fades :
    (d : NoopDispatcher) (s : String) (o : Option String)
    → ((c : String) → o ≡ some c → is_escape c ≡ true)
    → is_plain s ≡ true
    → Fades (wrapped d s o) s
wrapped-Fades d s none h p = plain-Fades s p
wrapped-Fades d s (some c) h p = painted true c s (h c refl) p

module _ (d : NoopDispatcher) (s : String) (p : is_plain s ≡ true) where
  pub highlight-Fades : Fades (highlight d s) (highlight (uncolored d) s)
  unfolding highlight
  highlight-Fades = painted d.colored "\u{1b}[1;36m" s refl p

  pub success-Fades : Fades (success d s) (success (uncolored d) s)
  unfolding success
  success-Fades = painted d.colored "\u{1b}[1;32m" s refl p

  pub warn-Fades : Fades (warn d s) (warn (uncolored d) s)
  unfolding warn
  warn-Fades = painted d.colored "\u{1b}[1;33m" s refl p

  pub dim-Fades : Fades (dim d s) (dim (uncolored d) s)
  unfolding dim
  dim-Fades = painted d.colored "\u{1b}[2m" s refl p

  colored_type : (b : Bool) → Fades (if b then wrapped d s (lookup s (colors d)) else s) s
  colored_type false = plain-Fades s p
  colored_type true =
      wrapped-Fades d s (lookup s (colors d))
        (λ c.
          lookup-All is_escape s (colors d) c (refl, (refl, (refl, (refl, (refl, (refl, tt)))))))
        p

  pub color_type-Fades : Fades (color_type d s) (color_type (uncolored d) s)
  unfolding color_type
  color_type-Fades = colored_type d.colored

same_either : (b : Bool) (s : String) → is_plain s ≡ true → Fades (if b then s else s) s
same_either true s p = plain-Fades s p
same_either false s p = plain-Fades s p

pub color-Fades :
    (d : NoopDispatcher) (s code : String)
    → is_plain s ≡ true
    → Fades (color d s code) (color (uncolored d) s code)
unfolding color
color-Fades d s code p = same_either d.colored s p
