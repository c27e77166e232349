-- ===== src/Data/Dict.antt =====
-- Go maps with text keys, as association lists without a second entry of a key.
use text.Mathlib.Text.{◌==◌}
use text.Mathlib.TextEquality.{eq_iff}
use origamy_go_sdk.Base.{
  String, ◌≡◌, refl, Bool, Option, none, some, List, [], ◌∷◌, arith, if◌then◌else◌,
}

abbrev pub same : String → String → Bool
same s t = s == t

pub same-eq : (s t : String) → same s t ≡ Bool.true → s ≡ t
same-eq s t = (eq_iff s t).0

pub same_refl : (s : String) → same s s ≡ Bool.true
same_refl s = (eq_iff s s).1 refl

abbrev pub Dict : Type 0 → Type 0
Dict V = List (String × V)

module _ {V : Type 0} where
  unfoldable pub lookup : String → Dict V → Option V
  lookup key [] = none
  lookup key (entry ∷ rest) = if same key entry.0 then some entry.1 else lookup key rest

  -- `m[key] = value`
  unfoldable pub insert : String → V → Dict V → Dict V
  insert key value [] = (key, value) ∷ []
  insert key value (entry ∷ rest) =
      let kept = insert key value rest in
      if same key entry.0 then (key, value) ∷ rest else entry ∷ kept

  pub lookup-insert :
      (asked key : String) (value : V) (m : Dict V)
      → lookup asked (insert key value m) ≡ (if same asked key then some value else lookup asked m)
  unfolding lookup insert
  lookup-insert asked key value [] = refl
  lookup-insert asked key value (entry ∷ rest) = ground (
    arith,
    eq_iff asked key,
    eq_iff key entry.0,
    eq_iff asked entry.0,
    lookup-insert asked key value rest,
  )
