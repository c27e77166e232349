-- ===== src/Segments/Rows.antt =====
-- The rows of the requests of segments.go: which members `members[start:end]` takes, and that it takes
-- them all.
use origamy_go_sdk.Base.{
  ℕ, zero, suc, ◌+◌, ◌-◌, ◌%◌, ◌^◌, ◌≤◌, ◌<◌, min, ◌≡◌, refl, sym, ◌∙◌, ap, Bool, true, false,
  Bool-cases, inl, inr, List, [], ◌∷◌, ◌++◌, length, take, drop, take-append-drop, length-take,
  length-drop, arith, get_elem?,
}
use origamy_go_sdk.Data.{Result}
use origamy_go_sdk.Segments.{
  SegmentMember, SegmentMembersResult, SegmentMembersRequest, SegmentMembersOption,
  max_members_per_request, add, request, rows,
}

suc_add : (n m : ℕ) → suc (n + m) ≡ suc n + m
suc_add n m = omega arith

zero_add : (m : ℕ) → m ≡ 0 + m
zero_add m = omega arith

add_zero : (m : ℕ) → m ≡ m + 0
add_zero m = omega arith

module _ {A : Type 0} where
  -- A number that stops at the end of a list takes as much as one that goes past it.
  take_enough : (k n : ℕ) (xs : List A) → k ≡ min n (length xs) → take k xs ≡ take n xs
  take_enough zero zero xs e = refl
  take_enough zero (suc n) [] e = refl
  take_enough zero (suc n) (x ∷ xs) e = ground arith
  take_enough (suc k) zero xs e = ground arith
  take_enough (suc k) (suc n) [] e = ground arith
  take_enough (suc k) (suc n) (x ∷ xs) e = ap (λ t. x ∷ t) (take_enough k n xs (omega arith))

  drop-drop : (m n : ℕ) (xs : List A) → drop m (drop n xs) ≡ drop (n + m) xs
  drop-drop m zero xs = ap (λ k. drop k xs) (zero_add m)
  drop-drop zero (suc n) [] = ap (λ k. drop {A = A} k []) (add_zero (suc n))
  drop-drop (suc m) (suc n) [] = ap (λ k. drop {A = A} k []) (suc_add n (suc m))
  drop-drop m (suc n) (x ∷ xs) = drop-drop m n xs ∙ ap (λ k. drop k (x ∷ xs)) (suc_add n m)

  pub drop_all : (n : ℕ) (xs : List A) → length xs ≤ n → drop n xs ≡ []
  drop_all zero [] h = refl
  drop_all zero (x ∷ xs) h = ground arith
  drop_all (suc n) [] h = refl
  drop_all (suc n) (x ∷ xs) h = drop_all n xs (omega arith)

  pub get_elem?-drop : (n i : ℕ) (xs : List A) → get_elem? (drop n xs) i ≡ get_elem? xs (n + i)
  get_elem?-drop zero i xs = ap (get_elem? xs) (zero_add i)
  get_elem?-drop (suc n) i [] = refl
  get_elem?-drop (suc n) i (x ∷ xs) = get_elem?-drop n i xs ∙ ap (get_elem? (x ∷ xs)) (suc_add n i)

  pub get_elem?-take :
      (n i : ℕ) (xs : List A) → i < length (take n xs) → get_elem? (take n xs) i ≡ get_elem? xs i
  get_elem?-take zero i xs h = ground arith
  get_elem?-take (suc n) i [] h = refl
  get_elem?-take (suc n) zero (x ∷ xs) h = refl
  get_elem?-take (suc n) (suc i) (x ∷ xs) h = get_elem?-take n i xs (omega arith)

-- The rows that a request carries.
abbrev pub listed : Bool → SegmentMembersRequest → List SegmentMember
listed true r = r.remove_members
listed false r = r.add_members

abbrev pub IsChunk : List SegmentMember → Type 0
IsChunk ms = (0 < length ms) × (length ms ≤ max_members_per_request)

pub add_mod : (a b t : ℕ) → ((a + b) % 2 ^ 64 + t) % 2 ^ 64 ≡ (a + (b + t)) % 2 ^ 64
add_mod a b t = omega arith

pub add_bound : (a b : ℕ) → add a b < 2 ^ 64
add_bound a b = omega arith

pub mod_small : (a : ℕ) → a < 2 ^ 64 → a ≡ (a + 0) % 2 ^ 64
mod_small a h = omega arith

module _ (post : ℕ → SegmentMembersRequest → Result SegmentMembersResult)
    (members : List SegmentMember) (remove : Bool) (opts : List SegmentMembersOption) where
  abbrev pub rows_at : ℕ → List SegmentMember
  rows_at = rows post members remove opts

  pub listed-request :
      (start : ℕ) → listed remove (request post members remove opts start) ≡ rows_at start
  unfolding request
  listed-request start = elim (Bool-cases remove) [ inl e ↦ rw e | inr e ↦ rw e ]

  pub rows_take :
      (start : ℕ)
      → start ≤ length members
      → rows_at start ≡ take max_members_per_request (drop start members)
  rows_take start h =
      take_enough (min (start + 1000) (length members) - start) 1000 (drop start members)
        (omega (arith, length-drop start members))

  pub rows_split :
      (start : ℕ)
      → start ≤ length members
      → rows_at start ++ drop (start + max_members_per_request) members ≡ drop start members
  rows_split start h =
      ap (λ t. t ++ drop (start + 1000) members) (rows_take start h)
      ∙ ap (λ t. take 1000 (drop start members) ++ t) (sym (drop-drop 1000 start members))
      ∙ take-append-drop 1000 (drop start members)

  pub rows-IsChunk : (start : ℕ) → start < length members → IsChunk (rows_at start)
  rows-IsChunk start h =
      let n = min (start + 1000) (length members) - start in
      let e : length (rows_at start) ≡ min n (length (drop start members)) =
        length-take n (drop start members) in
      omega (arith, e, length-drop start members)
