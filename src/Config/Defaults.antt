-- ===== src/Config/Defaults.antt =====
-- What `validate` and `makeConfig` (internal/core/config.go) give: a configuration that a client can
-- run on.
use origamy_go_sdk.Base.{
  inl, inr, String, Bool-cases, ℕ, zero, suc, ◌<◌, ◌≡◌, refl, ap, ◌∙◌, ◌↔◌, ◌≢◌, false, Option,
  none, some, [], ◌∷◌, ◌++◌, arith, length, get_elem?, is_empty, if◌then◌else◌,
}
use origamy_go_sdk.Base.Int.{ℤ, pos, negsuc, is_zero, is_negative}
use origamy_go_sdk.Message.Context.{Context, zero_context}
use origamy_go_sdk.Config.{
  Config, Store, default_endpoint, update, allocate, validate, make_config, own_library,
}

-- Positive limits, and no nil where the client reads without a test.
pub record IsReady (c : Config) (s : Store) : Type 0 where
  pub reachable : is_empty c.endpoint ≡ false
  pub ticking : (n : ℕ) × (c.interval ≡ pos (suc n))
  pub batching : (n : ℕ) × (c.batch_size ≡ pos (suc n))
  pub working : c.max_concurrent_requests ≢ pos 0
  pub logging : c.logger ≢ none
  pub sending : c.transport ≢ none
  pub retrying : c.retry_after ≢ none
  pub naming : c.uid ≢ none
  pub timing : c.now ≢ none
  pub labelled :
      (p : ℕ) × (ctx : Context) × (c.default_context ≡ some p)
      × (get_elem? s p ≡ some ctx)
      × (own_library ctx ≡ ctx)

pub valid_iff :
    (c : Config)
    → (validate c ≡ none) ↔ ((is_negative c.interval ≡ false) × (is_negative c.batch_size ≡ false))
unfolding validate
valid_iff c = (λ h. ground arith, λ h. ground arith)

module _ (f : Context → Context) where
  pub get_elem?-update_self :
      (s : Store) (p : ℕ) (ctx : Context)
      → get_elem? s p ≡ some ctx
      → get_elem? (update f s p) p ≡ some (f ctx)
  get_elem?-update_self [] p ctx e = cc
  get_elem?-update_self (c ∷ s) zero ctx e = ground arith
  get_elem?-update_self (c ∷ s) (suc p) ctx e = get_elem?-update_self s p ctx e

  pub get_elem?-update_ne :
      (s : Store) (p q : ℕ) → p ≢ q → get_elem? (update f s p) q ≡ get_elem? s q
  get_elem?-update_ne [] p q h = refl
  get_elem?-update_ne (c ∷ s) zero zero h = absurd (h refl)
  get_elem?-update_ne (c ∷ s) zero (suc q) h = refl
  get_elem?-update_ne (c ∷ s) (suc p) zero h = refl
  get_elem?-update_ne (c ∷ s) (suc p) (suc q) h = get_elem?-update_ne s p q (λ e. h (ap suc e))

pub get_elem?-append_new : (s : Store) (c : Context) → get_elem? (s ++ c ∷ []) (length s) ≡ some c
get_elem?-append_new [] c = refl
get_elem?-append_new (x ∷ s) c = get_elem?-append_new s c

pub get_elem?-append_old :
    (s : Store) (c : Context) (q : ℕ) → q < length s → get_elem? (s ++ c ∷ []) q ≡ get_elem? s q
get_elem?-append_old [] c q h = absurd (omega arith)
get_elem?-append_old (x ∷ s) c zero h = refl
get_elem?-append_old (x ∷ s) c (suc q) h = get_elem?-append_old s c q (omega arith)

-- The pointer of a configuration, if it has one, reaches a context.
abbrev pub IsAllocated : Option ℕ → Store → Type 0
IsAllocated none s = Unit {0}
IsAllocated (some p) s = (ctx : Context) × (get_elem? s p ≡ some ctx)

filled : (e : String) → is_empty (if is_empty e then default_endpoint else e) ≡ false
filled e = elim (Bool-cases (is_empty e)) [ inl h ↦ rw h | inr h ↦ rw h h ]

module _ (s : Store) (c : Config) where
  labelled :
      (o : Option ℕ)
      → c.default_context ≡ o
      → IsAllocated o s
      → let (c', s') = make_config c s in
        (p : ℕ) × (ctx : Context) × (c'.default_context ≡ some p)
        × (get_elem? s' p ≡ some ctx)
        × (own_library ctx ≡ ctx)
  unfolding make_config
  labelled none e h = (
    length s,
    own_library zero_context,
    ground (arith, e),
    ground (
      arith,
      e,
      get_elem?-update_self own_library (s ++ zero_context ∷ []) (length s) zero_context
          (get_elem?-append_new s zero_context),
    ),
    refl,
  )
  labelled (some p) e (ctx, at) = (
    p,
    own_library ctx,
    ground (arith, e),
    ground (arith, e, get_elem?-update_self own_library s p ctx at),
    refl,
  )

  -- A configuration that `validate` accepts is one that a client can run on, once `makeConfig` has
  -- filled it in: no limit is zero or negative, no object that the client calls is nil, and the
  -- default context carries the library's name and version. Its context pointer reaches a context.
  pub make_config-IsReady :
      validate c ≡ none
      → IsAllocated c.default_context s
      → IsReady (make_config c s).0 (make_config c s).1
  unfolding make_config
  make_config-IsReady v a =
      let (i, b) = (valid_iff c).0 v in
      record {
        reachable = filled c.endpoint;
        ticking = positive c.interval 4999999999 i;
        batching = positive c.batch_size 249 b;
        working = ground arith;
        logging = ground arith;
        sending = ground arith;
        retrying = ground arith;
        naming = ground arith;
        timing = ground arith;
        labelled = labelled c.default_context refl a;
      }
    where
      positive :
          (i : ℤ) (d : ℕ)
          → is_negative i ≡ false
          → (n : ℕ) × ((if is_zero i then pos (suc d) else i) ≡ pos (suc n))
      positive (pos zero) d h = (d, refl)
      positive (pos (suc n)) d h = (n, ground arith)
      positive (negsuc n) d h = cc

  -- Of the contexts that stood in the store, `makeConfig` writes only to the one of the
  -- configuration's own pointer.
  pub make_config-store :
      (q : ℕ)
      → q < length s
      → c.default_context ≢ some q
      → get_elem? (make_config c s).1 q ≡ get_elem? s q
  unfolding make_config
  make_config-store q h ne = elsewhere c.default_context ne
    where
      elsewhere :
          (o : Option ℕ)
          → o ≢ some q
          → get_elem? (update own_library (allocate o s).1 (allocate o s).0) q ≡ get_elem? s q
      elsewhere none k =
          get_elem?-update_ne own_library (s ++ zero_context ∷ []) (length s) q (omega arith)
          ∙ get_elem?-append_old s zero_context q h
      elsewhere (some p) k = get_elem?-update_ne own_library s p q (λ e. k (ap some e))
