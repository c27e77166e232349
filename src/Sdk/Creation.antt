-- ===== src/Sdk/Creation.antt =====
-- What the public package (index.go) makes of a configuration: a client that is ready to run, or nil,
-- and what becomes of the application's own context.
use origamy_go_sdk.Base.{
  ◌∙◌, [], ◌∷◌, length-append, ℕ, ◌<◌, ◌≡◌, refl, ◌≢◌, ◌↔◌, ◌⊎◌, true, String, Option, none, some,
  List, arith, length, get_elem?,
}
use origamy_go_sdk.Base.Int.{is_negative}
use origamy_go_sdk.Message.Context.{Context}
use origamy_go_sdk.Data.{ok}
use origamy_go_sdk.Config as Core
use origamy_go_sdk.Config.{Store}
use origamy_go_sdk.Config.Defaults.{
  IsReady, IsAllocated, make_config-IsReady, make_config-store, get_elem?-append_old,
  get_elem?-append_new,
}
use origamy_go_sdk.Client.Setup.{Client}
use origamy_go_sdk.Sdk.{
  Config, zero_config, ClientOption, to_core_config, apply_options, new_with_config, new, copy_of,
  copy_context,
}

-- A negative interval or batch size.
abbrev pub IsImpossible : Config → Type 0
IsImpossible c = (is_negative c.interval ≡ true) ⊎ (is_negative c.batch_size ≡ true)

created :
    (key : String) (c : Config) (s : Store) {client : Client}
    → (new_with_config key c s).0 ≡ ok client
    → (Core.validate (to_core_config c s).0 ≡ none)
      × (client.config ≡ (Core.make_config (to_core_config c s).0 (to_core_config c s).1).0)
      × ((new_with_config key c s).1
          ≡ (Core.make_config (to_core_config c s).0 (to_core_config c s).1).1)
unfolding new_with_config
created key c s h = ground arith

-- The pointer of the core configuration is nil or new: it reaches the copy, and no context that was
-- there before.
copied :
    (c : Config) (s : Store) (o : Option ℕ)
    → c.default_context ≡ o
    → IsAllocated (to_core_config c s).0.default_context (to_core_config c s).1
      × ((q : ℕ)
          → q < length s
          → ((to_core_config c s).0.default_context ≢ some q)
            × (q < length (to_core_config c s).1)
            × (get_elem? (to_core_config c s).1 q ≡ get_elem? s q))
unfolding to_core_config
copied c s none e = rw (e, copy_context) (tt, λ q h. (λ e. cc, h, refl))
copied c s (some p) e = rw (e, copy_context) (reached (get_elem? s p))
  where
    reached :
        (o : Option Context)
        → IsAllocated (copy_of o s).0 (copy_of o s).1
          × ((q : ℕ)
              → q < length s
              → ((copy_of o s).0 ≢ some q)
                × (q < length (copy_of o s).1)
                × (get_elem? (copy_of o s).1 q ≡ get_elem? s q))
    reached none = (tt, λ q h. (λ e. cc, h, refl))
    reached (some ctx) = (
      (ctx, get_elem?-append_new s ctx),
      λ q h. (
        λ e. ground arith,
        omega (arith, length-append s (ctx ∷ [])),
        get_elem?-append_old s ctx q h,
      ),
    )

module _ (key : String) (opts : List ClientOption) (s : Store) where
  abbrev pub chosen : Config
  chosen = apply_options opts zero_config

  -- `New` returns nil exactly when the options chose a negative interval or a negative batch size.
  pub new_nil_iff : ((new key opts s).0 ≡ none) ↔ IsImpossible chosen
  unfolding new new_with_config to_core_config Core.validate
  new_nil_iff = (λ h. ground arith, λ h. ground arith)

  -- A client that `New` returns has an endpoint, a positive interval and batch size, a limit of requests
  -- that is not zero, and no nil where the client reads a field without a test, whatever the options; its
  -- default context carries the library's name and version; and every context that the application had
  -- is as it was before.
  pub new-IsReady :
      {client : Client}
      → (new key opts s).0 ≡ some client
      → IsReady client.config (new key opts s).1
        × ((q : ℕ) → q < length s → get_elem? (new key opts s).1 q ≡ get_elem? s q)
  unfolding new
  new-IsReady {client} h =
      let (v, c, st) = created key chosen s {client = client} (ground (arith, h)) in
      let (a, old) = copied chosen s chosen.default_context refl in
      rw (c, st)
        (
          make_config-IsReady (to_core_config chosen s).1 (to_core_config chosen s).0 v a,
          λ q k.
              make_config-store (to_core_config chosen s).1 (to_core_config chosen s).0 q
                (old q k).1 (old q k).0
              ∙ (old q k).2,
        )
