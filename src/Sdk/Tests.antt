-- ===== src/Sdk/Tests.antt =====
-- Tests of the public package (index.go), and its theorems at concrete options.
use origamy_go_sdk.Base.{ℕ, inl, ◌≡◌, refl, ◌↔◌, ◌<◌, none, some, List, [], ◌∷◌, get_elem?}
use origamy_go_sdk.Base.Int.{negsuc}
use origamy_go_sdk.Message.Context.{zero_context}
use origamy_go_sdk.Config as Core
use origamy_go_sdk.Config.{Store}
use origamy_go_sdk.Config.Defaults.{IsReady}
use origamy_go_sdk.Client.Setup.{Client, make_default_queue, make_default_dispatcher}
use origamy_go_sdk.Client.Setup
use origamy_go_sdk.Sdk.{
  ClientOption, to_core_config, with_interval, with_endpoint, with_default_context, new_with_config,
  new, apply_options,
}
use origamy_go_sdk.Sdk.Creation.{IsImpossible, chosen, new_nil_iff, new-IsReady}

abbrev bad : List ClientOption
bad = with_interval (negsuc 0) ∷ []

new_nil_iff_example : ((new "wk" bad []).0 ≡ none) ↔ IsImpossible (chosen "wk" bad [])
new_nil_iff_example = new_nil_iff "wk" bad []

nil_client : (new "wk" bad []).0 ≡ none
unfolding apply_options with_interval
nil_client = (new_nil_iff "wk" bad []).1 (inl refl)

abbrev good : List ClientOption
good = with_endpoint "http://localhost" ∷ with_default_context (some 0) ∷ []

abbrev contexts : Store
contexts = zero_context ∷ []

-- The client that `New` makes of these options.
abbrev some_client : Client
some_client =
    let c =
      (Core.make_config (to_core_config (chosen "wk" good contexts) contexts).0
        (to_core_config (chosen "wk" good contexts) contexts).1).0 in
    record {
      config = c;
      key = "wk";
      queue = Setup.made (make_default_queue c);
      dispatcher = Setup.made (make_default_dispatcher "wk" c);
    }

new-IsReady_example :
    IsReady some_client.config (new "wk" good contexts).1
    × ((q : ℕ) → q < 1 → get_elem? (new "wk" good contexts).1 q ≡ get_elem? contexts q)
unfolding new new_with_config to_core_config Core.validate Core.make_config apply_options
    with_endpoint with_default_context
new-IsReady_example = new-IsReady "wk" good contexts {client = some_client} refl
