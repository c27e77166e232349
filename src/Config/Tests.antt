-- ===== src/Config/Tests.antt =====
-- The theorems of the configuration (internal/core/config.go) at a concrete one.
use origamy_go_sdk.Base.{◌≡◌, refl, false, none, some, [], ◌∷◌, arith, get_elem?}
use origamy_go_sdk.Base.Int.{pos}
use origamy_go_sdk.Message.Context.{zero_context}
use origamy_go_sdk.Config.{Config, Store, validate, make_config}
use origamy_go_sdk.Config.Defaults.{IsReady, make_config-IsReady, make_config-store}

abbrev plain : Config
plain = record {
  endpoint = "";
  interval = pos 0;
  transport = none;
  dispatcher = none;
  queue = none;
  queue_capacity = pos 0;
  logger = none;
  callback = none;
  batch_size = pos 3;
  verbose = false;
  default_context = some 1;
  retry_after = none;
  uid = none;
  now = none;
  max_concurrent_requests = pos 0;
}

abbrev contexts : Store
contexts = zero_context ∷ zero_context ∷ []

a_loop_can_run : IsReady (make_config plain contexts).0 (make_config plain contexts).1
unfolding validate
a_loop_can_run = make_config-IsReady contexts plain refl (zero_context, refl)

store_kept : get_elem? (make_config plain contexts).1 0 ≡ some zero_context
store_kept = make_config-store contexts plain 0 (omega arith) (λ e. ground arith)
