-- ===== src/Executor/Tests.antt =====
-- Tests of the executor (internal/core/executor.go), and its theorems at a concrete run.
use origamy_go_sdk.Base.{ℕ, ◌+◌, ◌≡◌, refl, ◌≤◌, ◌↔◌, some, [], ◌∷◌, false, true}
use origamy_go_sdk.Executor.{
  do_lock, do_check, do_send, do_count, do_unlock, do_return, loop_receive, loop_spawn, run_task,
  act, World, new_world, new_executor, Reach, start, next, does, acts,
}
use origamy_go_sdk.Executor.Slots.{Slots, label_of, used, reached-Slots}
use origamy_go_sdk.Executor.Capacity.{
  tally, in_flight, uncounted, holds, in_flight_capped, refuses_exactly_full,
}

-- One task of a capacity of one is running, and a second is at the test of `do`.
abbrev busy : World ℕ
busy = record {
  executor = record {
    queue = record { buffer = []; capacity = 1; is_shut = false };
    locked = true;
    size = 1;
    cap = 1;
  };
  threads = do_check 8 ∷ do_return true ∷ loop_receive ∷ run_task 7 ∷ [];
}

busy_reached : Reach (new_world ℕ 1) busy
unfolding act new_executor
busy_reached =
    let called = next (next start (does 7)) (acts [] (do_lock 7) (loop_receive ∷ []) _ refl refl) in
    let tested = next called (acts [] (do_check 7) (loop_receive ∷ []) _ refl refl) in
    let given = next tested (acts [] (do_send 7) (loop_receive ∷ []) _ refl refl) in
    let counted = next given (acts [] (do_count 7) (loop_receive ∷ []) _ refl refl) in
    let returned = next counted (acts [] (do_unlock true) (loop_receive ∷ []) _ refl refl) in
    let taken = next returned (acts (do_return true ∷ []) loop_receive [] _ refl refl) in
    let started = next taken (acts (do_return true ∷ []) (loop_spawn 7) [] _ refl refl) in
    next (next started (does 8))
      (acts [] (do_lock 8) (do_return true ∷ loop_receive ∷ run_task 7 ∷ []) _ refl refl)

in_flight_capped_example :
    (0 + tally in_flight busy.threads ≤ 1)
    × (tally uncounted busy.threads ≡ 0 → 1 ≡ 0 + tally in_flight busy.threads)
    × (tally holds busy.threads ≤ 1)
in_flight_capped_example = in_flight_capped 1 busy_reached

full_refuses :
    (act busy.executor (do_check 8)
      ≡ some (record { executor = busy.executor; thread = do_unlock false; started = [] }))
    ↔ (0 + tally in_flight busy.threads ≡ 1)
full_refuses =
    refuses_exactly_full 1 busy_reached 8 [] (do_return true ∷ loop_receive ∷ run_task 7 ∷ []) refl

reached-Slots_example : Slots 1 (label_of {Task = ℕ} (do_check 8) (do_unlock false)) (used busy) (
    used
      (record busy { threads = do_unlock false ∷ do_return true ∷ loop_receive ∷ run_task 7 ∷ [] }))
unfolding act
reached-Slots_example =
    reached-Slots 1 [] (do_check 8) (do_return true ∷ loop_receive ∷ run_task 7 ∷ []) _ busy_reached
      refl refl
