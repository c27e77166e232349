-- ===== src/Client/Close/Tests.antt =====
-- Two calls of `client.Close` (internal/core/analytics.go) that race, and the theorems at their end.
use origamy_go_sdk.Base.{◌+◌, ◌≡◌, refl, ◌≤◌, ◌<◌, true, false, none, some, [], ◌∷◌}
use origamy_go_sdk.Data.{closed}
use origamy_go_sdk.Client.Close.{
  Lifecycle, calm, Thread, close_quit, await_shutdown, close_dispatcher, close_return, loop_select,
  loop_exit, loop_return, act, World, new_world, calls, acts, Reach, start, next,
}
use origamy_go_sdk.Client.Close.Once.{tally, returned_nil, returned_error, close_once}

abbrev quitting : Lifecycle
quitting = record { quit = true; shutdown = false; dispatcher_closes = 0; dispatcher_panics = 0 }

abbrev ended : Lifecycle
ended = record { quit = true; shutdown = true; dispatcher_closes = 0; dispatcher_panics = 0 }

abbrev disposed : Lifecycle
disposed = record { quit = true; shutdown = true; dispatcher_closes = 1; dispatcher_panics = 0 }

abbrev late : Thread
late = close_return (some closed)

abbrev end : World
end = record { state = disposed; threads = late ∷ close_return none ∷ loop_return ∷ [] }

race : Reach (record { state = quitting; threads = await_shutdown ∷ loop_select ∷ [] }) end
unfolding act
race =
    next
      (next
        (next
          (next
            (next (next start calls) (
              acts [] close_quit (await_shutdown ∷ loop_select ∷ []) calm (quitting, late) refl
                refl))
            (acts (late ∷ await_shutdown ∷ []) loop_select [] calm (quitting, loop_exit) refl refl))
          (acts (late ∷ await_shutdown ∷ []) loop_exit [] calm (ended, loop_return) refl refl))
        (acts (late ∷ []) await_shutdown (loop_return ∷ []) calm (ended, close_dispatcher) refl
          refl))
      (acts (late ∷ []) close_dispatcher (loop_return ∷ []) calm (disposed, close_return none) refl
        refl)

first : Reach new_world (record { state = quitting; threads = await_shutdown ∷ loop_select ∷ [] })
unfolding act
first =
    next (next start calls)
      (acts [] close_quit (loop_select ∷ []) calm (quitting, await_shutdown) refl refl)

reach-append : {u v w : World} → Reach u v → Reach v w → Reach u w
reach-append p start = p
reach-append p (next q s) = next (reach-append p q) s

close_once_example :
    (end.state.dispatcher_closes ≡ tally returned_nil end.threads + end.state.dispatcher_panics)
    × (end.state.dispatcher_closes ≤ 1)
    × (0 < end.state.dispatcher_closes → end.state.shutdown ≡ true)
    × (end.state.dispatcher_panics ≤ tally returned_error end.threads)
    × (0 < tally returned_error end.threads → end.state.quit ≡ true)
close_once_example = close_once {v = end} (reach-append first race)
