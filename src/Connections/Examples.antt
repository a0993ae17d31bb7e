-- ===== src/Connections/Examples.antt =====
-- Tests of the model of hikyuu/httpd/ConnectionManager.h, and its theorems at concrete inputs.
use hku_rest.Prelude.{ℕ, ◌+◌, ◌≤◌, ◌^◌, ◌≡◌, refl, ◌≢◌, some, List, [], ◌∷◌, ◌++◌, arith, get_elem?}
use hku_rest.Connections.Ints.{pos, negsuc}
use hku_rest.Connections.Active.{CountsActive, run-CountsActive}
use hku_rest.Connections.Waiting.{CountsWaiting, run-CountsWaiting}
use hku_rest.Connections.Limit.{AtMost, current_count-le}
use hku_rest.Connections.Overrun.{over_limit, finish_acquire}
use hku_rest.Connections.Wakeups.{IsForgotten, notify_serves_head, notify_lost}
use hku_rest.Connections.Shutdown.{shutdown, shutdown_wakes_all, shutdown_grants, reset_undercounts}
use hku_rest.Connections.Permits.{permits_valid_distinct, wrapped_permit_leaks}
use hku_rest.Connections.Queue.{IsQueued, run-IsQueued}
use hku_rest.Connections.{
  active, handed, Manager, Event, arrive, advance, expire, shutdown_flag, shutdown_drain,
  shutdown_cancel, shutdown_reset, init, run, step, suspended, trying, holding, resumed, aborted,
  abandoned,
}

-- One permit: coroutine 0 holds it, 1 is suspended in the queue, 2 is about to try.
abbrev crowding : List Event
crowding =
    arrive
    ∷ arrive
    ∷ arrive
    ∷ advance 0
    ∷ advance 0
    ∷ advance 1
    ∷ advance 1
    ∷ advance 1
    ∷ advance 1
    ∷ advance 2
    ∷ []

abbrev crowded : Manager
unfolding run init
crowded = run crowding (init 1)

crowded_procs : crowded.procs ≡ holding 0 ∷ suspended ∷ trying ∷ []
unfolding run init
crowded_procs = refl

-- The same, with coroutine 0 in `release`.
abbrev leaving : Manager
unfolding run init
leaving = run (crowding ++ advance 0 ∷ []) (init 1)

run-CountsActive_example : CountsActive (run (crowding ++ expire 1 ∷ advance 0 ∷ []) (init 1))
run-CountsActive_example = run-CountsActive 1 (crowding ++ expire 1 ∷ advance 0 ∷ [])

run-CountsWaiting_case : CountsWaiting (run (arrive ∷ advance 0 ∷ advance 0 ∷ []) (init 0))
run-CountsWaiting_case =
    run-CountsWaiting 0 (arrive ∷ advance 0 ∷ advance 0 ∷ [])
      ((λ e. cc), ((λ e. cc), ((λ e. cc), tt)))

run-IsQueued_example : IsQueued (run crowding (init 1))
run-IsQueued_example = run-IsQueued 1 crowding

current_count-le_example :
    AtMost (run (arrive ∷ advance 0 ∷ advance 0 ∷ advance 0 ∷ []) (init 1)).current_count 1
    × (active (run (arrive ∷ advance 0 ∷ advance 0 ∷ advance 0 ∷ []) (init 1))
          + handed (run (arrive ∷ advance 0 ∷ advance 0 ∷ advance 0 ∷ []) (init 1))
        ≤ 1)
unfolding run init step
current_count-le_example =
    current_count-le 1 (arrive ∷ advance 0 ∷ advance 0 ∷ advance 0 ∷ [])
      (tt, ((λ e. refl), ((λ e. refl), ((λ e. refl), tt))))

over_limit_example :
    (run (advance 0 ∷ advance 0 ∷ advance 2 ∷ finish_acquire 1) crowded).current_count ≡ pos 2
unfolding run init
over_limit_example =
    over_limit crowded 0 1 2 0 0 [] refl refl refl refl refl refl refl (omega arith) (omega arith)
      (omega arith)

notify_serves_head_case : get_elem? (step (advance 0) leaving).procs 1 ≡ some (resumed aborted)
unfolding run init
notify_serves_head_case = (notify_serves_head leaving 0 1 [] refl refl refl (omega arith)).1

abbrev hasty_events : List Event
hasty_events =
    arrive ∷ arrive ∷ advance 0 ∷ advance 0 ∷ advance 1 ∷ advance 1 ∷ advance 1 ∷ advance 0 ∷ []

-- A third coroutine comes, takes the permit and releases it, and the server is shut down.
abbrev meanwhile : List Event
meanwhile =
    arrive
    ∷ advance 2
    ∷ advance 2
    ∷ advance 2
    ∷ advance 2
    ∷ shutdown_flag
    ∷ shutdown_drain
    ∷ shutdown_cancel
    ∷ []

notify_lost_example :
    IsForgotten 1 (run meanwhile (step (advance 1) (step (advance 0) (run hasty_events (init 1)))))
unfolding run init step
notify_lost_example =
    notify_lost 1 hasty_events meanwhile 0 1 [] refl refl refl refl
      (tt, (tt, (tt, (tt, (tt, (tt, (tt, (tt, tt))))))))

shutdown_wakes_all_case : get_elem? (run (shutdown crowded) crowded).procs 1 ≢ some suspended
unfolding run init
shutdown_wakes_all_case = (shutdown_wakes_all crowded 1 (omega arith)).3

abbrev closing : Manager
unfolding run init
closing = run (shutdown_flag ∷ shutdown_drain ∷ []) crowded

shutdown_grants_case : (run (shutdown_cancel ∷ finish_acquire 1) closing).current_count ≡ pos 2
unfolding run init
shutdown_grants_case = (shutdown_grants closing 1 [] refl refl).1

abbrev expiring : Manager
unfolding run init
expiring = run (expire 1 ∷ advance 1 ∷ []) crowded

undercounted : (run (shutdown_reset ∷ advance 1 ∷ []) expiring).waiting_count ≡ negsuc 0
unfolding run init
undercounted = reset_undercounts expiring 1 _ refl

abbrev pair_up : List Event
pair_up = arrive ∷ arrive ∷ advance 0 ∷ advance 1 ∷ advance 0 ∷ advance 1 ∷ []

permits_valid_distinct_case : ◌≢◌ {A = ℕ} 0 1
unfolding run init
permits_valid_distinct_case =
    (permits_valid_distinct 2 pair_up 0 1 0 1 (omega arith) refl refl (omega arith)).2

abbrev worn : Manager
worn = record (init 1) { next_permit_id = 2 ^ 31; procs = trying ∷ [] }

wrapped_permit : get_elem? (run (advance 0 ∷ advance 0 ∷ []) worn).procs 0 ≡ some abandoned
unfolding init
wrapped_permit = (wrapped_permit_leaks worn 0 refl refl refl).1
