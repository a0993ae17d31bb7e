-- ===== src/Connections/Shutdown.antt =====
-- `shutdown` of hikyuu/httpd/ConnectionManager.h: it ends every wait, and what the waiters get.
use hku_rest.Prelude.{
  ℕ, ◌<◌, ◌≡◌, refl, ◌≢◌, true, Option, some, List, [], ◌∷◌, ◌++◌, arith, get_elem?, set,
  get_elem?-set_self, get_elem?-set, count_if-append, ◌==◌,
}
use hku_rest.Connections.Ints.{negsuc, incr}
use hku_rest.Connections.Lemmas.{step-advance}
use hku_rest.Connections.Overrun.{finish_acquire, woken_takes}
use hku_rest.Connections.{
  Manager, occurs, Phase, Wake, Event, run, advance_at, uncount, cancel_wait, cancel, cancel_first,
  drain, raise_flag, reset_waiting, aborted, suspended, resumed, advance, removed, holding,
  shutdown_flag, shutdown_drain, shutdown_cancel, shutdown_reset,
}

-- As many cancellations as there are timers to cancel.
abbrev pub cancel_all : List ℕ → List Event
cancel_all [] = []
cancel_all (j ∷ js) = shutdown_cancel ∷ cancel_all js

-- The whole of `shutdown`, with no other coroutine in between.
abbrev pub shutdown : Manager → List Event
shutdown m = shutdown_flag ∷ shutdown_drain ∷ cancel_all (m.cancelling ++ m.wait_queue)

unfoldable pub cancel_each : List ℕ → List Phase → List Phase
cancel_each [] ps = ps
cancel_each (j ∷ js) ps = cancel_each js (cancel j ps)

cancel_wait-ne_suspended :
    (i j : ℕ) (o : Option Phase) (ps : List Phase)
    → get_elem? ps i ≡ o
    → get_elem? ps j ≢ some suspended
    → get_elem? (cancel_wait i o ps) j ≢ some suspended
unfolding cancel_wait
cancel_wait-ne_suspended i j (some suspended) ps e h =
    ground (arith, get_elem?-set ps i j (resumed aborted) suspended e, h)
cancel_wait-ne_suspended i j _ ps e h = h

cancel_wait_self :
    (i : ℕ) (o : Option Phase) (ps : List Phase)
    → get_elem? ps i ≡ o
    → get_elem? (cancel_wait i o ps) i ≢ some suspended
unfolding cancel_wait
cancel_wait_self i (some suspended) ps e =
    ground (arith, get_elem?-set_self ps i (resumed aborted) suspended e)
cancel_wait_self i _ ps e = λ h. cc

cancel_each-ne_suspended :
    (js : List ℕ) (j : ℕ) (ps : List Phase)
    → get_elem? ps j ≢ some suspended
    → get_elem? (cancel_each js ps) j ≢ some suspended
unfolding cancel_each cancel
cancel_each-ne_suspended [] j ps h = h
cancel_each-ne_suspended (i ∷ js) j ps h =
    cancel_each-ne_suspended js j _ (cancel_wait-ne_suspended i j (get_elem? ps i) ps refl h)

pub cancel_each-wakes :
    (js : List ℕ) (j : ℕ) (ps : List Phase)
    → 0 < occurs j js
    → get_elem? (cancel_each js ps) j ≢ some suspended
unfolding cancel_each cancel
cancel_each-wakes [] j ps h = absurd (omega arith)
cancel_each-wakes (i ∷ js) j ps h = ground (
  arith,
  cancel_wait_self i (get_elem? ps i) ps refl,
  cancel_each-ne_suspended js j (cancel i ps),
  cancel_each-wakes js j (cancel i ps),
)

cancel_all-run :
    (js : List ℕ) (m : Manager)
    → m.cancelling ≡ js
    → run (cancel_all js) m ≡ record m { cancelling = []; procs = cancel_each js m.procs }
unfolding run cancel_each
cancel_all-run [] m e = ground arith
cancel_all-run (j ∷ js) m e =
    rw (e, cancel_first)
      (cancel_all-run js (record m { cancelling = js; procs = cancel j m.procs }) refl)

-- `shutdown` without interference raises the flag, empties the queue, cancels every timer that was
-- in it, and leaves none of its coroutines suspended.
pub shutdown_wakes_all :
    (m : Manager) (j : ℕ)
    → 0 < occurs j m.wait_queue
    → let m' = run (shutdown m) m in
      (m'.is_shutdown ≡ true)
      × (m'.wait_queue ≡ [])
      × (m'.cancelling ≡ [])
      × (get_elem? m'.procs j ≢ some suspended)
unfolding run raise_flag drain
shutdown_wakes_all m j h =
    let js : List ℕ = m.cancelling ++ m.wait_queue in
    let flagged : Manager = record m { is_shutdown = true; wait_queue = []; cancelling = js } in
    rw (cancel_all-run js flagged refl) (
      refl,
      refl,
      refl,
      cancel_each-wakes js j m.procs
          (omega (arith, count_if-append (λ k. k == j) m.cancelling m.wait_queue)),
    )

-- Whoever `shutdown` wakes goes on to take a permit, on top of the count and without a test of the
-- limit or of the flag.
pub shutdown_grants :
    (m : Manager) (i : ℕ) (js : List ℕ)
    → m.cancelling ≡ i ∷ js
    → get_elem? m.procs i ≡ some suspended
    → let m' = run (shutdown_cancel ∷ finish_acquire i) m in
      (get_elem? m'.procs i ≡ some (holding m.next_permit_id))
      × (m'.current_count ≡ incr m.current_count)
unfolding run cancel
shutdown_grants m i js e waiter =
    let m1 : Manager = record m { cancelling = js; procs = set m.procs i (resumed aborted) } in
    let g : get_elem? m1.procs i ≡ some (resumed aborted) =
      get_elem?-set_self m.procs i (resumed aborted) suspended waiter in
    rw (e, cancel_first, waiter, cancel_wait) ((woken_takes i m1 g).1, (woken_takes i m1 g).0)

-- A waiter that is decremented after `shutdown` has reset the count takes it below zero.
pub reset_undercounts :
    (m : Manager) (i : ℕ) (w : Wake)
    → get_elem? m.procs i ≡ some (removed w)
    → (run (shutdown_reset ∷ advance i ∷ []) m).waiting_count ≡ negsuc 0
unfolding run reset_waiting uncount advance_at
reset_undercounts m i w e = rw (step-advance i (removed w) (reset_waiting m) e)
