-- ===== src/Connections/Active.antt =====
-- `m_current_count` of hikyuu/httpd/ConnectionManager.h against the coroutines that it counts.
use hku_rest.Prelude.{
  ℕ, ◌≡◌, refl, Option, none, some, List, [], ◌∷◌, arith, get_elem?, set, count_if-set,
  count_if-append,
}
use hku_rest.Connections.Ints.{pos}
use hku_rest.Connections.Lemmas.{count_if-cancel}
use hku_rest.Connections.{
  Manager, Phase, Event, init, step, run, advance_at, expire_at, notify_queue, cancel_first,
  aborted, expired, entering, trying, counted, queued, suspended, resumed, removed, deciding,
  holding, releasing, abandoned, rejected, finished, arrive, advance, expire, shutdown_flag,
  shutdown_drain, shutdown_cancel, shutdown_reset, is_active, active,
}

-- `m_current_count` counts the coroutines that were given a permit and have not released it.
abbrev pub CountsActive : Manager → Type 0
CountsActive m = m.current_count ≡ pos (active m)

notify_queue-active :
    (i : ℕ) (js : List ℕ) (m : Manager)
    → get_elem? m.procs i ≡ some releasing
    → CountsActive m
    → CountsActive (notify_queue i js m)
unfolding notify_queue
notify_queue-active i [] m e h =
    ground (arith, count_if-set is_active m.procs i finished releasing e)
notify_queue-active i (j ∷ js) m e h = ground (
  arith,
  count_if-set is_active m.procs i finished releasing e,
  count_if-cancel is_active refl j (set m.procs i finished),
)

advance_at-active :
    (i : ℕ) (o : Option Phase) (m : Manager)
    → get_elem? m.procs i ≡ o
    → CountsActive m
    → CountsActive (advance_at i o m)
unfolding advance_at
advance_at-active i (some entering) m e h = ground (
  arith,
  count_if-set is_active m.procs i trying entering e,
  count_if-set is_active m.procs i rejected entering e,
)
advance_at-active i (some trying) m e h = ground (
  arith,
  count_if-set is_active m.procs i counted trying e,
  count_if-set is_active m.procs i (holding m.next_permit_id) trying e,
)
advance_at-active i (some counted) m e h =
    ground (arith, count_if-set is_active m.procs i queued counted e)
advance_at-active i (some queued) m e h =
    ground (arith, count_if-set is_active m.procs i suspended queued e)
advance_at-active i (some suspended) m e h = h
advance_at-active i (some (resumed w)) m e h =
    ground (arith, count_if-set is_active m.procs i (removed w) (resumed w) e)
advance_at-active i (some (removed w)) m e h =
    ground (arith, count_if-set is_active m.procs i (deciding w) (removed w) e)
advance_at-active i (some (deciding aborted)) m e h =
    ground (arith, count_if-set is_active m.procs i (holding m.next_permit_id) (deciding aborted) e)
advance_at-active i (some (deciding expired)) m e h =
    ground (arith, count_if-set is_active m.procs i rejected (deciding expired) e)
advance_at-active i (some (holding id)) m e h = ground (
  arith,
  count_if-set is_active m.procs i releasing (holding id) e,
  count_if-set is_active m.procs i abandoned (holding id) e,
)
advance_at-active i (some releasing) m e h = notify_queue-active i m.wait_queue m e h
advance_at-active i (some abandoned) m e h = h
advance_at-active i (some rejected) m e h = h
advance_at-active i (some finished) m e h = h
advance_at-active i none m e h = h

expire_at-active :
    (i : ℕ) (o : Option Phase) (m : Manager)
    → get_elem? m.procs i ≡ o
    → CountsActive m
    → CountsActive (expire_at i o m)
unfolding expire_at
expire_at-active i (some suspended) m e h =
    ground (arith, count_if-set is_active m.procs i (resumed expired) suspended e)
expire_at-active i _ m e h = h

cancel_first-active :
    (js : List ℕ) (m : Manager) → CountsActive m → CountsActive (cancel_first js m)
unfolding cancel_first
cancel_first-active [] m h = h
cancel_first-active (j ∷ js) m h = ground (arith, count_if-cancel is_active refl j m.procs)

pub step-CountsActive : (e : Event) (m : Manager) → CountsActive m → CountsActive (step e m)
unfolding step
step-CountsActive arrive m h = ground (arith, count_if-append is_active m.procs (entering ∷ []))
step-CountsActive (advance i) m h = advance_at-active i (get_elem? m.procs i) m refl h
step-CountsActive (expire i) m h = expire_at-active i (get_elem? m.procs i) m refl h
step-CountsActive shutdown_flag m h = h
step-CountsActive shutdown_drain m h = h
step-CountsActive shutdown_cancel m h = cancel_first-active m.cancelling m h
step-CountsActive shutdown_reset m h = h

run-active_from : (es : List Event) (m : Manager) → CountsActive m → CountsActive (run es m)
unfolding run
run-active_from [] m h = h
run-active_from (e ∷ es) m h = run-active_from es (step e m) (step-CountsActive e m h)

-- After any interleaving of acquisitions, timeouts, releases and shutdowns from a new manager,
-- `getCurrentCount` is the number of coroutines that were given a permit and have not released it,
-- those that left with a permit that tests invalid included.
pub run-CountsActive : (max : ℕ) (es : List Event) → CountsActive (run es (init max))
unfolding init
run-CountsActive max es = run-active_from es (init max) refl
