-- ===== src/Connections/Waiting.antt =====
-- `m_waiting_count` of hikyuu/httpd/ConnectionManager.h against the coroutines that it counts.
use hku_rest.Prelude.{
  ℕ, ◌≡◌, refl, ◌≢◌, Option, none, some, List, [], ◌∷◌, arith, get_elem?, set, count_if-set,
  count_if-append, All,
}
use hku_rest.Connections.Ints.{pos}
use hku_rest.Connections.Lemmas.{count_if-cancel}
use hku_rest.Connections.{
  Manager, Phase, Event, init, step, run, advance_at, expire_at, notify_queue, cancel_first,
  aborted, expired, entering, trying, counted, queued, suspended, resumed, removed, deciding,
  holding, releasing, abandoned, rejected, finished, arrive, advance, expire, shutdown_flag,
  shutdown_drain, shutdown_cancel, shutdown_reset, is_waiting, waiters,
}

abbrev pub CountsWaiting : Manager → Type 0
CountsWaiting m = m.waiting_count ≡ pos (waiters m)

notify_queue-waiting :
    (i : ℕ) (js : List ℕ) (m : Manager)
    → get_elem? m.procs i ≡ some releasing
    → CountsWaiting m
    → CountsWaiting (notify_queue i js m)
unfolding notify_queue
notify_queue-waiting i [] m e h =
    ground (arith, count_if-set is_waiting m.procs i finished releasing e)
notify_queue-waiting i (j ∷ js) m e h = ground (
  arith,
  count_if-set is_waiting m.procs i finished releasing e,
  count_if-cancel is_waiting refl j (set m.procs i finished),
)

advance_at-waiting :
    (i : ℕ) (o : Option Phase) (m : Manager)
    → get_elem? m.procs i ≡ o
    → CountsWaiting m
    → CountsWaiting (advance_at i o m)
unfolding advance_at
advance_at-waiting i (some entering) m e h = ground (
  arith,
  count_if-set is_waiting m.procs i trying entering e,
  count_if-set is_waiting m.procs i rejected entering e,
)
advance_at-waiting i (some trying) m e h = ground (
  arith,
  count_if-set is_waiting m.procs i counted trying e,
  count_if-set is_waiting m.procs i (holding m.next_permit_id) trying e,
)
advance_at-waiting i (some counted) m e h =
    ground (arith, count_if-set is_waiting m.procs i queued counted e)
advance_at-waiting i (some queued) m e h =
    ground (arith, count_if-set is_waiting m.procs i suspended queued e)
advance_at-waiting i (some suspended) m e h = h
advance_at-waiting i (some (resumed w)) m e h =
    ground (arith, count_if-set is_waiting m.procs i (removed w) (resumed w) e)
advance_at-waiting i (some (removed w)) m e h =
    ground (arith, count_if-set is_waiting m.procs i (deciding w) (removed w) e)
advance_at-waiting i (some (deciding aborted)) m e h =
    ground
      (arith, count_if-set is_waiting m.procs i (holding m.next_permit_id) (deciding aborted) e)
advance_at-waiting i (some (deciding expired)) m e h =
    ground (arith, count_if-set is_waiting m.procs i rejected (deciding expired) e)
advance_at-waiting i (some (holding id)) m e h = ground (
  arith,
  count_if-set is_waiting m.procs i releasing (holding id) e,
  count_if-set is_waiting m.procs i abandoned (holding id) e,
)
advance_at-waiting i (some releasing) m e h = notify_queue-waiting i m.wait_queue m e h
advance_at-waiting i (some abandoned) m e h = h
advance_at-waiting i (some rejected) m e h = h
advance_at-waiting i (some finished) m e h = h
advance_at-waiting i none m e h = h

expire_at-waiting :
    (i : ℕ) (o : Option Phase) (m : Manager)
    → get_elem? m.procs i ≡ o
    → CountsWaiting m
    → CountsWaiting (expire_at i o m)
unfolding expire_at
expire_at-waiting i (some suspended) m e h =
    ground (arith, count_if-set is_waiting m.procs i (resumed expired) suspended e)
expire_at-waiting i _ m e h = h

cancel_first-waiting :
    (js : List ℕ) (m : Manager) → CountsWaiting m → CountsWaiting (cancel_first js m)
unfolding cancel_first
cancel_first-waiting [] m h = h
cancel_first-waiting (j ∷ js) m h = ground (arith, count_if-cancel is_waiting refl j m.procs)

step-waiting :
    (e : Event) (m : Manager) → e ≢ shutdown_reset → CountsWaiting m → CountsWaiting (step e m)
unfolding step
step-waiting arrive m n h = ground (arith, count_if-append is_waiting m.procs (entering ∷ []))
step-waiting (advance i) m n h = advance_at-waiting i (get_elem? m.procs i) m refl h
step-waiting (expire i) m n h = expire_at-waiting i (get_elem? m.procs i) m refl h
step-waiting shutdown_flag m n h = h
step-waiting shutdown_drain m n h = h
step-waiting shutdown_cancel m n h = cancel_first-waiting m.cancelling m h
step-waiting shutdown_reset m n h = absurd (n refl)

-- No `shutdown` stores zero into the count.
abbrev pub NoReset : List Event → Type 0
NoReset = All (λ e. e ≢ shutdown_reset)

run-waiting_from :
    (es : List Event) (m : Manager) → NoReset es → CountsWaiting m → CountsWaiting (run es m)
unfolding run
run-waiting_from [] m n h = h
run-waiting_from (e ∷ es) m n h = run-waiting_from es (step e m) n.1 (step-waiting e m n.0 h)

-- As long as no `shutdown` resets it, `getWaitingCount` is the number of coroutines between the
-- increment that follows a failed fast path and the decrement that follows their wait, after any
-- interleaving from a new manager.
pub run-CountsWaiting : (max : ℕ) (es : List Event) → NoReset es → CountsWaiting (run es (init max))
unfolding init
run-CountsWaiting max es n = run-waiting_from es (init max) n refl
