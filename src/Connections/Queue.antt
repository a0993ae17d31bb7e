-- ===== src/Connections/Queue.antt =====
-- The wait queue of hikyuu/httpd/ConnectionManager.h: which timers stand in it.
use hku_rest.Prelude.{
  ℕ, zero, suc, ◌≤◌, ◌≡◌, refl, ap, Bool, true, false, Option, none, some, List, [], ◌∷◌, ◌++◌,
  arith, get_elem?, set, get_elem?-set, count_if-append, ◌==◌, bit, if◌then◌else◌,
}
use hku_rest.Connections.{
  Manager, Phase, Event, init, step, run, advance_at, expire_at, cancel_wait, cancel, cancel_first,
  notify_queue, occurs, without, drop_timer, aborted, expired, suspended, resumed, releasing,
  finished, advance, arrive, expire, entering, trying, counted, queued, removed, deciding, holding,
  abandoned, rejected, shutdown_flag, shutdown_drain, shutdown_cancel, shutdown_reset,
}

-- The coroutine is between the push of its timer and the removal.
abbrev pub may_queue : Option Phase → Bool
may_queue (some queued) = true
may_queue (some suspended) = true
may_queue (some (resumed w)) = true
may_queue _ = false

abbrev Queues : Manager → ℕ → Type 0
Queues m j = occurs j m.wait_queue ≤ bit (may_queue (get_elem? m.procs j))

abbrev pub IsQueued : Manager → Type 0
IsQueued m = (j : ℕ) → Queues m j

pub occurs-without :
    (i j : ℕ) (q : List ℕ) → occurs j (without i q) ≡ (if i == j then 0 else occurs j q)
unfolding without
occurs-without i j [] = ground arith
occurs-without i j (k ∷ q) = ground (arith, occurs-without i j q)

occurs-drop_timer :
    (i j : ℕ) (q : List ℕ)
    → occurs i q ≤ 1
    → occurs j (drop_timer i q) ≡ (if i == j then 0 else occurs j q)
unfolding drop_timer
occurs-drop_timer i j [] h = ground arith
occurs-drop_timer i j (k ∷ q) h = ground (arith, occurs-without i j (k ∷ q))

may_queue-cancel_wait :
    (i j : ℕ) (o : Option Phase) (ps : List Phase)
    → get_elem? ps i ≡ o
    → may_queue (get_elem? (cancel_wait i o ps) j) ≡ may_queue (get_elem? ps j)
unfolding cancel_wait
may_queue-cancel_wait i j (some suspended) ps e =
    ground (arith, get_elem?-set ps i j (resumed aborted) suspended e)
may_queue-cancel_wait i j _ ps e = refl

may_queue-append :
    (ps : List Phase) (j : ℕ)
    → may_queue (get_elem? (ps ++ entering ∷ []) j) ≡ may_queue (get_elem? ps j)
may_queue-append [] zero = refl
may_queue-append [] (suc j) = refl
may_queue-append (p ∷ ps) zero = refl
may_queue-append (p ∷ ps) (suc j) = may_queue-append ps j

notify_queue-IsQueued :
    (i : ℕ) (js : List ℕ) (m : Manager)
    → m.wait_queue ≡ js
    → get_elem? m.procs i ≡ some releasing
    → IsQueued m
    → IsQueued (notify_queue i js m)
unfolding notify_queue cancel
notify_queue-IsQueued i [] m q e h j =
    ground (arith, h j, get_elem?-set m.procs i j finished releasing e)
notify_queue-IsQueued i (k ∷ js) m q e h j =
    let ps : List Phase = set m.procs i finished in
    ground (
      arith,
      h j,
      ap (occurs j) q,
      get_elem?-set m.procs i j finished releasing e,
      may_queue-cancel_wait k j (get_elem? ps k) ps refl,
    )

advance_at-IsQueued :
    (i : ℕ) (o : Option Phase) (m : Manager)
    → get_elem? m.procs i ≡ o
    → IsQueued m
    → IsQueued (advance_at i o m)
unfolding advance_at
advance_at-IsQueued i (some entering) m e h j = ground (
  arith,
  h j,
  get_elem?-set m.procs i j trying entering e,
  get_elem?-set m.procs i j rejected entering e,
)
advance_at-IsQueued i (some trying) m e h j = ground (
  arith,
  h j,
  get_elem?-set m.procs i j counted trying e,
  get_elem?-set m.procs i j (holding m.next_permit_id) trying e,
)
advance_at-IsQueued i (some counted) m e h j = ground (
  arith,
  h i,
  h j,
  e,
  get_elem?-set m.procs i j queued counted e,
  count_if-append (λ k. k == j) m.wait_queue (i ∷ []),
)
advance_at-IsQueued i (some queued) m e h j =
    ground (arith, h j, get_elem?-set m.procs i j suspended queued e)
advance_at-IsQueued i (some suspended) m e h j = h j
advance_at-IsQueued i (some (resumed w)) m e h j = ground (
  arith,
  h i,
  h j,
  e,
  get_elem?-set m.procs i j (removed w) (resumed w) e,
  occurs-drop_timer i j m.wait_queue,
)
advance_at-IsQueued i (some (removed w)) m e h j =
    ground (arith, h j, get_elem?-set m.procs i j (deciding w) (removed w) e)
advance_at-IsQueued i (some (deciding aborted)) m e h j =
    ground (arith, h j, get_elem?-set m.procs i j (holding m.next_permit_id) (deciding aborted) e)
advance_at-IsQueued i (some (deciding expired)) m e h j =
    ground (arith, h j, get_elem?-set m.procs i j rejected (deciding expired) e)
advance_at-IsQueued i (some (holding id)) m e h j = ground (
  arith,
  h j,
  get_elem?-set m.procs i j releasing (holding id) e,
  get_elem?-set m.procs i j abandoned (holding id) e,
)
advance_at-IsQueued i (some releasing) m e h j = notify_queue-IsQueued i m.wait_queue m refl e h j
advance_at-IsQueued i (some abandoned) m e h j = h j
advance_at-IsQueued i (some rejected) m e h j = h j
advance_at-IsQueued i (some finished) m e h j = h j
advance_at-IsQueued i none m e h j = h j

expire_at-IsQueued :
    (i : ℕ) (o : Option Phase) (m : Manager)
    → get_elem? m.procs i ≡ o
    → IsQueued m
    → IsQueued (expire_at i o m)
unfolding expire_at
expire_at-IsQueued i (some suspended) m e h j =
    ground (arith, h j, get_elem?-set m.procs i j (resumed expired) suspended e)
expire_at-IsQueued i _ m e h j = h j

cancel_first-IsQueued : (js : List ℕ) (m : Manager) → IsQueued m → IsQueued (cancel_first js m)
unfolding cancel_first cancel
cancel_first-IsQueued [] m h j = h j
cancel_first-IsQueued (k ∷ js) m h j =
    ground (arith, h j, may_queue-cancel_wait k j (get_elem? m.procs k) m.procs refl)

step-IsQueued : (e : Event) (m : Manager) → IsQueued m → IsQueued (step e m)
unfolding step
step-IsQueued arrive m h j = ground (arith, h j, may_queue-append m.procs j)
step-IsQueued (advance i) m h j = advance_at-IsQueued i (get_elem? m.procs i) m refl h j
step-IsQueued (expire i) m h j = expire_at-IsQueued i (get_elem? m.procs i) m refl h j
step-IsQueued shutdown_flag m h j = h j
step-IsQueued shutdown_drain m h j = omega arith
step-IsQueued shutdown_cancel m h j = cancel_first-IsQueued m.cancelling m h j
step-IsQueued shutdown_reset m h j = h j

run-IsQueued_from : (es : List Event) (m : Manager) → IsQueued m → IsQueued (run es m)
unfolding run
run-IsQueued_from [] m h j = h j
run-IsQueued_from (e ∷ es) m h j = run-IsQueued_from es (step e m) (step-IsQueued e m h) j

-- After any interleaving from a new manager a timer stands at most once in the wait queue, and only
-- while its coroutine is between the push of the timer and its removal: a coroutine that has taken
-- its permit or given up is never notified.
pub run-IsQueued : (max : ℕ) (es : List Event) → IsQueued (run es (init max))
unfolding init
run-IsQueued max es = run-IsQueued_from es (init max) (λ j. omega arith)
