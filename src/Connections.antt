-- ===== src/Connections.antt =====
-- hikyuu/httpd/ConnectionManager.h: the permits for concurrent connections.
-- Each coroutine that runs `acquire` is an entry of `procs`, at the point of its code that it has
-- reached; its index is the identity of its timer too. `step` is one atomic section of one
-- coroutine, or of the thread that runs `shutdown`, so a list of events is an interleaving.
pub mod Ints
pub mod Lemmas
pub mod Active
pub mod Waiting
pub mod Limit
pub mod Overrun
pub mod Wakeups
pub mod Shutdown
pub mod Numbers
pub mod Permits
pub mod Queue
pub mod Examples
use hku_rest.Prelude.{
  ℕ, suc, ◌+◌, ◌%◌, ◌^◌, Bool, true, false, not, Option, none, some, List, [], ◌∷◌, ◌++◌, ltb, ◌==◌,
  if◌then◌else◌, get_elem?, set, count_if,
}
use Ints.{ℤ, pos, incr, decr, ltz}

-- What `async_wait` leaves in `ec`: `operation_aborted`, or success when the timer expires.
pub data Wake : Type 0 where
  aborted expired : Wake

-- Where a coroutine stands in `acquire` and after it.
pub data Phase : Type 0 where
  -- before the test of `m_is_shutdown`
  entering : Phase
  -- before the fast path's compare-and-exchange loop
  trying : Phase
  -- `m_waiting_count` incremented, the timer not yet in the queue
  counted : Phase
  -- the timer queued, `async_wait` not yet started
  queued : Phase
  -- suspended in `async_wait`
  suspended : Phase
  -- resumed, before the removal from the queue
  resumed : Wake → Phase
  -- removed from the queue, before `m_waiting_count` is decremented
  removed : Wake → Phase
  -- before the test of `ec`
  deciding : Wake → Phase
  -- returned with a permit
  holding : ℕ → Phase
  -- in `release`, before `notifyOne`
  releasing : Phase
  -- counted, and gone with a permit that tests invalid
  abandoned : Phase
  -- returned with an invalid permit, or finished
  rejected finished : Phase

pub record Manager : Type 0 where
  pub max_concurrent : ℕ
  pub current_count : ℤ
  pub waiting_count : ℤ
  -- an `int` of 32 bits, as its bit pattern
  pub next_permit_id : ℕ
  pub is_shutdown : Bool
  pub wait_queue : List ℕ
  -- `timers_to_cancel` of a running `shutdown`
  pub cancelling : List ℕ
  pub procs : List Phase

unfoldable pub init : ℕ → Manager
init max = record {
  max_concurrent = max;
  current_count = pos 0;
  waiting_count = pos 0;
  next_permit_id = 0;
  is_shutdown = false;
  wait_queue = [];
  cancelling = [];
  procs = [];
}

-- `operator bool`: a bit pattern below 2 ^ 31 is a number that is not negative.
abbrev pub is_valid : ℕ → Bool
is_valid id = ltb id (2 ^ 31)

abbrev pub move : ℕ → Phase → Manager → Manager
move i p m = record m { procs = set m.procs i p }

-- `fetch_add` on the permit counter wraps.
abbrev pub next_id : ℕ → ℕ
next_id id = (id + 1) % 2 ^ 32

-- The count goes up and a permit is handed out, on either path of `acquire`.
pub take_permit : ℕ → Manager → Manager
take_permit i m = record m {
  current_count = incr m.current_count;
  next_permit_id = next_id m.next_permit_id;
  procs = set m.procs i (holding m.next_permit_id);
}

pub check_shutdown : ℕ → Manager → Manager
check_shutdown i m = if m.is_shutdown then move i rejected m else move i trying m

-- The compare-and-exchange succeeds on the value that it has read, so the loop is one atomic test.
pub try_fast : ℕ → Manager → Manager
unfolding take_permit
try_fast i m =
    if ltz m.current_count m.max_concurrent
    then take_permit i m
    else record m { waiting_count = incr m.waiting_count; procs = set m.procs i counted }

pub enqueue : ℕ → Manager → Manager
enqueue i m = record m { wait_queue = m.wait_queue ++ i ∷ []; procs = set m.procs i queued }

-- The queue with one timer taken out: the head, or every entry that is this timer.
pub without : ℕ → List ℕ → List ℕ
without i [] = []
without i (j ∷ js) = let rest = without i js in if j == i then rest else j ∷ rest

pub drop_timer : ℕ → List ℕ → List ℕ
unfolding without
drop_timer i [] = []
drop_timer i (j ∷ js) = if j == i then js else without i (j ∷ js)

pub dequeue : ℕ → Wake → Manager → Manager
unfolding drop_timer
dequeue i w m = record m {
  wait_queue = drop_timer i m.wait_queue;
  procs = set m.procs i (removed w);
}

pub uncount : ℕ → Wake → Manager → Manager
uncount i w m = record m {
  waiting_count = decr m.waiting_count;
  procs = set m.procs i (deciding w);
}

-- A woken coroutine takes its permit without a test of the limit.
pub decide : ℕ → Wake → Manager → Manager
unfolding take_permit
decide i aborted m = take_permit i m
decide i expired m = move i rejected m

-- `timer->cancel()` resumes the wait that is pending, if there is one.
pub cancel_wait : ℕ → Option Phase → List Phase → List Phase
cancel_wait j (some suspended) ps = set ps j (resumed aborted)
cancel_wait j _ ps = ps

pub cancel : ℕ → List Phase → List Phase
unfolding cancel_wait
cancel j ps = cancel_wait j (get_elem? ps j) ps

pub release : ℕ → Manager → Manager
release i m = record m { current_count = decr m.current_count; procs = set m.procs i releasing }

-- `~Connection` calls `release` only for a permit that tests valid.
pub destroy : ℕ → ℕ → Manager → Manager
unfolding release
destroy i id m = if is_valid id then release i m else move i abandoned m

pub notify_queue : ℕ → List ℕ → Manager → Manager
unfolding cancel
notify_queue i [] m = move i finished m
notify_queue i (j ∷ js) m = record m { wait_queue = js; procs = cancel j (set m.procs i finished) }

pub notify_one : ℕ → Manager → Manager
unfolding notify_queue
notify_one i m = notify_queue i m.wait_queue m

-- The four steps of `shutdown`: the flag, the queue emptied under its lock, one timer cancelled,
-- the count reset.
unfoldable pub raise_flag : Manager → Manager
raise_flag m = record m { is_shutdown = true }

unfoldable pub drain : Manager → Manager
drain m = record m { wait_queue = []; cancelling = m.cancelling ++ m.wait_queue }

unfoldable pub cancel_first : List ℕ → Manager → Manager
unfolding cancel
cancel_first [] m = m
cancel_first (j ∷ js) m = record m { cancelling = js; procs = cancel j m.procs }

unfoldable pub reset_waiting : Manager → Manager
reset_waiting m = record m { waiting_count = pos 0 }

pub data Event : Type 0 where
  -- a connection starts to acquire
  arrive : Event
  -- the coroutine goes on by one section
  advance : ℕ → Event
  -- its timer expires
  expire : ℕ → Event
  shutdown_flag shutdown_drain shutdown_cancel shutdown_reset : Event

pub arrive_at : Manager → Manager
arrive_at m = record m { procs = m.procs ++ entering ∷ [] }

pub advance_at : ℕ → Option Phase → Manager → Manager
unfolding check_shutdown try_fast enqueue dequeue uncount decide destroy notify_one
advance_at i (some entering) m = check_shutdown i m
advance_at i (some trying) m = try_fast i m
advance_at i (some counted) m = enqueue i m
advance_at i (some queued) m = move i suspended m
advance_at i (some (resumed w)) m = dequeue i w m
advance_at i (some (removed w)) m = uncount i w m
advance_at i (some (deciding w)) m = decide i w m
advance_at i (some (holding id)) m = destroy i id m
advance_at i (some releasing) m = notify_one i m
advance_at i _ m = m

pub expire_at : ℕ → Option Phase → Manager → Manager
expire_at i (some suspended) m = move i (resumed expired) m
expire_at i _ m = m

pub step : Event → Manager → Manager
unfolding arrive_at advance_at expire_at raise_flag drain cancel_first reset_waiting
step arrive m = arrive_at m
step (advance i) m = advance_at i (get_elem? m.procs i) m
step (expire i) m = expire_at i (get_elem? m.procs i) m
step shutdown_flag m = raise_flag m
step shutdown_drain m = drain m
step shutdown_cancel m = cancel_first m.cancelling m
step shutdown_reset m = reset_waiting m

pub run : List Event → Manager → Manager
unfolding step
run [] m = m
run (e ∷ es) m = run es (step e m)

-- Coroutines that are counted in `m_current_count`.
abbrev pub is_active : Phase → Bool
is_active (holding id) = true
is_active abandoned = true
is_active _ = false

abbrev pub active : Manager → ℕ
active m = count_if is_active m.procs

-- Coroutines that are counted in `m_waiting_count`.
abbrev pub is_waiting : Phase → Bool
is_waiting counted = true
is_waiting queued = true
is_waiting suspended = true
is_waiting (resumed w) = true
is_waiting (removed w) = true
is_waiting _ = false

abbrev pub waiters : Manager → ℕ
waiters m = count_if is_waiting m.procs

-- Coroutines through which a permit is on its way to its next holder: they gave it back and have
-- not notified anyone yet, or were woken and have not taken it yet.
abbrev pub is_handed : Phase → Bool
is_handed releasing = true
is_handed (resumed aborted) = true
is_handed (removed aborted) = true
is_handed (deciding aborted) = true
is_handed _ = false

abbrev pub handed : Manager → ℕ
handed m = count_if is_handed m.procs

-- Coroutines that were given a permit at some time.
abbrev pub is_served : Phase → Bool
is_served (holding id) = true
is_served releasing = true
is_served abandoned = true
is_served finished = true
is_served _ = false

abbrev pub served : Manager → ℕ
served m = count_if is_served m.procs

-- How often a timer stands in the queue.
abbrev pub occurs : ℕ → List ℕ → ℕ
occurs j = count_if (λ k. k == j)
