-- ===== src/Connections/Limit.antt =====
-- The limit of hikyuu/httpd/ConnectionManager.h: when it holds, and how it is passed.
use hku_rest.Prelude.{
  ℕ, ◌+◌, ◌≤◌, ◌≡◌, refl, bit, Option, none, some, List, [], ◌∷◌, arith, get_elem?, set, count_if,
  count_if-set, count_if-append,
}
use hku_rest.Connections.Ints.{ℤ, pos, negsuc}
use hku_rest.Connections.Lemmas.{count_if-cancel, max_concurrent-run}
use hku_rest.Connections.Active.{CountsActive, step-CountsActive}
use hku_rest.Connections.{
  Manager, Phase, Event, init, step, run, advance_at, expire_at, notify_queue, aborted, expired,
  cancel_wait, cancel, entering, trying, counted, queued, suspended, resumed, removed, deciding,
  holding, releasing, abandoned, rejected, finished, arrive, advance, expire, shutdown_flag,
  shutdown_drain, shutdown_cancel, shutdown_reset, is_active, active, is_handed, handed,
}

-- Permits given out, and permits that are on their way from one coroutine to the next.
record InLimit (m : Manager) : Type 0 where
  counts : CountsActive m
  fits : active m + handed m ≤ m.max_concurrent

-- No coroutine takes the fast path while a permit is on its way, and no `shutdown` cancels timers.
abbrev pub Calm : Event → Manager → Type 0
Calm (advance i) m = get_elem? m.procs i ≡ some trying → handed m ≡ 0
Calm shutdown_cancel m = ⊥
Calm _ m = Unit

-- Every event of an interleaving is calm where it happens.
abbrev pub CalmRun : List Event → Manager → Type 0
CalmRun [] m = Unit
CalmRun (e ∷ es) m = Calm e m × CalmRun es (step e m)

count_if-cancel_handed :
    (j : ℕ) (o : Option Phase) (ps : List Phase)
    → get_elem? ps j ≡ o
    → count_if is_handed (cancel_wait j o ps) ≤ count_if is_handed ps + 1
unfolding cancel_wait
count_if-cancel_handed j (some suspended) ps e =
    ground (arith, count_if-set is_handed ps j (resumed aborted) suspended e)
count_if-cancel_handed j _ ps e = omega arith

abbrev Fits : Manager → Type 0
Fits m = active m + handed m ≤ m.max_concurrent

notify_queue-Fits :
    (i : ℕ) (js : List ℕ) (m : Manager)
    → get_elem? m.procs i ≡ some releasing
    → Fits m
    → Fits (notify_queue i js m)
unfolding notify_queue cancel
notify_queue-Fits i [] m e h = ground (
  arith,
  count_if-set is_active m.procs i finished releasing e,
  count_if-set is_handed m.procs i finished releasing e,
)
notify_queue-Fits i (j ∷ js) m e h =
    let ps : List Phase = set m.procs i finished in
    omega (
      arith,
      count_if-set is_active m.procs i finished releasing e,
      count_if-set is_handed m.procs i finished releasing e,
      count_if-cancel is_active refl j ps,
      count_if-cancel_handed j (get_elem? ps j) ps refl,
    )

-- What a write of one coroutine's phase does to both counts.
moved_fits :
    (m : Manager) (i : ℕ) (q p : Phase)
    → get_elem? m.procs i ≡ some p
    → (count_if is_active (set m.procs i q) + bit (is_active p) ≡ active m + bit (is_active q))
      × (count_if is_handed (set m.procs i q) + bit (is_handed p) ≡ handed m + bit (is_handed q))
moved_fits m i q p e =
    (count_if-set is_active m.procs i q p e, count_if-set is_handed m.procs i q p e)

advance_at-Fits :
    (i : ℕ) (o : Option Phase) (m : Manager)
    → get_elem? m.procs i ≡ o
    → (o ≡ some trying → handed m ≡ 0)
    → CountsActive m
    → Fits m
    → Fits (advance_at i o m)
unfolding advance_at
advance_at-Fits i (some entering) m e c a h =
    ground (arith, moved_fits m i trying entering e, moved_fits m i rejected entering e)
advance_at-Fits i (some trying) m e c a h = ground (
  arith,
  c refl,
  moved_fits m i counted trying e,
  moved_fits m i (holding m.next_permit_id) trying e,
)
advance_at-Fits i (some counted) m e c a h = ground (arith, moved_fits m i queued counted e)
advance_at-Fits i (some queued) m e c a h = ground (arith, moved_fits m i suspended queued e)
advance_at-Fits i (some suspended) m e c a h = h
advance_at-Fits i (some (resumed w)) m e c a h =
    ground (arith, moved_fits m i (removed w) (resumed w) e)
advance_at-Fits i (some (removed w)) m e c a h =
    ground (arith, moved_fits m i (deciding w) (removed w) e)
advance_at-Fits i (some (deciding aborted)) m e c a h =
    ground (arith, moved_fits m i (holding m.next_permit_id) (deciding aborted) e)
advance_at-Fits i (some (deciding expired)) m e c a h =
    ground (arith, moved_fits m i rejected (deciding expired) e)
advance_at-Fits i (some (holding id)) m e c a h =
    ground (arith, moved_fits m i releasing (holding id) e, moved_fits m i abandoned (holding id) e)
advance_at-Fits i (some releasing) m e c a h = notify_queue-Fits i m.wait_queue m e h
advance_at-Fits i (some abandoned) m e c a h = h
advance_at-Fits i (some rejected) m e c a h = h
advance_at-Fits i (some finished) m e c a h = h
advance_at-Fits i none m e c a h = h

expire_at-Fits :
    (i : ℕ) (o : Option Phase) (m : Manager)
    → get_elem? m.procs i ≡ o
    → Fits m
    → Fits (expire_at i o m)
unfolding expire_at
expire_at-Fits i (some suspended) m e h =
    ground (arith, moved_fits m i (resumed expired) suspended e)
expire_at-Fits i _ m e h = h

step-Fits : (e : Event) (m : Manager) → Calm e m → CountsActive m → Fits m → Fits (step e m)
unfolding step
step-Fits arrive m c a h = ground (
  arith,
  count_if-append is_active m.procs (entering ∷ []),
  count_if-append is_handed m.procs (entering ∷ []),
)
step-Fits (advance i) m c a h = advance_at-Fits i (get_elem? m.procs i) m refl c a h
step-Fits (expire i) m c a h = expire_at-Fits i (get_elem? m.procs i) m refl h
step-Fits shutdown_flag m c a h = h
step-Fits shutdown_drain m c a h = h
step-Fits shutdown_cancel m c a h = absurd c
step-Fits shutdown_reset m c a h = h

run-InLimit : (es : List Event) (m : Manager) → CalmRun es m → InLimit m → InLimit (run es m)
unfolding run
run-InLimit [] m c h = h
run-InLimit (e ∷ es) m c h =
    run-InLimit es (step e m) c.1
      (record { counts = step-CountsActive e m h.counts; fits = step-Fits e m c.0 h.counts h.fits })

-- The bound on `getCurrentCount`, as an integer.
abbrev pub AtMost : ℤ → ℕ → Type 0
AtMost (pos c) n = c ≤ n
AtMost (negsuc c) n = Unit

-- In an interleaving from a new manager where no coroutine takes the fast path while a released
-- permit is on its way to a waiter, and no `shutdown` wakes waiters, the permits given out never
-- pass the configured limit, not even with those on their way.
pub current_count-le :
    (max : ℕ) (es : List Event)
    → CalmRun es (init max)
    → AtMost (run es (init max)).current_count max
      × (active (run es (init max)) + handed (run es (init max)) ≤ max)
unfolding init
current_count-le max es c =
    let v = run-InLimit es (init max) c (record { counts = refl; fits = omega arith }) in
    let same = max_concurrent-run es (init max) in
    (rw v.counts (omega (arith, v.fits, same)), omega (arith, v.fits, same))
