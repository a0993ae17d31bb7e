-- ===== src/Connections/Wakeups.antt =====
-- `notifyOne` of hikyuu/httpd/ConnectionManager.h: whom it wakes, and when the wakeup is lost.
use hku_rest.Prelude.{
  ℕ, zero, suc, ◌≡◌, refl, sym, ap, subst, ◌∙◌, ◌≢◌, Option, none, some, List, [], ◌∷◌, ◌++◌, ◌==◌,
  All, arith, get_elem?, set, get_elem?-set_self, get_elem?-set_ne, count_if-append,
}
use hku_rest.Connections.Lemmas.{step-advance}
use hku_rest.Connections.Queue.{occurs-without, run-IsQueued}
use hku_rest.Connections.{
  Manager, Phase, Event, init, step, run, advance_at, expire_at, cancel_first, notify_one,
  cancel_wait, cancel, notify_queue, drop_timer, occurs, aborted, expired, entering, trying,
  counted, queued, suspended, resumed, removed, deciding, holding, releasing, abandoned, rejected,
  finished, advance, expire, arrive, shutdown_flag, shutdown_drain, shutdown_cancel, shutdown_reset,
}

module _ (m : Manager) (i j : ℕ) (js : List ℕ) (leaver : get_elem? m.procs i ≡ some releasing)
    (head : m.wait_queue ≡ j ∷ js) where
  notify-step :
      step (advance i) m ≡ record m { wait_queue = js; procs = cancel j (set m.procs i finished) }
  unfolding advance_at notify_one notify_queue
  notify-step = step-advance i releasing m leaver ∙ rw (head, notify_queue)

cancel_wait_other :
    (j : ℕ) (p : Phase) (ps : List Phase) → p ≢ suspended → cancel_wait j (some p) ps ≡ ps
unfolding cancel_wait
cancel_wait_other j suspended ps n = absurd (n refl)
cancel_wait_other j _ ps n = refl

-- Who releases a permit wakes the waiter at the head of the queue, if that waiter is suspended:
-- the head leaves the queue, its wait is cancelled, and no other coroutine moves.
pub notify_serves_head :
    (m : Manager) (i j : ℕ) (js : List ℕ)
    → get_elem? m.procs i ≡ some releasing
    → m.wait_queue ≡ j ∷ js
    → get_elem? m.procs j ≡ some suspended
    → i ≢ j
    → ((step (advance i) m).wait_queue ≡ js)
      × (get_elem? (step (advance i) m).procs j ≡ some (resumed aborted))
      × ((k : ℕ) → i ≢ k → j ≢ k → get_elem? (step (advance i) m).procs k ≡ get_elem? m.procs k)
unfolding cancel
notify_serves_head m i j js leaver head waiter ij =
    let g : get_elem? (set m.procs i finished) j ≡ some suspended =
      get_elem?-set_ne m.procs finished ij ∙ waiter in
    rw (notify-step m i j js leaver head, g, cancel_wait)
      (
        refl,
        get_elem?-set_self _ j (resumed aborted) suspended g,
        λ k ik jk. get_elem?-set_ne _ (resumed aborted) jk ∙ get_elem?-set_ne m.procs finished ik,
      )

-- Suspended, with its timer in no list that anybody cancels.
abbrev pub IsForgotten : ℕ → Manager → Type 0
IsForgotten j m =
    (occurs j m.wait_queue ≡ 0)
    × (occurs j m.cancelling ≡ 0)
    × (get_elem? m.procs j ≡ some suspended)

-- Any event but the end of the coroutine's own timeout.
abbrev pub Spares : ℕ → Event → Type 0
Spares j (expire i) = i ≢ j
Spares j _ = Unit

occurs-drop_timer_zero : (i j : ℕ) (q : List ℕ) → occurs j q ≡ 0 → occurs j (drop_timer i q) ≡ 0
unfolding drop_timer
occurs-drop_timer_zero i j [] h = refl
occurs-drop_timer_zero i j (k ∷ q) h = ground (arith, h, occurs-without i j (k ∷ q))

get_elem?-cancel_wait :
    (k j : ℕ) (o : Option Phase) (ps : List Phase)
    → get_elem? ps k ≡ o
    → k ≢ j
    → get_elem? (cancel_wait k o ps) j ≡ get_elem? ps j
unfolding cancel_wait
get_elem?-cancel_wait k j (some suspended) ps e n = get_elem?-set_ne ps (resumed aborted) n
get_elem?-cancel_wait k j _ ps e n = refl

-- A step of another coroutine that writes its own phase.
moved-IsForgotten :
    (i j : ℕ) (p q : Phase) (m : Manager)
    → get_elem? m.procs i ≡ some p
    → p ≢ suspended
    → get_elem? m.procs j ≡ some suspended
    → (i ≢ j) × (get_elem? (set m.procs i q) j ≡ some suspended)
moved-IsForgotten i j p q m e n h =
    let other : i ≢ j = λ s. n (some_injective (sym e ∙ ap (get_elem? m.procs) s ∙ h)) in
    (other, get_elem?-set_ne m.procs q other ∙ h)
  where
    phase_of : Option Phase → Phase
    phase_of none = entering
    phase_of (some p) = p

    some_injective : some p ≡ some suspended → p ≡ suspended
    some_injective s = ap phase_of s

notify_queue-IsForgotten :
    (i j : ℕ) (js : List ℕ) (m : Manager)
    → m.wait_queue ≡ js
    → get_elem? m.procs i ≡ some releasing
    → IsForgotten j m
    → IsForgotten j (notify_queue i js m)
unfolding notify_queue cancel
notify_queue-IsForgotten i j [] m q e (w, c, s) =
    (w, c, (moved-IsForgotten i j releasing finished m e (λ h. cc) s).1)
notify_queue-IsForgotten i j (k ∷ js) m q e (w, c, s) =
    let ps : List Phase = set m.procs i finished in
    let kept = (moved-IsForgotten i j releasing finished m e (λ h. cc) s).1 in
    let none_left = sym (ap (occurs j) q) ∙ w in
    (
      ground (arith, none_left),
      c,
      get_elem?-cancel_wait k j (get_elem? ps k) ps refl (λ h. ground (arith, none_left, h)) ∙ kept,
    )

advance_at-IsForgotten :
    (i j : ℕ) (o : Option Phase) (m : Manager)
    → get_elem? m.procs i ≡ o
    → IsForgotten j m
    → IsForgotten j (advance_at i o m)
unfolding advance_at
advance_at-IsForgotten i j (some entering) m e (w, c, s) = ground (
  arith,
  w,
  c,
  s,
  (moved-IsForgotten i j entering trying m e (λ h. cc) s).1,
  (moved-IsForgotten i j entering rejected m e (λ h. cc) s).1,
)
advance_at-IsForgotten i j (some trying) m e (w, c, s) = ground (
  arith,
  w,
  c,
  s,
  (moved-IsForgotten i j trying counted m e (λ h. cc) s).1,
  (moved-IsForgotten i j trying (holding m.next_permit_id) m e (λ h. cc) s).1,
)
advance_at-IsForgotten i j (some counted) m e (w, c, s) =
    let (n, k) = moved-IsForgotten i j counted queued m e (λ h. cc) s in
    (ground (arith, w, n, count_if-append (λ x. x == j) m.wait_queue (i ∷ [])), c, k)
advance_at-IsForgotten i j (some queued) m e (w, c, s) =
    (w, c, (moved-IsForgotten i j queued suspended m e (λ h. cc) s).1)
advance_at-IsForgotten i j (some suspended) m e f = f
advance_at-IsForgotten i j (some (resumed x)) m e (w, c, s) = (
  occurs-drop_timer_zero i j m.wait_queue w,
  c,
  (moved-IsForgotten i j (resumed x) (removed x) m e (λ h. cc) s).1,
)
advance_at-IsForgotten i j (some (removed x)) m e (w, c, s) =
    (w, c, (moved-IsForgotten i j (removed x) (deciding x) m e (λ h. cc) s).1)
advance_at-IsForgotten i j (some (deciding aborted)) m e (w, c, s) =
    (w, c, (moved-IsForgotten i j (deciding aborted) (holding m.next_permit_id) m e (λ h. cc) s).1)
advance_at-IsForgotten i j (some (deciding expired)) m e (w, c, s) =
    (w, c, (moved-IsForgotten i j (deciding expired) rejected m e (λ h. cc) s).1)
advance_at-IsForgotten i j (some (holding id)) m e (w, c, s) = ground (
  arith,
  w,
  c,
  s,
  (moved-IsForgotten i j (holding id) releasing m e (λ h. cc) s).1,
  (moved-IsForgotten i j (holding id) abandoned m e (λ h. cc) s).1,
)
advance_at-IsForgotten i j (some releasing) m e f =
    notify_queue-IsForgotten i j m.wait_queue m refl e f
advance_at-IsForgotten i j (some abandoned) m e f = f
advance_at-IsForgotten i j (some rejected) m e f = f
advance_at-IsForgotten i j (some finished) m e f = f
advance_at-IsForgotten i j none m e f = f

expire_at-IsForgotten :
    (i j : ℕ) (o : Option Phase) (m : Manager)
    → i ≢ j
    → IsForgotten j m
    → IsForgotten j (expire_at i o m)
unfolding expire_at
expire_at-IsForgotten i j (some suspended) m n (w, c, s) =
    (w, c, get_elem?-set_ne m.procs (resumed expired) n ∙ s)
expire_at-IsForgotten i j _ m n f = f

cancel_first-IsForgotten :
    (j : ℕ) (js : List ℕ) (m : Manager)
    → m.cancelling ≡ js
    → IsForgotten j m
    → IsForgotten j (cancel_first js m)
unfolding cancel_first cancel
cancel_first-IsForgotten j [] m q f = f
cancel_first-IsForgotten j (k ∷ js) m q (w, c, s) =
    let none_left = sym (ap (occurs j) q) ∙ c in
    (
      w,
      ground (arith, none_left),
      get_elem?-cancel_wait k j (get_elem? m.procs k) m.procs refl
            (λ h. ground (arith, none_left, h))
          ∙ s,
    )

get_elem?-append :
    (ps : List Phase) (q : Phase) (j : ℕ) (p : Phase)
    → get_elem? ps j ≡ some p
    → get_elem? (ps ++ q ∷ []) j ≡ some p
get_elem?-append [] q j p h = absurd (cc)
get_elem?-append (x ∷ ps) q zero p h = h
get_elem?-append (x ∷ ps) q (suc j) p h = get_elem?-append ps q j p h

step-IsForgotten :
    (e : Event) (j : ℕ) (m : Manager) → Spares j e → IsForgotten j m → IsForgotten j (step e m)
unfolding step
step-IsForgotten arrive j m n (w, c, s) = (w, c, get_elem?-append m.procs entering j suspended s)
step-IsForgotten (advance i) j m n f = advance_at-IsForgotten i j (get_elem? m.procs i) m refl f
step-IsForgotten (expire i) j m n f = expire_at-IsForgotten i j (get_elem? m.procs i) m n f
step-IsForgotten shutdown_flag j m n f = f
step-IsForgotten shutdown_drain j m n (w, c, s) =
    (refl, ground (arith, w, c, count_if-append (λ x. x == j) m.cancelling m.wait_queue), s)
step-IsForgotten shutdown_cancel j m n f = cancel_first-IsForgotten j m.cancelling m refl f
step-IsForgotten shutdown_reset j m n f = f

run-IsForgotten :
    (es : List Event) (j : ℕ) (m : Manager)
    → All (Spares j) es
    → IsForgotten j m
    → IsForgotten j (run es m)
unfolding run
run-IsForgotten [] j m n f = f
run-IsForgotten (e ∷ es) j m n f =
    run-IsForgotten es j (step e m) n.1 (step-IsForgotten e j m n.0 f)

waits-IsForgotten :
    (j : ℕ) (m : Manager)
    → get_elem? m.procs j ≡ some queued
    → occurs j m.wait_queue ≡ 0
    → occurs j m.cancelling ≡ 0
    → IsForgotten j (advance_at j (some queued) m)
unfolding advance_at
waits-IsForgotten j m g w c = (w, c, get_elem?-set_self m.procs j suspended queued g)

-- In any state of a new manager without a `shutdown`'s cancellations under way: if a permit is released
-- when the coroutine at the head of the queue has pushed its timer and not started to wait on it, and
-- that coroutine starts to wait next, it stays suspended whatever happens, further releases and a
-- `shutdown` included, until its own timeout ends.
pub notify_lost :
    (max : ℕ) (es later : List Event) (i j : ℕ) (js : List ℕ)
    → (run es (init max)).cancelling ≡ []
    → get_elem? (run es (init max)).procs i ≡ some releasing
    → (run es (init max)).wait_queue ≡ j ∷ js
    → get_elem? (run es (init max)).procs j ≡ some queued
    → All (Spares j) later
    → IsForgotten j (run later (step (advance j) (step (advance i) (run es (init max)))))
unfolding cancel
notify_lost max es later i j js calm leaver head waiter spares =
    let m = run es (init max) in
    let once = run-IsQueued max es j in
    let m1 : Manager = record m { wait_queue = js; procs = set m.procs i finished } in
    let ij : i ≢ j = λ s. releasing_is_other (sym leaver ∙ ap (get_elem? m.procs) s ∙ waiter) in
    let g : get_elem? m1.procs j ≡ some queued = get_elem?-set_ne m.procs finished ij ∙ waiter in
    let gone : step (advance i) m ≡ m1 =
      notify-step m i j js leaver head
      ∙ ap (λ ps. record m { wait_queue = js; procs = ps })
          (rw g (cancel_wait_other j queued (set m.procs i finished) (λ h. cc))) in
    run-IsForgotten later j _ spares (
      subst (λ x. IsForgotten j (step (advance j) x)) (sym gone)
        (subst (IsForgotten j) (sym (step-advance j queued m1 g)) (
          waits-IsForgotten j m1 g (ground (arith, once, waiter, ap (occurs j) head))
            (ap (occurs j) calm))))
  where
    releasing_is_other : some releasing ≡ some queued → ⊥
    releasing_is_other h = cc
