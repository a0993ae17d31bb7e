-- ===== src/Connections/Overrun.antt =====
-- How the limit of hikyuu/httpd/ConnectionManager.h is passed: a woken waiter does not test it.
use hku_rest.Prelude.{
  ℕ, suc, ◌+◌, ◌≡◌, refl, sym, ◌∙◌, ◌≢◌, ap, true, some, List, [], ◌∷◌, arith, get_elem?, set,
  get_elem?-set_self, get_elem?-set_ne,
}
use hku_rest.Connections.Ints.{pos, incr, decr}
use hku_rest.Connections.Lemmas.{step-advance}
use hku_rest.Connections.{
  Manager, Event, step, run, advance_at, dequeue, uncount, take_permit, try_fast, release,
  notify_one, destroy, aborted, cancel_wait, cancel, is_valid, notify_queue, trying, suspended,
  resumed, removed, deciding, holding, releasing, finished, advance,
}

-- A coroutine whose wait was cancelled goes on to the end of `acquire`.
abbrev pub finish_acquire : ℕ → List Event
finish_acquire i = advance i ∷ advance i ∷ advance i ∷ []

module _ (i : ℕ) (m : Manager) (woken : get_elem? m.procs i ≡ some (resumed aborted)) where
  finish_acquire-run :
      run (finish_acquire i) m ≡ take_permit i (uncount i aborted (dequeue i aborted m))
  unfolding run advance_at
  finish_acquire-run =
      let m1 : Manager = dequeue i aborted m in
      let m2 : Manager = uncount i aborted m1 in
      let g1 : get_elem? m1.procs i ≡ some (removed aborted) =
        get_elem?-set_self m.procs i _ _ woken in
      let g2 : get_elem? m2.procs i ≡ some (deciding aborted) =
        get_elem?-set_self m1.procs i _ _ g1 in
      rw (
        step-advance i (resumed aborted) m woken,
        step-advance i (removed aborted) m1 g1,
        step-advance i (deciding aborted) m2 g2,
      )

  -- It takes a permit, whatever the count and the limit are.
  pub woken_takes :
      ((run (finish_acquire i) m).current_count ≡ incr m.current_count)
      × (get_elem? (run (finish_acquire i) m).procs i ≡ some (holding m.next_permit_id))
  unfolding take_permit uncount dequeue
  woken_takes = rw finish_acquire-run (
    refl,
    get_elem?-set_self _ i _ (deciding aborted)
        (get_elem?-set_self _ i _ (removed aborted) (get_elem?-set_self m.procs i _ _ woken)),
  )

-- A release hands the permit to the head of the queue.
module _ (m : Manager) (h i id : ℕ) (js : List ℕ) (holder : get_elem? m.procs h ≡ some (holding id))
    (valid : is_valid id ≡ true) (waiter : get_elem? m.procs i ≡ some suspended)
    (head : m.wait_queue ≡ i ∷ js) (other : h ≢ i) where
  abbrev handed_over : Manager
  handed_over = record m {
    current_count = decr m.current_count;
    wait_queue = js;
    procs = set (set (set m.procs h releasing) h finished) i (resumed aborted);
  }

  still_suspended : get_elem? (set (set m.procs h releasing) h finished) i ≡ some suspended
  still_suspended =
      get_elem?-set_ne _ finished other ∙ get_elem?-set_ne m.procs releasing other ∙ waiter

  hand_over-run : run (advance h ∷ advance h ∷ []) m ≡ handed_over
  unfolding run advance_at destroy notify_one notify_queue cancel
  hand_over-run =
      let g : get_elem? (release h m).procs h ≡ some releasing =
        unfold release in get_elem?-set_self m.procs h _ _ holder in
      rw (step-advance h (holding id) m holder, valid, step-advance h releasing (release h m) g)
        (unfold release in rw (head, notify_queue, still_suspended, cancel_wait))

-- Whenever the limit is reached and a waiter is suspended at the head of the queue, a newcomer that
-- takes the fast path between the holder's release and the waiter's resumption takes the count to
-- one more than the limit: the woken waiter takes its permit without a test.
pub over_limit :
    (m : Manager) (h i j id n : ℕ) (js : List ℕ)
    → get_elem? m.procs h ≡ some (holding id)
    → is_valid id ≡ true
    → get_elem? m.procs i ≡ some suspended
    → get_elem? m.procs j ≡ some trying
    → m.wait_queue ≡ i ∷ js
    → m.max_concurrent ≡ suc n
    → m.current_count ≡ pos (suc n)
    → h ≢ i
    → h ≢ j
    → i ≢ j
    → (run (advance h ∷ advance h ∷ advance j ∷ finish_acquire i) m).current_count ≡ pos (n + 2)
unfolding run
over_limit m h i j id n js holder valid waiter newcomer head limit full hi hj ij =
    let m2 : Manager = handed_over m h i id js holder valid waiter head hi in
    let m3 : Manager = take_permit j m2 in
    let g2 : get_elem? m2.procs j ≡ some trying =
      get_elem?-set_ne _ (resumed aborted) ij
      ∙ get_elem?-set_ne _ finished hj
      ∙ get_elem?-set_ne m.procs releasing hj
      ∙ newcomer in
    let g3 : get_elem? m3.procs i ≡ some (resumed aborted) =
      unfold take_permit in
      (get_elem?-set_ne m2.procs (holding m.next_permit_id) (λ e. ij (sym e))
        ∙ get_elem?-set_self _ i _ suspended
            (still_suspended m h i id js holder valid waiter head hi)) in
    let fast : step (advance j) m2 ≡ m3 =
      step-advance j trying m2 g2 ∙ (unfold advance_at try_fast in ground (arith, full, limit)) in
    let all : run (advance h ∷ advance h ∷ advance j ∷ finish_acquire i) m
        ≡ run (finish_acquire i) m3 =
      ap (λ (x : Manager). run (advance j ∷ finish_acquire i) x)
        (hand_over-run m h i id js holder valid waiter head hi)
      ∙ ap (run (finish_acquire i)) fast in
    rw all (rw ((woken_takes i m3 g3).0) (unfold take_permit in ground (arith, full)))
