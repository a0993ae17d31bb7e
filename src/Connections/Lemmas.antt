-- ===== src/Connections/Lemmas.antt =====
-- What a cancelled timer does to the counts of coroutines, and case splits on a coroutine.
use hku_rest.Prelude.{
  ℕ, ◌≡◌, refl, ◌∙◌, ◌∷◌, [], Bool, Option, some, List, arith, get_elem?, count_if, count_if-set,
}
use hku_rest.Connections.{
  Manager, Event, arrive, step, run, advance_at, expire_at, cancel_first, advance, expire,
  shutdown_cancel, notify_queue, Phase, suspended, entering, trying, counted, queued, resumed,
  removed, deciding, holding, releasing, aborted, cancel_wait, cancel,
}

module _ (p : Phase → Bool) (same : p suspended ≡ p (resumed aborted)) where
  count_if-cancel_wait :
      (j : ℕ) (o : Option Phase) (ps : List Phase)
      → get_elem? ps j ≡ o
      → count_if p (cancel_wait j o ps) ≡ count_if p ps
  unfolding cancel_wait
  count_if-cancel_wait j (some suspended) ps e =
      ground (arith, count_if-set p ps j (resumed aborted) suspended e)
  count_if-cancel_wait j (some entering) ps e = refl
  count_if-cancel_wait j (some trying) ps e = refl
  count_if-cancel_wait j (some counted) ps e = refl
  count_if-cancel_wait j (some queued) ps e = refl
  count_if-cancel_wait j (some (resumed w)) ps e = refl
  count_if-cancel_wait j (some (removed w)) ps e = refl
  count_if-cancel_wait j (some (deciding w)) ps e = refl
  count_if-cancel_wait j (some (holding id)) ps e = refl
  count_if-cancel_wait j (some releasing) ps e = refl
  count_if-cancel_wait j _ ps e = refl

  pub count_if-cancel : (j : ℕ) (ps : List Phase) → count_if p (cancel j ps) ≡ count_if p ps
  unfolding cancel
  count_if-cancel j ps = count_if-cancel_wait j (get_elem? ps j) ps refl

notify_queue-max :
    (i : ℕ) (js : List ℕ) (m : Manager) → (notify_queue i js m).max_concurrent ≡ m.max_concurrent
unfolding notify_queue
notify_queue-max i [] m = refl
notify_queue-max i (j ∷ js) m = refl

advance_at-max :
    (i : ℕ) (o : Option Phase) (m : Manager) → (advance_at i o m).max_concurrent ≡ m.max_concurrent
unfolding advance_at
advance_at-max i (some (deciding aborted)) m = refl
advance_at-max i (some releasing) m = notify_queue-max i m.wait_queue m
advance_at-max i _ m = ground arith

expire_at-max :
    (i : ℕ) (o : Option Phase) (m : Manager) → (expire_at i o m).max_concurrent ≡ m.max_concurrent
unfolding expire_at
expire_at-max i (some suspended) m = refl
expire_at-max i _ m = refl

cancel_first-max :
    (js : List ℕ) (m : Manager) → (cancel_first js m).max_concurrent ≡ m.max_concurrent
unfolding cancel_first
cancel_first-max [] m = refl
cancel_first-max (j ∷ js) m = refl

step-max : (e : Event) (m : Manager) → (step e m).max_concurrent ≡ m.max_concurrent
unfolding step
step-max (advance i) m = advance_at-max i (get_elem? m.procs i) m
step-max (expire i) m = expire_at-max i (get_elem? m.procs i) m
step-max shutdown_cancel m = cancel_first-max m.cancelling m
step-max _ m = refl

-- The configured limit never changes.
pub max_concurrent-run :
    (es : List Event) (m : Manager) → (run es m).max_concurrent ≡ m.max_concurrent
unfolding run
max_concurrent-run [] m = refl
max_concurrent-run (e ∷ es) m = max_concurrent-run es (step e m) ∙ step-max e m

notify_queue-flag :
    (i : ℕ) (js : List ℕ) (m : Manager) → (notify_queue i js m).is_shutdown ≡ m.is_shutdown
unfolding notify_queue
notify_queue-flag i [] m = refl
notify_queue-flag i (j ∷ js) m = refl

advance_at-flag :
    (i : ℕ) (o : Option Phase) (m : Manager) → (advance_at i o m).is_shutdown ≡ m.is_shutdown
unfolding advance_at
advance_at-flag i (some (deciding aborted)) m = refl
advance_at-flag i (some releasing) m = notify_queue-flag i m.wait_queue m
advance_at-flag i _ m = ground arith

-- Coroutines do not touch the flag of `shutdown`.
pub advance-flag : (i : ℕ) (m : Manager) → (step (advance i) m).is_shutdown ≡ m.is_shutdown
unfolding step
advance-flag i m = advance_at-flag i (get_elem? m.procs i) m

expire_at-flag :
    (i : ℕ) (o : Option Phase) (m : Manager) → (expire_at i o m).is_shutdown ≡ m.is_shutdown
unfolding expire_at
expire_at-flag i (some suspended) m = refl
expire_at-flag i _ m = refl

pub expire-flag : (i : ℕ) (m : Manager) → (step (expire i) m).is_shutdown ≡ m.is_shutdown
unfolding step
expire-flag i m = expire_at-flag i (get_elem? m.procs i) m

pub arrive-flag : (m : Manager) → (step arrive m).is_shutdown ≡ m.is_shutdown
unfolding step
arrive-flag m = refl

-- A coroutine's step, at the phase that it has reached.
pub step-advance :
    (i : ℕ) (p : Phase) (m : Manager)
    → get_elem? m.procs i ≡ some p
    → step (advance i) m ≡ advance_at i (some p) m
unfolding step
step-advance i p m e = rw e
