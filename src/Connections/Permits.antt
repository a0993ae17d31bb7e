-- ===== src/Connections/Permits.antt =====
-- The permit numbers of hikyuu/httpd/ConnectionManager.h: distinct and valid, until they wrap.
use hku_rest.Prelude.{
  ℕ, zero, suc, ◌^◌, ◌≤◌, ◌≡◌, refl, sym, ◌∙◌, ◌≢◌, Bool, true, false, Option, none, some, List, [],
  ◌∷◌, ◌++◌, arith, get_elem?, set, get_elem?-set_self, count_if-append, if◌then◌else◌,
}
use hku_rest.Connections.Ints.{incr, decr, ltz}
use hku_rest.Connections.Lemmas.{step-advance}
use hku_rest.Connections.{
  Manager, Phase, Event, init, step, run, advance_at, expire_at, cancel_first, take_permit,
  try_fast, destroy, is_valid, notify_queue, aborted, expired, suspended, resumed, releasing,
  finished, advance, arrive, expire, entering, trying, counted, queued, removed, deciding, holding,
  abandoned, rejected, shutdown_flag, shutdown_drain, shutdown_cancel, shutdown_reset, is_served,
  served,
}
use hku_rest.Connections.Numbers.{Issued, Numbered, Numbered-moved, Numbered-cancel, Numbered-taken}

notify_queue-Numbered :
    (i : ℕ) (js : List ℕ) (m : Manager)
    → get_elem? m.procs i ≡ some releasing
    → Numbered m
    → Numbered (notify_queue i js m)
unfolding notify_queue
notify_queue-Numbered i [] m e v =
    Numbered-moved m _ i releasing finished e refl refl refl (λ id h. cc) v
notify_queue-Numbered i (j ∷ js) m e v =
    let mid : Manager = record m { procs = set m.procs i finished } in
    Numbered-cancel mid _ j refl refl
      (Numbered-moved m mid i releasing finished e refl refl refl (λ id h. cc) v)

check_shutdown-Numbered :
    (i : ℕ) (m : Manager) (b : Bool)
    → get_elem? m.procs i ≡ some entering
    → Numbered m
    → Numbered (
        if b
        then record m { procs = set m.procs i rejected }
        else record m { procs = set m.procs i trying })
check_shutdown-Numbered i m true e v =
    Numbered-moved m _ i entering rejected e refl refl refl (λ id h. cc) v
check_shutdown-Numbered i m false e v =
    Numbered-moved m _ i entering trying e refl refl refl (λ id h. cc) v

try_fast-Numbered :
    (i : ℕ) (m : Manager) (b : Bool)
    → get_elem? m.procs i ≡ some trying
    → Numbered m
    → Numbered (
        if b
        then take_permit i m
        else record m { waiting_count = incr m.waiting_count; procs = set m.procs i counted })
try_fast-Numbered i m true e v = Numbered-taken m i trying e refl v
try_fast-Numbered i m false e v =
    Numbered-moved m _ i trying counted e refl refl refl (λ id h. cc) v

destroy-Numbered :
    (i id : ℕ) (m : Manager) (b : Bool)
    → get_elem? m.procs i ≡ some (holding id)
    → Numbered m
    → Numbered (
        if b
        then record m { current_count = decr m.current_count; procs = set m.procs i releasing }
        else record m { procs = set m.procs i abandoned })
destroy-Numbered i id m true e v =
    Numbered-moved m _ i (holding id) releasing e refl refl refl (λ id h. cc) v
destroy-Numbered i id m false e v =
    Numbered-moved m _ i (holding id) abandoned e refl refl refl (λ id h. cc) v

advance_at-Numbered :
    (i : ℕ) (o : Option Phase) (m : Manager)
    → get_elem? m.procs i ≡ o
    → Numbered m
    → Numbered (advance_at i o m)
unfolding advance_at
advance_at-Numbered i (some entering) m e v = check_shutdown-Numbered i m m.is_shutdown e v
advance_at-Numbered i (some trying) m e v =
    try_fast-Numbered i m (ltz m.current_count m.max_concurrent) e v
advance_at-Numbered i (some counted) m e v =
    Numbered-moved m _ i counted queued e refl refl refl (λ id h. cc) v
advance_at-Numbered i (some queued) m e v =
    Numbered-moved m _ i queued suspended e refl refl refl (λ id h. cc) v
advance_at-Numbered i (some (resumed w)) m e v =
    Numbered-moved m _ i (resumed w) (removed w) e refl refl refl (λ id h. cc) v
advance_at-Numbered i (some (removed w)) m e v =
    Numbered-moved m _ i (removed w) (deciding w) e refl refl refl (λ id h. cc) v
advance_at-Numbered i (some (deciding aborted)) m e v =
    Numbered-taken m i (deciding aborted) e refl v
advance_at-Numbered i (some (deciding expired)) m e v =
    Numbered-moved m _ i (deciding expired) rejected e refl refl refl (λ id h. cc) v
advance_at-Numbered i (some (holding id)) m e v = destroy-Numbered i id m (is_valid id) e v
advance_at-Numbered i (some releasing) m e v = notify_queue-Numbered i m.wait_queue m e v
advance_at-Numbered i (some suspended) m e v = v
advance_at-Numbered i (some abandoned) m e v = v
advance_at-Numbered i (some rejected) m e v = v
advance_at-Numbered i (some finished) m e v = v
advance_at-Numbered i none m e v = v

append_holding :
    (ps : List Phase) (j id : ℕ)
    → get_elem? (ps ++ entering ∷ []) j ≡ some (holding id)
    → get_elem? ps j ≡ some (holding id)
append_holding [] zero id e = cc
append_holding [] (suc j) id e = cc
append_holding (p ∷ ps) zero id e = e
append_holding (p ∷ ps) (suc j) id e = append_holding ps j id e

arrive-Numbered : (m : Manager) → Numbered m → Numbered (step arrive m)
unfolding step
arrive-Numbered m v few =
    let same : served (step arrive m) ≡ served m =
      unfold step in ground (arith, count_if-append is_served m.procs (entering ∷ [])) in
    let h : Issued m = v (rw same at few) in
    record {
      next = h.next ∙ sym same;
      below = λ j id e. rw same (h.below j id (append_holding m.procs j id e));
      apart = λ j k a b e f.
          h.apart j k a b (append_holding m.procs j a e) (append_holding m.procs k b f);
    }

expire_at-Numbered :
    (i : ℕ) (o : Option Phase) (m : Manager)
    → get_elem? m.procs i ≡ o
    → Numbered m
    → Numbered (expire_at i o m)
unfolding expire_at
expire_at-Numbered i (some suspended) m e v =
    Numbered-moved m _ i suspended (resumed expired) e refl refl refl (λ id h. cc) v
expire_at-Numbered i _ m e v = v

cancel_first-Numbered : (js : List ℕ) (m : Manager) → Numbered m → Numbered (cancel_first js m)
unfolding cancel_first
cancel_first-Numbered [] m v = v
cancel_first-Numbered (j ∷ js) m v = Numbered-cancel m _ j refl refl v

step-Numbered : (e : Event) (m : Manager) → Numbered m → Numbered (step e m)
unfolding step
step-Numbered arrive m v = arrive-Numbered m v
step-Numbered (advance i) m v = advance_at-Numbered i (get_elem? m.procs i) m refl v
step-Numbered (expire i) m v = expire_at-Numbered i (get_elem? m.procs i) m refl v
step-Numbered shutdown_flag m v =
    λ few. record { next = (v few).next; below = (v few).below; apart = (v few).apart }
step-Numbered shutdown_drain m v =
    λ few. record { next = (v few).next; below = (v few).below; apart = (v few).apart }
step-Numbered shutdown_cancel m v = cancel_first-Numbered m.cancelling m v
step-Numbered shutdown_reset m v =
    λ few. record { next = (v few).next; below = (v few).below; apart = (v few).apart }

run-Numbered : (es : List Event) (m : Manager) → Numbered m → Numbered (run es m)
unfolding run
run-Numbered [] m v = v
run-Numbered (e ∷ es) m v = run-Numbered es (step e m) (step-Numbered e m v)

init-Numbered : (max : ℕ) → Numbered (init max)
unfolding init
init-Numbered max few = record {
  next = refl;
  below = λ j id e. absurd (cc e);
  apart = λ j k a b e f n. absurd (cc e);
}

-- After any interleaving from a new manager in which at most 2 ^ 31 permits were handed out, every
-- permit that a coroutine holds tests valid, and two coroutines never hold the same number.
pub permits_valid_distinct :
    (max : ℕ) (es : List Event) (j k a b : ℕ)
    → served (run es (init max)) ≤ 2 ^ 31
    → get_elem? (run es (init max)).procs j ≡ some (holding a)
    → get_elem? (run es (init max)).procs k ≡ some (holding b)
    → j ≢ k
    → (is_valid a ≡ true) × (is_valid b ≡ true) × (a ≢ b)
permits_valid_distinct max es j k a b few e f n =
    let h : Issued (run es (init max)) =
      run-Numbered es (init max) (init-Numbered max) (omega arith) in
    (ground (arith, h.below j a e), ground (arith, h.below k b f), h.apart j k a b e f n)

-- Once the counter has passed the end of `int`, a coroutine that takes the fast path gets a permit
-- that tests invalid: its connection leaves without a release, and its place stays counted.
pub wrapped_permit_leaks :
    (m : Manager) (j : ℕ)
    → get_elem? m.procs j ≡ some trying
    → ltz m.current_count m.max_concurrent ≡ true
    → is_valid m.next_permit_id ≡ false
    → let m' = run (advance j ∷ advance j ∷ []) m in
      (m'.current_count ≡ incr m.current_count)
      × (get_elem? m'.procs j ≡ some abandoned)
      × (step (advance j) m' ≡ m')
unfolding run advance_at try_fast destroy
wrapped_permit_leaks m j e room invalid =
    let m1 : Manager = take_permit j m in
    let m2 : Manager = record m1 { procs = set m1.procs j abandoned } in
    let g1 : get_elem? m1.procs j ≡ some (holding m.next_permit_id) =
      unfold take_permit in get_elem?-set_self m.procs j _ _ e in
    let g2 : get_elem? m2.procs j ≡ some abandoned = get_elem?-set_self m1.procs j _ _ g1 in
    rw (step-advance j trying m e, room, step-advance j (holding m.next_permit_id) m1 g1, invalid)
      (unfold take_permit in refl, g2, step-advance j abandoned m2 g2)
