-- ===== src/Connections/Numbers.antt =====
-- Which permit numbers are out, for one coroutine that moves: hikyuu/httpd/ConnectionManager.h.
use hku_rest.Prelude.{
  ℕ, ◌+◌, ◌^◌, ◌<◌, ◌≡◌, refl, sym, ◌∙◌, ◌≢◌, ◌⊎◌, inl, inr, ap, false, Option, some, List, arith,
  get_elem?, set, get_elem?-set, count_if, count_if-set,
}
use hku_rest.Connections.Lemmas.{count_if-cancel}
use hku_rest.Connections.{
  Manager, Phase, cancel_wait, cancel, take_permit, aborted, suspended, resumed, holding, is_served,
  served,
}

pub record Issued (m : Manager) : Type 0 where
  pub next : m.next_permit_id ≡ served m
  pub below : (j id : ℕ) → get_elem? m.procs j ≡ some (holding id) → id < served m
  pub apart :
      (j k a b : ℕ)
      → get_elem? m.procs j ≡ some (holding a)
      → get_elem? m.procs k ≡ some (holding b)
      → j ≢ k
      → a ≢ b

-- A phase that holds no permit before and after leaves the numbers as they are.
module _ (m m' : Manager) (i : ℕ) (p q : Phase) (at : get_elem? m.procs i ≡ some p)
    (procs : m'.procs ≡ set m.procs i q) (next : m'.next_permit_id ≡ m.next_permit_id)
    (same : is_served p ≡ is_served q) (quiet : (id : ℕ) → q ≢ holding id) where
  served-moved : served m' ≡ served m
  served-moved = rw procs (ground (arith, count_if-set is_served m.procs i q p at))

  moved_holding :
      (j id : ℕ)
      → get_elem? m'.procs j ≡ some (holding id)
      → get_elem? m.procs j ≡ some (holding id)
  moved_holding j id e = ground (arith, procs, get_elem?-set m.procs i j q p at, quiet id, e)

  Issued-moved : Issued m → Issued m'
  Issued-moved v = record {
    next = next ∙ v.next ∙ sym served-moved;
    below = λ j id e. rw served-moved (v.below j id (moved_holding j id e));
    apart = λ j k a b e f. v.apart j k a b (moved_holding j a e) (moved_holding k b f);
  }

-- Fewer than 2 ^ 32 permits were handed out, so their numbers did not wrap.
abbrev pub Numbered : Manager → Type 0
Numbered m = served m < 2 ^ 32 → Issued m

module _ (m : Manager) (i : ℕ) (p : Phase) (at : get_elem? m.procs i ≡ some p) where
  served-taken : is_served p ≡ false → served (take_permit i m) ≡ served m + 1
  unfolding take_permit
  served-taken s = ground (arith, count_if-set is_served m.procs i (holding m.next_permit_id) p at)

  taken_holding :
      (j id : ℕ)
      → get_elem? (take_permit i m).procs j ≡ some (holding id)
      → ((i ≡ j) × (id ≡ m.next_permit_id)) ⊎ ((i ≢ j) × (get_elem? m.procs j ≡ some (holding id)))
  unfolding take_permit
  taken_holding j id e =
      ground (arith, get_elem?-set m.procs i j (holding m.next_permit_id) p at, e)

  taken-below :
      is_served p ≡ false
      → Issued m
      → (j id : ℕ) → get_elem? (take_permit i m).procs j ≡ some (holding id)
      → id < served m + 1
  taken-below s v j id e = elim (taken_holding j id e) [
    | inl (_, n) ↦ omega (arith, n, v.next)
    | inr (_, g) ↦ omega (arith, v.below j id g)
  ]

  taken-apart :
      Issued m
      → (j k a b : ℕ) → get_elem? (take_permit i m).procs j ≡ some (holding a)
      → get_elem? (take_permit i m).procs k ≡ some (holding b)
      → j ≢ k
      → a ≢ b
  taken-apart v j k a b e f n = elim (taken_holding j a e) [
    | inl (ij, x) ↦ elim (taken_holding k b f) [
      | inl (ik, _) ↦ absurd (n (sym ij ∙ ik))
      | inr (_, g) ↦ omega (arith, x, v.next, v.below k b g)
    ]
    | inr (_, g) ↦ elim (taken_holding k b f) [
      | inl (_, y) ↦ omega (arith, y, v.next, v.below j a g)
      | inr (_, g') ↦ v.apart j k a b g g' n
    ]
  ]

  pub Numbered-taken : is_served p ≡ false → Numbered m → Numbered (take_permit i m)
  Numbered-taken s v below =
      let few : served m + 1 < 2 ^ 32 = rw (served-taken s) at below in
      let h : Issued m = v (omega arith) in
      record {
        next = rw (served-taken s) (unfold take_permit in omega (arith, h.next));
        below = λ j id e. rw (served-taken s) (taken-below s h j id e);
        apart = taken-apart h;
      }

pub Numbered-moved :
    (m m' : Manager) (i : ℕ) (p q : Phase)
    → get_elem? m.procs i ≡ some p
    → m'.procs ≡ set m.procs i q
    → m'.next_permit_id ≡ m.next_permit_id
    → is_served p ≡ is_served q
    → ((id : ℕ) → q ≢ holding id)
    → Numbered m
    → Numbered m'
Numbered-moved m m' i p q at procs next same quiet v few =
    Issued-moved m m' i p q at procs next same quiet
      (v (rw (served-moved m m' i p q at procs next same quiet) at few))

cancel_wait_holding :
    (i j id : ℕ) (o : Option Phase) (ps : List Phase)
    → get_elem? ps i ≡ o
    → get_elem? (cancel_wait i o ps) j ≡ some (holding id)
    → get_elem? ps j ≡ some (holding id)
unfolding cancel_wait
cancel_wait_holding i j id (some suspended) ps e h =
    ground (arith, get_elem?-set ps i j (resumed aborted) suspended e, h)
cancel_wait_holding i j id _ ps e h = h

-- A cancelled timer leaves the numbers as they are.
pub Numbered-cancel :
    (m m' : Manager) (j : ℕ)
    → m'.procs ≡ cancel j m.procs
    → m'.next_permit_id ≡ m.next_permit_id
    → Numbered m
    → Numbered m'
unfolding cancel
Numbered-cancel m m' j procs next v few =
    let same : served m' ≡ served m =
      ap (count_if is_served) procs ∙ unfold cancel in count_if-cancel is_served refl j m.procs in
    let old : (k id : ℕ)
        → get_elem? m'.procs k ≡ some (holding id)
        → get_elem? m.procs k ≡ some (holding id) =
      λ k id e. cancel_wait_holding j k id (get_elem? m.procs j) m.procs refl (rw procs at e) in
    let h : Issued m = v (rw same at few) in
    record {
      next = next ∙ h.next ∙ sym same;
      below = λ k id e. rw same (h.below k id (old k id e));
      apart = λ k l a b e f. h.apart k l a b (old k a e) (old l b f);
    }
