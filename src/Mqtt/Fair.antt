-- ===== src/Mqtt/Fair.antt =====
-- The contexts of hikyuu/mqtt/MqttBroker.cpp are handed out in turn.
use hku_rest.Prelude.{
  ℕ, zero, suc, ◌+◌, ◌-◌, ◌<◌, ◌≤◌, ◌≡◌, ◌∙◌, inl, inr, Bool, Bool-cases, List, [], ◌∷◌, ltb,
  if◌then◌else◌, arith,
}
use hku_rest.Mqtt.Keeps.{start-keeps}
use hku_rest.Mqtt.{
  Parameter, Impl, new_impl, cast_or, cast_size, configure, default_iocs, con_ioc_getter, start,
  stop,
}

-- The index points into the pool.
abbrev pub IsInPool : Impl → Type 0
IsInPool s = s.con_iocs_it < s.con_iocs

-- The index that the call after `k` others gives.
abbrev pub given : ℕ → Impl → ℕ
given zero s = (con_ioc_getter s).0
given (suc k) s = given k (con_ioc_getter s).1

getter-IsInPool :
    (s : Impl)
    → IsInPool s
    → IsInPool (con_ioc_getter s).1 × ((con_ioc_getter s).1.con_iocs ≡ s.con_iocs)
unfolding con_ioc_getter
getter-IsInPool s h = ground (arith, h)

given_lem :
    (k : ℕ) (s : Impl)
    → IsInPool s
    → k ≤ s.con_iocs
    → given k s ≡ (
        if ltb (s.con_iocs_it + k) s.con_iocs
        then s.con_iocs_it + k
        else s.con_iocs_it + k - s.con_iocs)
unfolding con_ioc_getter
given_lem zero s h l = ground (arith, h)
given_lem (suc k) s h l =
    let (inside, same) = getter-IsInPool s h in
    ground (arith, given_lem k (con_ioc_getter s).1 inside (rw same (omega arith)), h)

-- Where the pool's turn comes to an index.
turn_of : (n c i : ℕ) → ℕ
turn_of n c i = if ltb i c then i + n - c else i - c

-- Of as many calls in a row as there are contexts, each context is given out by exactly one.
pub con_ioc_getter_once :
    (s : Impl) (i : ℕ)
    → IsInPool s
    → i < s.con_iocs
    → (k : ℕ) × (k < s.con_iocs)
      × (given k s ≡ i)
      × ((j : ℕ) → j < s.con_iocs → given j s ≡ i → j ≡ k)
unfolding turn_of
con_ioc_getter_once s i h l =
    let bound : turn_of s.con_iocs s.con_iocs_it i < s.con_iocs = ground (arith, h) in
    (
      turn_of s.con_iocs s.con_iocs_it i,
      bound,
      given_lem (turn_of s.con_iocs s.con_iocs_it i) s h (omega (arith, bound)) ∙ ground (arith, h),
      λ j b e. ground (arith, given_lem j s h (omega arith), h),
    )

-- What may happen to a broker, in any order.
pub data Act : Type 0 where
  starts : (ℕ → Bool) → Bool → Act
  stops takes : Act

abbrev pub act : Act → Impl → Impl
act (starts free files_ok) s = (start free files_ok s).1
act stops s = stop s
act takes s = (con_ioc_getter s).1

abbrev pub act_all : List Act → Impl → Impl
act_all [] s = s
act_all (a ∷ rest) s = act_all rest (act a s)

act-IsInPool : (a : Act) (s : Impl) → IsInPool s → IsInPool (act a s)
unfolding stop
act-IsInPool (starts free files_ok) s h =
    start-keeps IsInPool free files_ok (λ q s h. h) (λ s h. h) (λ s h. h) (λ s h. h) s h
act-IsInPool stops s h = elim (Bool-cases s.running) [ inl t ↦ rw t h | inr f ↦ rw f h ]
act-IsInPool takes s h = (getter-IsInPool s h).0

act_all-IsInPool : (acts : List Act) (s : Impl) → IsInPool s → IsInPool (act_all acts s)
act_all-IsInPool [] s h = h
act_all-IsInPool (a ∷ acts) s h = act_all-IsInPool acts (act a s) (act-IsInPool a s h)

-- Whatever the parameters and the number of cores, the index of the next context points into the pool
-- from the start, and after any starts, stops and connections: there is always a context to give.
pub new_impl-IsInPool :
    (cores : ℕ) (param : Parameter) (acts : List Act)
    → IsInPool (act_all acts (new_impl cores param))
unfolding new_impl configure
new_impl-IsInPool cores param acts = act_all-IsInPool acts (new_impl cores param) fresh
  where
    positive : (n : ℕ) → 0 < default_iocs cores n
    positive n = ground arith

    fresh : IsInPool (new_impl cores param)
    fresh = positive (cast_or cast_size param.iocs 0)
