-- ===== src/Connections/Ints.antt =====
-- The counters of hikyuu/httpd/ConnectionManager.h are `std::atomic<int>`s, which a decrement can
-- take below zero. They count coroutines, and stay far from the ends of `int`.
use hku_rest.Prelude.{ℕ, zero, suc, Bool, true, ltb}

-- `negsuc n` is -(n + 1).
pub data ℤ : Type 0 where
  pos : ℕ → ℤ
  negsuc : ℕ → ℤ

-- `fetch_add(1)`
abbrev pub incr : ℤ → ℤ
incr (pos n) = pos (suc n)
incr (negsuc zero) = pos 0
incr (negsuc (suc n)) = negsuc n

-- `fetch_sub(1)`
abbrev pub decr : ℤ → ℤ
decr (pos zero) = negsuc 0
decr (pos (suc n)) = pos n
decr (negsuc n) = negsuc (suc n)

-- `c < static_cast<int>(n)`
abbrev pub ltz : ℤ → ℕ → Bool
ltz (pos c) n = ltb c n
ltz (negsuc c) n = true
