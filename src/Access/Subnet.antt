-- ===== src/Access/Subnet.antt =====
-- A subnet in CIDR notation, as the addresses that share its leading bits.
use Prim.Native.Nat.{bit_and, bit_and-bitwise, digits}
use native.Mathlib.Nat.{div-div-eq-div-mul, mul-div_cancel, pow-le-pow_right}
use hku_rest.Prelude.{
  Bool-cases, inl, inr, lt→ltb, ℕ, zero, suc, ◌+◌, ◌-◌, ◌*◌, ◌/◌, ◌%◌, ◌^◌, ◌≤◌, ◌<◌, min, ◌≡◌,
  refl, sym, ap, ◌∙◌, ◌≢◌, ◌↔◌, true, false, subst, Option, some, [], ◌∷◌, ◌++◌, ltb, ◌==◌, ==_iff,
  arith,
}
use hku_rest.Prelude.Text.{Text, Avoids, before, before-append, after-append}
use hku_rest.Connections.Ints.{ℤ, pos}
use hku_rest.Access.{ones, bit_not, shl, mask_of, corrected, parse_cidr, is_ip_in_cidr}

-- The recursion that `bit_and` stands for: from the lowest digit up, in at most `rounds` rounds.
abbrev conjunction : ℕ → ℕ → ℕ → ℕ
conjunction rounds x y = digits (λ rest. 0) min rounds x y

conjunction_lem :
    (bound rounds x y : ℕ) → rounds ≤ bound → x ≤ rounds → conjunction rounds x y ≡ bit_and x y
conjunction_lem bound zero zero y b h = sym (bit_and-bitwise 0 y)
conjunction_lem bound (suc rounds) zero y b h = sym (bit_and-bitwise 0 y)
conjunction_lem bound zero (suc x) y b h = absurd (omega arith)
conjunction_lem zero (suc rounds) (suc x) y b h = absurd (omega arith)
conjunction_lem (suc bound) (suc rounds) (suc x) y b h =
    let here = conjunction_lem bound rounds (suc x / 2) (y / 2) (omega arith) (omega arith) in
    let there = conjunction_lem bound x (suc x / 2) (y / 2) (omega arith) (omega arith) in
    omega (arith, here, there, bit_and-bitwise (suc x) y)

-- The lowest digits, and what is above them.
bit_and_halves : (x y : ℕ) → bit_and x y ≡ bit_and (x / 2) (y / 2) * 2 + min (x % 2) (y % 2)
bit_and_halves zero y = omega (arith, bit_and-bitwise 0 y, bit_and-bitwise 0 (y / 2))
bit_and_halves (suc x) y = omega (
  arith,
  bit_and-bitwise (suc x) y,
  conjunction_lem x x (suc x / 2) (y / 2) (omega arith) (omega arith),
)

-- A mask of ones below keeps a number that fits.
bit_and_ones : (w a m : ℕ) → a < 2 ^ w → m + 1 ≡ 2 ^ w → bit_and a m ≡ a
bit_and_ones zero a m h e = ground (arith, bit_and-bitwise 0 m)
bit_and_ones (suc w) a m h e =
    omega (arith, bit_and_halves a m, bit_and_ones w (a / 2) (m / 2) (omega arith) (omega arith))

-- A mask and its complement split a number.
bit_and_split : (w a m n : ℕ) → a < 2 ^ w → m + n + 1 ≡ 2 ^ w → bit_and a m + bit_and a n ≡ a
bit_and_split zero a m n h e = ground (arith, bit_and-bitwise 0 m, bit_and-bitwise 0 n)
bit_and_split (suc w) a m n h e = omega (
  arith,
  bit_and_halves a m,
  bit_and_halves a n,
  bit_and_split w (a / 2) (m / 2) (n / 2) (omega arith) (omega arith),
)

-- A mask of leading ones rounds down.
bit_and_mask :
    (k w a m : ℕ) → k ≤ w → a < 2 ^ w → m + 2 ^ k ≡ 2 ^ w → bit_and a m ≡ a / 2 ^ k * 2 ^ k
bit_and_mask zero w a m p h e = omega (arith, bit_and_ones w a m h (omega arith))
bit_and_mask (suc k) zero a m p h e = absurd (omega arith)
bit_and_mask (suc k) (suc w) a m p h e =
    let rest = bit_and_mask k w (a / 2) (m / 2) (omega arith) (omega arith) (omega arith) in
    let half : bit_and a m ≡ a / 2 / 2 ^ k * (2 * 2 ^ k) =
      omega (arith, bit_and_halves a m, rest) in
    half
    ∙ ap (λ q. q * (2 * 2 ^ k)) (div-div-eq-div-mul a 2 (2 ^ k))
    ∙ ap (λ p. a / p * p) (omega arith)

pow_pos : (k : ℕ) → 0 < 2 ^ k
pow_pos zero = omega arith
pow_pos (suc k) = omega (arith, pow_pos k)

mul_cancel : (p q r : ℕ) → 0 < p → q * p ≡ r * p → q ≡ r
mul_cancel p q r h e = sym (mul-div_cancel q h) ∙ ap (λ x. x / p) e ∙ mul-div_cancel r h

nonzero : (a : ℕ) → a ≢ 0 → (a == 0) ≡ false
nonzero a h = ground arith

within : (p : ℕ) → p ≤ 32 → ltb 32 p ≡ false
within p h = ground arith

before_self : (s : Text) → Avoids 47 s → before 47 s ≡ s
unfolding before
before_self [] h = refl
before_self (a ∷ s) h = ground (arith, before_self s h.1, h.0)

-- The shift drops the ones that leave the word.
ones_shifted : (t : ℕ) → 0 < t → t ≤ 2 ^ 32 → ones * t % 2 ^ 32 + t ≡ 2 ^ 32
ones_shifted t h l = omega arith

module _ (inet_pton : Text → Option ℕ) (stoi : Text → Option ℤ) (undefined_shift : ℕ → ℕ → ℕ) where
  mask : ℕ → ℕ
  mask = mask_of inet_pton stoi undefined_shift

  mask_lem : (p : ℕ) → 1 ≤ p → p ≤ 32 → mask p + 2 ^ (32 - p) ≡ 2 ^ 32
  unfolding mask mask_of shl
  mask_lem p h l = elim (Bool-cases (p == 32)) [
    | inl t ↦ rw t (subst (λ q. ones + 2 ^ (32 - q) ≡ 2 ^ 32) (sym ((==_iff p 32).0 t)) refl)
    | inr f ↦
        rw
          (
            f,
            lt→ltb (32 - p) 32 (omega arith),
            bit_and_ones 32 (ones * 2 ^ (32 - p) % 2 ^ 32) ones (omega arith) refl,
          )
          (ones_shifted (2 ^ (32 - p)) (pow_pos (32 - p))
            (pow-le-pow_right {n = 2} (omega arith) {i = 32 - p} {j = 32} (omega arith)))
  ]

  mask_bound : (p : ℕ) → 1 ≤ p → p ≤ 32 → mask p ≤ ones
  mask_bound p h l = omega (arith, mask_lem p h l, pow_pos (32 - p))

  corrected_lem :
      (n m : ℕ) → n < 2 ^ 32 → m ≤ ones → corrected inet_pton stoi undefined_shift n m ≡ bit_and n m
  unfolding corrected
  corrected_lem n m h l = ground (arith, bit_and_split 32 n m (bit_not m) h (omega arith))

  -- Two addresses agree under a mask of leading ones just if they share the bits that it keeps.
  masked_iff :
      (k a n m : ℕ)
      → k ≤ 32
      → a < 2 ^ 32
      → n < 2 ^ 32
      → m + 2 ^ k ≡ 2 ^ 32
      → ((bit_and a m == bit_and n m) ≡ true) ↔ (a / 2 ^ k ≡ n / 2 ^ k)
  masked_iff k a n m p h l e =
      let equal = ==_iff (bit_and a m) (bit_and n m) in
      let ea = bit_and_mask k 32 a m p h e in
      let en = bit_and_mask k 32 n m p l e in
      (
        λ t. mul_cancel (2 ^ k) (a / 2 ^ k) (n / 2 ^ k) (pow_pos k) (sym ea ∙ equal.0 t ∙ en),
        λ t. equal.1 (ea ∙ ap (λ q. q * 2 ^ k) t ∙ sym en),
      )

  parse_cidr_lem :
      (network prefix : Text) (n p : ℕ)
      → Avoids 47 network
      → inet_pton network ≡ some n
      → stoi prefix ≡ some (pos p)
      → n ≢ 0
      → n < 2 ^ 32
      → 1 ≤ p
      → p ≤ 32
      → parse_cidr inet_pton stoi undefined_shift (network ++ 47 ∷ prefix)
        ≡ some (bit_and n (mask p), mask p)
  unfolding parse_cidr mask
  parse_cidr_lem network prefix n p av en ep n0 l p1 p32 =
      rw
        (
          before-append 47 network prefix,
          before_self network av,
          after-append 47 network prefix av,
          en,
          ep,
        )
        (rw (nonzero n n0, within p p32)
          (ap (λ x. some (x, mask p)) (corrected_lem n (mask p) l (mask_bound p p1 p32))))

  -- An address is in a subnet written as `network/prefix` just if the two agree in their leading
  -- `prefix` bits: for a prefix from 1 to 32, and if neither of the two is malformed or 0.0.0.0.
  pub is_ip_in_cidr-Leading :
      (ip network prefix : Text) (a n p : ℕ)
      → Avoids 47 network
      → inet_pton ip ≡ some a
      → inet_pton network ≡ some n
      → stoi prefix ≡ some (pos p)
      → a ≢ 0
      → n ≢ 0
      → a < 2 ^ 32
      → n < 2 ^ 32
      → 1 ≤ p
      → p ≤ 32
      → (is_ip_in_cidr inet_pton stoi undefined_shift ip (network ++ 47 ∷ prefix) ≡ true)
        ↔ (a / 2 ^ (32 - p) ≡ n / 2 ^ (32 - p))
  unfolding is_ip_in_cidr parse_cidr
  is_ip_in_cidr-Leading ip network prefix a n p av ea en ep a0 n0 h l p1 p32 =
      rw (ea, parse_cidr_lem network prefix n p av en ep n0 l p1 p32)
        (rw (nonzero a a0) (masked_iff (32 - p) a n (mask p) (omega arith) h l (mask_lem p p1 p32)))
