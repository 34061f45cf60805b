-- ===== src/Bits.antt =====
-- `|` at variables: joining disjoint bit fields by `|` is addition. The source writes words and
-- serial lines this way (md5checksum.cpp, VControlServer.cpp).
use Prim.Native.Nat.{digits, bit_or-bitwise, max}
use native.Mathlib.Nat.{pow-suc}
use softupdate.Prelude.{
  ℕ, zero, suc, ◌+◌, ◌*◌, ◌/◌, ◌%◌, ◌^◌, ◌≤◌, ◌<◌, ◌≡◌, refl, ap, bit_or, arith,
}

-- `a | b` read digit by digit, `n` rounds deep.
abbrev or_rounds : ℕ → ℕ → ℕ → ℕ
or_rounds n a b = digits (λ c. c) max n a b

or_rounds_enough : (n m a b : ℕ) → a ≤ n → a ≤ m → or_rounds n a b ≡ or_rounds m a b
or_rounds_enough zero zero a b p q = refl
or_rounds_enough (suc n) (suc m) zero b p q = refl
or_rounds_enough zero (suc m) zero b p q = refl
or_rounds_enough (suc n) zero zero b p q = refl
or_rounds_enough zero (suc m) (suc a) b p q = absurd (omega arith)
or_rounds_enough (suc n) zero (suc a) b p q = absurd (omega arith)
or_rounds_enough (suc n) (suc m) (suc a) b p q =
    omega (arith, or_rounds_enough n m (suc a / 2) (b / 2) (omega arith) (omega arith))

zero-bit_or : (b : ℕ) → bit_or 0 b ≡ b
zero-bit_or b = bit_or-bitwise 0 b

bit_or-lowest : (a b : ℕ) → max (a % 2) (b % 2) + 2 * bit_or (a / 2) (b / 2) ≡ bit_or a b
bit_or-lowest zero b = omega (arith, zero-bit_or b, zero-bit_or (b / 2))
bit_or-lowest (suc a) b = omega (
  arith,
  bit_or-bitwise (suc a) b,
  bit_or-bitwise (suc a / 2) (b / 2),
  or_rounds_enough a (suc a / 2) (suc a / 2) (b / 2) (omega arith) (omega arith),
)

-- A field above bit `k` joins what fits below it without a carry.
pub bit_or-eq-add : (k a b : ℕ) → a < 2 ^ k → bit_or a (b * 2 ^ k) ≡ a + b * 2 ^ k
bit_or-eq-add zero a b h =
    let low : a ≡ 0 = omega arith in rw (low, zero-bit_or (b * 2 ^ 0)) (omega arith)
bit_or-eq-add (suc k) a b h = omega (
  arith,
  bit_or-lowest a (b * 2 ^ suc k),
  ap (λ (t : ℕ). b * t) (pow-suc 2 k),
  pow-suc 2 k,
  ap (λ t. bit_or (a / 2) t) halves,
  bit_or-eq-add k (a / 2) b (omega (arith, pow-suc 2 k)),
)
  where
    halves : b * 2 ^ suc k / 2 ≡ b * 2 ^ k
    halves = omega (arith, ap (λ (t : ℕ). b * t) (pow-suc 2 k))

bit_or_comm_below : (n a b : ℕ) → a ≤ n → b ≤ n → bit_or a b ≡ bit_or b a
bit_or_comm_below zero a b p q =
    let x : a ≡ 0 = omega arith in let y : b ≡ 0 = omega arith in rw (x, y) refl
bit_or_comm_below (suc n) a b p q = omega (
  arith,
  bit_or-lowest a b,
  bit_or-lowest b a,
  bit_or_comm_below n (a / 2) (b / 2) (omega arith) (omega arith),
)

pub bit_or_comm : (a b : ℕ) → bit_or a b ≡ bit_or b a
bit_or_comm a b = bit_or_comm_below (a + b) a b (omega arith) (omega arith)
