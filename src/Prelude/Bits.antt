-- ===== src/Prelude/Bits.antt =====
-- Conjunction with a mask, for the masks of alignments.
use Prim.Native.Nat.{
  ℕ, zero, suc, ◌+◌, ◌-◌, ◌*◌, ◌/◌, ◌%◌, ◌^◌, ◌≤◌, ◌<◌, min, bit_and, digits, bit_and-bitwise,
}
use mathlib.Core.Path.{◌≡◌, refl}
use native.Mathlib.Nat.{two-pow-succ, one-le-pow}
use native.Mathlib.Omega.{arith}

-- Any count of rounds from the first number on gives the same digits.
digits_rounds :
    (z : ℕ → ℕ) (f : ℕ → ℕ → ℕ) (k l a b : ℕ) → a ≤ k → a ≤ l → digits z f k a b ≡ digits z f l a b
digits_rounds z f zero zero zero b hk hl = refl
digits_rounds z f zero (suc l) zero b hk hl = refl
digits_rounds z f (suc k) zero zero b hk hl = refl
digits_rounds z f (suc k) (suc l) zero b hk hl = refl
digits_rounds z f zero l (suc a) b hk hl = absurd (omega arith)
digits_rounds z f (suc k) zero (suc a) b hk hl = absurd (omega arith)
digits_rounds z f (suc k) (suc l) (suc a) b hk hl =
    let halves = digits_rounds z f k l (suc a / 2) (b / 2) (omega arith) (omega arith) in
    omega arith

nothing-bit_and : (b : ℕ) → bit_and 0 b ≡ 0
nothing-bit_and b = bit_and-bitwise 0 b

-- The lowest digit and the rest.
pub bit_and-halves : (a b : ℕ) → bit_and a b ≡ 2 * bit_and (a / 2) (b / 2) + min (a % 2) (b % 2)
bit_and-halves zero b = omega (arith, nothing-bit_and b, nothing-bit_and (b / 2))
bit_and-halves (suc a) b =
    let here = bit_and-bitwise (suc a) b in
    let there = bit_and-bitwise (suc a / 2) (b / 2) in
    omega (
      arith,
      here,
      there,
      digits_rounds (λ b. zero) min a (suc a / 2) (suc a / 2) (b / 2) (omega arith) (omega arith),
    )

-- A mask of ones keeps a number that it covers.
pub bit_and-ones : (k a : ℕ) → a < 2 ^ k → bit_and a (2 ^ k - 1) ≡ a
bit_and-ones zero a h = let none : a ≡ 0 = omega arith in rw none (nothing-bit_and (2 ^ 0 - 1))
bit_and-ones (suc k) a h =
    let twice = two-pow-succ k in
    let positive = one-le-pow k 2 (omega arith) in
    let half : (2 ^ suc k - 1) / 2 ≡ 2 ^ k - 1 = omega arith in
    let odd : (2 ^ suc k - 1) % 2 ≡ 1 = omega arith in
    let rest = bit_and-ones k (a / 2) (omega arith) in
    let here : bit_and a (2 ^ suc k - 1) ≡ 2 * bit_and (a / 2) (2 ^ k - 1) + min (a % 2) 1 =
      rw (half, odd) at (bit_and-halves a (2 ^ suc k - 1)) in
    omega arith

-- On 64 bits, `x & !(align - 1)` rounds down to a multiple of an alignment.
pub clear_low_bits :
    (x : ℕ)
    → x < 2 ^ 64
    → (bit_and x (2 ^ 64 - 1) ≡ x)
      × (bit_and x (2 ^ 64 - 2) ≡ x - x % 2)
      × (bit_and x (2 ^ 64 - 4) ≡ x - x % 4)
      × (bit_and x (2 ^ 64 - 8) ≡ x - x % 8)
clear_low_bits x h =
    let step = bit_and-halves in
    (
      bit_and-ones 64 x h,
      omega (arith, step x (2 ^ 64 - 2), bit_and-ones 63 (x / 2) (omega arith)),
      omega (
        arith,
        step x (2 ^ 64 - 4),
        step (x / 2) (2 ^ 63 - 2),
        bit_and-ones 62 (x / 2 / 2) (omega arith),
      ),
      omega (
        arith,
        step x (2 ^ 64 - 8),
        step (x / 2) (2 ^ 63 - 4),
        step (x / 2 / 2) (2 ^ 62 - 2),
        bit_and-ones 61 (x / 2 / 2 / 2) (omega arith),
      ),
    )
