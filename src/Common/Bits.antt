-- ===== src/Common/Bits.antt =====
-- Laws of `&`, `|` and `^` at every width, from the digit recursion that the native operations
-- stand for. `a / 2 ^ k % 2` is the bit of weight 2 ^ k.
mod Step
use Step.{bit_and_step, bit_or_step, bit_xor_step}
use Prim.Native.Nat.{ℕ, zero, suc, ◌+◌, ◌-◌, ◌*◌, ◌/◌, ◌%◌, ◌^◌, ◌≤◌, ◌<◌, min, max}
use Prim.Native.Nat.{bit_and, bit_or, bit_xor, bit_and-bitwise, bit_or-bitwise, bit_xor-bitwise}
use mathlib.Core.Path.{◌≡◌, refl, ap, sym, ◌∙◌}
use native.Mathlib.Omega.{arith}
use native.Mathlib.Nat.{pow-suc, one-le-pow, div-div-eq-div-mul, mul-one, div-one, zero-div}
use riapyx.Common.Tests.{◌==◌, if◌then◌else◌}

two_pow-suc : (k : ℕ) → 2 ^ suc k ≡ 2 * 2 ^ k
two_pow-suc k = omega (arith, pow-suc 2 k)

div-two_pow-suc : (a k : ℕ) → a / 2 ^ suc k ≡ a / 2 / 2 ^ k
div-two_pow-suc a k = rw (two_pow-suc k) (sym (div-div-eq-div-mul a 2 (2 ^ k)))

-- The operations, one bit at a time.
pub bit-bit_and : (k a b : ℕ) → bit_and a b / 2 ^ k % 2 ≡ min (a / 2 ^ k % 2) (b / 2 ^ k % 2)
bit-bit_and zero a b = omega (arith, bit_and_step a b)
bit-bit_and (suc k) a b =
    rw (div-two_pow-suc (bit_and a b) k, div-two_pow-suc a k, div-two_pow-suc b k, half)
      (bit-bit_and k (a / 2) (b / 2))
  where
    half : bit_and a b / 2 ≡ bit_and (a / 2) (b / 2)
    half = omega (arith, bit_and_step a b)

pub bit-bit_or : (k a b : ℕ) → bit_or a b / 2 ^ k % 2 ≡ max (a / 2 ^ k % 2) (b / 2 ^ k % 2)
bit-bit_or zero a b = omega (arith, bit_or_step a b)
bit-bit_or (suc k) a b =
    rw (div-two_pow-suc (bit_or a b) k, div-two_pow-suc a k, div-two_pow-suc b k, half)
      (bit-bit_or k (a / 2) (b / 2))
  where
    half : bit_or a b / 2 ≡ bit_or (a / 2) (b / 2)
    half = omega (arith, bit_or_step a b)

pub bit-bit_xor : (k a b : ℕ) → bit_xor a b / 2 ^ k % 2 ≡ (a / 2 ^ k % 2 + b / 2 ^ k % 2) % 2
bit-bit_xor zero a b = omega (arith, bit_xor_step a b)
bit-bit_xor (suc k) a b =
    rw (div-two_pow-suc (bit_xor a b) k, div-two_pow-suc a k, div-two_pow-suc b k, half)
      (bit-bit_xor k (a / 2) (b / 2))
  where
    half : bit_xor a b / 2 ≡ bit_xor (a / 2) (b / 2)
    half = omega (arith, bit_xor_step a b)

-- Induction that goes from half a number to the number.
halves_below :
    (P : ℕ → Type 0) → P 0 → ((n : ℕ) → P (suc n / 2) → P (suc n)) → (bound n : ℕ) → n ≤ bound → P n
halves_below P base up bound zero h = base
halves_below P base up (suc bound) (suc n) h =
    up n (halves_below P base up bound (suc n / 2) (omega arith))
halves_below P base up zero (suc n) h = absurd (omega arith)

by_halves : (P : ℕ → Type 0) → P 0 → ((n : ℕ) → P (suc n / 2) → P (suc n)) → (n : ℕ) → P n
by_halves P base up n = halves_below P base up n n (omega arith)

zero-bit_and : (b : ℕ) → bit_and 0 b ≡ 0
zero-bit_and b = bit_and-bitwise 0 b

zero-bit_or : (b : ℕ) → bit_or 0 b ≡ b
zero-bit_or b = bit_or-bitwise 0 b

zero-bit_xor : (b : ℕ) → bit_xor 0 b ≡ b
zero-bit_xor b = bit_xor-bitwise 0 b

pub bit_and-zero : (a : ℕ) → bit_and a 0 ≡ 0
bit_and-zero =
    by_halves (λ a. bit_and a 0 ≡ 0) refl (λ n ih. omega (arith, bit_and_step (suc n) 0, ih))

pub bit_or-zero : (a : ℕ) → bit_or a 0 ≡ a
bit_or-zero =
    by_halves (λ a. bit_or a 0 ≡ a) refl (λ n ih. omega (arith, bit_or_step (suc n) 0, ih))

-- A test of one bit.
pub bit_and-two_pow : (k a : ℕ) → bit_and a (2 ^ k) ≡ a / 2 ^ k % 2 * 2 ^ k
bit_and-two_pow zero a = omega (arith, bit_and_step a 1, bit_and-zero (a / 2))
bit_and-two_pow (suc k) a = rw (div-two_pow-suc a k) (
    ground (
      arith,
      bit_and_step a (2 ^ suc k),
      two_pow-suc k,
      ap (λ (t : ℕ). a / 2 / 2 ^ k % 2 * t) (two_pow-suc k),
      bit_and-two_pow k (a / 2),
    ))

low_digits : (w high low : ℕ) → low < 2 ^ w → bit_and (high * 2 ^ w + low) (2 ^ w - 1) ≡ low
low_digits zero high low small = omega (arith, bit_and-zero (high * 1 + low))
low_digits (suc w) high low small = ground (
  arith,
  two_pow-suc w,
  low_digits w high (low / 2),
  ap (λ (t : ℕ). high * t) (two_pow-suc w),
  bit_and_step (high * 2 ^ suc w + low) (2 ^ suc w - 1),
  one-le-pow w 2,
)

-- `& (1 << w) - 1` is the remainder.
pub bit_and-mask : (w a : ℕ) → bit_and a (2 ^ w - 1) ≡ a % 2 ^ w
bit_and-mask w a = ground (arith, low_digits w (a / 2 ^ w) (a % 2 ^ w), one-le-pow w 2)

-- `|` puts together a number shifted left and one that fits below it.
pub bit_or_fields : (w high low : ℕ) → low < 2 ^ w → bit_or (high * 2 ^ w) low ≡ high * 2 ^ w + low
bit_or_fields zero high low small = ground (arith, bit_or-zero high)
bit_or_fields (suc w) high low small = ground (
  arith,
  two_pow-suc w,
  bit_or_fields w high (low / 2) (omega (arith, two_pow-suc w)),
  ap (λ (t : ℕ). high * t) (two_pow-suc w),
  bit_or_step (high * 2 ^ suc w) low,
)

pub bit_and-le_left : (a b : ℕ) → bit_and a b ≤ a
bit_and-le_left =
    by_halves (λ a. (b : ℕ) → bit_and a b ≤ a) (λ b. omega (arith, zero-bit_and b))
      (λ n ih b. omega (arith, bit_and_step (suc n) b, ih (b / 2)))

pub bit_and_comm : (a b : ℕ) → bit_and a b ≡ bit_and b a
bit_and_comm =
    by_halves (λ a. (b : ℕ) → bit_and a b ≡ bit_and b a)
      (λ b. omega (arith, zero-bit_and b, bit_and-zero b))
      (λ n ih b. omega (arith, bit_and_step (suc n) b, bit_and_step b (suc n), ih (b / 2)))

pub bit_or-lt : (k a b : ℕ) → a < 2 ^ k → b < 2 ^ k → bit_or a b < 2 ^ k
bit_or-lt zero zero b p q = omega (arith, zero-bit_or b)
bit_or-lt zero (suc a) b p q = absurd (omega arith)
bit_or-lt (suc k) a b p q = ground (
  arith,
  bit_or_step a b,
  two_pow-suc k,
  bit_or-lt k (a / 2) (b / 2) (omega (arith, two_pow-suc k)) (omega (arith, two_pow-suc k)),
)

pub bit_or_comm : (a b : ℕ) → bit_or a b ≡ bit_or b a
bit_or_comm =
    by_halves (λ a. (b : ℕ) → bit_or a b ≡ bit_or b a)
      (λ b. omega (arith, zero-bit_or b, bit_or-zero b))
      (λ n ih b. omega (arith, bit_or_step (suc n) b, bit_or_step b (suc n), ih (b / 2)))

-- A mask shifted left looks at the number shifted right.
pub bit_and_shifted : (k a m : ℕ) → bit_and a (m * 2 ^ k) ≡ bit_and (a / 2 ^ k) m * 2 ^ k
bit_and_shifted zero a m = rw (mul-one, mul-one, div-one) refl
bit_and_shifted (suc k) a m = rw (div-two_pow-suc a k) (
    ground (
      arith,
      bit_and_step a (m * 2 ^ suc k),
      ap (λ (t : ℕ). m * t) (two_pow-suc k),
      ap (λ (t : ℕ). bit_and (a / 2 / 2 ^ k) m * t) (two_pow-suc k),
      bit_and_shifted k (a / 2) m,
    ))

-- The bits of a power of two, and of a number of ones.
pub bit-two_pow : (i j : ℕ) → 2 ^ i / 2 ^ j % 2 ≡ (if i == j then 1 else 0)
bit-two_pow zero zero = refl
bit-two_pow zero (suc j) = rw (div-two_pow-suc 1 j, zero-div) (ground arith)
bit-two_pow (suc i) zero = rw (two_pow-suc i) (ground arith)
bit-two_pow (suc i) (suc j) =
    rw (div-two_pow-suc (2 ^ suc i) j, two_pow-suc i, half) (ground (arith, bit-two_pow i j))
  where
    half : 2 * 2 ^ i / 2 ≡ 2 ^ i
    half = omega arith

pub bit_ones : (n j : ℕ) → j < n → (2 ^ n - 1) / 2 ^ j % 2 ≡ 1
bit_ones zero j h = absurd (omega arith)
bit_ones (suc n) zero h = omega (arith, two_pow-suc n, one-le-pow n 2)
bit_ones (suc n) (suc j) h =
    rw (div-two_pow-suc (2 ^ suc n - 1) j, half) (bit_ones n j (omega arith))
  where
    half : (2 ^ suc n - 1) / 2 ≡ 2 ^ n - 1
    half = omega (arith, two_pow-suc n, one-le-pow n 2)
