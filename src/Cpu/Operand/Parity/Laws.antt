-- ===== src/Cpu/Operand/Parity/Laws.antt =====
-- The parity of a byte.
use riapyx.Common.{ℕ, ◌+◌, ◌/◌, ◌%◌, ◌≡◌, arith, bit_xor, ◌==◌, shr8}
use riapyx.Common.Bits.{bit-bit_xor, bit_and-mask}
use riapyx.Cpu.Operand.Parity.{compute_parity}

-- Two bits of each fold: `r ^ r >> k`.
fold_four :
    (x : ℕ)
    → let r = bit_xor x (shr8 x 4) in
      (r % 2 ≡ (x % 2 + x / 16 % 2) % 2)
      × (r / 2 % 2 ≡ (x / 2 % 2 + x / 32 % 2) % 2)
      × (r / 4 % 2 ≡ (x / 4 % 2 + x / 64 % 2) % 2)
      × (r / 8 % 2 ≡ (x / 8 % 2 + x / 128 % 2) % 2)
fold_four x = (
  omega (arith, bit-bit_xor 0 x (shr8 x 4)),
  omega (arith, bit-bit_xor 1 x (shr8 x 4)),
  omega (arith, bit-bit_xor 2 x (shr8 x 4)),
  omega (arith, bit-bit_xor 3 x (shr8 x 4)),
)

fold_two :
    (x : ℕ)
    → let r = bit_xor x (shr8 x 2) in
      (r % 2 ≡ (x % 2 + x / 4 % 2) % 2) × (r / 2 % 2 ≡ (x / 2 % 2 + x / 8 % 2) % 2)
fold_two x = (omega (arith, bit-bit_xor 0 x (shr8 x 2)), omega (arith, bit-bit_xor 1 x (shr8 x 2)))

fold_one : (x : ℕ) → bit_xor x (shr8 x 1) % 2 ≡ (x % 2 + x / 2 % 2) % 2
fold_one x = omega (arith, bit-bit_xor 0 x (shr8 x 1))

-- The parity flag tells whether the number of ones among the eight low bits is even.
pub compute_parity_lem :
    (x : ℕ)
    → compute_parity x ≡ (
        (x % 2
            + x / 2 % 2
            + x / 4 % 2
            + x / 8 % 2
            + x / 16 % 2
            + x / 32 % 2
            + x / 64 % 2
            + x / 128 % 2)
          % 2
        == 0)
unfolding compute_parity
compute_parity_lem x =
    let a = bit_xor x (shr8 x 4) in
    let b = bit_xor a (shr8 a 2) in
    ground (arith, fold_four x, fold_two a, fold_one b, bit_and-mask 1 (bit_xor b (shr8 b 1)))
