-- ===== src/Cpu/Operand/Sums8.antt =====
-- What the flags of an addition and of a subtraction on `u8` say of the operands.
use riapyx.Common.{
  ℕ, ◌+◌, ◌*◌, ◌/◌, ◌%◌, ◌^◌, ◌≡◌, arith, bit_and, bit_xor, ltb, leb, ◌==◌, ◌!=◌, ◌&&◌, ◌=ᵇ◌, ◌≠ᵇ◌,
  not, add8, sub8, IsU8,
}
use riapyx.Common.Bits.{bit_and-mask, bit_and-two_pow, bit-bit_xor}
use riapyx.Common.Int.{signed, ltb_ℤ}
use riapyx.Cpu.Operand.U8

-- Bit 7 of an exclusive or.
xor_top : (a b : ℕ) → bit_and (bit_xor a b) 0x80 ≡ (a / 2 ^ 7 % 2 + b / 2 ^ 7 % 2) % 2 * 0x80
xor_top a b = ground (arith, bit_and-two_pow 7 (bit_xor a b), bit-bit_xor 7 a b)

low_nibble : (a : ℕ) → bit_and a 0xf ≡ a % 16
low_nibble a = bit_and-mask 4 a

-- For the sum of two bytes the three flags are the overflow of the signed sum, the carry out of
-- the top bit and the carry out of the low four bits.
pub add_oca_flags_lem :
    (a b : ℕ)
    → IsU8 a
    → IsU8 b
    → U8.add_oca_flags (add8 a b) a b ≡ (
      (leb 128 a =ᵇ leb 128 b) && (leb 128 a ≠ᵇ leb 128 (add8 a b)),
      leb 256 (a + b),
      leb 16 (a % 16 + b % 16),
    )
unfolding U8.add_oca_flags
add_oca_flags_lem a b p q =
    ground
      (arith, xor_top a b, xor_top (add8 a b) a, low_nibble a, low_nibble b, low_nibble (add8 a b))

-- For bytes with a carry in, the carry out is computed from the sum alone, and is lost where both
-- operands are 255.
pub adc_carry :
    (a b : ℕ)
    → IsU8 a
    → IsU8 b
    → (U8.add_oca_flags (U8.inc (add8 a b)) a b).1
      ≡ (leb 256 (a + b + 1) && not (a == 255 && b == 255))
unfolding U8.add_oca_flags U8.inc
adc_carry a b p q = ground arith

-- For a difference of two bytes the three flags are the overflow of the signed difference, the
-- borrow, and the borrow into the low four bits.
pub sub_oca_flags_lem :
    (a b : ℕ)
    → IsU8 a
    → IsU8 b
    → U8.sub_oca_flags (sub8 a b) a b ≡ (
      (leb 128 a ≠ᵇ leb 128 b) && (leb 128 a ≠ᵇ leb 128 (sub8 a b)),
      ltb a b,
      ltb (a % 16) (b % 16),
    )
unfolding U8.sub_oca_flags
sub_oca_flags_lem a b p q =
    ground (arith, xor_top a b, xor_top (sub8 a b) b, low_nibble a, low_nibble (sub8 a b))

-- For bytes with a borrow in, the borrow out is lost where the subtrahend is 255.
pub sbb_borrow :
    (a b : ℕ)
    → IsU8 a
    → IsU8 b
    → (U8.sub_oca_flags (U8.dec (sub8 a b)) a b).1 ≡ (ltb a (b + 1) && b != 255)
unfolding U8.sub_oca_flags U8.dec
sbb_borrow a b p q = ground arith

-- Of a difference of bytes, the sign flag differs from the overflow flag exactly where the signed
-- comparison is less.
pub sub_less :
    (a b : ℕ)
    → IsU8 a
    → IsU8 b
    → (leb 128 (sub8 a b) ≠ᵇ (U8.sub_oca_flags (sub8 a b) a b).0) ≡ ltb_ℤ (signed 8 a) (signed 8 b)
sub_less a b p q = ground (arith, sub_oca_flags_lem a b)

pub sign_flag_lem : (x : ℕ) → IsU8 x → U8.sign_flag x ≡ leb 128 x
unfolding U8.sign_flag
sign_flag_lem x p = ground (arith, bit_and-two_pow 7 x)
