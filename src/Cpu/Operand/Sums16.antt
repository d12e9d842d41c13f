-- ===== src/Cpu/Operand/Sums16.antt =====
-- What the flags of an addition and of a subtraction on `u16` say of the operands.
use riapyx.Common.{
  ℕ, ◌+◌, ◌*◌, ◌/◌, ◌%◌, ◌^◌, ◌≡◌, arith, bit_and, bit_xor, ltb, leb, ◌==◌, ◌!=◌, ◌&&◌, ◌=ᵇ◌, ◌≠ᵇ◌,
  not, add16, sub16, IsU16,
}
use riapyx.Common.Bits.{bit_and-mask, bit_and-two_pow, bit-bit_xor}
use riapyx.Common.Int.{signed, ltb_ℤ}
use riapyx.Cpu.Operand.U16

-- Bit 15 of an exclusive or.
xor_top : (a b : ℕ) → bit_and (bit_xor a b) 0x8000 ≡ (a / 2 ^ 15 % 2 + b / 2 ^ 15 % 2) % 2 * 0x8000
xor_top a b = ground (arith, bit_and-two_pow 15 (bit_xor a b), bit-bit_xor 15 a b)

low_nibble : (a : ℕ) → bit_and a 0xf ≡ a % 16
low_nibble a = bit_and-mask 4 a

-- For the sum of two words the three flags are the overflow of the signed sum, the carry out of
-- the top bit and the carry out of the low four bits.
pub add_oca_flags_lem :
    (a b : ℕ)
    → IsU16 a
    → IsU16 b
    → U16.add_oca_flags (add16 a b) a b ≡ (
      (leb 32768 a =ᵇ leb 32768 b) && (leb 32768 a ≠ᵇ leb 32768 (add16 a b)),
      leb 65536 (a + b),
      leb 16 (a % 16 + b % 16),
    )
unfolding U16.add_oca_flags
add_oca_flags_lem a b p q =
    ground (
      arith,
      xor_top a b,
      xor_top (add16 a b) a,
      low_nibble a,
      low_nibble b,
      low_nibble (add16 a b),
    )

-- For words with a carry in, the carry out is computed from the sum alone, and is lost where both
-- operands are 65535.
pub adc_carry :
    (a b : ℕ)
    → IsU16 a
    → IsU16 b
    → (U16.add_oca_flags (U16.inc (add16 a b)) a b).1
      ≡ (leb 65536 (a + b + 1) && not (a == 65535 && b == 65535))
unfolding U16.add_oca_flags U16.inc
adc_carry a b p q = ground arith

-- For a difference of two words the three flags are the overflow of the signed difference, the
-- borrow, and the borrow into the low four bits.
pub sub_oca_flags_lem :
    (a b : ℕ)
    → IsU16 a
    → IsU16 b
    → U16.sub_oca_flags (sub16 a b) a b ≡ (
      (leb 32768 a ≠ᵇ leb 32768 b) && (leb 32768 a ≠ᵇ leb 32768 (sub16 a b)),
      ltb a b,
      ltb (a % 16) (b % 16),
    )
unfolding U16.sub_oca_flags
sub_oca_flags_lem a b p q =
    ground (arith, xor_top a b, xor_top (sub16 a b) b, low_nibble a, low_nibble (sub16 a b))

-- For words with a borrow in, the borrow out is lost where the subtrahend is 65535.
pub sbb_borrow :
    (a b : ℕ)
    → IsU16 a
    → IsU16 b
    → (U16.sub_oca_flags (U16.dec (sub16 a b)) a b).1 ≡ (ltb a (b + 1) && b != 65535)
unfolding U16.sub_oca_flags U16.dec
sbb_borrow a b p q = ground arith

-- Of a difference of words, the sign flag differs from the overflow flag exactly where the signed
-- comparison is less.
pub sub_less :
    (a b : ℕ)
    → IsU16 a
    → IsU16 b
    → (leb 32768 (sub16 a b) ≠ᵇ (U16.sub_oca_flags (sub16 a b) a b).0)
      ≡ ltb_ℤ (signed 16 a) (signed 16 b)
sub_less a b p q = ground (arith, sub_oca_flags_lem a b)

pub sign_flag_lem : (x : ℕ) → IsU16 x → U16.sign_flag x ≡ leb 32768 x
unfolding U16.sign_flag
sign_flag_lem x p = ground (arith, bit_and-two_pow 15 x)
