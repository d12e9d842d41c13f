-- ===== src/Cpu/Operand/U8.antt =====
-- `impl Operand<u8> for u8` (src/cpu/operand_access.rs); `x` is `self`.
use riapyx.Common.{
  ℕ, ◌+◌, ◌*◌, ◌/◌, ◌%◌, ◌^◌, bit_and, bit_or, bit_xor, ltb, leb, ◌==◌, ◌!=◌, if◌then◌else◌, Bool,
  false, not, ◌&&◌, ◌||◌, Option, none, some, Result, ok, panic, u8, u8, u16, sub8, add8, sub8,
  shl8, shr8,
}
use riapyx.Common.Int.{
  pos, negsuc, signed, pattern_of, ◌*ℤ◌, quot, rem, shr_ℤ, ltb_ℤ, div_overflows,
}
use riapyx.Cpu.Operand.Parity.{compute_parity}

unfoldable pub zero_flag : ℕ → Bool
zero_flag x = x == 0

unfoldable pub sign_flag : ℕ → Bool
sign_flag x = ltb 0 (bit_and x 0x80)

unfoldable pub parity_flag : ℕ → Bool
parity_flag x = compute_parity x

-- Overflow, carry and half carry of a sum `x` of `a` and `b`.
unfoldable pub add_oca_flags : ℕ → ℕ → ℕ → Bool × Bool × Bool
add_oca_flags x a b =
    let same_sign = bit_and (bit_xor a b) 0x80 != 0x80 in
    let overflow = same_sign && bit_and (bit_xor x a) 0x80 == 0x80 in
    let carry = ltb x a || ltb x b in
    let ms = bit_and x 0xf in
    let ma = bit_and a 0xf in
    let mb = bit_and b 0xf in
    let half_carry = ltb ms ma || ltb ms mb in (overflow, carry, half_carry)

-- Overflow, borrow and half borrow of a difference `x` of `a` and `b`.
unfoldable pub sub_oca_flags : ℕ → ℕ → ℕ → Bool × Bool × Bool
sub_oca_flags x a b =
    let diff_sign = bit_and (bit_xor a b) 0x80 == 0x80 in
    let overflow = diff_sign && bit_and (bit_xor x b) 0x80 != 0x80 in
    let borrow = ltb a x in
    let ms = bit_and x 0xf in
    let ma = bit_and a 0xf in let half_borrow = ltb ma ms in (overflow, borrow, half_borrow)

unfoldable pub dec_oa_flags : ℕ → Bool × Bool
dec_oa_flags x = (x == 0x7f, bit_and x 0xf == 0xf)

unfoldable pub inc_oa_flags : ℕ → Bool × Bool
inc_oa_flags x = (x == 0x80, bit_and x 0xf == 0x0)

unfoldable pub neg_oca_flags : ℕ → Bool × Bool × Bool
neg_oca_flags x = (x == 0x80, x != 0, bit_and x 0xf != 0)

-- The negation of a signed integer wraps around at its least value.
unfoldable pub neg : ℕ → ℕ
neg x = sub8 0 x

unfoldable pub complement : ℕ → ℕ
complement x = bit_xor x 0xff

unfoldable pub inc : ℕ → ℕ
inc x = add8 x 1

unfoldable pub dec : ℕ → ℕ
dec x = sub8 x 1

unfoldable pub shl1_oc_flags_fo : ℕ → Bool × Bool
shl1_oc_flags_fo x =
    let hi_bits = bit_and x 0xc0 in (hi_bits == 0x80 || hi_bits == 0x40, bit_and x 0x80 != 0)

unfoldable pub shlcl_c_flag_fo : ℕ → ℕ → Bool
shlcl_c_flag_fo x cnt = if leb cnt 7 then bit_and x (shl8 0x1 (sub8 8 cnt)) != 0 else false

unfoldable pub shr1_oc_flags_fo : ℕ → Bool × Bool
shr1_oc_flags_fo x = let hi_bit = bit_and x 0x80 in (hi_bit == 0x80, bit_and x 0x1 == 0x1)

unfoldable pub shrcl_c_flag_fo : ℕ → ℕ → Bool
shrcl_c_flag_fo x cnt = if leb cnt 7 then bit_and x (shl8 0x1 (sub8 cnt 1)) != 0 else false

unfoldable pub sar1_oc_flags_fo : ℕ → Bool × Bool
sar1_oc_flags_fo x = (false, bit_and x 0x1 == 0x1)

unfoldable pub sarcl_c_flag_fo : ℕ → ℕ → Bool
sarcl_c_flag_fo x cnt =
    if cnt == 0
    then false
    else if leb cnt 7
    then bit_and x (shl8 0x1 (sub8 cnt 1)) != 0
    else bit_and x 0x80 != 0

unfoldable pub sar : ℕ → ℕ → ℕ
sar x cnt =
    if leb cnt 7 then pattern_of 8 (shr_ℤ (signed 8 x) cnt) else u8 (0xff * shr8 (bit_and x 0x80) 7)

unfoldable pub rolcl_c_flag_fo : ℕ → ℕ → Bool
rolcl_c_flag_fo x cnt = let cntm = cnt % 8 in bit_and x (shl8 0x1 (sub8 8 cntm)) != 0

unfoldable pub rol : ℕ → ℕ → ℕ
rol x cnt = let cntm = cnt % 8 in if cntm == 0 then x else add8 (shl8 x cntm) (shr8 x (sub8 8 cntm))

unfoldable pub rcl : ℕ → Bool → ℕ → ℕ
rcl x has_carry cnt =
    let carry : ℕ = if has_carry then 1 else 0 in
    let cntm = cnt % 9 in
    if cntm == 0
    then x
    else if cntm == 1
    then bit_or (shl8 x 1) carry
    else if cntm == 8
    then bit_or (shr8 x 1) (shl8 carry 7)
    else bit_or (bit_or (shl8 x cntm) (shr8 x (sub8 9 cntm))) (shl8 carry (sub8 cntm 1))

unfoldable pub rclcl_c_flag_fo : ℕ → Bool → ℕ → Bool
rclcl_c_flag_fo x has_carry cnt =
    let cntm = cnt % 9 in
    if cntm == 0
    then has_carry
    else if cntm == 8
    then bit_and x 0x1 != 0
    else bit_and x (shl8 0x1 (sub8 8 cntm)) != 0

unfoldable pub rorcl_c_flag_fo : ℕ → ℕ → Bool
rorcl_c_flag_fo x cnt = let cntm = cnt % 8 in bit_and x (shl8 0x1 (sub8 cntm 1)) != 0

unfoldable pub ror : ℕ → ℕ → ℕ
ror x cnt = let cntm = cnt % 8 in if cntm == 0 then x else add8 (shr8 x cntm) (shl8 x (sub8 8 cntm))

unfoldable pub rcr : ℕ → Bool → ℕ → ℕ
rcr x has_carry cnt =
    let carry : ℕ = if has_carry then 1 else 0 in
    let cntm = cnt % 9 in
    if cntm == 0
    then x
    else if cntm == 1
    then bit_or (shr8 x 1) (shl8 carry 7)
    else if cntm == 8
    then bit_or (shl8 x 1) carry
    else bit_or (bit_or (shr8 x cntm) (shl8 x (sub8 9 cntm))) (shl8 carry (sub8 8 cntm))

unfoldable pub rcrcl_c_flag_fo : ℕ → Bool → ℕ → Bool
rcrcl_c_flag_fo x has_carry cnt =
    let cntm = cnt % 9 in
    if cntm == 0
    then has_carry
    else if cntm == 8
    then bit_and x 0x80 != 0
    else bit_and x (shl8 0x1 (sub8 cntm 1)) != 0

unfoldable pub rcr1_oc_flags_fo : ℕ → Bool → Bool × Bool
rcr1_oc_flags_fo x has_carry =
    ((has_carry && bit_and x 0x80 == 0) || (not has_carry && bit_and x 0x80 != 0), bit_and x 1 != 0)

unfoldable pub ror1_oc_flags_fo : ℕ → Bool × Bool
ror1_oc_flags_fo x =
    let hibits = bit_and x 0x81 in (hibits == 0x80 || hibits == 0x01, bit_and x 1 != 0)

-- The high half, the low half, and whether the product needs the high half.
unfoldable pub mul : ℕ → ℕ → ℕ × ℕ × Bool
mul x y =
    let result = u16 (y * x) in
    let lo = bit_and result 0xff in let hi = result / 2 ^ 8 in (u8 hi, u8 lo, hi != 0)

unfoldable pub imul : ℕ → ℕ → ℕ × ℕ × Bool
imul x y =
    let result = pattern_of 16 (signed 8 y *ℤ signed 8 x) in
    let lo = u8 (bit_and result 0xff) in
    let hi = u8 (result / 2 ^ 8) in
    let overflow = (hi != 0 || bit_and lo 0x80 == 0x80) && (hi != 0xff || bit_and lo 0x80 == 0x0) in
    (hi, lo, overflow)

-- Quotient and remainder; `none` is the divide error.
unfoldable pub div : ℕ → ℕ → ℕ → Option (ℕ × ℕ)
div x dividend_hi dividend_lo =
    let dividend = u16 (u16 (dividend_hi * 2 ^ 8) + dividend_lo) in
    let quotient = dividend / x in
    let remainder = dividend % x in
    if x == 0 then none else if leb (2 ^ 8) quotient then none else some (u8 quotient, u8 remainder)

unfoldable pub idiv : ℕ → ℕ → ℕ → Result (Option (ℕ × ℕ))
idiv x dividend_hi dividend_lo =
    let dividend = signed 16 (u16 (u16 (dividend_hi * 2 ^ 8) + dividend_lo)) in
    let divisor = signed 8 x in
    let quotient = quot dividend divisor in
    let remainder = rem dividend divisor in
    if x == 0
    then ok none
    else if div_overflows 16 dividend divisor
    then panic
    else if ltb_ℤ (pos 0x7f) quotient || ltb_ℤ quotient (negsuc 0x7e)
    then ok none
    else ok (some (u8 (pattern_of 16 quotient), u8 (pattern_of 16 remainder)))

abbrev pub bit_count : ℕ
bit_count = 8

abbrev pub zero : ℕ
zero = 0

abbrev pub one : ℕ
one = 1
