-- ===== src/Cpu/Operand/U16.antt =====
-- `impl Operand<u16> for u16` (src/cpu/operand_access.rs); `x` is `self`.
use riapyx.Common.{
  ℕ, ◌+◌, ◌*◌, ◌/◌, ◌%◌, ◌^◌, bit_and, bit_or, bit_xor, ltb, leb, ◌==◌, ◌!=◌, if◌then◌else◌, Bool,
  false, not, ◌&&◌, ◌||◌, Option, none, some, Result, ok, panic, u8, u16, u32, sub8, add16, sub16,
  shl16, shr16,
}
use riapyx.Common.Int.{
  pos, negsuc, signed, pattern_of, ◌*ℤ◌, quot, rem, shr_ℤ, ltb_ℤ, div_overflows,
}
use riapyx.Cpu.Operand.Parity.{compute_parity}

unfoldable pub zero_flag : ℕ → Bool
zero_flag x = x == 0

unfoldable pub sign_flag : ℕ → Bool
sign_flag x = ltb 0 (bit_and x 0x8000)

unfoldable pub parity_flag : ℕ → Bool
parity_flag x = compute_parity (u8 x)

-- Overflow, carry and half carry of a sum `x` of `a` and `b`.
unfoldable pub add_oca_flags : ℕ → ℕ → ℕ → Bool × Bool × Bool
add_oca_flags x a b =
    let same_sign = bit_and (bit_xor a b) 0x8000 != 0x8000 in
    let overflow = same_sign && bit_and (bit_xor x a) 0x8000 == 0x8000 in
    let carry = ltb x a || ltb x b in
    let ms = bit_and x 0x000f in
    let ma = bit_and a 0x000f in
    let mb = bit_and b 0x000f in
    let half_carry = ltb ms ma || ltb ms mb in (overflow, carry, half_carry)

-- Overflow, borrow and half borrow of a difference `x` of `a` and `b`.
unfoldable pub sub_oca_flags : ℕ → ℕ → ℕ → Bool × Bool × Bool
sub_oca_flags x a b =
    let diff_sign = bit_and (bit_xor a b) 0x8000 == 0x8000 in
    let overflow = diff_sign && bit_and (bit_xor x b) 0x8000 != 0x8000 in
    let borrow = ltb a x in
    let ms = bit_and x 0x000f in
    let ma = bit_and a 0x000f in let half_borrow = ltb ma ms in (overflow, borrow, half_borrow)

unfoldable pub dec_oa_flags : ℕ → Bool × Bool
dec_oa_flags x = (x == 0x7fff, bit_and x 0x000f == 0xf)

unfoldable pub inc_oa_flags : ℕ → Bool × Bool
inc_oa_flags x = (x == 0x8000, bit_and x 0x000f == 0x0)

unfoldable pub neg_oca_flags : ℕ → Bool × Bool × Bool
neg_oca_flags x = (x == 0x8000, x != 0, bit_and x 0x000f != 0)

-- The negation of a signed integer wraps around at its least value.
unfoldable pub neg : ℕ → ℕ
neg x = sub16 0 x

unfoldable pub complement : ℕ → ℕ
complement x = bit_xor x 0xffff

unfoldable pub inc : ℕ → ℕ
inc x = add16 x 1

unfoldable pub dec : ℕ → ℕ
dec x = sub16 x 1

unfoldable pub shl1_oc_flags_fo : ℕ → Bool × Bool
shl1_oc_flags_fo x =
    let hi_bits = bit_and x 0xc000 in
    (hi_bits == 0x8000 || hi_bits == 0x4000, bit_and x 0x8000 != 0)

unfoldable pub shlcl_c_flag_fo : ℕ → ℕ → Bool
shlcl_c_flag_fo x cnt = if leb cnt 15 then bit_and x (shl16 0x1 (sub8 16 cnt)) != 0 else false

unfoldable pub shr1_oc_flags_fo : ℕ → Bool × Bool
shr1_oc_flags_fo x = let hi_bit = bit_and x 0x8000 in (hi_bit == 0x8000, bit_and x 0x1 == 0x1)

unfoldable pub shrcl_c_flag_fo : ℕ → ℕ → Bool
shrcl_c_flag_fo x cnt = if leb cnt 15 then bit_and x (shl16 0x1 (sub8 cnt 1)) != 0 else false

unfoldable pub sar1_oc_flags_fo : ℕ → Bool × Bool
sar1_oc_flags_fo x = (false, bit_and x 0x1 == 0x1)

unfoldable pub sarcl_c_flag_fo : ℕ → ℕ → Bool
sarcl_c_flag_fo x cnt =
    if cnt == 0
    then false
    else if leb cnt 15
    then bit_and x (shl16 0x1 (sub8 cnt 1)) != 0
    else bit_and x 0x8000 != 0

unfoldable pub sar : ℕ → ℕ → ℕ
sar x cnt =
    if leb cnt 15
    then pattern_of 16 (shr_ℤ (signed 16 x) cnt)
    else u16 (0xffff * shr16 (bit_and x 0x8000) 15)

unfoldable pub rolcl_c_flag_fo : ℕ → ℕ → Bool
rolcl_c_flag_fo x cnt = let cntm = cnt % 16 in bit_and x (shl16 0x1 (sub8 16 cntm)) != 0

unfoldable pub rol : ℕ → ℕ → ℕ
rol x cnt =
    let cntm = cnt % 16 in if cntm == 0 then x else add16 (shl16 x cntm) (shr16 x (sub8 16 cntm))

unfoldable pub rcl : ℕ → Bool → ℕ → ℕ
rcl x has_carry cnt =
    let carry : ℕ = if has_carry then 1 else 0 in
    let cntm = cnt % 17 in
    if cntm == 0
    then x
    else if cntm == 1
    then bit_or (shl16 x 1) carry
    else if cntm == 16
    then bit_or (shr16 x 1) (shl16 carry 15)
    else bit_or (bit_or (shl16 x cntm) (shr16 x (sub8 17 cntm))) (shl16 carry (sub8 cntm 1))

unfoldable pub rclcl_c_flag_fo : ℕ → Bool → ℕ → Bool
rclcl_c_flag_fo x has_carry cnt =
    let cntm = cnt % 17 in
    if cntm == 0
    then has_carry
    else if cntm == 16
    then bit_and x 0x1 != 0
    else bit_and x (shl16 0x1 (sub8 16 cntm)) != 0

unfoldable pub rorcl_c_flag_fo : ℕ → ℕ → Bool
rorcl_c_flag_fo x cnt = let cntm = cnt % 16 in bit_and x (shl16 0x1 (sub8 cntm 1)) != 0

unfoldable pub ror : ℕ → ℕ → ℕ
ror x cnt =
    let cntm = cnt % 16 in if cntm == 0 then x else add16 (shr16 x cntm) (shl16 x (sub8 16 cntm))

unfoldable pub rcr : ℕ → Bool → ℕ → ℕ
rcr x has_carry cnt =
    let carry : ℕ = if has_carry then 1 else 0 in
    let cntm = cnt % 17 in
    if cntm == 0
    then x
    else if cntm == 1
    then bit_or (shr16 x 1) (shl16 carry 15)
    else if cntm == 16
    then bit_or (shl16 x 1) carry
    else bit_or (bit_or (shr16 x cntm) (shl16 x (sub8 17 cntm))) (shl16 carry (sub8 16 cntm))

unfoldable pub rcrcl_c_flag_fo : ℕ → Bool → ℕ → Bool
rcrcl_c_flag_fo x has_carry cnt =
    let cntm = cnt % 17 in
    if cntm == 0
    then has_carry
    else if cntm == 16
    then bit_and x 0x8000 != 0
    else bit_and x (shl16 0x1 (sub8 cntm 1)) != 0

unfoldable pub rcr1_oc_flags_fo : ℕ → Bool → Bool × Bool
rcr1_oc_flags_fo x has_carry = (
  (has_carry && bit_and x 0x8000 == 0) || (not has_carry && bit_and x 0x8000 != 0),
  bit_and x 1 != 0,
)

unfoldable pub ror1_oc_flags_fo : ℕ → Bool × Bool
ror1_oc_flags_fo x =
    let hibits = bit_and x 0x8001 in (hibits == 0x8000 || hibits == 0x0001, bit_and x 1 != 0)

-- The high half, the low half, and whether the product needs the high half.
unfoldable pub mul : ℕ → ℕ → ℕ × ℕ × Bool
mul x y =
    let result = u32 (y * x) in
    let lo = bit_and result 0xffff in let hi = result / 2 ^ 16 in (u16 hi, u16 lo, hi != 0)

unfoldable pub imul : ℕ → ℕ → ℕ × ℕ × Bool
imul x y =
    let result = pattern_of 32 (signed 16 y *ℤ signed 16 x) in
    let lo = u16 (bit_and result 0xffff) in
    let hi = u16 (result / 2 ^ 16) in
    let overflow =
      (hi != 0 || bit_and lo 0x8000 == 0x8000) && (hi != 0xffff || bit_and lo 0x8000 == 0x0) in
    (hi, lo, overflow)

-- Quotient and remainder; `none` is the divide error.
unfoldable pub div : ℕ → ℕ → ℕ → Option (ℕ × ℕ)
div x dividend_hi dividend_lo =
    let dividend = u32 (u32 (dividend_hi * 2 ^ 16) + dividend_lo) in
    let quotient = dividend / x in
    let remainder = dividend % x in
    if x == 0
    then none
    else if leb (2 ^ 16) quotient
    then none
    else some (u16 quotient, u16 remainder)

unfoldable pub idiv : ℕ → ℕ → ℕ → Result (Option (ℕ × ℕ))
idiv x dividend_hi dividend_lo =
    let dividend = signed 32 (u32 (u32 (dividend_hi * 2 ^ 16) + dividend_lo)) in
    let divisor = signed 16 x in
    let quotient = quot dividend divisor in
    let remainder = rem dividend divisor in
    if x == 0
    then ok none
    else if div_overflows 32 dividend divisor
    then panic
    else if ltb_ℤ (pos 0x7fff) quotient || ltb_ℤ quotient (negsuc 0x7ffe)
    then ok none
    else ok (some (u16 (pattern_of 32 quotient), u16 (pattern_of 32 remainder)))

abbrev pub bit_count : ℕ
bit_count = 16

abbrev pub zero : ℕ
zero = 0

abbrev pub one : ℕ
one = 1
