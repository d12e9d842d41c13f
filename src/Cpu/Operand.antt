-- ===== src/Cpu/Operand.antt =====
-- The trait `Operand` (src/cpu/operand_access.rs) and its two implementations, with the operators
-- that the trait `OperandAccess` asks of a value. `complement` is the source's `not`.
pub mod Parity
pub mod U8
pub mod U16
pub mod Sums8
pub mod Sums16
pub mod Products8
pub mod Products16
pub mod Rotates8
use riapyx.Common.{
  ℕ, bit_and, bit_or, bit_xor, Bool, Option, Result, add8, sub8, shl8, shr8, add16, sub16, shl16,
  shr16,
}

pub record Operand : Type 0 where
  pub zero_flag : ℕ → Bool
  pub sign_flag : ℕ → Bool
  pub parity_flag : ℕ → Bool
  pub sar : ℕ → ℕ → ℕ
  pub rol : ℕ → ℕ → ℕ
  pub rcl : ℕ → Bool → ℕ → ℕ
  pub ror : ℕ → ℕ → ℕ
  pub rcr : ℕ → Bool → ℕ → ℕ
  pub inc : ℕ → ℕ
  pub dec : ℕ → ℕ
  pub neg : ℕ → ℕ
  pub complement : ℕ → ℕ
  pub add_oca_flags : ℕ → ℕ → ℕ → Bool × Bool × Bool
  pub sub_oca_flags : ℕ → ℕ → ℕ → Bool × Bool × Bool
  pub dec_oa_flags : ℕ → Bool × Bool
  pub inc_oa_flags : ℕ → Bool × Bool
  pub neg_oca_flags : ℕ → Bool × Bool × Bool
  pub shl1_oc_flags_fo : ℕ → Bool × Bool
  pub shlcl_c_flag_fo : ℕ → ℕ → Bool
  pub shr1_oc_flags_fo : ℕ → Bool × Bool
  pub shrcl_c_flag_fo : ℕ → ℕ → Bool
  pub sar1_oc_flags_fo : ℕ → Bool × Bool
  pub sarcl_c_flag_fo : ℕ → ℕ → Bool
  pub rolcl_c_flag_fo : ℕ → ℕ → Bool
  pub rclcl_c_flag_fo : ℕ → Bool → ℕ → Bool
  pub rorcl_c_flag_fo : ℕ → ℕ → Bool
  pub ror1_oc_flags_fo : ℕ → Bool × Bool
  pub rcr1_oc_flags_fo : ℕ → Bool → Bool × Bool
  pub rcrcl_c_flag_fo : ℕ → Bool → ℕ → Bool
  pub mul : ℕ → ℕ → ℕ × ℕ × Bool
  pub imul : ℕ → ℕ → ℕ × ℕ × Bool
  pub div : ℕ → ℕ → ℕ → Option (ℕ × ℕ)
  pub idiv : ℕ → ℕ → ℕ → Result (Option (ℕ × ℕ))
  pub bit_count : ℕ
  pub zero : ℕ
  pub one : ℕ
  pub wrapping_add : ℕ → ℕ → ℕ
  pub wrapping_sub : ℕ → ℕ → ℕ
  pub shl : ℕ → ℕ → ℕ
  pub shr : ℕ → ℕ → ℕ

abbrev pub u8_operand : Operand
u8_operand = record {
  zero_flag = U8.zero_flag;
  sign_flag = U8.sign_flag;
  parity_flag = U8.parity_flag;
  sar = U8.sar;
  rol = U8.rol;
  rcl = U8.rcl;
  ror = U8.ror;
  rcr = U8.rcr;
  inc = U8.inc;
  dec = U8.dec;
  neg = U8.neg;
  complement = U8.complement;
  add_oca_flags = U8.add_oca_flags;
  sub_oca_flags = U8.sub_oca_flags;
  dec_oa_flags = U8.dec_oa_flags;
  inc_oa_flags = U8.inc_oa_flags;
  neg_oca_flags = U8.neg_oca_flags;
  shl1_oc_flags_fo = U8.shl1_oc_flags_fo;
  shlcl_c_flag_fo = U8.shlcl_c_flag_fo;
  shr1_oc_flags_fo = U8.shr1_oc_flags_fo;
  shrcl_c_flag_fo = U8.shrcl_c_flag_fo;
  sar1_oc_flags_fo = U8.sar1_oc_flags_fo;
  sarcl_c_flag_fo = U8.sarcl_c_flag_fo;
  rolcl_c_flag_fo = U8.rolcl_c_flag_fo;
  rclcl_c_flag_fo = U8.rclcl_c_flag_fo;
  rorcl_c_flag_fo = U8.rorcl_c_flag_fo;
  ror1_oc_flags_fo = U8.ror1_oc_flags_fo;
  rcr1_oc_flags_fo = U8.rcr1_oc_flags_fo;
  rcrcl_c_flag_fo = U8.rcrcl_c_flag_fo;
  mul = U8.mul;
  imul = U8.imul;
  div = U8.div;
  idiv = U8.idiv;
  bit_count = U8.bit_count;
  zero = U8.zero;
  one = U8.one;
  wrapping_add = add8;
  wrapping_sub = sub8;
  shl = shl8;
  shr = shr8;
}

abbrev pub u16_operand : Operand
u16_operand = record {
  zero_flag = U16.zero_flag;
  sign_flag = U16.sign_flag;
  parity_flag = U16.parity_flag;
  sar = U16.sar;
  rol = U16.rol;
  rcl = U16.rcl;
  ror = U16.ror;
  rcr = U16.rcr;
  inc = U16.inc;
  dec = U16.dec;
  neg = U16.neg;
  complement = U16.complement;
  add_oca_flags = U16.add_oca_flags;
  sub_oca_flags = U16.sub_oca_flags;
  dec_oa_flags = U16.dec_oa_flags;
  inc_oa_flags = U16.inc_oa_flags;
  neg_oca_flags = U16.neg_oca_flags;
  shl1_oc_flags_fo = U16.shl1_oc_flags_fo;
  shlcl_c_flag_fo = U16.shlcl_c_flag_fo;
  shr1_oc_flags_fo = U16.shr1_oc_flags_fo;
  shrcl_c_flag_fo = U16.shrcl_c_flag_fo;
  sar1_oc_flags_fo = U16.sar1_oc_flags_fo;
  sarcl_c_flag_fo = U16.sarcl_c_flag_fo;
  rolcl_c_flag_fo = U16.rolcl_c_flag_fo;
  rclcl_c_flag_fo = U16.rclcl_c_flag_fo;
  rorcl_c_flag_fo = U16.rorcl_c_flag_fo;
  ror1_oc_flags_fo = U16.ror1_oc_flags_fo;
  rcr1_oc_flags_fo = U16.rcr1_oc_flags_fo;
  rcrcl_c_flag_fo = U16.rcrcl_c_flag_fo;
  mul = U16.mul;
  imul = U16.imul;
  div = U16.div;
  idiv = U16.idiv;
  bit_count = U16.bit_count;
  zero = U16.zero;
  one = U16.one;
  wrapping_add = add16;
  wrapping_sub = sub16;
  shl = shl16;
  shr = shr16;
}
