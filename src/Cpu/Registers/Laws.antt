-- ===== src/Cpu/Registers/Laws.antt =====
-- Byte registers as halves of word registers, and flags as independent bits.
use riapyx.Common.{
  ℕ, ◌+◌, ◌*◌, ◌/◌, ◌%◌, ◌^◌, ◌<◌, ◌≡◌, arith, bit_and, bit_or, Bool, true, false, ◌!=◌, ◌==◌,
  if◌then◌else◌, u8,
}
use riapyx.Common.Bits.{
  bit_and-mask, bit_and-two_pow, bit-bit_and, bit-bit_or, bit-bit_xor, bit_or_fields, bit_or_comm,
  bit_and_shifted, bit-two_pow, bit_ones,
}
use mathlib.Core.Logic.{ite}
use native.Mathlib.Nat.{one-le-pow}
use riapyx.Cpu.Instruction.{WReg, BReg}
use riapyx.Cpu.State.{Cpu, complement}
use riapyx.Cpu.Registers.{get_breg, set_breg, set_low, set_high, set_flag_value, has_flag}

set_low-eq : (v o : ℕ) → v < 256 → o < 65536 → set_low v o ≡ o / 256 * 256 + v
unfolding set_low
set_low-eq v o p q =
    ground (arith, bit_and_shifted 8 o 255, bit_and-mask 8 (o / 256), bit_or_fields 8 (o / 256) v)

set_high-eq : (v o : ℕ) → v < 256 → o < 65536 → set_high v o ≡ v * 256 + o % 256
unfolding set_high
set_high-eq v o p q =
    ground (arith, bit_and-mask 8 o, bit_or_comm (o % 256) (v * 256), bit_or_fields 8 v (o % 256))

-- What the types of the registers guarantee.
pub record IsCpu (c : Cpu) : Type 0 where
  pub ax_fits : c.ax < 65536
  pub bx_fits : c.bx < 65536
  pub cx_fits : c.cx < 65536
  pub dx_fits : c.dx < 65536
  pub sp_fits : c.sp < 65536
  pub bp_fits : c.bp < 65536
  pub si_fits : c.si < 65536
  pub di_fits : c.di < 65536
  pub cs_fits : c.cs < 65536
  pub ds_fits : c.ds < 65536
  pub ss_fits : c.ss < 65536
  pub es_fits : c.es < 65536
  pub ip_fits : c.ip < 65536
  pub flags_fit : c.flags < 65536

get_low-set_low : (v o : ℕ) → v < 256 → o < 65536 → u8 (bit_and (set_low v o) 0xff) ≡ v
get_low-set_low v o p q = ground (arith, set_low-eq v o, bit_and-mask 8 (set_low v o))

get_high-set_low : (v o : ℕ) → v < 256 → o < 65536 → u8 (set_low v o / 2 ^ 8) ≡ u8 (o / 2 ^ 8)
get_high-set_low v o p q = ground (arith, set_low-eq v o)

get_low-set_high :
    (v o : ℕ) → v < 256 → o < 65536 → u8 (bit_and (set_high v o) 0xff) ≡ u8 (bit_and o 0xff)
get_low-set_high v o p q =
    ground (arith, set_high-eq v o, bit_and-mask 8 (set_high v o), bit_and-mask 8 o)

get_high-set_high : (v o : ℕ) → v < 256 → o < 65536 → u8 (set_high v o / 2 ^ 8) ≡ v
get_high-set_high v o p q = ground (arith, set_high-eq v o)

pub BReg-discrete : Discrete BReg
BReg-discrete = hlevel

pub WReg-discrete : Discrete WReg
WReg-discrete = hlevel

-- Where the registers fit their types, writing a byte to a byte register changes it and no other
-- byte register, its other half included.
pub get_breg-set_breg :
    (c : Cpu) (r q : BReg) (v : ℕ)
    → IsCpu c
    → v < 256
    → get_breg (set_breg c r v) q ≡ ite (BReg-discrete r q) v (get_breg c q)
unfolding get_breg set_breg BReg-discrete
get_breg-set_breg c BReg.al q v h p =
    ground (arith, get_low-set_low v c.ax, get_high-set_low v c.ax)
get_breg-set_breg c BReg.bl q v h p =
    ground (arith, get_low-set_low v c.bx, get_high-set_low v c.bx)
get_breg-set_breg c BReg.cl q v h p =
    ground (arith, get_low-set_low v c.cx, get_high-set_low v c.cx)
get_breg-set_breg c BReg.dl q v h p =
    ground (arith, get_low-set_low v c.dx, get_high-set_low v c.dx)
get_breg-set_breg c BReg.ah q v h p =
    ground (arith, get_low-set_high v c.ax, get_high-set_high v c.ax)
get_breg-set_breg c BReg.bh q v h p =
    ground (arith, get_low-set_high v c.bx, get_high-set_high v c.bx)
get_breg-set_breg c BReg.ch q v h p =
    ground (arith, get_low-set_high v c.cx, get_high-set_high v c.cx)
get_breg-set_breg c BReg.dh q v h p =
    ground (arith, get_low-set_high v c.dx, get_high-set_high v c.dx)

pub complement-bit : (i j : ℕ) → j < 16 → complement (2 ^ i) / 2 ^ j % 2 ≡ (if i == j then 0 else 1)
unfolding complement
complement-bit i j h =
    ground (arith, bit-bit_xor j (2 ^ i) 0xffff, bit-two_pow i j, bit_ones 16 j h)

pub bit_flag : (f j : ℕ) → (bit_and f (2 ^ j) != 0) ≡ (f / 2 ^ j % 2 == 1)
bit_flag f j = ground (arith, bit_and-two_pow j f, one-le-pow j 2)

-- Setting or clearing the flag of weight 2 ^ i gives it that value and changes no other one of the
-- 16 flags.
pub has_flag-set_flag_value :
    (c : Cpu) (i j : ℕ) (b : Bool)
    → j < 16
    → has_flag (set_flag_value (2 ^ i) b c) (2 ^ j) ≡ (if i == j then b else has_flag c (2 ^ j))
unfolding set_flag_value
has_flag-set_flag_value c i j true h = ground (
  arith,
  bit_flag (bit_or c.flags (2 ^ i)) j,
  bit_flag c.flags j,
  bit-bit_or j c.flags (2 ^ i),
  bit-two_pow i j,
)
has_flag-set_flag_value c i j false h = ground (
  arith,
  bit_flag (bit_and c.flags (complement (2 ^ i))) j,
  bit_flag c.flags j,
  bit-bit_and j c.flags (complement (2 ^ i)),
  complement-bit i j h,
)
