-- ===== src/Cpu/Exec/TwoOperands/Sums.antt =====
-- `ADD`, `ADC`, `SUB` and `SBB` of words into a register.
use riapyx.Common.{
  ℕ, ◌+◌, ◌-◌, ◌%◌, ◌≡◌, refl, ap, ◌∙◌, arith, ltb, leb, ◌==◌, ◌!=◌, not, ◌&&◌, ◌=ᵇ◌, ◌≠ᵇ◌, bit_and,
  Bool, Bool-cases, inl, inr, if◌then◌else◌, add16, sub16, IsU16, Returns,
}
use riapyx.Cpu.Instruction.{TwoOperandsOpCode, WOperand, WReg}
use riapyx.Cpu.State.{Core, core, Cpu, flag_s, flag_z, flag_o, flag_c, flag_a}
use riapyx.Cpu.Registers.{has_flag, get_wreg, set_wreg}
use riapyx.Cpu.Access.{load_woperand, store_woperand, w_access}
use riapyx.Cpu.Operand.{u16_operand}
use riapyx.Cpu.Operand.U16
use riapyx.Cpu.Operand.Sums16.{
  add_oca_flags_lem, adc_carry, sub_oca_flags_lem, sbb_borrow, sign_flag_lem,
}
use riapyx.Cpu.Exec.Flags.{set_szp_flags, set_oca_flags}
use riapyx.Cpu.Exec.Flags.Laws.{after_arithmetic}
use riapyx.Cpu.Exec.TwoOperands.{run_tgop_ins, run_twop_ins}
use riapyx.Mem.{Memory}

-- The register holds `val`, and the flags are those of a result `val`.
abbrev pub Leaves : WReg → ℕ → Bool × Bool × Bool → Core → Type 0
Leaves r val (o, k, a) t =
    (get_wreg t.cpu r ≡ val)
    × (has_flag t.cpu flag_z ≡ (val == 0))
    × (has_flag t.cpu flag_s ≡ leb 32768 val)
    × (has_flag t.cpu flag_o ≡ o)
    × (has_flag t.cpu flag_c ≡ k)
    × (has_flag t.cpu flag_a ≡ a)

get_wreg-set_wreg_self : (c : Cpu) (r : WReg) (v : ℕ) → get_wreg (set_wreg c r v) r ≡ v
unfolding get_wreg set_wreg
get_wreg-set_wreg_self c WReg.ax v = refl
get_wreg-set_wreg_self c WReg.bx v = refl
get_wreg-set_wreg_self c WReg.cx v = refl
get_wreg-set_wreg_self c WReg.dx v = refl
get_wreg-set_wreg_self c WReg.sp v = refl
get_wreg-set_wreg_self c WReg.bp v = refl
get_wreg-set_wreg_self c WReg.si v = refl
get_wreg-set_wreg_self c WReg.di v = refl
get_wreg-set_wreg_self c WReg.ip v = refl

set_wreg_flags : (c : Cpu) (r : WReg) (v : ℕ) → (set_wreg c r v).flags ≡ c.flags
unfolding set_wreg
set_wreg_flags c WReg.ax v = refl
set_wreg_flags c WReg.bx v = refl
set_wreg_flags c WReg.cx v = refl
set_wreg_flags c WReg.dx v = refl
set_wreg_flags c WReg.sp v = refl
set_wreg_flags c WReg.bp v = refl
set_wreg_flags c WReg.si v = refl
set_wreg_flags c WReg.di v = refl
set_wreg_flags c WReg.ip v = refl

store_result :
    (r : WReg) (val : ℕ) (oca : Bool × Bool × Bool) (c : Cpu) (mem : Memory)
    → IsU16 val
    → Returns (Leaves r val oca) (
        store_woperand
          (WOperand.reg r)
          val
          (core (set_szp_flags u16_operand val (set_oca_flags oca c)) mem))
unfolding store_woperand U16.zero_flag
store_result r val (o, k, a) c mem h =
    let d = set_szp_flags u16_operand val (set_oca_flags (o, k, a) c) in
    let kept = λ (m : ℕ). ap (λ f. bit_and f m != 0) (set_wreg_flags d r val) in
    let flag = after_arithmetic u16_operand val (o, k, a) c in
    (
      get_wreg-set_wreg_self d r val,
      kept flag_z ∙ flag 6 (omega arith),
      kept flag_s ∙ flag 7 (omega arith) ∙ sign_flag_lem val h,
      kept flag_o ∙ flag 11 (omega arith),
      kept flag_c ∙ flag 0 (omega arith),
      kept flag_a ∙ flag 4 (omega arith),
    )

-- The same where the code spells the result and the flags in another way.
store_result_as :
    (r : WReg) (x val : ℕ) (y oca : Bool × Bool × Bool) (c : Cpu) (mem : Memory)
    → x ≡ val
    → y ≡ oca
    → IsU16 val
    → Returns (Leaves r val oca) (
        store_woperand
          (WOperand.reg r)
          x
          (core (set_szp_flags u16_operand x (set_oca_flags y c)) mem))
store_result_as r x val y oca c mem e f h = rw e (rw f (store_result r val oca c mem h))

-- The value and the carry alone.
store_carry :
    (r : WReg) (x val : ℕ) (y : Bool × Bool × Bool) (k : Bool) (c : Cpu) (mem : Memory)
    → x ≡ val
    → y.1 ≡ k
    → Returns
        (λ t. (get_wreg t.cpu r ≡ val) × (has_flag t.cpu flag_c ≡ k))
        (store_woperand
          (WOperand.reg r)
          x
          (core (set_szp_flags u16_operand x (set_oca_flags y c)) mem))
unfolding store_woperand
store_carry r x val y k c mem e f =
    let d = set_szp_flags u16_operand x (set_oca_flags y c) in
    (
      get_wreg-set_wreg_self d r x ∙ e,
      ap (λ g. bit_and g flag_c != 0) (set_wreg_flags d r x)
          ∙ after_arithmetic u16_operand x y c 0 (omega arith)
          ∙ f,
    )

-- The carry before the instruction, as a number.
abbrev pub carry_in : Core → ℕ
carry_in s = if bit_and s.cpu.flags flag_c == flag_c then 1 else 0

module _ (r : WReg) (from : WOperand) (s : Core) where
  abbrev pub dst : ℕ
  dst = get_wreg s.cpu r

  abbrev pub src : ℕ
  src = load_woperand s from

  -- `ADD` of a word to a register that holds one leaves the wrapped sum there, the zero and the
  -- sign flag of it, the signed overflow, the carry and the half carry.
  pub add_result :
      IsU16 src
      → IsU16 dst
      → Returns
          (Leaves r (add16 dst src) (
            (leb 32768 dst =ᵇ leb 32768 src) && (leb 32768 dst ≠ᵇ leb 32768 (add16 dst src)),
            leb 65536 (dst + src),
            leb 16 (dst % 16 + src % 16),
          ))
          (run_twop_ins TwoOperandsOpCode.add from (WOperand.reg r) s)
  unfolding run_twop_ins run_tgop_ins load_woperand
  add_result p q =
      store_result_as r (add16 src dst) (add16 dst src) (U16.add_oca_flags (add16 src dst) dst src)
        _ s.cpu s.mem (omega arith)
        (ap (λ z. U16.add_oca_flags z dst src) (omega arith) ∙ add_oca_flags_lem dst src q p)
        (omega arith)

  -- `SUB` of a word from a register that holds one leaves the wrapped difference there, the zero
  -- and the sign flag of it, the signed overflow, the borrow and the half borrow.
  pub sub_result :
      IsU16 src
      → IsU16 dst
      → Returns
          (Leaves r (sub16 dst src) (
            (leb 32768 dst ≠ᵇ leb 32768 src) && (leb 32768 dst ≠ᵇ leb 32768 (sub16 dst src)),
            ltb dst src,
            ltb (dst % 16) (src % 16),
          ))
          (run_twop_ins TwoOperandsOpCode.sub from (WOperand.reg r) s)
  unfolding run_twop_ins run_tgop_ins load_woperand
  sub_result p q =
      store_result_as r (sub16 dst src) (sub16 dst src) (U16.sub_oca_flags (sub16 dst src) dst src)
        _ s.cpu s.mem (omega arith) (sub_oca_flags_lem dst src q p) (omega arith)

  -- `ADC` of a word to a register that holds one leaves the wrapped sum of both operands and the
  -- carry. The carry flag is the carry out of that sum, but it is lost where both operands are
  -- 65535 and the carry was set.
  pub adc_result :
      IsU16 src
      → IsU16 dst
      → Returns
          (λ t.
            (get_wreg t.cpu r ≡ (dst + src + carry_in s) % 65536)
            × (has_flag t.cpu flag_c ≡ (
                leb 65536 (dst + src + carry_in s)
                && not (carry_in s == 1 && (dst == 65535 && src == 65535)))))
          (run_twop_ins TwoOperandsOpCode.adc from (WOperand.reg r) s)
  unfolding run_twop_ins run_tgop_ins load_woperand U16.inc
  adc_result p q = elim (Bool-cases (bit_and s.cpu.flags flag_c == flag_c)) [
    | inl e ↦ rw e (
        store_carry r (U16.inc (add16 src dst)) ((dst + src + 1) % 65536)
          (U16.add_oca_flags (U16.inc (add16 src dst)) dst src) _ s.cpu s.mem (ground arith)
          (ground (arith, adc_carry dst src q p)))
    | inr e ↦ rw e (
        store_carry r (add16 src dst) ((dst + src + 0) % 65536)
          (U16.add_oca_flags (add16 src dst) dst src) _ s.cpu s.mem (omega arith)
          (ground (arith, add_oca_flags_lem dst src q p)))
  ]

  -- `SBB` of a word from a register that holds one leaves the difference of the operands less the
  -- borrow, wrapped. The carry flag is the borrow out of it, but it is lost where the source is
  -- 65535 and the carry was set.
  pub sbb_result :
      IsU16 src
      → IsU16 dst
      → Returns
          (λ t.
            (get_wreg t.cpu r ≡ (dst + 65536 + 65536 - src - carry_in s) % 65536)
            × (has_flag t.cpu flag_c
                ≡ (ltb dst (src + carry_in s) && not (carry_in s == 1 && src == 65535))))
          (run_twop_ins TwoOperandsOpCode.sbb from (WOperand.reg r) s)
  unfolding run_twop_ins run_tgop_ins load_woperand U16.dec
  sbb_result p q = elim (Bool-cases (bit_and s.cpu.flags flag_c == flag_c)) [
    | inl e ↦ rw e (
        store_carry r (U16.dec (sub16 dst src)) ((dst + 65536 + 65536 - src - 1) % 65536)
          (U16.sub_oca_flags (U16.dec (sub16 dst src)) dst src) _ s.cpu s.mem (omega arith)
          (ground (arith, sbb_borrow dst src q p)))
    | inr e ↦ rw e (
        store_carry r (sub16 dst src) ((dst + 65536 + 65536 - src - 0) % 65536)
          (U16.sub_oca_flags (sub16 dst src) dst src) _ s.cpu s.mem (omega arith)
          (ground (arith, sub_oca_flags_lem dst src q p)))
  ]
