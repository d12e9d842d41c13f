-- ===== src/Cpu/Exec/Shift.antt =====
-- `get_srcount` and `run_srgop_ins`.
use riapyx.Common.{ℕ, ◌==◌, ltb, if◌then◌else◌, Bool, Result, ok}
use riapyx.Cpu.Instruction.{ShiftRotateOpCode, ShiftRotateCount, BReg}
use riapyx.Cpu.State.{Cpu, Core, core, flag_c}
use riapyx.Cpu.Registers.{get_breg, set_flag_value, has_flag}
use riapyx.Cpu.Access.{OperandAccess}
use riapyx.Cpu.Exec.Flags.{set_szp_flags, set_oc_flags}

unfoldable pub get_srcount : Cpu → ShiftRotateCount → ℕ
get_srcount c ShiftRotateCount.cl = get_breg c BReg.cl
get_srcount c ShiftRotateCount.one = 1
get_srcount c (ShiftRotateCount.imm x) = x

-- The flags of a shift by one, or else the carry of a longer one.
abbrev pub count_flags : ℕ → Bool × Bool → Bool → Cpu → Cpu
count_flags cnt one_flags carry c =
    if cnt == 1 then set_oc_flags one_flags c else set_flag_value flag_c carry c

module _ {T : Type 0} ⦃a : OperandAccess T⦄ where
  -- The `match op`, for a count that is not 0.
  unfoldable pub shift_by : ShiftRotateOpCode → ℕ → T → Core → Result Core
  shift_by ShiftRotateOpCode.shl cnt operand s =
      let x = a.load_operand s operand in
      let y = if ltb cnt a.value.bit_count then a.value.shl x cnt else a.value.zero in
      let c₁ = set_szp_flags a.value y s.cpu in
      let c₂ = count_flags cnt (a.value.shl1_oc_flags_fo x) (a.value.shlcl_c_flag_fo x cnt) c₁ in
      a.store_operand operand y (core c₂ s.mem)
  shift_by ShiftRotateOpCode.shr cnt operand s =
      let x = a.load_operand s operand in
      let y = if ltb cnt a.value.bit_count then a.value.shr x cnt else a.value.zero in
      let c₁ = set_szp_flags a.value y s.cpu in
      let c₂ = count_flags cnt (a.value.shr1_oc_flags_fo x) (a.value.shrcl_c_flag_fo x cnt) c₁ in
      a.store_operand operand y (core c₂ s.mem)
  shift_by ShiftRotateOpCode.sar cnt operand s =
      let x = a.load_operand s operand in
      let y = a.value.sar x cnt in
      let c₁ = set_szp_flags a.value y s.cpu in
      let c₂ = count_flags cnt (a.value.sar1_oc_flags_fo x) (a.value.sarcl_c_flag_fo x cnt) c₁ in
      a.store_operand operand y (core c₂ s.mem)
  shift_by ShiftRotateOpCode.rol cnt operand s =
      let x = a.load_operand s operand in
      let y = a.value.rol x cnt in
      let c₁ = count_flags cnt (a.value.shl1_oc_flags_fo x) (a.value.rolcl_c_flag_fo x cnt) s.cpu in
      a.store_operand operand y (core c₁ s.mem)
  shift_by ShiftRotateOpCode.rcl cnt operand s =
      let x = a.load_operand s operand in
      let carry = has_flag s.cpu flag_c in
      let y = a.value.rcl x carry cnt in
      let c₁ =
        count_flags cnt (a.value.shl1_oc_flags_fo x) (a.value.rclcl_c_flag_fo x carry cnt) s.cpu in
      a.store_operand operand y (core c₁ s.mem)
  shift_by ShiftRotateOpCode.ror cnt operand s =
      let x = a.load_operand s operand in
      let y = a.value.ror x cnt in
      let c₁ = count_flags cnt (a.value.ror1_oc_flags_fo x) (a.value.rorcl_c_flag_fo x cnt) s.cpu in
      a.store_operand operand y (core c₁ s.mem)
  shift_by ShiftRotateOpCode.rcr cnt operand s =
      let x = a.load_operand s operand in
      let carry = has_flag s.cpu flag_c in
      let y = a.value.rcr x carry cnt in
      let c₁ =
        count_flags cnt (a.value.rcr1_oc_flags_fo x carry) (a.value.rcrcl_c_flag_fo x carry cnt)
          s.cpu in
      a.store_operand operand y (core c₁ s.mem)

  unfoldable pub run_srgop_ins : ShiftRotateOpCode → ShiftRotateCount → T → Core → Result Core
  unfolding shift_by
  run_srgop_ins op shift_count operand s =
      let cnt = get_srcount s.cpu shift_count in
      if cnt == 0 then ok s else shift_by op cnt operand s
