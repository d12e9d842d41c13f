-- ===== src/Cpu/Exec/Single.antt =====
-- `run_sgop_ins`, `run_sbop_ins`, `run_swop_ins` and `handle_prefix`.
use riapyx.Common.{
  ℕ, ◌*◌, ◌/◌, ◌%◌, ◌==◌, bit_and, if◌then◌else◌, u8, add8, Bool, Option, none, some, Result, ok,
  panic, ◌>>=◌,
}
use riapyx.Cpu.Instruction.{SingleOperandOpCode, BOperand, WOperand, SegReg, BReg, Prefix}
use riapyx.Cpu.State.{Cpu, Core, core, CpuState, RepPrefix, flag_c, flag_o, flag_s, flag_z, flag_p}
use riapyx.Cpu.Registers.{get_breg, set_breg, set_flag_value}
use riapyx.Cpu.Operand.{u8_operand}
use riapyx.Cpu.Access.{OperandAccess, b_access, w_access, load_woperand, store_woperand}
use riapyx.Cpu.Exec.Flags.{set_szp_flags, set_oa_flags, set_oca_flags}
use riapyx.Cpu.Exec.Stack.{stack_push, stack_pop, request_interrupt}

-- What `MUL` and `IMUL` do with their product.
abbrev pub set_product : {T : Type 0} → OperandAccess T → ℕ × ℕ × Bool → Core → Core
set_product a (hi, lo, overflow) s =
    let c₁ = a.set_aux (a.set_acc s.cpu lo) hi in
    core (set_flag_value flag_o overflow (set_flag_value flag_c overflow c₁)) s.mem

-- What `DIV` and `IDIV` do with their result: the divide error is interrupt 0.
abbrev pub set_quotient : {T : Type 0} → OperandAccess T → Option (ℕ × ℕ) → Core → Core
set_quotient a none s = request_interrupt 0 s
set_quotient a (some (quot, remain)) s = core (a.set_aux (a.set_acc s.cpu quot) remain) s.mem

module _ {T : Type 0} ⦃a : OperandAccess T⦄ where
  unfoldable pub run_sgop_ins : SingleOperandOpCode → T → Core → Result Core
  run_sgop_ins SingleOperandOpCode.dec operand s =
      let result = a.value.dec (a.load_operand s operand) in
      let c₁ = set_oa_flags (a.value.dec_oa_flags result) (set_szp_flags a.value result s.cpu) in
      a.store_operand operand result (core c₁ s.mem)
  run_sgop_ins SingleOperandOpCode.inc operand s =
      let result = a.value.inc (a.load_operand s operand) in
      let c₁ = set_oa_flags (a.value.inc_oa_flags result) (set_szp_flags a.value result s.cpu) in
      a.store_operand operand result (core c₁ s.mem)
  run_sgop_ins SingleOperandOpCode.neg operand s =
      let result = a.value.neg (a.load_operand s operand) in
      let c₁ = set_oca_flags (a.value.neg_oca_flags result) (set_szp_flags a.value result s.cpu) in
      a.store_operand operand result (core c₁ s.mem)
  run_sgop_ins SingleOperandOpCode.not operand s =
      a.store_operand operand (a.value.complement (a.load_operand s operand)) s
  run_sgop_ins SingleOperandOpCode.mul operand s =
      ok (set_product a (a.value.mul (a.load_operand s operand) (a.get_acc s.cpu)) s)
  run_sgop_ins SingleOperandOpCode.imul operand s =
      ok (set_product a (a.value.imul (a.load_operand s operand) (a.get_acc s.cpu)) s)
  run_sgop_ins SingleOperandOpCode.div operand s =
      let value = a.load_operand s operand in
      ok (set_quotient a (a.value.div value (a.get_aux s.cpu) (a.get_acc s.cpu)) s)
  run_sgop_ins SingleOperandOpCode.idiv operand s = do
    let value = a.load_operand s operand
    r ← a.value.idiv value (a.get_aux s.cpu) (a.get_acc s.cpu)
    ok (set_quotient a r s)
  run_sgop_ins SingleOperandOpCode.push operand s = panic
  run_sgop_ins SingleOperandOpCode.pop operand s = panic
  run_sgop_ins SingleOperandOpCode.aam operand s = panic
  run_sgop_ins SingleOperandOpCode.aad operand s = panic

abbrev sbop_szp : ℕ → Cpu → Cpu
sbop_szp x c =
    let c₁ = set_flag_value flag_s (u8_operand.sign_flag x) c in
    let c₂ = set_flag_value flag_z (u8_operand.zero_flag x) c₁ in
    set_flag_value flag_p (u8_operand.parity_flag x) c₂

unfoldable pub run_sbop_ins : SingleOperandOpCode → BOperand → Core → Result Core
run_sbop_ins SingleOperandOpCode.aam (BOperand.immediate imm8) s =
    let tmp = get_breg s.cpu BReg.al in
    let quot = tmp / imm8 in
    let rem = tmp % imm8 in
    let c₁ = set_breg (set_breg s.cpu BReg.ah quot) BReg.al rem in
    if imm8 == 0 then panic else ok (core (sbop_szp rem c₁) s.mem)
run_sbop_ins SingleOperandOpCode.aad (BOperand.immediate imm8) s =
    let tmp_al = get_breg s.cpu BReg.al in
    let tmp_ah = get_breg s.cpu BReg.ah in
    let new_al = bit_and (add8 tmp_al (u8 (tmp_ah * imm8))) 0xff in
    let c₁ = set_breg (set_breg s.cpu BReg.ah 0) BReg.al new_al in
    ok (core (sbop_szp new_al c₁) s.mem)
run_sbop_ins SingleOperandOpCode.aam oper s = panic
run_sbop_ins SingleOperandOpCode.aad oper s = panic
run_sbop_ins op oper s = run_sgop_ins op oper s

unfoldable pub run_pop : WOperand → Core → Result Core
run_pop (WOperand.seg_reg SegReg.cs) s =
    ok (core (let c = s.cpu in record c { state = CpuState.crashed }) s.mem)
run_pop oper s = let (val, c₁) = stack_pop s.mem s.cpu in store_woperand oper val (core c₁ s.mem)

unfoldable pub run_swop_ins : SingleOperandOpCode → WOperand → Core → Result Core
unfolding run_pop
run_swop_ins SingleOperandOpCode.push oper s = ok (stack_push (load_woperand s oper) s)
run_swop_ins SingleOperandOpCode.pop oper s = run_pop oper s
run_swop_ins op oper s = run_sgop_ins op oper s

unfoldable pub handle_prefix : Prefix → Cpu → Cpu
handle_prefix Prefix.lock c = c
handle_prefix (Prefix.segment sr) c = record c { segment_override_prefix = some sr }
handle_prefix Prefix.rep c = record c { rep_prefix = some RepPrefix.rep }
handle_prefix Prefix.repne c = record c { rep_prefix = some RepPrefix.repne }
