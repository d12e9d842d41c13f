-- ===== src/Cpu/Exec/Control.antt =====
-- Calls, jumps and returns.
use riapyx.Common.{ℕ, ltb, bit_and, if◌then◌else◌, add16, Result, ok, panic, ◌>>=◌}
use riapyx.Cpu.Instruction.{
  SingleOperandFcOpCode, FlowControlOperand, NoOpFcOpCode, SingleWImmFcOpCode, SingleWImmFcOperand,
}
use riapyx.Cpu.State.{Core, core}
use riapyx.Cpu.Registers.{get_cr0}
use riapyx.Cpu.Access.{load_fcoperand}
use riapyx.Cpu.Exec.Stack.{stack_push, stack_pop, request_interrupt}

abbrev goto : ℕ → ℕ → Core → Core
goto cs ip s = core (let c = s.cpu in record c { cs = cs; ip = ip }) s.mem

unfoldable pub run_sfcop_ins : SingleOperandFcOpCode → FlowControlOperand → Core → Result Core
run_sfcop_ins SingleOperandFcOpCode.jmp to s = do
  (is_far, cs, ip) ← load_fcoperand s to
  ok (goto cs ip s)
run_sfcop_ins SingleOperandFcOpCode.call to s = do
  (is_far, cs, ip) ← load_fcoperand s to
  let old_cs = s.cpu.cs
  let old_ip = s.cpu.ip
  let s₁ = if is_far then stack_push old_cs s else s
  ok (goto cs ip (stack_push old_ip s₁))
run_sfcop_ins SingleOperandFcOpCode.fnstcw to s = do
  (is_far, cs, ip) ← load_fcoperand s to
  if ltb 0 (bit_and (get_cr0 s.cpu) 0x4) then ok (request_interrupt 0x02 s) else panic

unfoldable pub run_fcnoop_seg_ins : NoOpFcOpCode → Core → Core
run_fcnoop_seg_ins NoOpFcOpCode.ret s =
    let (ip, c) = stack_pop s.mem s.cpu in core (record c { ip = ip }) s.mem

unfoldable pub run_fcnoop_iseg_ins : NoOpFcOpCode → Core → Core
run_fcnoop_iseg_ins NoOpFcOpCode.ret s =
    let (ip, c₁) = stack_pop s.mem s.cpu in
    let (cs, c₂) = stack_pop s.mem c₁ in core (record c₂ { ip = ip; cs = cs }) s.mem

unfoldable pub run_swfcop_ins : SingleWImmFcOpCode → SingleWImmFcOperand → Core → Core
run_swfcop_ins SingleWImmFcOpCode.ret_and_add_to_sp (SingleWImmFcOperand.seg to_add) s =
    let (ip, c) = stack_pop s.mem s.cpu in core (record c { ip = ip; sp = add16 c.sp to_add }) s.mem
run_swfcop_ins SingleWImmFcOpCode.ret_and_add_to_sp (SingleWImmFcOperand.inter_seg to_add) s =
    let (ip, c₁) = stack_pop s.mem s.cpu in
    let (cs, c₂) = stack_pop s.mem c₁ in
    core (record c₂ { ip = ip; cs = cs; sp = add16 c₂.sp to_add }) s.mem
