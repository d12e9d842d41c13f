-- ===== src/Cpu/Exec/NoOperand.antt =====
-- `run_noop_ins`.
use riapyx.Common.{
  ℕ, bit_and, bit_or, ltb, ◌==◌, ◌!=◌, ◌||◌, if◌then◌else◌, u8, shl8, shr8, add8, sub8, add16, Bool,
  Result, ok, panic,
}
use riapyx.Cpu.Instruction.{NoOperandOpCode, BReg, WReg}
use riapyx.Cpu.State.{Cpu, Core, core, complement, flag_i, flag_d, flag_c, flag_a, flag_set_8086}
use riapyx.Cpu.Registers.{
  get_breg, set_breg, get_wreg, set_wreg, set_flag, clear_flag, set_flag_value, get_cr0,
}
use riapyx.Cpu.Address.{load_memory_u8}
use riapyx.Cpu.Operand.{u8_operand}
use riapyx.Cpu.Exec.Flags.{set_szp_flags}
use riapyx.Cpu.Exec.Stack.{stack_push, stack_pop, return_from_interrupt, request_interrupt}

-- The body of `DAA`: the result and the carry.
unfoldable pub daa_adjust : ℕ → ℕ → ℕ × Bool
daa_adjust flags val =
    let lo = bit_and val 0xf in
    let hi = shr8 val 4 in
    let adjust = ltb 0 (bit_and flags flag_a) in
    let lo₁ = if adjust then sub8 lo 10 else lo in
    let hi₁ = if adjust then add8 hi 1 else hi in
    let lo₂ = if ltb 9 lo₁ then sub8 lo₁ 10 else lo₁ in
    let hi₂ = if ltb 9 lo₁ then add8 hi₁ 1 else hi₁ in
    let carry = ltb 9 hi₂ || ltb 0 (bit_and flags flag_c) in
    let hi₃ = if carry then sub8 hi₂ 10 else hi₂ in (bit_or lo₂ (shl8 hi₃ 4), carry)

unfoldable pub run_daa : Cpu → Cpu
unfolding daa_adjust
run_daa c =
    let (result, carry) = daa_adjust c.flags (get_breg c BReg.al) in
    let c₁ = set_szp_flags u8_operand result c in
    let c₂ = set_breg c₁ BReg.al result in clear_flag flag_a (set_flag_value flag_c carry c₂)

unfoldable pub run_noop_ins : NoOperandOpCode → Core → Result Core
unfolding run_daa
run_noop_ins NoOperandOpCode.cli s =
    ok (core (let c = s.cpu in record c { flags = bit_and c.flags (complement flag_i) }) s.mem)
run_noop_ins NoOperandOpCode.cld s =
    ok (core (let c = s.cpu in record c { flags = bit_and c.flags (complement flag_d) }) s.mem)
run_noop_ins NoOperandOpCode.sti s =
    ok (core (let c = s.cpu in record c { flags = bit_or c.flags flag_i }) s.mem)
run_noop_ins NoOperandOpCode.std s =
    ok (core (let c = s.cpu in record c { flags = bit_or c.flags flag_d }) s.mem)
run_noop_ins NoOperandOpCode.stc s = ok (core (set_flag flag_c s.cpu) s.mem)
run_noop_ins NoOperandOpCode.clc s = ok (core (clear_flag flag_c s.cpu) s.mem)
run_noop_ins NoOperandOpCode.cmc s =
    ok (core (set_flag_value flag_c (bit_and s.cpu.flags flag_c == 0) s.cpu) s.mem)
run_noop_ins NoOperandOpCode.cbw s =
    let sign = bit_and (get_breg s.cpu BReg.al) 0x80 in
    let sign_extended = if sign != 0 then 0xff else 0 in
    ok (core (set_breg s.cpu BReg.ah sign_extended) s.mem)
run_noop_ins NoOperandOpCode.cwd s =
    let sign = bit_and (get_wreg s.cpu WReg.ax) 0x8000 in
    let sign_extended = if sign != 0 then 0xffff else 0 in
    ok (core (set_wreg s.cpu WReg.dx sign_extended) s.mem)
run_noop_ins NoOperandOpCode.pushf s = ok (stack_push s.cpu.flags s)
run_noop_ins NoOperandOpCode.popf s =
    let (f, c) = stack_pop s.mem s.cpu in
    ok (core (record c { flags = bit_or f flag_set_8086 }) s.mem)
run_noop_ins NoOperandOpCode.iret s = ok (core (return_from_interrupt s.mem s.cpu) s.mem)
run_noop_ins NoOperandOpCode.xlat s =
    let old_al = get_breg s.cpu BReg.al in
    let new_al = load_memory_u8 s.cpu s.mem s.cpu.ds (add16 s.cpu.bx old_al) in
    ok (core (set_breg s.cpu BReg.al new_al) s.mem)
run_noop_ins NoOperandOpCode.lahf s = ok (core (set_breg s.cpu BReg.ah (u8 s.cpu.flags)) s.mem)
run_noop_ins NoOperandOpCode.sahf s =
    let new_flags_lo = get_breg s.cpu BReg.ah in
    ok (
      core (let c = s.cpu in record c { flags = bit_or (bit_and c.flags 0xff00) new_flags_lo })
        s.mem)
run_noop_ins NoOperandOpCode.daa s = ok (core (run_daa s.cpu) s.mem)
run_noop_ins NoOperandOpCode.hlt s = ok s
run_noop_ins NoOperandOpCode.fninit s =
    if ltb 0 (bit_and (get_cr0 s.cpu) 0x4) then ok (request_interrupt 0x02 s) else panic
run_noop_ins NoOperandOpCode.aaa s = panic
run_noop_ins NoOperandOpCode.aas s = panic
run_noop_ins NoOperandOpCode.das s = panic
run_noop_ins NoOperandOpCode.into s = panic
run_noop_ins NoOperandOpCode.wait s = panic
