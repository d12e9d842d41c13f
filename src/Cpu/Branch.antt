-- ===== src/Cpu/Branch.antt =====
-- `run_sbiop_ins` (src/cpu/instruction_exec.rs): conditional jumps, loops, port input and output,
-- and software interrupts.
pub mod Compare
use riapyx.Common.{
  ℕ, bit_and, ◌==◌, ◌!=◌, ◌=ᵇ◌, ◌≠ᵇ◌, ◌&&◌, ◌||◌, if◌then◌else◌, add16, sub16, Bool, Result, ok,
  ◌>>=◌,
}
use riapyx.Common.Int.{sign_extend}
use riapyx.Cpu.Instruction.{SingleBImmOperandOpCode, BReg, WReg}
use riapyx.Cpu.State.{Cpu, Core, core, flag_c, flag_o, flag_p, flag_z, flag_s}
use riapyx.Cpu.Registers.{get_breg, set_breg, get_wreg, set_wreg}
use riapyx.Cpu.Exec.Stack.{request_interrupt}
use riapyx.Hw.Devices.{Hw}
use riapyx.Hw.Port.{io_inb, io_inw, io_outb, io_outw}

-- `if taken { self.ip = self.ip.wrapping_add(signed as u16) }`
abbrev pub jump_if : {F : Type 0} → Bool → ℕ → Core → Hw F → Result (Core × Hw F)
jump_if taken operand s hw =
    let c = s.cpu in
    ok (if taken then core (record c { ip = add16 c.ip (sign_extend operand) }) s.mem else s, hw)

-- `self.cx` less one.
abbrev pub count_down : Core → Core
count_down s = let c = s.cpu in core (record c { cx = sub16 c.cx 1 }) s.mem

unfoldable pub run_sbiop_ins :
    {F : Type 0} → SingleBImmOperandOpCode → ℕ → Core → Hw F → Result (Core × Hw F)
run_sbiop_ins SingleBImmOperandOpCode.jmps n s hw =
    let c = s.cpu in ok (core (record c { ip = add16 c.ip (sign_extend n) }) s.mem, hw)
run_sbiop_ins SingleBImmOperandOpCode.jb n s hw = jump_if (bit_and s.cpu.flags flag_c != 0) n s hw
run_sbiop_ins SingleBImmOperandOpCode.jnb n s hw = jump_if (bit_and s.cpu.flags flag_c == 0) n s hw
run_sbiop_ins SingleBImmOperandOpCode.jo n s hw = jump_if (bit_and s.cpu.flags flag_o != 0) n s hw
run_sbiop_ins SingleBImmOperandOpCode.jno n s hw = jump_if (bit_and s.cpu.flags flag_o == 0) n s hw
run_sbiop_ins SingleBImmOperandOpCode.jp n s hw = jump_if (bit_and s.cpu.flags flag_p != 0) n s hw
run_sbiop_ins SingleBImmOperandOpCode.jnp n s hw = jump_if (bit_and s.cpu.flags flag_p == 0) n s hw
run_sbiop_ins SingleBImmOperandOpCode.jbe n s hw =
    jump_if (bit_and s.cpu.flags flag_z != 0 || bit_and s.cpu.flags flag_c != 0) n s hw
run_sbiop_ins SingleBImmOperandOpCode.jnbe n s hw =
    jump_if (bit_and s.cpu.flags flag_z == 0 && bit_and s.cpu.flags flag_c == 0) n s hw
run_sbiop_ins SingleBImmOperandOpCode.jle n s hw =
    jump_if
      (bit_and s.cpu.flags flag_z != 0
        || ((bit_and s.cpu.flags flag_s != 0) ≠ᵇ (bit_and s.cpu.flags flag_o != 0)))
      n s hw
run_sbiop_ins SingleBImmOperandOpCode.jnle n s hw =
    jump_if
      (bit_and s.cpu.flags flag_z == 0
        && ((bit_and s.cpu.flags flag_s != 0) =ᵇ (bit_and s.cpu.flags flag_o != 0)))
      n s hw
run_sbiop_ins SingleBImmOperandOpCode.je n s hw = jump_if (bit_and s.cpu.flags flag_z != 0) n s hw
run_sbiop_ins SingleBImmOperandOpCode.jne n s hw = jump_if (bit_and s.cpu.flags flag_z == 0) n s hw
run_sbiop_ins SingleBImmOperandOpCode.js n s hw = jump_if (bit_and s.cpu.flags flag_s != 0) n s hw
run_sbiop_ins SingleBImmOperandOpCode.jns n s hw = jump_if (bit_and s.cpu.flags flag_s == 0) n s hw
run_sbiop_ins SingleBImmOperandOpCode.jl n s hw =
    jump_if ((bit_and s.cpu.flags flag_s != flag_s) ≠ᵇ (bit_and s.cpu.flags flag_o != flag_o)) n s
      hw
run_sbiop_ins SingleBImmOperandOpCode.jnl n s hw =
    jump_if ((bit_and s.cpu.flags flag_s != flag_s) =ᵇ (bit_and s.cpu.flags flag_o != flag_o)) n s
      hw
run_sbiop_ins SingleBImmOperandOpCode.jcxz n s hw = jump_if (s.cpu.cx == 0) n s hw
run_sbiop_ins SingleBImmOperandOpCode.loop n s hw =
    let s₁ = count_down s in jump_if (s₁.cpu.cx != 0) n s₁ hw
run_sbiop_ins SingleBImmOperandOpCode.loopnz n s hw =
    let s₁ = count_down s in jump_if (s₁.cpu.cx != 0 && bit_and s₁.cpu.flags flag_z == 0) n s₁ hw
run_sbiop_ins SingleBImmOperandOpCode.loopz n s hw =
    let s₁ = count_down s in jump_if (s₁.cpu.cx != 0 && bit_and s₁.cpu.flags flag_z != 0) n s₁ hw
run_sbiop_ins SingleBImmOperandOpCode.inb n s hw = do
  (ret, hw₁) ← io_inb n hw
  ok (core (set_breg s.cpu BReg.al ret) s.mem, hw₁)
run_sbiop_ins SingleBImmOperandOpCode.outb n s hw = do
  hw₁ ← io_outb n (get_breg s.cpu BReg.al) hw
  ok (s, hw₁)
run_sbiop_ins SingleBImmOperandOpCode.outw n s hw = ok (s, io_outw n (get_wreg s.cpu WReg.ax) hw)
run_sbiop_ins SingleBImmOperandOpCode.inw n s hw =
    ok (core (set_wreg s.cpu WReg.ax (io_inw n hw)) s.mem, hw)
run_sbiop_ins SingleBImmOperandOpCode.outvb n s hw = do
  hw₁ ← io_outb s.cpu.dx (get_breg s.cpu BReg.al) hw
  ok (s, hw₁)
run_sbiop_ins SingleBImmOperandOpCode.outvw n s hw =
    ok (s, io_outw s.cpu.dx (get_wreg s.cpu WReg.ax) hw)
run_sbiop_ins SingleBImmOperandOpCode.invb n s hw = do
  (ret, hw₁) ← io_inb s.cpu.dx hw
  ok (core (set_breg s.cpu BReg.al ret) s.mem, hw₁)
run_sbiop_ins SingleBImmOperandOpCode.invw n s hw =
    ok (core (set_wreg s.cpu WReg.ax (io_inw s.cpu.dx hw)) s.mem, hw)
run_sbiop_ins SingleBImmOperandOpCode.int n s hw = ok (request_interrupt n s, hw)
