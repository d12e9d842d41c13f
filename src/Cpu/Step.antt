-- ===== src/Cpu/Step.antt =====
-- One step of the processor (src/cpu/exec.rs). The BIOS service that runs when CS is a trap segment
-- is a parameter, any function of the machine; so is the decoder of the crate iced_x86.
pub mod Laws
pub mod Fetch
use riapyx.Common.{
  ℕ, zero, suc, ◌+◌, bit_and, ◌==◌, ◌!=◌, ◌&&◌, ◌||◌, not, if◌then◌else◌, add16, u16, Bool, true,
  false, Option, none, some, List, [], ◌∷◌, Slice, Result, ok, panic, ◌>>=◌,
}
use riapyx.Cpu.Instruction.{Instruction, SizedInstruction, sized, Prefix}
use riapyx.Cpu.State.{
  Cpu, CpuState, Core, core, ImplicitBOperand, ImplicitWOperand, phys_addr, flag_i, cs_bios_trap1,
  cs_bios_trap2,
}
use riapyx.Cpu.Access.{b_access, w_access, implicit_b_access, implicit_w_access}
use riapyx.Cpu.Parser.{parse_instruction}
use riapyx.Cpu.Parser.Iced.{IcedInstruction}
use riapyx.Cpu.Exec.Stack.{request_interrupt}
use riapyx.Cpu.Exec.NoOperand.{run_noop_ins}
use riapyx.Cpu.Exec.TwoOperands.{run_twop_ins, run_tbop_ins}
use riapyx.Cpu.Exec.Shift.{run_srgop_ins}
use riapyx.Cpu.Exec.Single.{run_sbop_ins, run_swop_ins, handle_prefix}
use riapyx.Cpu.Exec.Strings.{run_imgop_ins, is_rep}
use riapyx.Cpu.Exec.Control.{run_sfcop_ins, run_fcnoop_seg_ins, run_fcnoop_iseg_ins, run_swfcop_ins}
use riapyx.Cpu.Branch.{run_sbiop_ins}
use riapyx.Hw.Devices.{Hw}
use riapyx.Mem.{Memory, slice_from}

-- `F` is the type of the disk images, and `B` that of the BIOS's own state.
pub record System (F B : Type 0) : Type 0 where
  pub cpu : Cpu
  pub mem : Memory
  pub hw : Hw F
  pub bios : B

abbrev pub system : {F B : Type 0} → Core → Hw F → B → System F B
system s hw bios = record { cpu = s.cpu; mem = s.mem; hw = hw; bios = bios }

-- An instruction that leaves the hardware alone.
abbrev keep_hw : {F : Type 0} → Hw F → Result Core → Result (Core × Hw F)
keep_hw hw r = r >>= λ s. ok (s, hw)

-- The `match instruction.instruction` of `step`.
unfoldable pub execute : {F : Type 0} → Instruction → Core → Hw F → Result (Core × Hw F)
execute (Instruction.no_operand op) s hw = keep_hw hw (run_noop_ins op s)
execute (Instruction.implicit_b_operand op) s hw =
    keep_hw hw (run_imgop_ins op ImplicitBOperand.dssi ImplicitBOperand.esdi s)
execute (Instruction.implicit_w_operand op) s hw =
    keep_hw hw (run_imgop_ins op ImplicitWOperand.dssi ImplicitWOperand.esdi s)
execute (Instruction.two_w_operands op a b) s hw = keep_hw hw (run_twop_ins op a b s)
execute (Instruction.two_b_operands op a b) s hw = keep_hw hw (run_tbop_ins op a b s)
execute (Instruction.single_b_operand op a) s hw = keep_hw hw (run_sbop_ins op a s)
execute (Instruction.single_w_operand op a) s hw = keep_hw hw (run_swop_ins op a s)
execute (Instruction.single_b_imm_operand op a) s hw = run_sbiop_ins op a s hw
execute (Instruction.single_fc_operand op a) s hw = keep_hw hw (run_sfcop_ins op a s)
execute (Instruction.fc_no_operand_seg op) s hw = ok (run_fcnoop_seg_ins op s, hw)
execute (Instruction.fc_no_operand_inter_seg op) s hw = ok (run_fcnoop_iseg_ins op s, hw)
execute (Instruction.shift_rotate_b op cnt a) s hw = keep_hw hw (run_srgop_ins op cnt a s)
execute (Instruction.shift_rotate_w op cnt a) s hw = keep_hw hw (run_srgop_ins op cnt a s)
execute (Instruction.single_w_imm_fc_operand op a) s hw = ok (run_swfcop_ins op a s, hw)
execute (Instruction.prefix _) s hw = panic
execute Instruction.invalid s hw =
    ok (core (let c = s.cpu in record c { state = CpuState.crashed }) s.mem, hw)

-- The oldest pending interrupt is taken if interrupts are enabled.
abbrev pub take_irq : List ℕ → Core → Core
take_irq [] s = s
take_irq (irq ∷ rest) s =
    request_interrupt irq (core (let c = s.cpu in record c { pending_interrupts = rest }) s.mem)

unfoldable pub poll_interrupts : Core → Core
poll_interrupts s =
    if bit_and s.cpu.flags flag_i != 0 then take_irq s.cpu.pending_interrupts s else s

-- The processor clears both prefixes behind every instruction.
abbrev pub clear_prefixes : Cpu → Cpu
clear_prefixes c = record c { segment_override_prefix = none; rep_prefix = none }

abbrev pub advance_ip : ℕ → Cpu → Cpu
advance_ip n c = record c { ip = add16 c.ip (u16 n) }

module _ (iced : Slice → IcedInstruction) where
  -- The next instruction that is no prefix, with the size of the prefixes before it. The source
  -- recurs once for each prefix; where the fuel is spent, its stack would be.
  unfoldable pub next_non_prefix_instruction :
      ℕ → Memory → ℕ → Cpu → Result (SizedInstruction × Cpu)
  next_non_prefix_instruction zero mem ip c = panic
  next_non_prefix_instruction (suc fuel) mem ip c = do
    bytecode ← slice_from mem (phys_addr c.cs ip)
    candidate ← parse_instruction iced bytecode
    elim candidate.instruction [
      | Instruction.prefix p ↦
          next_non_prefix_instruction fuel mem (add16 ip candidate.size) (handle_prefix p c)
          >>= λ (ins, c₁). ok (sized ins.instruction (u16 (candidate.size + ins.size)), c₁)
      | _ ↦ ok (candidate, c)
    ]

  -- The instruction behind the fetch, with the update of IP that a repeated one delays.
  unfoldable pub execute_sized :
      {F : Type 0} → SizedInstruction → Core → Hw F → Result (Core × Hw F)
  execute_sized ins s hw = do
    let delayed = is_rep s.cpu
    let s₁ = if delayed then s else core (advance_ip ins.size s.cpu) s.mem
    (s₂, hw₁) ← execute ins.instruction s₁ hw
    let c₃ = if delayed && not (is_rep s₂.cpu) then advance_ip ins.size s₂.cpu else s₂.cpu
    ok (core (clear_prefixes c₃) s₂.mem, hw₁)

  module _ {F B : Type 0} (cpu_trap : System F B → Result (System F B)) where
    -- CS in a trap segment calls the BIOS.
    abbrev pub enter_bios : System F B → Result (System F B)
    enter_bios sys =
        if sys.cpu.cs == cs_bios_trap1 || sys.cpu.cs == cs_bios_trap2 then cpu_trap sys else ok sys

    unfoldable pub step : ℕ → System F B → Result (System F B)
    unfolding execute_sized
    step fuel sys = do
      let s₁ = poll_interrupts (core sys.cpu sys.mem)
      sys₂ ← enter_bios (system s₁ sys.hw sys.bios)
      (ins, c) ← next_non_prefix_instruction fuel sys₂.mem sys₂.cpu.ip sys₂.cpu
      (s₃, hw₃) ← execute_sized ins (core c sys₂.mem) sys₂.hw
      ok (system s₃ hw₃ sys₂.bios)
