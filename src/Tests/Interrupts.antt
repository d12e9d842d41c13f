-- ===== src/Tests/Interrupts.antt =====
-- Interrupts and steps.
use riapyx.Common.{ℕ, ◌<◌, ◌≡◌, ◌↔◌, refl, ok, IfReturns, [], ◌∷◌}
use riapyx.Cpu.Exec.Stack.{request_interrupt, return_from_interrupt}
use riapyx.Cpu.Exec.Stack.Interrupts.{return_from_interrupt-request_interrupt}
use riapyx.Cpu.Instruction.{Instruction, SizedInstruction, sized, NoOperandOpCode, Prefix}
use riapyx.Cpu.Exec.Single.{handle_prefix}
use riapyx.Mem.{Memory, read_u16, write_u8}
use riapyx.Mem
use riapyx.Cpu.Step.{system, poll_interrupts, step, next_non_prefix_instruction}
use riapyx.Cpu.Step.Fetch.{Fetches, next_non_prefix_instruction_iff}
use riapyx.Cpu.Step.Laws.{
  IsPolled, poll_interrupts_once, poll_interrupts-resumes, HasNoPrefix, step-HasNoPrefix,
}
use riapyx.Tests.Sample.{no_decoder, sample, sample_cpu, sample_hw, sample_cpu-IsCpu}

return_from_interrupt-request_interrupt_example :
    return_from_interrupt (request_interrupt 0x21 sample).mem (request_interrupt 0x21 sample).cpu
    ≡ sample_cpu
return_from_interrupt-request_interrupt_example =
    return_from_interrupt-request_interrupt sample 0x21 sample_cpu-IsCpu

poll_interrupts_once_example :
    IsPolled sample (8 ∷ 12 ∷ []) (poll_interrupts sample)
    × (poll_interrupts (poll_interrupts sample) ≡ poll_interrupts sample)
poll_interrupts_once_example = poll_interrupts_once sample

poll_interrupts-resumes_example :
    let t = poll_interrupts sample in
    (t.cpu.ip ≡ read_u16 t.mem 32)
    × (t.cpu.cs ≡ read_u16 t.mem 34)
    × (return_from_interrupt t.mem t.cpu ≡ record sample_cpu { pending_interrupts = 12 ∷ [] })
poll_interrupts-resumes_example =
    poll_interrupts-resumes sample 8 (12 ∷ []) sample_cpu-IsCpu refl refl

step-HasNoPrefix_example :
    IfReturns (λ t. HasNoPrefix t.cpu) (step no_decoder ok 8 (system sample sample_hw tt))
step-HasNoPrefix_example = step-HasNoPrefix no_decoder ok 8 (system sample sample_hw tt)

-- `REP HLT` at CS:IP.
abbrev rep_hlt : Memory
rep_hlt = write_u8 (write_u8 Mem.new 0x800 0xf3) 0x801 0xf4

abbrev hlt_ins : SizedInstruction
hlt_ins = sized (Instruction.no_operand NoOperandOpCode.hlt) 2

next_non_prefix_instruction_iff_example :
    (next_non_prefix_instruction no_decoder 8 rep_hlt 0x100 sample_cpu
      ≡ ok (hlt_ins, handle_prefix Prefix.rep sample_cpu))
    ↔ ((n : ℕ) × (n < 8)
        × Fetches no_decoder rep_hlt n 0x100 sample_cpu hlt_ins
            (handle_prefix Prefix.rep sample_cpu))
next_non_prefix_instruction_iff_example =
    next_non_prefix_instruction_iff no_decoder rep_hlt 8 0x100 sample_cpu
      (handle_prefix Prefix.rep sample_cpu) hlt_ins
