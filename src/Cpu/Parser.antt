-- ===== src/Cpu/Parser.antt =====
-- The decoder (src/cpu/parser.rs). A chain of functions tries the opcode under ever longer masks;
-- what none of them knows goes to the decoder of the crate iced_x86.
pub mod Operands
pub mod Long
pub mod Immediate
pub mod Byte
pub mod Short
pub mod Iced
pub mod Total
use riapyx.Common.{ℕ, Slice, Result, ok, ◌>>=◌}
use riapyx.Cpu.Instruction.{Instruction, SizedInstruction}
use riapyx.Cpu.Parser.Iced.{IcedInstruction, decode_with_iced}
use riapyx.Cpu.Parser.Short.{prefix4bit}

module _ (iced : Slice → IcedInstruction) where
  abbrev pub or_iced : Slice → SizedInstruction → Instruction → Result SizedInstruction
  or_iced bytecode ins Instruction.invalid = decode_with_iced (iced bytecode)
  or_iced bytecode ins _ = ok ins

  unfoldable pub parse_instruction : Slice → Result SizedInstruction
  parse_instruction bytecode = do
    sized_ins ← prefix4bit bytecode
    or_iced bytecode sized_ins sized_ins.instruction
