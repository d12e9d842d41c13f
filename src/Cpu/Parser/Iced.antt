-- ===== src/Cpu/Parser/Iced.antt =====
-- `decode_with_iced`. The crate's decoder is a parameter: what it says of an instruction, as far
-- as the program asks.
use riapyx.Common.{ℕ, u16, Result, ok, panic}
use riapyx.Cpu.Instruction.{
  Instruction, SizedInstruction, sized, SingleOperandOpCode, BOperand, NoOperandOpCode,
  SingleOperandFcOpCode, FlowControlOperand,
}

pub data IcedCode : Type 0 where
  aad_imm8 aam_imm8 fninit fnstcw_m2byte other : IcedCode

pub data IcedOpKind : Type 0 where
  immediate8 memory other : IcedOpKind

pub record IcedInstruction : Type 0 where
  pub code : IcedCode
  pub op0_kind : IcedOpKind
  pub immediate8 : ℕ
  pub memory_displacement64 : ℕ
  pub len : ℕ

-- The instruction that the program does not know.
unfoldable pub invalid_instruction : SizedInstruction
invalid_instruction = sized Instruction.invalid 0

abbrev pub by_code : IcedCode → IcedOpKind → IcedInstruction → Result SizedInstruction
by_code IcedCode.aad_imm8 IcedOpKind.immediate8 i = ok (
    sized (Instruction.single_b_operand SingleOperandOpCode.aad (BOperand.immediate i.immediate8))
      (u16 i.len))
by_code IcedCode.aad_imm8 _ i = panic
by_code IcedCode.aam_imm8 IcedOpKind.immediate8 i = ok (
    sized (Instruction.single_b_operand SingleOperandOpCode.aam (BOperand.immediate i.immediate8))
      (u16 i.len))
by_code IcedCode.aam_imm8 _ i = panic
by_code IcedCode.fninit _ i = ok (sized (Instruction.no_operand NoOperandOpCode.fninit) (u16 i.len))
by_code IcedCode.fnstcw_m2byte IcedOpKind.memory i = ok (
    sized
      (Instruction.single_fc_operand SingleOperandFcOpCode.fnstcw
        (FlowControlOperand.direct_seg (u16 i.memory_displacement64)))
      (u16 i.len))
by_code IcedCode.fnstcw_m2byte _ i = panic
by_code IcedCode.other _ i = ok invalid_instruction

unfoldable pub decode_with_iced : IcedInstruction → Result SizedInstruction
unfolding invalid_instruction
decode_with_iced i = by_code i.code i.op0_kind i
