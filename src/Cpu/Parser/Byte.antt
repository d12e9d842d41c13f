-- ===== src/Cpu/Parser/Byte.antt =====
-- `prefix_8bit` and `prefix7bit`: the opcodes that the first byte settles.
use riapyx.Common.{ℕ, ◌/◌, bit_and, List, [], ◌∷◌, Slice, index, select, Result, ok, panic, ◌>>=◌}
use riapyx.Cpu.Instruction.{
  Instruction, SizedInstruction, sized, NoOperandOpCode, ImplicitOperandOpCode, TwoOperandsOpCode,
  SingleOperandFcOpCode, SingleBImmOperandOpCode, NoOpFcOpCode, SingleWImmFcOpCode,
  SingleWImmFcOperand, FlowControlOperand, Prefix, BReg, WReg, BOperand, WOperand,
}
use riapyx.Cpu.Parser.Operands.{word_at}
use riapyx.Cpu.Parser.Long.{two_operands_instruction_reg_rm}
use riapyx.Cpu.Parser.Immediate.{prefix7_1_1bit}

module _ (bytes : Slice) where
  unfoldable pub no_op_ins : NoOperandOpCode → Result SizedInstruction
  no_op_ins opcode = ok (sized (Instruction.no_operand opcode) 1)

  unfoldable pub jump_ins : SingleBImmOperandOpCode → Result SizedInstruction
  jump_ins opcode = do b₁ ← index bytes 1; ok (sized (Instruction.single_b_imm_operand opcode b₁) 2)

  unfoldable pub iov_ins : SingleBImmOperandOpCode → Result SizedInstruction
  iov_ins opcode = ok (sized (Instruction.single_b_imm_operand opcode 0x42) 1)

  unfoldable pub direct_intraseg_fc_ins : SingleOperandFcOpCode → Result SizedInstruction
  direct_intraseg_fc_ins opcode = do
    inc ← word_at 1 bytes
    ok (sized (Instruction.single_fc_operand opcode (FlowControlOperand.direct_seg inc)) 3)

  unfoldable pub direct_interseg_fc_ins : SingleOperandFcOpCode → Result SizedInstruction
  direct_interseg_fc_ins opcode = do
    cs ← word_at 3 bytes
    ip ← word_at 1 bytes
    ok (sized (Instruction.single_fc_operand opcode (FlowControlOperand.direct_inter_seg cs ip)) 5)

  unfoldable pub prefix_ins : Prefix → Result SizedInstruction
  prefix_ins p = ok (sized (Instruction.prefix p) 1)

  unfoldable pub ret_and_add : (ℕ → SingleWImmFcOperand) → Result SizedInstruction
  ret_and_add operand = do
    to_add ← word_at 1 bytes
    ok (
        sized
          (Instruction.single_w_imm_fc_operand SingleWImmFcOpCode.ret_and_add_to_sp
            (operand to_add))
          3)

  abbrev pub prefix_8bit_arms : List (ℕ × Result SizedInstruction)
  prefix_8bit_arms =
      (0b11010111, no_op_ins NoOperandOpCode.xlat)
      ∷ (0b10001101, two_operands_instruction_reg_rm TwoOperandsOpCode.lea 1 1 bytes)
      ∷ (0b11000101, two_operands_instruction_reg_rm TwoOperandsOpCode.lds 1 1 bytes)
      ∷ (0b11000100, two_operands_instruction_reg_rm TwoOperandsOpCode.les 1 1 bytes)
      ∷ (0b10011111, no_op_ins NoOperandOpCode.lahf)
      ∷ (0b10011110, no_op_ins NoOperandOpCode.sahf)
      ∷ (0b10011100, no_op_ins NoOperandOpCode.pushf)
      ∷ (0b10011101, no_op_ins NoOperandOpCode.popf)
      ∷ (0b00110111, no_op_ins NoOperandOpCode.aaa)
      ∷ (0b00100111, no_op_ins NoOperandOpCode.daa)
      ∷ (0b00111111, no_op_ins NoOperandOpCode.aas)
      ∷ (0b00101111, no_op_ins NoOperandOpCode.das)
      ∷ (0b10011000, no_op_ins NoOperandOpCode.cbw)
      ∷ (0b10011001, no_op_ins NoOperandOpCode.cwd)
      ∷ (0b11101000, direct_intraseg_fc_ins SingleOperandFcOpCode.call)
      ∷ (0b10011010, direct_interseg_fc_ins SingleOperandFcOpCode.call)
      ∷ (0b11101001, direct_intraseg_fc_ins SingleOperandFcOpCode.jmp)
      ∷ (0b11101011, jump_ins SingleBImmOperandOpCode.jmps)
      ∷ (0b11101010, direct_interseg_fc_ins SingleOperandFcOpCode.jmp)
      ∷ (0b11000011, ok (sized (Instruction.fc_no_operand_seg NoOpFcOpCode.ret) 1))
      ∷ (0b11000010, ret_and_add SingleWImmFcOperand.seg)
      ∷ (0b11001011, ok (sized (Instruction.fc_no_operand_inter_seg NoOpFcOpCode.ret) 1))
      ∷ (0b11001010, ret_and_add SingleWImmFcOperand.inter_seg)
      ∷ (0b01110100, jump_ins SingleBImmOperandOpCode.je)
      ∷ (0b01111100, jump_ins SingleBImmOperandOpCode.jl)
      ∷ (0b01111110, jump_ins SingleBImmOperandOpCode.jle)
      ∷ (0b01110010, jump_ins SingleBImmOperandOpCode.jb)
      ∷ (0b01110110, jump_ins SingleBImmOperandOpCode.jbe)
      ∷ (0b01111010, jump_ins SingleBImmOperandOpCode.jp)
      ∷ (0b01110000, jump_ins SingleBImmOperandOpCode.jo)
      ∷ (0b01111000, jump_ins SingleBImmOperandOpCode.js)
      ∷ (0b01110101, jump_ins SingleBImmOperandOpCode.jne)
      ∷ (0b01111101, jump_ins SingleBImmOperandOpCode.jnl)
      ∷ (0b01111111, jump_ins SingleBImmOperandOpCode.jnle)
      ∷ (0b01110011, jump_ins SingleBImmOperandOpCode.jnb)
      ∷ (0b01110111, jump_ins SingleBImmOperandOpCode.jnbe)
      ∷ (0b01111011, jump_ins SingleBImmOperandOpCode.jnp)
      ∷ (0b01110001, jump_ins SingleBImmOperandOpCode.jno)
      ∷ (0b01111001, jump_ins SingleBImmOperandOpCode.jns)
      ∷ (0b11100010, jump_ins SingleBImmOperandOpCode.loop)
      ∷ (0b11100001, jump_ins SingleBImmOperandOpCode.loopz)
      ∷ (0b11100000, jump_ins SingleBImmOperandOpCode.loopnz)
      ∷ (0b11100011, jump_ins SingleBImmOperandOpCode.jcxz)
      ∷ (0b11001101, jump_ins SingleBImmOperandOpCode.int)
      ∷ (0b11100100, jump_ins SingleBImmOperandOpCode.inb)
      ∷ (0b11100101, jump_ins SingleBImmOperandOpCode.inw)
      ∷ (0b11100110, jump_ins SingleBImmOperandOpCode.outb)
      ∷ (0b11100111, jump_ins SingleBImmOperandOpCode.outw)
      ∷ (0b11101100, iov_ins SingleBImmOperandOpCode.invb)
      ∷ (0b11101101, iov_ins SingleBImmOperandOpCode.invw)
      ∷ (0b11101110, iov_ins SingleBImmOperandOpCode.outvb)
      ∷ (0b11101111, iov_ins SingleBImmOperandOpCode.outvw)
      ∷ (0b11001110, no_op_ins NoOperandOpCode.into)
      ∷ (0b11001111, no_op_ins NoOperandOpCode.iret)
      ∷ (0b11111000, no_op_ins NoOperandOpCode.clc)
      ∷ (0b11110101, no_op_ins NoOperandOpCode.cmc)
      ∷ (0b11111001, no_op_ins NoOperandOpCode.stc)
      ∷ (0b11111100, no_op_ins NoOperandOpCode.cld)
      ∷ (0b11111101, no_op_ins NoOperandOpCode.std)
      ∷ (0b11111010, no_op_ins NoOperandOpCode.cli)
      ∷ (0b11111011, no_op_ins NoOperandOpCode.sti)
      ∷ (0b11110100, no_op_ins NoOperandOpCode.hlt)
      ∷ (0b10011011, no_op_ins NoOperandOpCode.wait)
      ∷ (0b11110010, prefix_ins Prefix.repne)
      ∷ (0b11110011, prefix_ins Prefix.rep)
      ∷ (0b11110000, prefix_ins Prefix.lock)
      ∷ (
        0b11001100,
        ok (sized (Instruction.single_b_imm_operand SingleBImmOperandOpCode.int 0x3) 1),
      )
      ∷ []

  unfoldable pub prefix_8bit : Result SizedInstruction
  unfolding no_op_ins jump_ins iov_ins direct_intraseg_fc_ins direct_interseg_fc_ins prefix_ins
      ret_and_add
  prefix_8bit = do b₀ ← index bytes 0; select b₀ prefix_8bit_arms (prefix7_1_1bit bytes)

  -- An immediate and the accumulator.
  unfoldable pub two_op_ins_with_acc : TwoOperandsOpCode → ℕ → Result SizedInstruction
  two_op_ins_with_acc opcode w =
      select w
        ((
          0,
          (index bytes 1 >>= λ imm. ok (
              sized
                (Instruction.two_b_operands opcode (BOperand.immediate imm) (BOperand.reg BReg.al))
                2)),
        )
          ∷ (
            1,
            (word_at 1 bytes >>= λ imm. ok (
                sized
                  (Instruction.two_w_operands opcode (WOperand.immediate imm)
                    (WOperand.reg WReg.ax))
                  3)),
          )
          ∷ [])
        panic

  unfoldable pub string_ins : ImplicitOperandOpCode → ℕ → Result SizedInstruction
  string_ins opcode w =
      select w
        ((0, ok (sized (Instruction.implicit_b_operand opcode) 1))
          ∷ (1, ok (sized (Instruction.implicit_w_operand opcode) 1))
          ∷ [])
        panic

  abbrev pub prefix7bit_arms : ℕ → List (ℕ × Result SizedInstruction)
  prefix7bit_arms w =
      (0b1000011, two_operands_instruction_reg_rm TwoOperandsOpCode.xchg 0 w bytes)
      ∷ (0b0000010, two_op_ins_with_acc TwoOperandsOpCode.add w)
      ∷ (0b0001010, two_op_ins_with_acc TwoOperandsOpCode.adc w)
      ∷ (0b0010110, two_op_ins_with_acc TwoOperandsOpCode.sub w)
      ∷ (0b0001110, two_op_ins_with_acc TwoOperandsOpCode.sbb w)
      ∷ (0b0010010, two_op_ins_with_acc TwoOperandsOpCode.and w)
      ∷ (0b1010100, two_op_ins_with_acc TwoOperandsOpCode.test w)
      ∷ (0b1000010, two_operands_instruction_reg_rm TwoOperandsOpCode.test 0 w bytes)
      ∷ (0b0000110, two_op_ins_with_acc TwoOperandsOpCode.or w)
      ∷ (0b0011010, two_op_ins_with_acc TwoOperandsOpCode.xor w)
      ∷ (0b0011110, two_op_ins_with_acc TwoOperandsOpCode.cmp w)
      ∷ (0b1010010, string_ins ImplicitOperandOpCode.movs w)
      ∷ (0b1010011, string_ins ImplicitOperandOpCode.cmps w)
      ∷ (0b1010111, string_ins ImplicitOperandOpCode.scas w)
      ∷ (0b1010110, string_ins ImplicitOperandOpCode.lods w)
      ∷ (0b1010101, string_ins ImplicitOperandOpCode.stos w)
      ∷ []

  unfoldable pub prefix7bit : Result SizedInstruction
  unfolding two_op_ins_with_acc string_ins
  prefix7bit = do
    b₀ ← index bytes 0
    let w = bit_and b₀ 0b1
    select (b₀ / 2) (prefix7bit_arms w) prefix_8bit
