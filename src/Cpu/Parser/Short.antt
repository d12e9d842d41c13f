-- ===== src/Cpu/Parser/Short.antt =====
-- `prefix4bit`, `prefix5bit`, `prefix6bit` and `prefix3_3_bit`: the shortest masks, tried first.
use riapyx.Common.{
  ℕ, ◌/◌, ◌^◌, bit_and, List, [], ◌∷◌, Slice, index, select, Result, ok, panic, ◌>>=◌,
}
use riapyx.Cpu.Instruction.{
  Instruction, SizedInstruction, sized, TwoOperandsOpCode, SingleOperandOpCode, Prefix, BReg, WReg,
  BOperand, WOperand,
}
use riapyx.Cpu.Parser.Operands.{get_breg, get_wreg, get_segreg, word_at, apply_swap}
use riapyx.Cpu.Parser.Long.{two_operands_instruction_reg_rm}
use riapyx.Cpu.Parser.Byte.{prefix7bit}

module _ (bytes : Slice) where
  -- `PUSH` and `POP` of a segment register, and the segment prefixes.
  unfoldable pub segreg_ins : SingleOperandOpCode → ℕ → Result SizedInstruction
  segreg_ins opcode sreg = do
    sr ← get_segreg sreg
    ok (sized (Instruction.single_w_operand opcode (WOperand.seg_reg sr)) 1)

  abbrev pub prefix3_3_bit_arms : ℕ → List (ℕ × Result SizedInstruction)
  prefix3_3_bit_arms sreg =
      (0b00000111, segreg_ins SingleOperandOpCode.pop sreg)
      ∷ (0b00000110, segreg_ins SingleOperandOpCode.push sreg)
      ∷ (
        0b00100110,
        (get_segreg sreg >>= λ sr. ok (sized (Instruction.prefix (Prefix.segment sr)) 1)),
      )
      ∷ []

  unfoldable pub prefix3_3_bit : Result SizedInstruction
  unfolding segreg_ins
  prefix3_3_bit = do
    b₀ ← index bytes 0
    let sreg = bit_and b₀ 0b00011000 / 2 ^ 3
    select (bit_and b₀ 0b11100111) (prefix3_3_bit_arms sreg) (prefix7bit bytes)

  -- `MOV` between the accumulator and an address.
  unfoldable pub mov_acc : ℕ → ℕ → Result SizedInstruction
  mov_acc d w = do
    addr ← word_at 1 bytes
    ins ←
        select w
          ((
            0,
            (apply_swap (BOperand.direct addr) (BOperand.reg BReg.al) d >>= λ (op₁, op₂).
                ok (Instruction.two_b_operands TwoOperandsOpCode.mov op₁ op₂)),
          )
            ∷ (
              1,
              (apply_swap (WOperand.direct addr) (WOperand.reg WReg.ax) d >>= λ (op₁, op₂).
                  ok (Instruction.two_w_operands TwoOperandsOpCode.mov op₁ op₂)),
            )
            ∷ [])
          panic
    ok (sized ins 3)

  abbrev pub prefix6bit_arms : ℕ → ℕ → List (ℕ × Result SizedInstruction)
  prefix6bit_arms d w =
      let usual_instruction =
        λ (opcode : TwoOperandsOpCode). two_operands_instruction_reg_rm opcode d w bytes in
      (0b101000, mov_acc d w)
      ∷ (0b100010, usual_instruction TwoOperandsOpCode.mov)
      ∷ (0b000000, usual_instruction TwoOperandsOpCode.add)
      ∷ (0b000100, usual_instruction TwoOperandsOpCode.adc)
      ∷ (0b001010, usual_instruction TwoOperandsOpCode.sub)
      ∷ (0b000110, usual_instruction TwoOperandsOpCode.sbb)
      ∷ (0b001110, usual_instruction TwoOperandsOpCode.cmp)
      ∷ (0b001000, usual_instruction TwoOperandsOpCode.and)
      ∷ (0b000010, usual_instruction TwoOperandsOpCode.or)
      ∷ (0b001100, usual_instruction TwoOperandsOpCode.xor)
      ∷ []

  unfoldable pub prefix6bit : Result SizedInstruction
  unfolding mov_acc
  prefix6bit = do
    b₀ ← index bytes 0
    let d = bit_and b₀ 0b00000010 / 2
    let w = bit_and b₀ 0b00000001
    select (b₀ / 2 ^ 2) (prefix6bit_arms d w) prefix3_3_bit

  unfoldable pub make_reg_instruction : SingleOperandOpCode → WReg → Result SizedInstruction
  make_reg_instruction op register =
      ok (sized (Instruction.single_w_operand op (WOperand.reg register)) 1)

  abbrev pub prefix5bit_arms : WReg → List (ℕ × Result SizedInstruction)
  prefix5bit_arms register =
      (0b01010, make_reg_instruction SingleOperandOpCode.push register)
      ∷ (0b01011, make_reg_instruction SingleOperandOpCode.pop register)
      ∷ (0b01000, make_reg_instruction SingleOperandOpCode.inc register)
      ∷ (0b01001, make_reg_instruction SingleOperandOpCode.dec register)
      ∷ (
        0b10010,
        ok (
            sized
              (Instruction.two_w_operands TwoOperandsOpCode.xchg (WOperand.reg WReg.ax)
                (WOperand.reg register))
              1),
      )
      ∷ []

  unfoldable pub prefix5bit : Result SizedInstruction
  unfolding make_reg_instruction
  prefix5bit = do
    b₀ ← index bytes 0
    register ← get_wreg (bit_and b₀ 0b00000111)
    select (b₀ / 2 ^ 3) (prefix5bit_arms register) prefix6bit

  unfoldable pub make_imm_reg_instruction : TwoOperandsOpCode → Result SizedInstruction
  make_imm_reg_instruction opcode = do
    opcode_byte ← index bytes 0
    let w = bit_and opcode_byte 0b00001000 / 2 ^ 3
    select w
        ((
          0,
          do
            register ← get_breg (bit_and opcode_byte 0b111)
            imm ← index bytes 1
            ok (
                sized
                  (Instruction.two_b_operands opcode (BOperand.immediate imm)
                    (BOperand.reg register))
                  2),
        )
          ∷ (
            1,
            do
              register ← get_wreg (bit_and opcode_byte 0b111)
              imm ← word_at 1 bytes
              ok (
                  sized
                    (Instruction.two_w_operands opcode (WOperand.immediate imm)
                      (WOperand.reg register))
                    3),
          )
          ∷ [])
        panic

  unfoldable pub prefix4bit : Result SizedInstruction
  unfolding make_imm_reg_instruction
  prefix4bit = do
    b₀ ← index bytes 0
    select (b₀ / 2 ^ 4) ((0b1011, make_imm_reg_instruction TwoOperandsOpCode.mov) ∷ []) prefix5bit
