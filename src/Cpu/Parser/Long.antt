-- ===== src/Cpu/Parser/Long.antt =====
-- The opcodes that need the second byte: `prefix7_3bit` and `prefix8_3bit`, with
-- the closures that build their instructions, and the register-memory forms.
use riapyx.Common.{
  ℕ, ◌+◌, ◌*◌, ◌/◌, ◌^◌, bit_and, bit_or, u16, List, [], ◌∷◌, Slice, index, select, Result, ok,
  panic, ◌>>=◌,
}
use riapyx.Common.Int.{sign_extend}
use riapyx.Cpu.Instruction.{
  Instruction, SizedInstruction, sized, TwoOperandsOpCode, SingleOperandOpCode,
  SingleOperandFcOpCode, ShiftRotateOpCode, ShiftRotateCount, FlowControlOperand, BOperand,
  WOperand,
}
use riapyx.Cpu.Parser.Operands.{get_breg, get_wreg, get_rm_boperand, get_rm_woperand, apply_swap}
use riapyx.Cpu.Parser.Iced.{invalid_instruction}

-- Both opcode bytes as one number, joined by `+` and by `|`.
unfoldable pub opcode_sum : Slice → Result ℕ
opcode_sum bytes = do b₀ ← index bytes 0; b₁ ← index bytes 1; ok (u16 (u16 (b₀ * 2 ^ 8) + b₁))

unfoldable pub opcode_or : Slice → Result ℕ
opcode_or bytes = do b₀ ← index bytes 0; b₁ ← index bytes 1; ok (bit_or (u16 (b₀ * 2 ^ 8)) b₁)

-- The `match w` on the width bit.
unfoldable pub dispatch_w :
    {A : Type 0}
    → A
    → ℕ
    → (A → Result SizedInstruction)
    → (A → Result SizedInstruction)
    → Result SizedInstruction
dispatch_w opcode w byte word = select w ((0, byte opcode) ∷ (1, word opcode) ∷ []) panic

unfoldable pub two_operands_instruction_reg_rm :
    TwoOperandsOpCode → ℕ → ℕ → Slice → Result SizedInstruction
two_operands_instruction_reg_rm opcode d w bytes = do
  addressing_byte ← index bytes 1
  let reg = bit_and addressing_byte 0b00111000 / 2 ^ 3
  select w
      ((
        0,
        do
          (rm, sz) ← get_rm_boperand bytes
          r ← get_breg reg
          (op₁, op₂) ← apply_swap (BOperand.reg r) rm d
          ok (sized (Instruction.two_b_operands opcode op₁ op₂) (2 + sz)),
      )
        ∷ (
          1,
          do
            (rm, sz) ← get_rm_woperand bytes
            r ← get_wreg reg
            (op₁, op₂) ← apply_swap (WOperand.reg r) rm d
            ok (sized (Instruction.two_w_operands opcode op₁ op₂) (2 + sz)),
        )
        ∷ [])
      panic

module _ (bytes : Slice) where
  -- `stack_ins`
  unfoldable pub stack_ins : SingleOperandOpCode → Result SizedInstruction
  stack_ins opcode = do
    (op, sz) ← get_rm_woperand bytes
    ok (sized (Instruction.single_w_operand opcode op) (2 + sz))

  unfoldable pub fc_ins :
      SingleOperandFcOpCode → (WOperand → FlowControlOperand) → Result SizedInstruction
  fc_ins opcode op_wrap = do
    (op, sz) ← get_rm_woperand bytes
    ok (sized (Instruction.single_fc_operand opcode (op_wrap op)) (2 + sz))

  unfoldable pub tp_ins_imm8ext_rm : TwoOperandsOpCode → Result SizedInstruction
  tp_ins_imm8ext_rm opcode = do
    (op, sz) ← get_rm_woperand bytes
    imm ← index bytes (2 + sz)
    ok (
        sized (Instruction.two_w_operands opcode (WOperand.immediate (sign_extend imm)) op)
          (3 + sz))

  unfoldable pub sr_ins_imm8_rm : ShiftRotateOpCode → Result SizedInstruction
  sr_ins_imm8_rm opcode = do
    (op, sz) ← get_rm_woperand bytes
    imm ← index bytes (2 + sz)
    ok (sized (Instruction.shift_rotate_w opcode (ShiftRotateCount.imm imm) op) (3 + sz))

  abbrev pub prefix8_3bit_arms : List (ℕ × Result SizedInstruction)
  prefix8_3bit_arms =
      (0b1111111100110000, stack_ins SingleOperandOpCode.push)
      ∷ (0b1000111100000000, stack_ins SingleOperandOpCode.pop)
      ∷ (0b1100000100100000, sr_ins_imm8_rm ShiftRotateOpCode.shl)
      ∷ (0b1000001100100000, tp_ins_imm8ext_rm TwoOperandsOpCode.and)
      ∷ (0b1000001100001000, tp_ins_imm8ext_rm TwoOperandsOpCode.or)
      ∷ (0b1000001100110000, tp_ins_imm8ext_rm TwoOperandsOpCode.xor)
      ∷ (0b1111111100010000, fc_ins SingleOperandFcOpCode.call FlowControlOperand.indirect_seg)
      ∷ (
        0b1111111100011000,
        fc_ins SingleOperandFcOpCode.call FlowControlOperand.indirect_inter_seg,
      )
      ∷ (0b1111111100100000, fc_ins SingleOperandFcOpCode.jmp FlowControlOperand.indirect_seg)
      ∷ (0b1111111100101000, fc_ins SingleOperandFcOpCode.jmp FlowControlOperand.indirect_inter_seg)
      ∷ []

  unfoldable pub prefix8_3bit : Result SizedInstruction
  unfolding stack_ins fc_ins tp_ins_imm8ext_rm sr_ins_imm8_rm
  prefix8_3bit = do
    both ← opcode_sum bytes
    select (bit_and both 0b1111111100111000) prefix8_3bit_arms (ok invalid_instruction)

  unfoldable pub tp_ins_imm_rm_b : TwoOperandsOpCode → Result SizedInstruction
  tp_ins_imm_rm_b opcode = do
    (op, sz) ← get_rm_boperand bytes
    imm ← index bytes (2 + sz)
    ok (sized (Instruction.two_b_operands opcode (BOperand.immediate imm) op) (3 + sz))

  unfoldable pub tp_ins_imm_rm_w : TwoOperandsOpCode → Result SizedInstruction
  tp_ins_imm_rm_w opcode = do
    (op, sz) ← get_rm_woperand bytes
    hi ← index bytes (2 + sz + 1)
    lo ← index bytes (2 + sz)
    let imm = bit_or (u16 (hi * 2 ^ 8)) lo
    ok (sized (Instruction.two_w_operands opcode (WOperand.immediate imm) op) (4 + sz))

  unfoldable pub sp_ins_rm_b : SingleOperandOpCode → Result SizedInstruction
  sp_ins_rm_b opcode = do
    (op, sz) ← get_rm_boperand bytes
    ok (sized (Instruction.single_b_operand opcode op) (2 + sz))

  unfoldable pub sp_ins_rm_w : SingleOperandOpCode → Result SizedInstruction
  sp_ins_rm_w opcode = do
    (op, sz) ← get_rm_woperand bytes
    ok (sized (Instruction.single_w_operand opcode op) (2 + sz))

  abbrev pub prefix7_3bit_arms : ℕ → List (ℕ × Result SizedInstruction)
  prefix7_3bit_arms w =
      let tp_ins_imm_rm =
        λ (opcode : TwoOperandsOpCode). dispatch_w opcode w tp_ins_imm_rm_b tp_ins_imm_rm_w in
      let sp_ins_rm =
        λ (opcode : SingleOperandOpCode). dispatch_w opcode w sp_ins_rm_b sp_ins_rm_w in
      (0b1100011000000000, tp_ins_imm_rm TwoOperandsOpCode.mov)
      ∷ (0b1111111000000000, sp_ins_rm SingleOperandOpCode.inc)
      ∷ (0b1111111000001000, sp_ins_rm SingleOperandOpCode.dec)
      ∷ (0b1111011000011000, sp_ins_rm SingleOperandOpCode.neg)
      ∷ (0b1111011000100000, sp_ins_rm SingleOperandOpCode.mul)
      ∷ (0b1111011000101000, sp_ins_rm SingleOperandOpCode.imul)
      ∷ (0b1111011000110000, sp_ins_rm SingleOperandOpCode.div)
      ∷ (0b1111011000111000, sp_ins_rm SingleOperandOpCode.idiv)
      ∷ (0b1111011000010000, sp_ins_rm SingleOperandOpCode.not)
      ∷ (0b1000000000100000, tp_ins_imm_rm TwoOperandsOpCode.and)
      ∷ (0b1111011000000000, tp_ins_imm_rm TwoOperandsOpCode.test)
      ∷ (0b1000000000001000, tp_ins_imm_rm TwoOperandsOpCode.or)
      ∷ (0b1000000000110000, tp_ins_imm_rm TwoOperandsOpCode.xor)
      ∷ []

  unfoldable pub prefix7_3bit : Result SizedInstruction
  unfolding tp_ins_imm_rm_b tp_ins_imm_rm_w sp_ins_rm_b sp_ins_rm_w
  prefix7_3bit = do
    both ← opcode_or bytes
    b₀ ← index bytes 0
    let w = bit_and b₀ 0b1
    select (bit_and 0b1111111000111000 both) (prefix7_3bit_arms w) prefix8_3bit
