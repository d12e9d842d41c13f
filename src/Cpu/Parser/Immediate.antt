-- ===== src/Cpu/Parser/Immediate.antt =====
-- `prefix6_3bit` and `prefix7_1_1bit`: immediates, shifts and the segment registers.
use riapyx.Common.{
  ℕ, ◌+◌, ◌/◌, ◌^◌, bit_and, List, [], ◌∷◌, Slice, index, select, Result, ok, panic, ◌>>=◌,
}
use riapyx.Common.Int.{sign_extend}
use riapyx.Cpu.Instruction.{
  Instruction, SizedInstruction, sized, TwoOperandsOpCode, ShiftRotateOpCode, ShiftRotateCount,
  BOperand, WOperand,
}
use riapyx.Cpu.Parser.Operands.{get_segreg, get_u16, get_rm_boperand, get_rm_woperand, apply_swap}
use riapyx.Cpu.Parser.Long.{opcode_sum, opcode_or, dispatch_w, prefix7_3bit}

module _ (bytes : Slice) where
  -- `sv` is the sign bit of the opcode: a word, or a byte with its sign extended.
  unfoldable pub imm_word : ℕ → ℕ → Result (ℕ × ℕ)
  imm_word sv sz =
      select sv
        ((0, (get_u16 (2 + sz) bytes >>= λ imm. ok (imm, 2)))
          ∷ (1, (index bytes (2 + sz) >>= λ imm. ok (sign_extend imm, 1)))
          ∷ [])
        panic

  unfoldable pub tp_imm_rm_w : ℕ → TwoOperandsOpCode → Result SizedInstruction
  unfolding imm_word
  tp_imm_rm_w sv opcode = do
    (op, sz) ← get_rm_woperand bytes
    (imm, immsz) ← imm_word sv sz
    ok (sized (Instruction.two_w_operands opcode (WOperand.immediate imm) op) (2 + sz + immsz))

  unfoldable pub tp_imm_rm_b : TwoOperandsOpCode → Result SizedInstruction
  tp_imm_rm_b opcode = do
    (op, sz) ← get_rm_boperand bytes
    imm ← index bytes (2 + sz)
    ok (sized (Instruction.two_b_operands opcode (BOperand.immediate imm) op) (2 + sz + 1))

  -- `sv` chooses the count, `w` the width.
  unfoldable pub sr_rm : ℕ → ℕ → ShiftRotateOpCode → Result SizedInstruction
  sr_rm sv w opcode = do
    count ← select sv ((0, ok ShiftRotateCount.one) ∷ (1, ok ShiftRotateCount.cl) ∷ []) panic
    select w
        ((
          0,
          (get_rm_boperand bytes >>= λ (op, sz).
              ok (sized (Instruction.shift_rotate_b opcode count op) (2 + sz))),
        )
          ∷ (
            1,
            (get_rm_woperand bytes >>= λ (op, sz).
                ok (sized (Instruction.shift_rotate_w opcode count op) (2 + sz))),
          )
          ∷ [])
        panic

  abbrev pub prefix6_3bit_arms : ℕ → ℕ → List (ℕ × Result SizedInstruction)
  prefix6_3bit_arms w sv =
      let tp_imm_rm =
        λ (opcode : TwoOperandsOpCode). dispatch_w opcode w tp_imm_rm_b (tp_imm_rm_w sv) in
      (0b1000000000000000, tp_imm_rm TwoOperandsOpCode.add)
      ∷ (0b1000000000010000, tp_imm_rm TwoOperandsOpCode.adc)
      ∷ (0b1000000000101000, tp_imm_rm TwoOperandsOpCode.sub)
      ∷ (0b1000000000011000, tp_imm_rm TwoOperandsOpCode.sbb)
      ∷ (0b1000000000111000, tp_imm_rm TwoOperandsOpCode.cmp)
      ∷ (0b1101000000100000, sr_rm sv w ShiftRotateOpCode.shl)
      ∷ (0b1101000000101000, sr_rm sv w ShiftRotateOpCode.shr)
      ∷ (0b1101000000111000, sr_rm sv w ShiftRotateOpCode.sar)
      ∷ (0b1101000000000000, sr_rm sv w ShiftRotateOpCode.rol)
      ∷ (0b1101000000001000, sr_rm sv w ShiftRotateOpCode.ror)
      ∷ (0b1101000000010000, sr_rm sv w ShiftRotateOpCode.rcl)
      ∷ (0b1101000000011000, sr_rm sv w ShiftRotateOpCode.rcr)
      ∷ []

  unfoldable pub prefix6_3bit : Result SizedInstruction
  unfolding tp_imm_rm_w tp_imm_rm_b sr_rm
  prefix6_3bit = do
    both ← opcode_or bytes
    b₀ ← index bytes 0
    let w = bit_and b₀ 0b1
    let sv = bit_and b₀ 0b10 / 2
    select (bit_and 0b1111110000111000 both) (prefix6_3bit_arms w sv) (prefix7_3bit bytes)

  -- `MOV` from and to a segment register.
  unfoldable pub mov_segreg : Result SizedInstruction
  mov_segreg = do
    b₁ ← index bytes 1
    b₀ ← index bytes 0
    let sr = bit_and b₁ 0b00011000 / 2 ^ 3
    let d = bit_and b₀ 0b10 / 2
    (rm_op, rm_sz) ← get_rm_woperand bytes
    seg ← get_segreg sr
    (op₁, op₂) ← apply_swap (WOperand.seg_reg seg) rm_op d
    ok (sized (Instruction.two_w_operands TwoOperandsOpCode.mov op₁ op₂) (rm_sz + 2))

  unfoldable pub prefix7_1_1bit : Result SizedInstruction
  unfolding mov_segreg
  prefix7_1_1bit = do
    both ← opcode_sum bytes
    select (bit_and both 0b1111110100100000) ((0b1000110000000000, mov_segreg) ∷ []) prefix6_3bit
